-- ===== src/Robims/Bsi/Options/Codes.antt =====
-- What the local codes of BitSliceIndexCreateOptions guarantee.
use myctk.Base.{
  ℕ, zero, suc, ◌+◌, ◌-◌, ◌^◌, ◌%◌, ◌<◌, ◌≤◌, ◌≡◌, ◌≢◌, ◌↔◌, true, false, ltb, if◌then◌else◌, arith,
  Bool-cases, inl, inr,
}
use native.Mathlib.Decide.{ℕ_discrete}
use myctk.Base.Int.{ℤ, pos, pos_part, neg_part, sub_ℕ, ◌≤ℤ◌}
use myctk.Robims.Bsi.Options.{
  CreateOptions, float_to_uint32, uint32_to_float, to_local_val_int, get_actual_int_val, depth_loop,
  bit_depth_of, distance,
}

-- a NaN has an exponent of ones and a fraction that is not zero
abbrev pub IsNumber : ℕ → Type 0
IsNumber w = (w < 2 ^ 32) × (w % 2 ^ 31 ≤ 0x7f80_0000)

-- the order of floats: sign and magnitude
abbrev pub rank : ℕ → ℤ
rank w = if ltb w (2 ^ 31) then pos w else sub_ℕ 0 (w - 2 ^ 31)

-- Decoding the code of a float that is no NaN and not -0 gives the float back.
pub uint32_to_float-float_to_uint32 :
    (w : ℕ) → IsNumber w → w ≢ 2 ^ 31 → uint32_to_float (float_to_uint32 w) ≡ w
unfolding uint32_to_float float_to_uint32
uint32_to_float-float_to_uint32 w h n = ground arith

-- The codes of two floats, neither a NaN, stand in the order of the floats; -0 and 0 share one.
pub float_to_uint32-le_iff :
    (v w : ℕ)
    → IsNumber v
    → IsNumber w
    → (float_to_uint32 v ≤ float_to_uint32 w) ↔ (rank v ≤ℤ rank w)
unfolding float_to_uint32
float_to_uint32-le_iff v w hv hw = ground arith

-- For an int v at least the minimum of the options, with their distance below 2 ^ 63, the local
-- value of v is that distance, and decodes to v.
pub get_actual-to_local :
    (o : CreateOptions) (v : ℤ)
    → o.min_int ≤ℤ v
    → pos_part v + neg_part o.min_int < 2 ^ 63 + pos_part o.min_int + neg_part v
    → (to_local_val_int o v + pos_part o.min_int + neg_part v ≡ pos_part v + neg_part o.min_int)
      × (get_actual_int_val o (to_local_val_int o v) ≡ v)
unfolding to_local_val_int get_actual_int_val
get_actual-to_local o v h l = ground arith

depth_loop_hit : (rounds i d : ℕ) → ltb d (2 ^ i) ≡ true → depth_loop (suc rounds) i d ≡ i
unfolding depth_loop
depth_loop_hit rounds i d h = rw h

depth_loop_miss :
    (rounds i d : ℕ)
    → ltb d (2 ^ i) ≡ false
    → depth_loop (suc rounds) i d ≡ depth_loop rounds (suc i) d
unfolding depth_loop
depth_loop_miss rounds i d h = rw h

depth_loop_bounds :
    (rounds i d : ℕ)
    → d < 2 ^ (i + rounds)
    → (d < 2 ^ depth_loop (suc rounds) i d)
      × ((j : ℕ) → i ≤ j → j < depth_loop (suc rounds) i d → 2 ^ j ≤ d)
depth_loop_bounds zero i d h =
    let e : i + 0 ≡ i = omega arith in
    let below : d < 2 ^ i = rw e at h in
    rw (depth_loop_hit 0 i d (ground arith)) (below, λ j p q. absurd (omega arith))
depth_loop_bounds (suc rounds) i d h = elim (Bool-cases (ltb d (2 ^ i))) [
  | inl hit ↦ rw (depth_loop_hit (suc rounds) i d hit) (ground arith, λ j p q. absurd (omega arith))
  | inr miss ↦
      let e : i + suc rounds ≡ suc i + rounds = omega arith in
      let (fits, least) = depth_loop_bounds rounds (suc i) d (rw e at h) in
      rw (depth_loop_miss (suc rounds) i d miss) (
        fits,
        λ j p q. elim (ℕ_discrete j i) [
          | yes same ↦ rw same (ground arith)
          | no other ↦ least j (omega arith) q
        ],
      )
]

-- For a distance below 2 ^ 63, DoInit picks the smallest bit depth that holds it: every local value
-- up to the distance is below 2 ^ depth, and no smaller depth does.
pub bit_depth-least :
    (o : CreateOptions)
    → distance o < 2 ^ 63
    → (distance o < 2 ^ bit_depth_of o) × ((j : ℕ) → j < bit_depth_of o → 2 ^ j ≤ distance o)
unfolding bit_depth_of
bit_depth-least o h =
    let (fits, least) = depth_loop_bounds 63 0 (distance o) h in
    (fits, λ j q. least j (omega arith) q)
