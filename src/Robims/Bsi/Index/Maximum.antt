-- ===== src/Robims/Bsi/Index/Maximum.antt =====
-- DoGetMax (robims/robims_bsi.cpp) against the values of the ids.
use myctk.Base.{
  ℕ, zero, suc, ◌+◌, ◌^◌, ◌%◌, ◌<◌, ◌≤◌, ◌≡◌, refl, sym, ap, ◌∙◌, true, ◌&&◌, List, [], ◌∷◌, length,
  elem, ◌==◌, ==_refl, arith, inl, inr, ◌⊎◌,
}
use native.Mathlib.Decide.{dec_lt}
use native.Mathlib.Nat.{pow-le-pow_right}
use myctk.Base.Bits.{low, low-zero, low-suc, low-lt, pow_two-suc, pow_two-pos}
use myctk.Robims.Bitmap.{RoaringBitmap}
use myctk.Robims.Bsi.Range.{restrict}
use myctk.Robims.Bsi.Index.{BitSliceIndex, exist, row, shl_int, Max, max_step, max_loop, do_get_max}
use myctk.Robims.Bsi.Index.PutGet.{value}

pub shl_int-lt : (i : ℕ) → i < 31 → shl_int i ≡ 2 ^ i
unfolding shl_int
shl_int-lt i h = let e : i % 32 ≡ i = omega arith in rw e (ground arith)

pub pow_le : (i n : ℕ) → i ≤ n → 2 ^ i ≤ 2 ^ n
pow_le i n h = pow-le-pow_right (omega arith) h

module _ (roaring : RoaringBitmap) where
  open roaring use {
    Bitmap, contains, bitmap_and, bitmap_andnot, cardinality, to_uint32_array, contains-and,
    contains-andnot, cardinality_zero, cardinality_ext, elem-to_uint32_array,
    length-to_uint32_array,
  }

  first_id :
      (b : Bitmap) (ids : List ℕ)
      → to_uint32_array b ≡ ids
      → 0 < length ids
      → (x : ℕ) × (contains b x ≡ true)
  first_id b [] e h = absurd (omega arith)
  first_id b (x ∷ ids) e h =
      (x, sym (elem-to_uint32_array b x) ∙ ap (elem x) e ∙ ground (arith, ==_refl x))

  -- a bitmap that counts some id has one
  pub some_id : (b : Bitmap) → 0 < cardinality b → (x : ℕ) × (contains b x ≡ true)
  some_id b h = first_id b (to_uint32_array b) refl (omega (arith, length-to_uint32_array b))

  pub cardinality_pos : (b : Bitmap) (x : ℕ) → contains b x ≡ true → 0 < cardinality b
  cardinality_pos b x h = elim (dec_lt 0 (cardinality b)) [
    | yes p ↦ p
    | no p ↦ cc ((cardinality_zero b).0 (omega arith) x)
  ]

  -- a round of DoGetMax: it keeps the ids with the bit, if there are any
  max_step_cases :
      (r : Bitmap) (i : ℕ) (s : Max roaring)
      → i < 31
      → s.max_val + 2 ^ suc i ≤ 2 ^ 64
      → let t = max_step roaring r i s in
        ((0 < cardinality (bitmap_and s.filter r))
          × (t.max_val ≡ s.max_val + 2 ^ i)
          × (t.filter ≡ bitmap_and s.filter r))
        ⊎ ((cardinality (bitmap_and s.filter r) ≡ 0)
            × (t.max_val ≡ s.max_val)
            × (t.filter ≡ s.filter))
  unfolding max_step
  max_step_cases r i s h fits = ground (arith, shl_int-lt i h, pow_two-suc i, pow_two-pos i)

  module _ (rows : ℕ → Bitmap) where
    abbrev lows : ℕ → ℕ → ℕ
    lows x i = low (λ j. contains (rows j) x) i

    record MaxAt (s t : Max roaring) (i x : ℕ) : Type 0 where
      grows : s.max_val ≤ t.max_val
      kept : contains t.filter x ≡ (contains s.filter x && (s.max_val + lows x i) == t.max_val)
      bounds : contains s.filter x ≡ true → s.max_val + lows x i ≤ t.max_val

    max_loop-MaxAt :
        (i x : ℕ) (s : Max roaring)
        → i ≤ 31
        → s.max_val + 2 ^ i ≤ 2 ^ 64
        → MaxAt s (max_loop roaring rows i s) i x
    unfolding max_loop
    max_loop-MaxAt zero x s h fits = ground (arith, low-zero (λ j. contains (rows j) x))
    max_loop-MaxAt (suc i) x s h fits =
        let t = max_step roaring (rows i) i s in
        let none_there = λ (e : cardinality (bitmap_and s.filter (rows i)) ≡ 0).
          (cardinality_zero (bitmap_and s.filter (rows i))).0 e x in
        elim (max_step_cases (rows i) i s (omega arith) fits) [
          | inl (some_there, value, kept) ↦
              let room : t.max_val + 2 ^ i ≤ 2 ^ 64 = omega (arith, pow_two-suc i) in
              ground (
                arith,
                max_loop-MaxAt i x t (omega arith) room,
                value,
                ap (λ b. contains b x) kept,
                contains-and s.filter (rows i) x,
                low-suc (λ j. contains (rows j) x) i,
                low-lt (λ j. contains (rows j) x) i,
              )
          | inr (nobody, value, kept) ↦
              let room : t.max_val + 2 ^ i ≤ 2 ^ 64 = omega (arith, pow_two-suc i) in
              ground (
                arith,
                max_loop-MaxAt i x t (omega arith) room,
                value,
                ap (λ b. contains b x) kept,
                contains-and s.filter (rows i) x,
                none_there nobody,
                low-suc (λ j. contains (rows j) x) i,
              )
        ]

    max_loop-nonempty :
        (i : ℕ) (s : Max roaring)
        → 0 < cardinality s.filter
        → 0 < cardinality (max_loop roaring rows i s).filter
    unfolding max_loop max_step
    max_loop-nonempty zero s h = h
    max_loop-nonempty (suc i) s h =
        max_loop-nonempty i (max_step roaring (rows i) i s) (ground arith)

    max_loop-count :
        (i : ℕ) (s : Max roaring)
        → s.last_non_zero ≡ cardinality s.filter
        → (max_loop roaring rows (suc i) s).count
          ≡ cardinality (max_loop roaring rows (suc i) s).filter
    unfolding max_loop max_step
    max_loop-count zero s h = ground arith
    max_loop-count (suc i) s h =
        max_loop-count i (max_step roaring (rows (suc i)) (suc i) s) (ground arith)

  max_count :
      (rows : ℕ → Bitmap) (depth : ℕ) (s : Max roaring)
      → 0 < depth
      → s.last_non_zero ≡ cardinality s.filter
      → (max_loop roaring rows depth s).count ≡ cardinality (max_loop roaring rows depth s).filter
  max_count rows zero s h e = absurd (omega arith)
  max_count rows (suc i) s h e = max_loop-count rows i s e

  -- For a bit depth from 1 to 31 and ids to look at, DoGetMax gives the largest of their values:
  -- some id has it and none has a larger one; and the count is the number of ids that have it.
  pub do_get_max_lem :
      (s : BitSliceIndex roaring) (input : Bitmap)
      → 0 < s.bit_depth
      → s.bit_depth ≤ 31
      → 0 < cardinality (restrict roaring (exist roaring s) input)
      → let ids = restrict roaring (exist roaring s) input in
        let (max_val, count) = do_get_max roaring s input in
        ((x : ℕ) × (contains ids x ≡ true) × (value roaring s x ≡ max_val))
        × ((x : ℕ) → contains ids x ≡ true → value roaring s x ≤ max_val)
        × ((b : Bitmap) × ((x : ℕ)
              → contains b x ≡ (contains ids x && value roaring s x == max_val))
            × (count ≡ cardinality b))
  unfolding do_get_max
  do_get_max_lem s input deep shallow h =
      let ids = restrict roaring (exist roaring s) input in
      let start : Max roaring = record {
        max_val = 0;
        count = 0;
        filter = ids;
        last_non_zero = cardinality ids;
      } in
      let t = max_loop roaring (row roaring s) s.bit_depth start in
      let room : 0 + 2 ^ s.bit_depth ≤ 2 ^ 64 = omega (arith, pow_le s.bit_depth 31 shallow) in
      let here = λ (x : ℕ). max_loop-MaxAt (row roaring s) s.bit_depth x start shallow room in
      let (x, found) = some_id t.filter (max_loop-nonempty (row roaring s) s.bit_depth start h) in
      (
        (x, ground (arith, here x), ground (arith, here x)),
        λ y m. ground (arith, here y),
        (
          t.filter,
          λ y. ground (arith, here y),
          max_count (row roaring s) s.bit_depth start deep refl,
        ),
      )
