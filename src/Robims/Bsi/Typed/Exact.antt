-- ===== src/Robims/Bsi/Typed/Exact.antt =====
-- What the typed indexes answer, in terms of the values put.
use myctk.Base.{ℕ, ◌+◌, ◌^◌, ◌%◌, ◌<◌, ◌≤◌, ◌≡◌, ◌≢◌, some, some, ◌==◌, if◌then◌else◌, arith}
use myctk.Base.Int.{ℤ, pos_part, neg_part, ◌≤ℤ◌}
use native.Mathlib.Nat.{mod-eq_of_lt}
use myctk.Robims.Bsi.Options.Codes.{get_actual-to_local}
use myctk.Robims.Bsi.Index.Maximum.{pow_le}
use myctk.Robims.Bitmap.{RoaringBitmap}
use myctk.Robims.Bsi.Options.{
  to_local_val_int, to_local_val_float, uint32_to_float, get_actual_float_val,
}
use myctk.Robims.Bsi.Index.{BitSliceIndex, IsWellFormed, do_get}
use myctk.Robims.Bsi.Index.Stored.{do_get-do_put}
use myctk.Robims.Bsi.Typed.{int_put, int_get, float_put, float_get}

module _ (roaring : RoaringBitmap) where
  open roaring use {contains}

  -- Put an int within the range of a well-formed index with no limit on its ids: Get gives it back
  -- for that id, and what it gave before for any other.
  int_get-int_put :
      (s : BitSliceIndex roaring) (id : ℕ) (val : ℤ)
      → IsWellFormed roaring s
      → s.options.limit_topk ≡ 0
      → s.options.min_int ≤ℤ val
      → pos_part val + neg_part s.options.min_int
        < 2 ^ s.bit_depth + pos_part s.options.min_int + neg_part val
      → (t : BitSliceIndex roaring) × (int_put roaring s id val ≡ some t)
        × IsWellFormed roaring t
        × ((x : ℕ) → int_get roaring t x ≡ (if x == id then some val else int_get roaring s x))
  unfolding int_put int_get
  int_get-int_put s id val w unlimited low high =
      let (t, done, kept, same, there) =
        do_get-do_put roaring s id (to_local_val_int s.options val) w unlimited in
      let room : 2 ^ s.bit_depth ≤ 2 ^ 63 = pow_le s.bit_depth 63 (omega (arith, w.narrow)) in
      let (local, back) = get_actual-to_local s.options val low (omega arith) in
      let fits : to_local_val_int s.options val % 2 ^ s.bit_depth ≡ to_local_val_int s.options val =
        mod-eq_of_lt (omega arith) in
      (t, ground arith, kept, λ x. ground (arith, there x))

  -- Put a float over an id that has a value, in a well-formed index without a limit on its ids
  -- (limit_topk is 0) whose least float is not negative (its code is 2 ^ 31 or more), where the old
  -- local value and that code add up to less than 2 ^ 32: the old value that Put reports is not the
  -- one that Get gave.
  pub float_put_reports_wrong :
      (s : BitSliceIndex roaring) (id val old : ℕ)
      → IsWellFormed roaring s
      → s.options.limit_topk ≡ 0
      → do_get roaring s id ≡ some old
      → 2 ^ 31 ≤ s.options.min
      → old + s.options.min < 2 ^ 32
      → (t : BitSliceIndex roaring) × (float_put roaring s id val
          ≡ some (t, some (uint32_to_float old)))
        × (some (uint32_to_float old) ≢ float_get roaring s id)
  unfolding float_put float_get uint32_to_float get_actual_float_val
  float_put_reports_wrong s id val old w unlimited had nonneg fits =
      let (t, done, _, _, _) =
        do_get-do_put roaring s id (to_local_val_float s.options val) w unlimited in
      (t, ground arith, ground arith)
