-- ===== src/Robims/Bsi/Typed.antt =====
-- BitSliceIntIndex and BitSliceFloatIndex (robims/robims_bsi.h, robims_bsi.cpp): the index behind
-- the codes of its values. A method's out-parameters are its result.
pub mod Exact
use myctk.Base.{ℕ, Bool, Option, none, some}
use myctk.Base.Int.{ℤ, pos}
use myctk.Robims.Bitmap.{RoaringBitmap}
use myctk.Robims.Bsi.Options.{
  to_local_val_int, get_actual_int_val, to_local_val_float, get_actual_float_val, uint32_to_float,
}
use myctk.Robims.Bsi.Range.{do_range_lt, do_range_gt, do_range_eq, do_range_neq, do_range_between}
use myctk.Robims.Bsi.Index.{
  BitSliceIndex, exist, row, do_get, do_put, do_remove, do_get_max, do_get_min, do_remove_min, Put,
  inserted, replaced,
}

module _ (roaring : RoaringBitmap) where
  open roaring use {Bitmap}

  abbrev pub Index : Type 0
  Index = BitSliceIndex roaring

  pub int_get_max : Index → Bitmap → ℤ × ℤ
  int_get_max s filter =
      let (local, count) = do_get_max roaring s filter in
      (get_actual_int_val s.options local, pos count)

  pub int_get_min : Index → Bitmap → ℤ × ℤ
  int_get_min s filter =
      let (local, count) = do_get_min roaring s filter in
      (get_actual_int_val s.options local, count)

  unfoldable pub int_range_lt : Index → ℤ → Bool → Bitmap → Bitmap
  int_range_lt s expect allow_eq =
      do_range_lt roaring (exist roaring s) (row roaring s) s.bit_depth
        (to_local_val_int s.options expect) allow_eq

  unfoldable pub int_range_gt : Index → ℤ → Bool → Bitmap → Bitmap
  int_range_gt s expect allow_eq =
      do_range_gt roaring (exist roaring s) (row roaring s) s.bit_depth
        (to_local_val_int s.options expect) allow_eq

  unfoldable pub int_range_eq : Index → ℤ → Bitmap → Bitmap
  int_range_eq s expect =
      do_range_eq roaring (exist roaring s) (row roaring s) s.bit_depth
        (to_local_val_int s.options expect)

  unfoldable pub int_range_neq : Index → ℤ → Bitmap → Bitmap
  int_range_neq s expect =
      do_range_neq roaring (exist roaring s) (row roaring s) s.bit_depth
        (to_local_val_int s.options expect)

  pub int_range_between : Index → ℤ → ℤ → Bitmap → Bitmap
  int_range_between s min max =
      do_range_between roaring (exist roaring s) (row roaring s) s.bit_depth
        (to_local_val_int s.options min) (to_local_val_int s.options max)

  unfoldable pub int_remove : Index → ℕ → ℤ → Index
  int_remove s id val = do_remove roaring s id (to_local_val_int s.options val)

  pub int_put : Index → ℕ → ℤ → Option Index
  int_put s id val = elim (do_put roaring s id (to_local_val_int s.options val)) [
    | none ↦ none
    | some (t, _) ↦ some t
  ]

  unfoldable pub int_get : Index → ℕ → Option ℤ
  int_get s id = elim (do_get roaring s id) [
    | none ↦ none
    | some local ↦ some (get_actual_int_val s.options local)
  ]

  pub int_remove_min : Index → Option (Index × ℤ)
  int_remove_min s = elim (do_remove_min roaring s) [
    | none ↦ none
    | some (t, local) ↦ some (t, get_actual_int_val s.options local)
  ]

  pub float_get_max : Index → Bitmap → ℕ × ℕ
  float_get_max s filter =
      let (local, count) = do_get_max roaring s filter in
      (get_actual_float_val s.options local, count)

  pub float_get_min : Index → Bitmap → ℕ × ℤ
  float_get_min s filter =
      let (local, count) = do_get_min roaring s filter in
      (get_actual_float_val s.options local, count)

  pub float_range_lt : Index → ℕ → Bool → Bitmap → Bitmap
  float_range_lt s expect allow_eq =
      do_range_lt roaring (exist roaring s) (row roaring s) s.bit_depth
        (to_local_val_float s.options expect) allow_eq

  pub float_range_gt : Index → ℕ → Bool → Bitmap → Bitmap
  float_range_gt s expect allow_eq =
      do_range_gt roaring (exist roaring s) (row roaring s) s.bit_depth
        (to_local_val_float s.options expect) allow_eq

  pub float_range_eq : Index → ℕ → Bitmap → Bitmap
  float_range_eq s expect =
      do_range_eq roaring (exist roaring s) (row roaring s) s.bit_depth
        (to_local_val_float s.options expect)

  pub float_range_neq : Index → ℕ → Bitmap → Bitmap
  float_range_neq s expect =
      do_range_neq roaring (exist roaring s) (row roaring s) s.bit_depth
        (to_local_val_float s.options expect)

  pub float_range_between : Index → ℕ → ℕ → Bitmap → Bitmap
  float_range_between s min max =
      do_range_between roaring (exist roaring s) (row roaring s) s.bit_depth
        (to_local_val_float s.options min) (to_local_val_float s.options max)

  pub float_remove : Index → ℕ → ℕ → Index
  float_remove s id val = do_remove roaring s id (to_local_val_float s.options val)

  -- `old_val` where the id was there already; the local value is decoded as it is
  pub float_put : Index → ℕ → ℕ → Option (Index × Option ℕ)
  float_put s id val = elim (do_put roaring s id (to_local_val_float s.options val)) [
    | none ↦ none
    | some (t, answer) ↦
        some (t, elim answer [ inserted ↦ none | replaced old ↦ some (uint32_to_float old) ])
  ]

  pub float_get : Index → ℕ → Option ℕ
  float_get s id = elim (do_get roaring s id) [
    | none ↦ none
    | some local ↦ some (get_actual_float_val s.options local)
  ]

  pub float_remove_min : Index → Option (Index × ℕ)
  float_remove_min s = elim (do_remove_min roaring s) [
    | none ↦ none
    | some (t, local) ↦ some (t, get_actual_float_val s.options local)
  ]
