-- ===== src/Robims/Field.antt =====
-- The fields of a table over plain bitmaps (robims/robims_field.h, robims_field_bool.cpp,
-- robims_field_set.cpp) and over the bit-sliced index (RobimsIntField in robims_field_bsi.cpp), with
-- FieldOperator of robims.proto. The table's bitmap is an argument. The reads and writes of files are
-- not modelled.
pub mod Exact
pub mod Weighted
mod Tests
use myctk.Base.{ℕ, Bool, true, false, List, [], ◌∷◌, Option, none, some, ◌==◌, if◌then◌else◌}
use myctk.Base.Int.{ℤ, pos, negsuc}
use myctk.Base.Name.{Name, find, assign}
use myctk.Robims.Bitmap.{RoaringBitmap}
use myctk.Robims.Bsi.Index.{BitSliceIndex}
use myctk.Robims.Bsi.Typed.{
  int_get, int_put, int_remove, int_range_eq, int_range_neq, int_range_lt, int_range_gt,
}

pub data FieldOperator : Type 0 where
  field_op_eq field_op_neq field_op_gt field_op_gte field_op_lt field_op_lte : FieldOperator
  field_op_between field_op_all : FieldOperator

-- std::variant of a string, an int64_t and a double
pub data FieldArg (Double : Type 0) : Type 0 where
  string_arg : Name → FieldArg Double
  int_arg : ℤ → FieldArg Double
  double_arg : Double → FieldArg Double

-- `out`, or the error code
pub data Selection (Bitmap : Type 0) : Type 0 where
  selected : Bitmap → Selection Bitmap
  not_found invalid_args invalid_operator : Selection Bitmap

unfoldable pub equals : ℤ → ℕ → Bool
equals (pos n) k = n == k
equals (negsuc n) k = false

module _ (roaring : RoaringBitmap) where
  open roaring use {Bitmap, create, bitmap_andnot, add, remove}

  -- RobimsBoolField::Put
  unfoldable pub bool_put : Bitmap → ℕ → ℤ → Bitmap
  unfolding equals
  bool_put bitmap id val = let rest = remove bitmap id in if equals val 1 then add rest id else rest

  unfoldable pub bool_remove : Bitmap → ℕ → Bitmap
  bool_remove bitmap id = remove bitmap id

  -- RobimsBoolField::Select
  unfoldable pub bool_select :
      {Double : Type 0} → Bitmap → Bitmap → FieldOperator → FieldArg Double → Selection Bitmap
  unfolding equals
  bool_select table bitmap field_op_all arg = selected table
  bool_select table bitmap field_op_eq (int_arg iv) =
      selected (if equals iv 0 then bitmap_andnot table bitmap else bitmap)
  bool_select table bitmap field_op_eq (string_arg s) = invalid_args
  bool_select table bitmap field_op_eq (double_arg d) = invalid_args
  bool_select table bitmap field_op_neq (int_arg iv) =
      selected (if equals iv 0 then bitmap else bitmap_andnot table bitmap)
  bool_select table bitmap field_op_neq (string_arg s) = invalid_args
  bool_select table bitmap field_op_neq (double_arg d) = invalid_args
  bool_select table bitmap field_op_gt arg = invalid_operator
  bool_select table bitmap field_op_gte arg = invalid_operator
  bool_select table bitmap field_op_lt arg = invalid_operator
  bool_select table bitmap field_op_lte arg = invalid_operator
  bool_select table bitmap field_op_between arg = invalid_operator

  -- RobimsSetField::_bitmaps
  abbrev pub SetField : Type 0
  SetField = List (Name × Bitmap)

  unfoldable pub found_or_new : Option Bitmap → Bitmap
  found_or_new none = create
  found_or_new (some b) = b

  -- RobimsSetField::Put
  unfoldable pub set_put : SetField → ℕ → Name → SetField
  unfolding found_or_new
  set_put bitmaps id val = assign val (add (found_or_new (find val bitmaps)) id) bitmaps

  -- RobimsSetField::Remove
  unfoldable pub set_remove : SetField → ℕ → SetField
  set_remove [] id = []
  set_remove ((name, b) ∷ bitmaps) id = (name, remove b id) ∷ set_remove bitmaps id

  -- RobimsSetField::Select
  unfoldable pub select_found : Bitmap → Bool → Option Bitmap → Selection Bitmap
  select_found table is_eq none = not_found
  select_found table is_eq (some matched) =
      selected (if is_eq then matched else bitmap_andnot table matched)

  unfoldable pub set_select :
      {Double : Type 0} → Bitmap → SetField → FieldOperator → FieldArg Double → Selection Bitmap
  unfolding select_found
  set_select table bitmaps field_op_all arg = selected table
  set_select table bitmaps field_op_eq (string_arg str) = select_found table true (find str bitmaps)
  set_select table bitmaps field_op_eq (int_arg i) = invalid_args
  set_select table bitmaps field_op_eq (double_arg d) = invalid_args
  set_select table bitmaps field_op_neq (string_arg str) =
      select_found table false (find str bitmaps)
  set_select table bitmaps field_op_neq (int_arg i) = invalid_args
  set_select table bitmaps field_op_neq (double_arg d) = invalid_args
  set_select table bitmaps field_op_gt arg = invalid_operator
  set_select table bitmaps field_op_gte arg = invalid_operator
  set_select table bitmaps field_op_lt arg = invalid_operator
  set_select table bitmaps field_op_lte arg = invalid_operator
  set_select table bitmaps field_op_between arg = invalid_operator

  -- RobimsIntField::Put; where DoPut reads out of range, the result is left open
  unfoldable pub int_field_put : BitSliceIndex roaring → ℕ → ℤ → Option (BitSliceIndex roaring)
  int_field_put s id val = int_put roaring s id val

  -- RobimsIntField::Remove tests `0 == Get(...)`, and Get returns a bool; `unset` is the value that
  -- the variable `val` happens to have
  unfoldable pub int_field_remove : BitSliceIndex roaring → ℕ → ℤ → BitSliceIndex roaring
  int_field_remove s id unset = elim (int_get roaring s id) [
    | none ↦ int_remove roaring s id unset
    | some val ↦ s
  ]

  unfoldable pub select_int : BitSliceIndex roaring → FieldOperator → ℤ → Selection Bitmap
  select_int s field_op_eq iv = selected (int_range_eq roaring s iv create)
  select_int s field_op_neq iv = selected (int_range_neq roaring s iv create)
  select_int s field_op_lt iv = selected (int_range_lt roaring s iv false create)
  select_int s field_op_lte iv = selected (int_range_lt roaring s iv true create)
  select_int s field_op_gt iv = selected (int_range_gt roaring s iv false create)
  select_int s field_op_gte iv = selected (int_range_gt roaring s iv true create)
  select_int s field_op_between iv = invalid_operator
  select_int s field_op_all iv = invalid_operator

  -- RobimsIntField::Select
  unfoldable pub int_field_select :
      {Double : Type 0} → BitSliceIndex roaring → FieldOperator → FieldArg Double → Selection Bitmap
  unfolding select_int
  int_field_select s op (int_arg iv) = select_int s op iv
  int_field_select s op (string_arg str) = invalid_args
  int_field_select s op (double_arg d) = invalid_args
