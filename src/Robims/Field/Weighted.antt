-- ===== src/Robims/Field/Weighted.antt =====
-- RobimsWeightSetField (robims/robims_field_weight_set.cpp, robims_field.h) and RobimsFloatField
-- (robims/robims_field_bsi.cpp). A float is the number that its 32 bits are.
use myctk.Base.{
  ℕ, ◌+◌, ◌*◌, ◌%◌, ◌^◌, Bool, true, false, not, ◌&&◌, ◌||◌, List, [], ◌∷◌, length, Option, none,
  some, ltb, ◌==◌, if◌then◌else◌,
}
use myctk.Base.Int.{ℤ, pos, negsuc}
use myctk.Base.Name.{Name, find, assign}
use myctk.Robims.Bitmap.{RoaringBitmap}
use myctk.Robims.Bsi.Index.{BitSliceIndex}
use myctk.Robims.Bsi.Options.{float_to_uint32}
use myctk.Robims.Bsi.Typed.{
  float_get, float_put, float_remove, float_range_eq, float_range_neq, float_range_lt,
  float_range_gt,
}
use myctk.Robims.Field.{
  FieldOperator, field_op_eq, field_op_neq, field_op_gt, field_op_gte, field_op_lt, field_op_lte,
  field_op_between, field_op_all, FieldArg, string_arg, int_arg, double_arg, Selection, selected,
  invalid_args, invalid_operator, select_found,
}

-- the numbers of C++ that are not bits here: a double cast to a float, and an int64_t
pub record Casts (Double : Type 0) : Type 0 where
  pub float_of_double : Double → ℕ
  pub float_of_int : ℤ → ℕ

unfoldable pub is_nan : ℕ → Bool
is_nan w = ltb 0x7f80_0000 (w % 2 ^ 31)

-- `a != b` on floats
unfoldable pub float_neq : ℕ → ℕ → Bool
float_neq a b = is_nan a || is_nan b || not (a == b) && not (a % 2 ^ 31 == 0 && b % 2 ^ 31 == 0)

-- absl::btree_set with std::greater: what it holds, the greatest first
unfoldable pub insert_greater : ℕ → List ℕ → List ℕ
insert_greater v [] = v ∷ []
insert_greater v (x ∷ xs) =
    if v == x then x ∷ xs else if ltb x v then v ∷ x ∷ xs else x ∷ insert_greater v xs

unfoldable pub erase_weight_id : ℕ → List ℕ → List ℕ
erase_weight_id v [] = []
erase_weight_id v (x ∷ xs) = if v == x then xs else x ∷ erase_weight_id v xs

-- `*rbegin()` of a set that holds `v` and `xs`
unfoldable pub last_or : ℕ → List ℕ → ℕ
last_or v [] = v
last_or v (x ∷ xs) = last_or x xs

-- the map from ids to weights
unfoldable pub find_weight : ℕ → List (ℕ × ℕ) → Option ℕ
find_weight id [] = none
find_weight id ((j, w) ∷ m) = if id == j then some w else find_weight id m

unfoldable pub assign_weight : ℕ → ℕ → List (ℕ × ℕ) → List (ℕ × ℕ)
assign_weight id w [] = (id, w) ∷ []
assign_weight id w ((j, old) ∷ m) = if id == j then (j, w) ∷ m else (j, old) ∷ assign_weight id w m

unfoldable pub erase_weight : ℕ → List (ℕ × ℕ) → List (ℕ × ℕ)
erase_weight id [] = []
erase_weight id ((j, w) ∷ m) = if id == j then m else (j, w) ∷ erase_weight id m

-- `((uint64_t)float_to_uint32(weight) << 32) + id`
unfoldable pub weight_id_of : ℕ → ℕ → ℕ
weight_id_of weight id = float_to_uint32 weight * 2 ^ 32 + id

unfoldable pub positive_limit : ℤ → ℕ → Bool
positive_limit (pos limit) size = ltb 0 limit && ltb limit size
positive_limit (negsuc n) size = false

module _ (roaring : RoaringBitmap) where
  open roaring use {Bitmap, create, bitmap_andnot, add, remove}

  pub record NamedWeight : Type 0 where
    pub weight_ids : List ℕ
    pub id_weights : List (ℕ × ℕ)
    pub bitmap : Bitmap

  -- RobimsWeightSetField::_bitmaps
  abbrev pub WeightSetField : Type 0
  WeightSetField = List (Name × NamedWeight)

  unfoldable pub found_or_blank : Option NamedWeight → NamedWeight
  found_or_blank none = record { weight_ids = []; id_weights = []; bitmap = create }
  found_or_blank (some w) = w

  -- the erasure of the old weight
  unfoldable pub without_old : ℕ → ℕ → Option ℕ → List ℕ → List ℕ
  without_old id weight none ids = ids
  without_old id weight (some old) ids =
      if float_neq weight old then erase_weight_id (weight_id_of old id) ids else ids

  -- the least weight goes once there are more than topk_limit; the bitmap stays as it is
  unfoldable pub limited : ℤ → ℕ → NamedWeight → NamedWeight
  limited topk_limit new_id w =
      let least = last_or new_id w.weight_ids in
      if positive_limit topk_limit (length w.id_weights)
      then record w {
        id_weights = erase_weight (least % 2 ^ 32) w.id_weights;
        weight_ids = erase_weight_id least w.weight_ids;
      }
      else w

  unfoldable pub put_weight : ℤ → ℕ → ℕ → NamedWeight → NamedWeight
  put_weight topk_limit id weight w =
      let old = find_weight id w.id_weights in
      let new_id = weight_id_of weight id in
      limited topk_limit new_id (record {
        weight_ids = insert_greater new_id (without_old id weight old w.weight_ids);
        id_weights = assign_weight id weight w.id_weights;
        bitmap = add w.bitmap id;
      })

  -- RobimsWeightSetField::Put
  unfoldable pub weight_set_put : ℤ → WeightSetField → ℕ → Name → ℕ → WeightSetField
  weight_set_put topk_limit bitmaps id val weight =
      assign val (put_weight topk_limit id weight (found_or_blank (find val bitmaps))) bitmaps

  -- RobimsWeightSetField::Remove, whose loop ends with -1 (`false`) at a value that the id does not have
  unfoldable pub weight_set_remove : WeightSetField → ℕ → Bool × WeightSetField
  weight_set_remove [] id = (true, [])
  weight_set_remove ((name, w) ∷ bitmaps) id = elim (find_weight id w.id_weights) [
    | none ↦ (false, (name, w) ∷ bitmaps)
    | some weight ↦
        let (ok, rest) = weight_set_remove bitmaps id in
        let w' : NamedWeight = record {
          weight_ids = erase_weight_id (weight_id_of weight id) w.weight_ids;
          id_weights = erase_weight id w.id_weights;
          bitmap = remove w.bitmap id;
        } in
        (ok, (name, w') ∷ rest)
  ]

  unfoldable pub bitmap_of : Option NamedWeight → Option Bitmap
  bitmap_of none = none
  bitmap_of (some w) = some w.bitmap

  -- RobimsWeightSetField::Select
  unfoldable pub weight_set_select :
      {Double : Type 0}
      → Bitmap
      → WeightSetField
      → FieldOperator
      → FieldArg Double
      → Selection Bitmap
  weight_set_select table bitmaps field_op_all arg = selected table
  weight_set_select table bitmaps field_op_eq (string_arg str) =
      select_found roaring table true (bitmap_of (find str bitmaps))
  weight_set_select table bitmaps field_op_eq (int_arg i) = invalid_args
  weight_set_select table bitmaps field_op_eq (double_arg d) = invalid_args
  weight_set_select table bitmaps field_op_neq (string_arg str) =
      select_found roaring table false (bitmap_of (find str bitmaps))
  weight_set_select table bitmaps field_op_neq (int_arg i) = invalid_args
  weight_set_select table bitmaps field_op_neq (double_arg d) = invalid_args
  weight_set_select table bitmaps field_op_gt arg = invalid_operator
  weight_set_select table bitmaps field_op_gte arg = invalid_operator
  weight_set_select table bitmaps field_op_lt arg = invalid_operator
  weight_set_select table bitmaps field_op_lte arg = invalid_operator
  weight_set_select table bitmaps field_op_between arg = invalid_operator

  -- RobimsFloatField::Put; where DoPut reads out of range, the result is left open
  unfoldable pub float_field_put : BitSliceIndex roaring → ℕ → ℕ → Option (BitSliceIndex roaring)
  float_field_put s id val = elim (float_put roaring s id val) [
    | none ↦ none
    | some (t, _) ↦ some t
  ]

  -- RobimsFloatField::Remove, which tests `0 == Get(...)`; `unset` is the value that `val` happens to have
  unfoldable pub float_field_remove : BitSliceIndex roaring → ℕ → ℕ → BitSliceIndex roaring
  float_field_remove s id unset = elim (float_get roaring s id) [
    | none ↦ float_remove roaring s id unset
    | some val ↦ s
  ]

  unfoldable pub select_float : BitSliceIndex roaring → FieldOperator → ℕ → Selection Bitmap
  select_float s field_op_eq fv = selected (float_range_eq roaring s fv create)
  select_float s field_op_neq fv = selected (float_range_neq roaring s fv create)
  select_float s field_op_lt fv = selected (float_range_lt roaring s fv false create)
  select_float s field_op_lte fv = selected (float_range_lt roaring s fv true create)
  select_float s field_op_gt fv = selected (float_range_gt roaring s fv false create)
  select_float s field_op_gte fv = selected (float_range_gt roaring s fv true create)
  select_float s field_op_between fv = invalid_operator
  select_float s field_op_all fv = invalid_operator

  -- RobimsFloatField::Select
  unfoldable pub float_field_select :
      {Double : Type 0}
      → Casts Double
      → BitSliceIndex roaring
      → FieldOperator
      → FieldArg Double
      → Selection Bitmap
  float_field_select casts s op (double_arg d) = select_float s op (casts.float_of_double d)
  float_field_select casts s op (int_arg iv) = select_float s op (casts.float_of_int iv)
  float_field_select casts s op (string_arg str) = invalid_args
