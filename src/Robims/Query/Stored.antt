-- ===== src/Robims/Query/Stored.antt =====
-- Queries over the fields that tables hold: the Select of a `RobimsField*` is that of its class
-- (robims/robims_field.h). RobimsFloatField and RobimsWeightSetField are left out.
pub mod Compare
pub mod Condition
pub mod Formula
use myctk.Base.{ℕ}
use myctk.Robims.Bitmap.{RoaringBitmap}
use myctk.Robims.Bsi.Index.{BitSliceIndex}
use myctk.Robims.Field.{
  FieldOperator, FieldArg, Selection, SetField, bool_select, set_select, int_field_select,
}
use myctk.Robims.Query.{Doubles, Fields}

module _ (roaring : RoaringBitmap) where
  open roaring use {Bitmap}

  -- the object that a `RobimsField*` points to, by its class
  pub data RobimsField : Type 0 where
    bool_field : Bitmap → RobimsField
    set_field : SetField roaring → RobimsField
    int_field : BitSliceIndex roaring → RobimsField

  -- the virtual call of Select; `table` is the bitmap of the field's table
  unfoldable pub select_field :
      {Double : Type 0} → Bitmap → RobimsField → FieldOperator → FieldArg Double → Selection Bitmap
  select_field table (bool_field b) op arg = bool_select roaring table b op arg
  select_field table (set_field bs) op arg = set_select roaring table bs op arg
  select_field table (int_field s) op arg = int_field_select roaring s op arg

  -- fields at addresses, with the bitmaps of their tables
  abbrev pub stored_fields : Doubles → (ℕ → Bitmap) → (ℕ → RobimsField) → Fields roaring
  stored_fields doubles tables memory = record {
    doubles = doubles;
    Field = ℕ;
    select = λ f op arg. select_field (tables f) (memory f) op arg;
  }
