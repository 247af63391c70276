-- ===== src/Robims/Table.antt =====
-- RobimsTable (robims/robims_table.cpp, robims_table.h): Put, Remove and Select of a table over its
-- fields. The calls of simdjson are an argument. `_fields` is a list in the order of its iteration,
-- which folly::F14FastMap leaves open. The IDMapping that tables share is a state of its own.
pub mod Put
pub mod Values
pub mod Rows
pub mod Stays
mod Tests
use myctk.Base.{ℕ, ◌+◌, Bool, true, false, not, List, [], ◌∷◌, Option, none, some, if◌then◌else◌}
use myctk.Base.Int.{ℤ, pos}
use myctk.Base.Name.{Name, find}
use myctk.Robims.Bitmap.{RoaringBitmap}
use myctk.Robims.Bsi.Index.{BitSliceIndex}
use myctk.Robims.Field.{
  FieldOperator, FieldArg, Selection, not_found, bool_put, bool_remove, bool_select, SetField,
  set_put, set_remove, set_select, int_field_put, int_field_remove, int_field_select,
}
use myctk.Robims.Field.Weighted.{
  Casts, WeightSetField, weight_set_put, weight_set_remove, weight_set_select, float_field_put,
  float_field_remove, float_field_select,
}
use myctk.Robims.IdMapping.{SimpleIdMapping, get_local_id}

-- simdjson's ondemand::parser, document and simdjson_result: a getter gives `none` where its result
-- has an error. The position of the parser in the text is not modelled.
pub record Json : Type 1 where
  pub Document : Type 0
  pub Result : Type 0
  pub Double : Type 0
  pub casts : Casts Double
  pub iterate : Name → Option Document
  pub find_field : Document → Name → Result
  pub find_field_unordered : Document → Name → Result
  pub is_null : Result → Bool
  pub is_error : Result → Bool
  pub raw_json_token : Result → Name
  pub get_string : Result → Option Name
  pub get_int64 : Result → Option ℤ
  pub get_double : Result → Option Double
  pub get_bool : Result → Option Bool
  pub get_array : Result → Option (List Result)
  pub get_object : Result → Option (List (Name × Result))

module _ (roaring : RoaringBitmap) where
  open roaring use {Bitmap, add}

  -- a field by its index_type, with the state of the class that Build makes for it
  pub data TableField : Type 0 where
    set_field mutex_field : SetField roaring → TableField
    weight_set_field : ℤ → WeightSetField roaring → TableField
    int_field float_field : BitSliceIndex roaring → TableField
    bool_field : Bitmap → TableField

  pub record RobimsTable : Type 0 where
    pub id_field : Name
    pub disable_local_id_creation : Bool
    pub fields : List (Name × TableField)
    pub id_bitmap : Bitmap

  -- Put and Remove as they end: 0, -1, an exception, or a read out of range, after which all is open
  pub data Ended (State : Type 0) : Type 0 where
    done failed : State → Ended State
    thrown open_ended : Ended State

  -- what is done after a call that ended with 0
  unfoldable pub mapped : {A B : Type 0} → (A → B) → Ended A → Ended B
  mapped f (done a) = done (f a)
  mapped f (failed a) = failed (f a)
  mapped f thrown = thrown
  mapped f open_ended = open_ended

  -- RobimsField::Remove of each class; `unset` is what the variables of the int and float fields hold
  unfoldable pub field_remove : TableField → ℕ → ℤ × ℕ → TableField
  field_remove (set_field b) id unset = set_field (set_remove roaring b id)
  field_remove (mutex_field b) id unset = mutex_field (set_remove roaring b id)
  field_remove (weight_set_field limit b) id unset =
      weight_set_field limit (weight_set_remove roaring b id).1
  field_remove (int_field s) id unset = int_field (int_field_remove roaring s id unset.0)
  field_remove (float_field s) id unset = float_field (float_field_remove roaring s id unset.1)
  field_remove (bool_field b) id unset = bool_field (bool_remove roaring b id)

  unfoldable pub remove_fields :
      List (Name × TableField) → ℕ → (Name → ℤ × ℕ) → List (Name × TableField)
  remove_fields [] id unset = []
  remove_fields ((name, f) ∷ fields) id unset =
      (name, field_remove f id (unset name)) ∷ remove_fields fields id unset

  module _ (json : Json) where
    open json use {
      Document, Result, Double, casts, iterate, find_field, find_field_unordered, is_null, is_error,
      raw_json_token, get_string, get_int64, get_double, get_bool, get_array, get_object,
    }

    -- RobimsField::Select of each class
    unfoldable pub field_select :
        Bitmap → TableField → FieldOperator → FieldArg Double → Selection Bitmap
    field_select table (set_field b) op arg = set_select roaring table b op arg
    field_select table (mutex_field b) op arg = set_select roaring table b op arg
    field_select table (weight_set_field limit b) op arg = weight_set_select roaring table b op arg
    field_select table (int_field s) op arg = int_field_select roaring s op arg
    field_select table (float_field s) op arg = float_field_select roaring casts s op arg
    field_select table (bool_field b) op arg = bool_select roaring table b op arg

    -- RobimsTable::Select
    unfoldable pub table_select :
        RobimsTable → Name → FieldOperator → FieldArg Double → Selection Bitmap
    table_select t field op arg = elim (find field t.fields) [
      | none ↦ not_found
      | some f ↦ field_select t.id_bitmap f op arg
    ]

    -- the id that GetLocalId looks up: a string, or the token of an int
    unfoldable pub id_view : Result → Option Name
    id_view r = elim (get_string r) [
      | some s ↦ some s
      | none ↦ elim (get_int64 r) [ some n ↦ some (raw_json_token r) | none ↦ none ]
    ]

    -- RobimsTable::GetLocalId; `none` is -1
    unfoldable pub table_local_id :
        RobimsTable → Document → SimpleIdMapping → Option (ℕ × SimpleIdMapping)
    unfolding id_view
    table_local_id t doc ids =
        let r = find_field doc t.id_field in
        if is_null r then none else elim (id_view r) [
          | none ↦ none
          | some view ↦ get_local_id ids view (not t.disable_local_id_creation)
        ]

    -- RobimsTable::Remove; a text that is no document makes simdjson throw
    unfoldable pub remove_row :
        RobimsTable
        → SimpleIdMapping
        → Name
        → (Name → ℤ × ℕ)
        → Ended (RobimsTable × SimpleIdMapping)
    unfolding table_local_id remove_fields
    remove_row t ids text unset = elim (iterate text) [
      | none ↦ thrown
      | some doc ↦ elim (table_local_id t doc ids) [
        | none ↦ failed (t, ids)
        | some (id, ids') ↦ done (record t { fields = remove_fields t.fields id unset }, ids')
      ]
    ]
