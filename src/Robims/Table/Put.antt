-- ===== src/Robims/Table/Put.antt =====
-- RobimsTable::Put (robims/robims_table.cpp): a row of a document goes into the fields.
use myctk.Base.{ℕ, Bool, true, false, List, [], ◌∷◌, Option, none, some, if◌then◌else◌}
use myctk.Base.Int.{ℤ, pos}
use myctk.Base.Name.{Name}
use myctk.Robims.Bitmap.{RoaringBitmap}
use myctk.Robims.Field.{bool_put, SetField, set_put, set_remove, int_field_put}
use myctk.Robims.Field.Weighted.{WeightSetField, weight_set_put, weight_set_remove, float_field_put}
use myctk.Robims.IdMapping.{SimpleIdMapping}
use myctk.Robims.Table.{
  Json, TableField, set_field, mutex_field, weight_set_field, int_field, float_field, bool_field,
  RobimsTable, Ended, done, failed, thrown, open_ended, mapped, table_local_id,
}

module _ (roaring : RoaringBitmap) where
  open roaring use {Bitmap, add}

  unfoldable pub stored_in :
      {A : Type 0} → (A → TableField roaring) → Option A → Ended roaring (TableField roaring)
  stored_in f none = open_ended
  stored_in f (some a) = done (f a)

  -- a field of the loop of RobimsTable::Put, before the rest of it
  unfoldable pub then_rest :
      Name
      → Ended roaring (TableField roaring)
      → List (Name × TableField roaring)
      → Ended roaring (List (Name × TableField roaring))
      → Ended roaring (List (Name × TableField roaring))
  unfolding mapped
  then_rest name (done f) fields rest = mapped roaring (λ fs. (name, f) ∷ fs) rest
  then_rest name (failed f) fields rest = failed ((name, f) ∷ fields)
  then_rest name thrown fields rest = thrown
  then_rest name open_ended fields rest = open_ended

  module _ (json : Json) where
    open json use {
      Document, Result, casts, iterate, find_field_unordered, is_error, get_string, get_int64,
      get_double, get_bool, get_array, get_object,
    }

    -- the loops over the elements of an array and an object, which end at one of another type
    unfoldable pub put_strings : SetField roaring → ℕ → List Result → Bool × SetField roaring
    put_strings b id [] = (true, b)
    put_strings b id (f ∷ rest) = elim (get_string f) [
      | none ↦ (false, b)
      | some val ↦ put_strings (set_put roaring b id val) id rest
    ]

    unfoldable pub put_weights :
        ℤ → WeightSetField roaring → ℕ → List (Name × Result) → Bool × WeightSetField roaring
    put_weights limit b id [] = (true, b)
    put_weights limit b id ((key, f) ∷ rest) = elim (get_double f) [
      | none ↦ (false, b)
      | some val ↦
          put_weights limit (weight_set_put roaring limit b id key (casts.float_of_double val)) id
            rest
    ]

    unfoldable pub ended_if : Bool × TableField roaring → Ended roaring (TableField roaring)
    ended_if (true, f) = done f
    ended_if (false, f) = failed f

    -- the switch of RobimsTable::Put, for a field of the document
    unfoldable pub put_value : ℕ → Result → TableField roaring → Ended roaring (TableField roaring)
    unfolding put_strings put_weights ended_if stored_in
    put_value id r (set_field b) = elim (get_array r) [
      | none ↦ failed (set_field b)
      | some array ↦
          let (ok, b') = put_strings (set_remove roaring b id) id array in
          ended_if (ok, set_field b')
    ]
    put_value id r (mutex_field b) = elim (get_string r) [
      | none ↦ failed (mutex_field b)
      | some val ↦ done (mutex_field (set_put roaring (set_remove roaring b id) id val))
    ]
    put_value id r (bool_field b) = elim (get_bool r) [
      | none ↦ failed (bool_field b)
      | some v ↦ done (bool_field (bool_put roaring b id (if v then pos 1 else pos 0)))
    ]
    put_value id r (weight_set_field limit b) = elim (get_object r) [
      | none ↦ failed (weight_set_field limit b)
      | some object ↦
          let (ok, b') = put_weights limit (weight_set_remove roaring b id).1 id object in
          ended_if (ok, weight_set_field limit b')
    ]
    put_value id r (int_field s) = elim (get_int64 r) [
      | none ↦ failed (int_field s)
      | some v ↦ stored_in int_field (int_field_put roaring s id v)
    ]
    put_value id r (float_field s) = elim (get_double r) [
      | none ↦ failed (float_field s)
      | some v ↦ stored_in float_field (float_field_put roaring s id (casts.float_of_double v))
    ]

    -- for a field that the document does not have: a bool field is set to false
    unfoldable pub put_missing : ℕ → TableField roaring → TableField roaring
    put_missing id (bool_field b) = bool_field (bool_put roaring b id (pos 0))
    put_missing id (set_field b) = set_field b
    put_missing id (mutex_field b) = mutex_field b
    put_missing id (weight_set_field limit b) = weight_set_field limit b
    put_missing id (int_field s) = int_field s
    put_missing id (float_field s) = float_field s

    unfoldable pub put_field : ℕ → Result → TableField roaring → Ended roaring (TableField roaring)
    unfolding put_value put_missing
    put_field id r f = if is_error r then done (put_missing id f) else put_value id r f

    -- the loop of RobimsTable::Put over the fields
    unfoldable pub put_fields :
        ℕ
        → Document
        → List (Name × TableField roaring)
        → Ended roaring (List (Name × TableField roaring))
    unfolding put_field then_rest
    put_fields id doc [] = done []
    put_fields id doc ((name, f) ∷ fields) =
        let rest = put_fields id doc fields in
        then_rest name (put_field id (find_field_unordered doc name) f) fields rest

    -- RobimsTable::Put
    unfoldable pub table_put :
        RobimsTable roaring
        → SimpleIdMapping
        → Name
        → Ended roaring (RobimsTable roaring × SimpleIdMapping)
    unfolding table_local_id put_fields mapped
    table_put t ids text = elim (iterate text) [
      | none ↦ failed (t, ids)
      | some doc ↦ elim (table_local_id roaring json t doc ids) [
        | none ↦ failed (t, ids)
        | some (id, ids') ↦
            mapped roaring
              (λ fields. (record t { fields = fields; id_bitmap = add t.id_bitmap id }, ids'))
              (put_fields id doc t.fields)
      ]
    ]
