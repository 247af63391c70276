-- ===== src/Robims/Table/Rows.antt =====
-- What a table's set and mutex fields select after Put (robims/robims_table.cpp).
use myctk.Base.{
  ℕ, ◌≡◌, ◌⊎◌, refl, ap, sym, ◌∙◌, not, ◌&&◌, List, [], ◌∷◌, some, ◌==◌, if◌then◌else◌, Bool-cases,
  inl, inr,
}
use myctk.Base.Name.{Name, ◌=s◌, =s_iff, find}
use myctk.Robims.Bitmap.{RoaringBitmap}
use myctk.Robims.Field.{field_op_eq, string_arg, SetField}
use myctk.Robims.Field.Exact.{is_selected}
use myctk.Robims.IdMapping.{SimpleIdMapping}
use myctk.Robims.Table.Values.{among, given, eq_string, row_of, put_field-selects}
use myctk.Robims.Table.{
  Json, TableField, set_field, mutex_field, RobimsTable, Ended, done, failed, thrown, open_ended,
  mapped, table_select, table_local_id,
}
use myctk.Robims.Table.Put.{put_field, then_rest, put_fields, table_put}

module _ (roaring : RoaringBitmap) where
  then_rest-done :
      (name : Name) (p : Ended roaring (TableField roaring))
      (fields fs' : List (Name × TableField roaring))
      (rest : Ended roaring (List (Name × TableField roaring)))
      → then_rest roaring name p fields rest ≡ done fs'
      → (f' : TableField roaring) × ((rest' : List (Name × TableField roaring)) × ((p ≡ done f')
            × ((rest ≡ done rest') × (fs' ≡ (name, f') ∷ rest'))))
  unfolding then_rest mapped
  then_rest-done name (done f) fields fs' (done rest) e = (f, (rest, (refl, (refl, cc))))
  then_rest-done name (done f) fields fs' (failed rest) e = absurd cc
  then_rest-done name (done f) fields fs' thrown e = absurd cc
  then_rest-done name (done f) fields fs' open_ended e = absurd cc
  then_rest-done name (failed f) fields fs' rest e = absurd cc
  then_rest-done name thrown fields fs' rest e = absurd cc
  then_rest-done name open_ended fields fs' rest e = absurd cc

  module _ (json : Json) where
    open json use {Document, iterate, find_field_unordered, is_error}

    put_fields-found :
        (id : ℕ) (doc : Document) (n : Name) (f : TableField roaring)
        (fields fs' : List (Name × TableField roaring))
        → find n fields ≡ some f
        → put_fields roaring json id doc fields ≡ done fs'
        → (f' : TableField roaring) × ((put_field roaring json id (find_field_unordered doc n) f
              ≡ done f')
            × (find n fs' ≡ some f'))
    unfolding put_fields find
    put_fields-found id doc n f [] fs' found e = absurd (cc found)
    put_fields-found id doc n f ((m, g) ∷ fields) fs' found e =
        let (g', (rest', (p, (q, same)))) =
          then_rest-done m (put_field roaring json id (find_field_unordered doc m) g) fields fs'
            (put_fields roaring json id doc fields) e in
        elim (Bool-cases (n =s m)) [
          | inl here ↦
              let kept : some g ≡ some f = rw here at found in
              let g_f : g ≡ f = cc in
              let names : n ≡ m = (=s_iff n m).0 here in
              (g', (rw (names, sym g_f) p, rw (same, here) refl))
          | inr away ↦
              let found' : find n fields ≡ some f = rw away at found in
              let (f', (put_f, there)) = put_fields-found id doc n f fields rest' found' q in
              (f', (put_f, rw (same, away) there))
        ]

    mapped-done :
        {A B : Type 0} (g : A → B) (p : Ended roaring A) (b : B)
        → mapped roaring g p ≡ done b
        → (a : A) × ((p ≡ done a) × (b ≡ g a))
    unfolding mapped
    mapped-done g (done a) b e = (a, (refl, cc e))
    mapped-done g (failed a) b e = absurd (cc e)
    mapped-done g thrown b e = absurd (cc e)
    mapped-done g open_ended b e = absurd (cc e)

    -- After a Put that returns 0, EQ with a string on a set or mutex field selects the id that the
    -- document names if the document has the field and the string is among its values there (and
    -- not, if it has the field without that string), and any other id, or the id itself where the
    -- document has no such field, as before Put.
    pub table_put-selects :
        (t t' : RobimsTable roaring) (ids ids' found_ids : SimpleIdMapping) (text n str : Name)
        (doc : Document) (id x : ℕ) (f : TableField roaring) (b : SetField roaring)
        → iterate text ≡ some doc
        → table_local_id roaring json t doc ids ≡ some (id, found_ids)
        → table_put roaring json t ids text ≡ done (t', ids')
        → find n t.fields ≡ some f
        → ((f ≡ set_field b) ⊎ (f ≡ mutex_field b))
        → is_selected roaring (table_select roaring json t' n field_op_eq (string_arg str)) x ≡ (
            let r = find_field_unordered doc n in
            if x == id && not (is_error r)
            then among str (given roaring json r f)
            else is_selected roaring (table_select roaring json t n field_op_eq (string_arg str)) x)
    unfolding table_put table_select row_of eq_string
    table_put-selects t t' ids ids' found_ids text n str doc id x f b parsed local e there kind =
        let ended = rw (parsed, local, table_put) at e in
        let (fields, (q, made)) =
          mapped-done _ (put_fields roaring json id doc t.fields) (t', ids') ended in
        let (f', (put_f, found')) = put_fields-found id doc n f t.fields fields there q in
        let seen =
          put_field-selects roaring json t'.id_bitmap t.id_bitmap id x (find_field_unordered doc n)
            f f' b str kind put_f in
        let now : find n t'.fields ≡ some f' =
          ap (λ (p : RobimsTable roaring × SimpleIdMapping). find n p.0.fields) made ∙ found' in
        rw (now, there, table_select) seen
