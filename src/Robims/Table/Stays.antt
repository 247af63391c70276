-- ===== src/Robims/Table/Stays.antt =====
-- What a table selects after Remove.
use myctk.Base.{
  ℕ, ◌≡◌, ◌⊎◌, refl, ap, Bool, not, ◌&&◌, List, [], ◌∷◌, some, ◌==◌, if◌then◌else◌, arith,
  Bool-cases, inl, inr,
}
use myctk.Base.Int.{ℤ}
use myctk.Base.Name.{Name, ◌=s◌, =s_iff, find}
use myctk.Robims.Bitmap.{RoaringBitmap}
use myctk.Robims.Field.{field_op_neq, string_arg, SetField, set_remove, set_select, select_found}
use myctk.Robims.Field.Exact.{is_selected}
use myctk.Robims.IdMapping.{SimpleIdMapping}
use myctk.Robims.Table.{
  Json, TableField, set_field, mutex_field, RobimsTable, done, field_remove, remove_fields,
  field_select, table_select, table_local_id, remove_row,
}

module _ (roaring : RoaringBitmap) where
  open roaring use {contains, bitmap_andnot, remove, contains-andnot, contains-remove}

  find-set_remove-some :
      (b : SetField roaring) (id : ℕ) (str : Name) (ids : roaring.Bitmap)
      → find str b ≡ some ids
      → find str (set_remove roaring b id) ≡ some (remove ids id)
  unfolding set_remove find
  find-set_remove-some [] id str ids e = absurd (cc e)
  find-set_remove-some ((name, c) ∷ b) id str ids e = elim (Bool-cases (str =s name)) [
    | inl here ↦
        let e' : some c ≡ some ids = rw here at e in
        let same : c ≡ ids = cc in rw here (ap (λ i. some (remove i id)) same)
    | inr away ↦
        let e' : find str b ≡ some ids = rw away at e in
        rw away (find-set_remove-some b id str ids e')
  ]

  find-remove_fields :
      (fields : List (Name × TableField roaring)) (id : ℕ) (unset : Name → ℤ × ℕ) (n : Name)
      (f : TableField roaring)
      → find n fields ≡ some f
      → find n (remove_fields roaring fields id unset) ≡ some (field_remove roaring f id (unset n))
  unfolding remove_fields find
  find-remove_fields [] id unset n f e = absurd (cc e)
  find-remove_fields ((name, g) ∷ fields) id unset n f e = elim (Bool-cases (n =s name)) [
    | inl here ↦
        let e' : some g ≡ some f = rw here at e in
        let same : g ≡ f = cc in
        let names : n ≡ name = (=s_iff n name).0 here in rw (here, same, names) refl
    | inr away ↦
        let e' : find n fields ≡ some f = rw away at e in
        rw away (find-remove_fields fields id unset n f e')
  ]

  module _ (json : Json) where
    open json use {Document, Double, iterate}

    neq_string : roaring.Bitmap → TableField roaring → Name → ℕ → Bool
    neq_string table f str x =
        is_selected roaring (field_select roaring json table f field_op_neq (string_arg str)) x

    neq_string-andnot :
        (table : roaring.Bitmap) (f : TableField roaring) (b : SetField roaring) (str : Name)
        (ids : roaring.Bitmap) (x : ℕ)
        → ((f ≡ set_field b) ⊎ (f ≡ mutex_field b))
        → find str b ≡ some ids
        → neq_string table f str x ≡ (contains table x && not (contains ids x))
    unfolding neq_string field_select set_select select_found is_selected
    neq_string-andnot table f b str ids x (inl is_set) e =
        rw (is_set, e, select_found) (contains-andnot table ids x)
    neq_string-andnot table f b str ids x (inr is_mutex) e =
        rw (is_mutex, e, select_found) (contains-andnot table ids x)

    field_remove-kind :
        (f : TableField roaring) (b : SetField roaring) (id : ℕ) (unset : ℤ × ℕ)
        → ((f ≡ set_field b) ⊎ (f ≡ mutex_field b))
        → ((field_remove roaring f id unset ≡ set_field (set_remove roaring b id))
            ⊎ (field_remove roaring f id unset ≡ mutex_field (set_remove roaring b id)))
    unfolding field_remove
    field_remove-kind f b id unset (inl is_set) = inl (rw is_set refl)
    field_remove-kind f b id unset (inr is_mutex) = inr (rw is_mutex refl)

    -- Remove of a document that names an id returns 0, whatever else the document holds, but leaves the id
    -- in the table's bitmap: NEQ with a value that a set or mutex field knows then selects the removed
    -- id if it was in the table, even if it had that value, and any other id as before.
    pub remove_row-stays :
        (t : RobimsTable roaring) (ids ids' : SimpleIdMapping) (text n str : Name) (doc : Document)
        (id : ℕ) (unset : Name → ℤ × ℕ) (f : TableField roaring) (b : SetField roaring)
        (with_value : roaring.Bitmap)
        → iterate text ≡ some doc
        → table_local_id roaring json t doc ids ≡ some (id, ids')
        → find n t.fields ≡ some f
        → ((f ≡ set_field b) ⊎ (f ≡ mutex_field b))
        → find str b ≡ some with_value
        → (t' : RobimsTable roaring) × ((remove_row roaring json t ids text unset ≡ done (t', ids'))
            × ((x : ℕ)
                → is_selected roaring
                    (table_select roaring json t' n field_op_neq (string_arg str))
                    x
                  ≡ (if x == id
                      then contains t.id_bitmap x
                      else is_selected roaring
                          (table_select roaring json t n field_op_neq (string_arg str))
                          x)))
    unfolding remove_row table_select neq_string
    remove_row-stays t ids ids' text n str doc id unset f b with_value parsed local there kind e =
        let f' = field_remove roaring f id (unset n) in
        let there' = find-remove_fields t.fields id unset n f there in
        let e' = find-set_remove-some b id str with_value e in
        (
          record t { fields = remove_fields roaring t.fields id unset },
          (
            rw (parsed, local, remove_row) refl,
            λ x.
                let before = neq_string-andnot t.id_bitmap f b str with_value x kind e in
                let after =
                  neq_string-andnot t.id_bitmap f' (set_remove roaring b id) str
                    (remove with_value id) x (field_remove-kind f b id (unset n) kind) e' in
                let gone = contains-remove with_value id x in
                let now : neq_string t.id_bitmap f' str x
                    ≡ (if x == id then contains t.id_bitmap x else neq_string t.id_bitmap f str x) =
                  ground arith in
                rw (there', there, table_select) now,
          ),
        )
