-- ===== src/Robims/Database/Stale.antt =====
-- CreateTable of a name that is there (robims/robims_db_impl.cpp): what cached queries point to then.
use myctk.Base.{
  ℕ, suc, ◌<◌, ◌≤◌, ◌≡◌, refl, ap, sym, subst, ◌∙◌, ◌⊎◌, inl, inr, List, [], ◌∷◌, Option, none,
  some, Option-cases, Bool-cases, arith,
}
use myctk.Base.Name.{Name, ◌=s◌, =s_iff, find, assign, find-assign}
use myctk.Robims.Bsi.Options.{
  FieldIndexType, unknown_index, set_index, weight_set_index, mutex_index, int_index, float_index,
  bool_index,
}
use myctk.Robims.Query.{Operand}
use myctk.Robims.Query.Init.{ready}
use myctk.Robims.Database.{
  TableSchema, Table, build_field, build_fields, get_field, QueryCache, Database, get_table,
  create_table,
}
use myctk.Robims.Database.Select.{query_of}
use myctk.Robims.Database.Owned.{AllFields, AllFields-map, Owned}
use myctk.Robims.Database.Live.{query_cache-create_table}

-- every address that a table's field has is one that has been used
abbrev pub IsBounded : {C : Type 0} → Database C → Type 0
IsBounded db = (a : ℕ) → Owned db a → a < db.next

-- no field of another table has the address
abbrev pub OnlyIn : {C : Type 0} → Database C → Name → ℕ → Type 0
OnlyIn db name a =
    (t f : Name) (table : Table)
    → get_table db t ≡ some table
    → get_field table f ≡ some a
    → t ≡ name

build_field-new : (next a : ℕ) (i : FieldIndexType) → build_field next i ≡ some a → a ≡ next
unfolding build_field
build_field-new next a int_index h = cc h
build_field-new next a float_index h = cc h
build_field-new next a bool_index h = cc h
build_field-new next a set_index h = cc h
build_field-new next a mutex_index h = cc h
build_field-new next a weight_set_index h = cc h
build_field-new next a unknown_index h = cc h

-- the fields that are built have new addresses
build_fields-new :
    (metas : List (Name × FieldIndexType)) (fields out : List (Name × ℕ)) (next last a : ℕ)
    (f : Name)
    → build_fields metas fields next ≡ some (out, last)
    → find f out ≡ some a
    → (next ≤ a) ⊎ (find f fields ≡ some a)
unfolding build_fields
build_fields-new [] fields out next last a f h there = inr (
    ap (find f) (
      ap
        (λ (o : Option (List (Name × ℕ) × ℕ)). elim o as (λ x. List (Name × ℕ)) [
          | none ↦ []
          | some p ↦ p.0
        ])
        h)
    ∙ there)
build_fields-new ((name, i) ∷ metas) fields out next last a f h there =
    elim (Option-cases (build_field next i)) [
      | inl bad ↦ cc (rw (bad, build_fields) at h)
      | inr (b, good) ↦
          elim (build_fields-new metas (assign name next fields) out (suc next) last a f
            (rw (good, build_fields) at h) there) [
              | inl new ↦ inl (omega arith)
              | inr old ↦
                  let looked = find-assign name f next fields in
                  elim (Bool-cases (f =s name)) [
                    | inl same ↦
                        let e : some next ≡ some a = sym (looked ∙ rw same refl) ∙ old in
                        let at : next ≡ a = cc e in inl (omega arith)
                    | inr other ↦ inr (sym (looked ∙ rw other refl) ∙ old)
                  ]
            ]
    ]

Owned-replaced :
    {C : Type 0} (db : Database C) (name : Name) (fields : List (Name × ℕ)) (next a : ℕ)
    → OnlyIn db name a
    → ((f : Name) → find f fields ≡ some a → ⊥)
    → ¬ Owned
        (record db { tables = assign name (record { fields = fields }) db.tables; next = next })
        a
unfolding get_table get_field
Owned-replaced db name fields next a sole new (t, f, table, here, there) =
    let looked = find-assign name t (record { fields = fields }) db.tables in
    elim (Bool-cases (t =s name)) [
      | inl same ↦
          let e : some (record { fields = fields }) ≡ some table =
            sym (looked ∙ rw same refl) ∙ here in
          let built : Table = record { fields = fields } in
          let p : built ≡ table = cc e in new f (ap (λ s. find f s.fields) p ∙ there)
      | inr other ↦
          let at : t ≡ name = sole t f table (sym (looked ∙ rw other refl) ∙ here) there in
          cc ((=s_iff t name).1 at, other)
    ]

create_table-not-Owned :
    {C : Type 0} (db : Database C) (schema : TableSchema) (a : ℕ) (built : List (Name × ℕ) × ℕ)
    → IsBounded db
    → Owned db a
    → OnlyIn db schema.name a
    → build_fields schema.index_field [] db.next ≡ some built
    → ¬ Owned (create_table db schema).1 a
unfolding create_table
create_table-not-Owned db schema a (fields, next) bounded owned sole good =
    rw (good, create_table)
      (Owned-replaced db schema.name fields next a sole (λ f there.
        elim (build_fields-new schema.index_field [] fields db.next next a f good there) [
          | inl new ↦ omega (arith, bounded a owned)
          | inr old ↦ (unfold find in cc old)
        ]))

module _ {D : Type 0} (queries : QueryCache (Operand D ℕ))
    (parse : Name → Option (Operand D ℕ)) where
  open queries use {Cache, cached, touched}

  -- If CreateTable of a name that is there already succeeds, a Select with a text that was cached
  -- before runs the same query as before, without Init, and if that query names a field of the table
  -- that was replaced, then not all of its fields are those of tables that are there: a pointer of
  -- it dangles.
  pub query_of-create_table :
      (db : Database Cache) (schema : TableSchema) (built : List (Name × ℕ) × ℕ) (text : Name)
      (q : Operand D ℕ) (a : ℕ)
      → IsBounded db
      → build_fields schema.index_field [] db.next ≡ some built
      → cached db.query_cache text ≡ some q
      → ¬ AllFields (λ f. ¬ (f ≡ a)) q
      → Owned db a
      → OnlyIn db schema.name a
      → (last : Database Cache) × (query_of queries parse (create_table db schema).1 text
          ≡ ready (q, last))
        × (¬ AllFields (Owned last) q)
  unfolding query_of get_table
  query_of-create_table db schema built text q a bounded good in_cache named owned sole =
      let after : Database Cache = (create_table db schema).1 in
      let gone : ¬ Owned after a =
        create_table-not-Owned db schema a built bounded owned sole good in
      let still : cached after.query_cache text ≡ some q =
        ap (λ c. cached c text) (query_cache-create_table db schema) ∙ in_cache in
      (
        record after { query_cache = touched after.query_cache text },
        rw (still, query_of) refl,
        λ all. named (
            AllFields-map (Owned after) (λ f. ¬ (f ≡ a)) q
              (λ f o same. gone (subst (Owned after) same o)) all),
      )
