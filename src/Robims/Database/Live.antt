-- ===== src/Robims/Database/Live.antt =====
-- What the cached queries of a database point to while tables are created and queries run
-- (robims/robims_db_impl.cpp).
use myctk.Base.{
  ℕ, ◌≡◌, refl, ap, sym, subst, ◌∙◌, inl, inr, [], Option, none, some, Option-cases, Bool-cases,
}
use myctk.Base.Name.{Name, ◌=s◌, =s_iff, find, assign, find-assign}
use myctk.Robims.Query.{Operand}
use myctk.Robims.Query.Init.{Initialized, ready, failed, init_query}
use myctk.Robims.Database.{
  TableSchema, Table, build_fields, get_field, QueryCache, Database, get_table, create_table,
}
use myctk.Robims.Database.Select.{query_of}
use myctk.Robims.Database.Owned.{AllFields, AllFields-map, Owned, ready_inj, init_query-Owned}

-- a table that is assigned under another name is still there
Owned-assign :
    {C : Type 0} (db : Database C) (name : Name) (table : Table) (next : ℕ) (a : ℕ)
    → get_table db name ≡ none
    → Owned db a
    → Owned (record db { tables = assign name table db.tables; next = next }) a
unfolding get_table
Owned-assign db name table next a fresh (t, f, s, here, there) = (
  t,
  f,
  s,
  find-assign name t table db.tables ∙ elim (Bool-cases (t =s name)) [
    | inl same ↦ cc (ap (λ k. find k db.tables) ((=s_iff t name).0 same), fresh, here)
    | inr other ↦ rw other here
  ],
  there,
)

create_table-Owned :
    {C : Type 0} (db : Database C) (schema : TableSchema) (a : ℕ)
    → get_table db schema.name ≡ none
    → Owned db a
    → Owned (create_table db schema).1 a
unfolding create_table
create_table-Owned db schema a fresh h =
    elim (Option-cases (build_fields schema.index_field [] db.next)) [
      | inl bad ↦ rw (bad, create_table) h
      | inr ((fields, next), built) ↦
          rw (built, create_table)
            (Owned-assign db schema.name (record { fields = fields }) next a fresh h)
    ]

pub query_cache-create_table :
    {C : Type 0} (db : Database C) (schema : TableSchema)
    → (create_table db schema).1.query_cache ≡ db.query_cache
unfolding create_table
query_cache-create_table db schema =
    elim (Option-cases (build_fields schema.index_field [] db.next)) [
      | inl bad ↦ rw (bad, create_table) refl
      | inr ((fields, next), built) ↦ rw (built, create_table) refl
    ]

module _ {D : Type 0} (queries : QueryCache (Operand D ℕ))
    (parse : Name → Option (Operand D ℕ)) where
  open queries use {Cache, cached, touched, insert, cached-touched, cached-insert}

  -- the fields of every cached query belong to tables that are there
  abbrev pub IsLive : Database Cache → Type 0
  IsLive db =
      (text : Name) (q : Operand D ℕ) → cached db.query_cache text ≡ some q → AllFields (Owned db) q

  -- a Select with a query that is cached or parsed, and a CreateTable of a name that is not there
  pub data Step (db : Database Cache) : Database Cache → Type 0 where
    select_step :
        (text : Name) (q : Operand D ℕ) (after : Database Cache)
        → query_of queries parse db text ≡ ready (q, after)
        → Step db after
    create_step :
        (schema : TableSchema)
        → get_table db schema.name ≡ none
        → Step db (create_table db schema).1

  pub data Reach (db : Database Cache) : Database Cache → Type 0 where
    here : Reach db db
    next : {b c : Database Cache} → Reach db b → Step b c → Reach db c

  tables_same :
      (db : Database Cache) (c : Cache) (q : Operand D ℕ)
      → AllFields (Owned db) q
      → AllFields (Owned (record db { query_cache = c })) q
  unfolding get_table
  tables_same db c q h =
      AllFields-map (Owned db) (Owned (record db { query_cache = c })) q (λ a o. o) h

  insert-IsLive :
      (db : Database Cache) (text : Name) (q : Operand D ℕ)
      → IsLive db
      → AllFields (Owned db) q
      → IsLive (record db { query_cache = insert db.query_cache text q })
  insert-IsLive db text q live h k p in_cache =
      tables_same db (insert db.query_cache text q) p
        (elim (cached-insert db.query_cache text k q) [
          | inl kept ↦ live k p (sym kept ∙ in_cache)
          | inr (inl lost) ↦ cc (lost, in_cache)
          | inr (inr (same, new)) ↦
              let e : q ≡ p = cc (new, in_cache) in subst (AllFields (Owned db)) e h
        ])

  -- what Select is to run, with the database that it leaves
  abbrev RunsLive : Operand D ℕ × Database Cache → Type 0
  RunsLive p = AllFields (Owned p.1) p.0 × IsLive p.1

  ready-RunsLive :
      (p r : Operand D ℕ × Database Cache) → ready p ≡ ready r → RunsLive p → RunsLive r
  ready-RunsLive p r h = subst RunsLive (ready_inj p r h)

  touched-IsLive :
      (db : Database Cache) (text : Name)
      → IsLive db
      → IsLive (record db { query_cache = touched db.query_cache text })
  touched-IsLive db text live k p in_cache =
      tables_same db (touched db.query_cache text) p
        (live k p (sym (cached-touched db.query_cache text k) ∙ in_cache))

  parsed-RunsLive :
      (db : Database Cache) (text : Name) (m : Initialized (Operand D ℕ))
      (r : Operand D ℕ × Database Cache)
      → IsLive db
      → init_query (get_table db) get_field (parse text) ≡ m
      → (elim m as (λ x. Initialized (Operand D ℕ × Database Cache)) [
        | failed e ↦ failed e
        | ready query ↦ ready (query, record db { query_cache = insert db.query_cache text query })
      ])
        ≡ ready r
      → RunsLive r
  parsed-RunsLive db text (failed e) r live is_so h = cc h
  parsed-RunsLive db text (ready p) r live is_so h =
      let owned = init_query-Owned db (parse text) p is_so in
      ready-RunsLive (p, record db { query_cache = insert db.query_cache text p }) r h
        (tables_same db (insert db.query_cache text p) p owned, insert-IsLive db text p live owned)

  query_of-IsLive :
      (db : Database Cache) (text : Name) (q : Operand D ℕ) (after : Database Cache)
      → IsLive db
      → query_of queries parse db text ≡ ready (q, after)
      → AllFields (Owned after) q × IsLive after
  unfolding query_of
  query_of-IsLive db text q after live h = elim (Option-cases (cached db.query_cache text)) [
    | inl miss ↦
        parsed-RunsLive db text (init_query (get_table db) get_field (parse text)) (q, after) live
          refl (rw (miss, query_of) at h)
    | inr (p, hit) ↦
        ready-RunsLive (p, record db { query_cache = touched db.query_cache text }) (q, after)
          (rw (hit, query_of) at h)
          (
            tables_same db (touched db.query_cache text) p (live text p hit),
            touched-IsLive db text live,
          )
  ]

  Step-IsLive : {db after : Database Cache} → Step db after → IsLive db → IsLive after
  Step-IsLive {db} (select_step text q after h) live = (query_of-IsLive db text q after live h).1
  Step-IsLive {db} (create_step schema fresh) live = λ k p in_cache.
      AllFields-map (Owned db) (Owned (create_table db schema).1) p
        (λ a. create_table-Owned db schema a fresh)
        (live k p (sym (ap (λ c. cached c k) (query_cache-create_table db schema)) ∙ in_cache))

  Reach-IsLive : {db after : Database Cache} → Reach db after → IsLive db → IsLive after
  Reach-IsLive here live = live
  Reach-IsLive (next r step) live = Step-IsLive step (Reach-IsLive r live)

  -- However many tables of new names are created and queries run on a database whose cache is empty,
  -- every field in the query that the next Select is to run, cached or not, is one of a table that
  -- is there.
  pub query_of-Owned :
      (db after last : Database Cache) (text : Name) (q : Operand D ℕ)
      → ((k : Name) → cached db.query_cache k ≡ none)
      → Reach db after
      → query_of queries parse after text ≡ ready (q, last)
      → AllFields (Owned last) q
  query_of-Owned db after last text q empty r h =
      (query_of-IsLive after text q last (Reach-IsLive r (λ k p in_cache. cc (empty k, in_cache)))
        h).0
