-- ===== src/Robims/Database.antt =====
-- RobimsDBImpl (robims/robims_db_impl.cpp, robims_db_impl.h): the tables with the fields that they own
-- (robims/robims_table.cpp, robims_field.cpp) and the cache of queries. A `RobimsField*` is an address.
-- folly::EvictingCacheMap is not part of the repository.
use myctk.Base.{ℕ, suc, ◌≡◌, ◌⊎◌, List, [], ◌∷◌, Option, none, some}
use myctk.Base.Int.{ℤ, pos, negsuc}
use myctk.Base.Name.{Name, find, assign}
use myctk.Robims.Bsi.Options.{
  FieldIndexType, unknown_index, set_index, weight_set_index, mutex_index, int_index, float_index,
  bool_index,
}
pub mod Select
pub mod Pages
pub mod Owned
pub mod Live
pub mod Stale
mod Tests

pub record TableSchema : Type 0 where
  pub name : Name
  pub index_field : List (Name × FieldIndexType)

-- RobimsTable's `_fields`
pub record Table : Type 0 where
  pub fields : List (Name × ℕ)

-- RobimsFieldBuilder::Build: the new field's address, unless its type is unknown
unfoldable pub build_field : ℕ → FieldIndexType → Option ℕ
build_field next int_index = some next
build_field next float_index = some next
build_field next bool_index = some next
build_field next set_index = some next
build_field next mutex_index = some next
build_field next weight_set_index = some next
build_field next unknown_index = none

-- the loop of RobimsTable::Init; the addresses from `next` on are free, and those that stay so are the
-- second result
unfoldable pub build_fields :
    List (Name × FieldIndexType) → List (Name × ℕ) → ℕ → Option (List (Name × ℕ) × ℕ)
build_fields [] fields next = some (fields, next)
build_fields ((name, index_type) ∷ metas) fields next =
    let rest = build_fields metas (assign name next fields) (suc next) in
    elim (build_field next index_type) [ none ↦ none | some f ↦ rest ]

-- RobimsTable::GetField
unfoldable pub get_field : Table → Name → Option ℕ
get_field t name = find name t.fields

-- folly::EvictingCacheMap: the queries by its text: what `insert` may throw out is left open
pub record QueryCache (Query : Type 0) : Type 1 where
  pub Cache : Type 0
  pub cached : Cache → Name → Option Query
  -- `find` changes the order in which entries are thrown out
  pub touched : Cache → Name → Cache
  pub insert : Cache → Name → Query → Cache
  pub cached-touched : (c : Cache) (k j : Name) → cached (touched c k) j ≡ cached c j
  pub cached-insert :
      (c : Cache) (k j : Name) (q : Query)
      → (cached (insert c k q) j ≡ cached c j)
        ⊎ ((cached (insert c k q) j ≡ none) ⊎ ((j ≡ k) × (cached (insert c k q) j ≡ some q)))

-- the part of a RobimsDBImpl that Select and CreateTable work on; the addresses from `next` on have
-- never been used
pub record Database (Cache : Type 0) : Type 0 where
  pub tables : List (Name × Table)
  pub query_cache : Cache
  pub next : ℕ

module _ {Cache : Type 0} where
  unfoldable pub get_table : Database Cache → Name → Option Table
  get_table db name = find name db.tables

  -- CreateTable; the table of that name that was there before is freed, with its fields
  unfoldable pub create_table : Database Cache → TableSchema → ℤ × Database Cache
  create_table db schema = elim (build_fields schema.index_field [] db.next) [
    | none ↦ (negsuc 0, db)
    | some (fields, next) ↦
        let table : Table = record { fields = fields } in
        (pos 0, record db { tables = assign schema.name table db.tables; next = next })
  ]
