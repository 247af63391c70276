-- ===== src/Robims/Database/Tests.antt =====
-- A database of one table with one field (robims/robims_db_impl.cpp).
use myctk.Base.{
  ℕ, suc, ◌≤◌, ◌≡◌, refl, ap, sym, ◌∙◌, Bool, true, false, ◌⊎◌, inl, inr, List, [], ◌∷◌, take, drop,
  Option, none, some, Bool-cases, arith,
}
use myctk.Base.Int.{pos, negsuc}
use myctk.Base.Name.{Name, ◌=s◌, =s_iff, find, assign, find-assign}
use myctk.Robims.Bitmap.Flags.{flags, Flags, cons_if, indices}
use myctk.Robims.Bsi.Options.{int_index}
use myctk.Robims.IdMapping.{SimpleIdMapping, get_id, find_id}
use myctk.Robims.Query.{Operand, variable, expression, end}
use myctk.Robims.Query.Init.{
  ready, init_query, initialize, initialize_rest, initialize_variable, and_then,
}
use myctk.Robims.Database.{
  TableSchema, Table, build_field, build_fields, get_field, QueryCache, Database, get_table,
  create_table,
}
use myctk.Robims.Database.Select.{query_of, Ascending, RangeArray, real_id, page_limit, select_page}
use myctk.Robims.Database.Pages.{select_page-exact}
use myctk.Robims.Database.Owned.{VariableField, AllFields, AllFieldsRest, Owned}
use myctk.Robims.Database.Live.{Reach, here, next, select_step, create_step, query_of-Owned}
use myctk.Robims.Database.Stale.{OnlyIn, query_of-create_table}

-- the first id, if there is one, is not below n
AtLeast : ℕ → List ℕ → Type 0
AtLeast n [] = Unit {0}
AtLeast n (x ∷ xs) = n ≤ x

cons_if-Ascending :
    (b : Bool) (n : ℕ) (xs : List ℕ)
    → Ascending xs
    → AtLeast (suc n) xs
    → Ascending (cons_if b n xs) × AtLeast n (cons_if b n xs)
unfolding AtLeast
cons_if-Ascending true n [] h low = (tt, omega arith)
cons_if-Ascending true n (x ∷ xs) h low = ((omega arith, h), omega arith)
cons_if-Ascending false n [] h low = (tt, tt)
cons_if-Ascending false n (x ∷ xs) h low = (h, omega arith)

indices-Ascending : (n : ℕ) (f : Flags) → Ascending (indices n f) × AtLeast n (indices n f)
unfolding AtLeast
indices-Ascending n [] = (tt, tt)
indices-Ascending n (b ∷ bs) =
    let (up, low) = indices-Ascending (suc n) bs in
    cons_if-Ascending b n (indices (suc n) bs) up low

abbrev ranges : RangeArray flags
ranges = record {
  range_uint32_array = λ f offset limit. take limit (drop offset (indices 0 f));
  range_uint32_array_lem = λ f offset limit. refl;
  ascending = λ f. (indices-Ascending 0 f).0;
}

abbrev mapping : SimpleIdMapping
mapping = record {
  real_local_mapping = (b'a' ∷ [], 0) ∷ (b'b' ∷ [], 2) ∷ [];
  local_real_mapping = (0, b'a' ∷ []) ∷ (2, b'b' ∷ []) ∷ [];
  id_seed = 3;
}

-- the ids 0 and 2, of which the local id 0 is the first
select_page-exact_example :
    ((select_page flags ranges mapping (true ∷ false ∷ true ∷ []) (negsuc 4) (pos 0)).ids
      ≡ (b'a' ∷ []) ∷ (b'b' ∷ []) ∷ [])
    × ((select_page flags ranges mapping (true ∷ false ∷ true ∷ []) (negsuc 4) (pos 0)).total ≡ 2)
unfolding real_id page_limit get_id find_id
select_page-exact_example =
    select_page-exact flags ranges mapping (true ∷ false ∷ true ∷ []) (negsuc 4) (pos 0)

abbrev TestQuery : Type 0
TestQuery = Operand ℕ ℕ

cached-assign :
    (c : List (Name × TestQuery)) (k j : Name) (q : TestQuery)
    → (find j (assign k q c) ≡ find j c)
      ⊎ ((find j (assign k q c) ≡ none) ⊎ ((j ≡ k) × (find j (assign k q c) ≡ some q)))
cached-assign c k j q = elim (Bool-cases (j =s k)) [
  | inl same ↦ inr (inr ((=s_iff j k).0 same, find-assign k j q c ∙ rw same refl))
  | inr other ↦ inl (find-assign k j q c ∙ rw other refl)
]

-- a cache that throws nothing out
abbrev cache : QueryCache TestQuery
cache = record {
  Cache = List (Name × TestQuery);
  cached = λ c k. find k c;
  touched = λ c k. c;
  insert = λ c k q. assign k q c;
  cached-touched = λ c k j. refl;
  cached-insert = cached-assign;
}

abbrev people : Name
people = b'p' ∷ []

abbrev age : Name
age = b'a' ∷ []

abbrev schema : TableSchema
schema = record { name = people; index_field = (age, int_index) ∷ [] }

-- every text is the query for `p.a`
abbrev parsed : Name → Option TestQuery
parsed text = some (variable (people ∷ age ∷ []) none)

abbrev empty_db : Database (List (Name × TestQuery))
empty_db = record { tables = []; query_cache = []; next = 0 }

abbrev table_at : ℕ → Table
table_at a = record { fields = (age, a) ∷ [] }

abbrev query_at : ℕ → TestQuery
query_at a = expression (variable (people ∷ age ∷ []) (some a)) end

abbrev with_table : Database (List (Name × TestQuery))
with_table = record { tables = (people, table_at 0) ∷ []; query_cache = []; next = 1 }

abbrev with_query : Database (List (Name × TestQuery))
with_query = record with_table { query_cache = (age, query_at 0) ∷ [] }

created : (create_table empty_db schema) ≡ (pos 0, with_table)
unfolding create_table build_fields build_field assign
created = refl

queried : query_of cache parsed with_table age ≡ ready (query_at 0, with_query)
unfolding query_of init_query initialize initialize_rest initialize_variable and_then get_table
    get_field find assign ◌=s◌
queried = refl

again : query_of cache parsed with_query age ≡ ready (query_at 0, with_query)
unfolding query_of find ◌=s◌
again = refl

reached : Reach cache parsed empty_db with_query
unfolding get_table find create_table build_fields build_field assign
reached =
    next (next here (create_step schema refl)) (select_step age (query_at 0) with_query queried)

query_of-Owned_example : AllFields (Owned with_query) (query_at 0)
query_of-Owned_example =
    query_of-Owned cache parsed empty_db with_query with_query age (query_at 0)
      (unfold find in λ k. refl) reached again

find-single :
    {V : Type 0} (k j : Name) (v w : V) → find k ((j, v) ∷ []) ≡ some w → (k ≡ j) × (v ≡ w)
unfolding find
find-single k j v w h = elim (Bool-cases (k =s j)) [
  | inl same ↦ ((=s_iff k j).0 same, cc (rw same at h))
  | inr other ↦ cc (rw other at h)
]

owned_lem : (a : ℕ) → Owned with_query a → a ≡ 0
unfolding get_table get_field
owned_lem a (t, f, table, at, there) =
    let (_, is_it) = find-single t people (table_at 0) table at in
    let there0 : find f ((age, 0) ∷ []) ≡ some a = ap (λ s. find f s.fields) is_it ∙ there in
    sym (find-single f age 0 a there0).1

only_people : OnlyIn with_query people 0
unfolding get_table
only_people t f table at there = (find-single t people (table_at 0) table at).0

query_of-create_table_example :
    (last : Database (List (Name × TestQuery))) × (query_of cache parsed
        (create_table with_query schema).1
        age
      ≡ ready (query_at 0, last))
    × (¬ AllFields (Owned last) (query_at 0))
query_of-create_table_example =
    query_of-create_table cache parsed with_query schema ((age, 1) ∷ [], 2) age (query_at 0) 0
      (λ a o. omega (arith, owned_lem a o)) (unfold build_fields build_field assign in refl)
      (unfold find ◌=s◌ in refl) (unfold AllFields VariableField AllFieldsRest in λ all. all.0 refl)
      (unfold get_table get_field find ◌=s◌ in (people, age, table_at 0, refl, refl)) only_people
