-- ===== src/Robims/Database/Select.antt =====
-- RobimsDBImpl::Select (robims/robims_db_impl.cpp). What stands at the addresses of the fields, and with
-- it each field's Select, is an argument; so are the parser of queries and the bitmap calls of
-- CRoaring. That these fail for want of memory is not modelled.
use myctk.Base.{
  ℕ, zero, suc, ◌-◌, ◌<◌, ◌≡◌, Bool, not, ◌&&◌, ◌||◌, List, [], ◌∷◌, ◌++◌, take, drop, length,
  replicate, ltb, ◌==◌, if◌then◌else◌, Option, none, some,
}
use myctk.Base.Int.{ℤ, pos, negsuc, pos_part}
use myctk.Base.Name.{Name}
use myctk.Robims.Bitmap.{RoaringBitmap}
use myctk.Robims.Field.{FieldOperator, FieldArg, Selection}
use myctk.Robims.Query.{Doubles, Fields, QueryValue, bitmap, Operand}
use myctk.Robims.Query.Evaluate.{execute}
use myctk.Robims.Query.Init.{Initialized, ready, failed, init_query}
use myctk.Robims.IdMapping.{SimpleIdMapping, get_id}
use myctk.Robims.Database.{QueryCache, Database, get_table, get_field}

module _ {Double : Type 0} (queries : QueryCache (Operand Double ℕ))
    (parse : Name → Option (Operand Double ℕ)) where
  open queries use {Cache, cached, touched, insert}

  -- the query of a text, from the cache or by Init
  unfoldable pub query_of : Database Cache → Name → Initialized (Operand Double ℕ × Database Cache)
  query_of db text = elim (cached db.query_cache text) [
    | some query ↦ ready (query, record db { query_cache = touched db.query_cache text })
    | none ↦ elim (init_query (get_table db) get_field (parse text)) [
      | failed e ↦ failed e
      | ready query ↦ ready (query, record db { query_cache = insert db.query_cache text query })
    ]
  ]

-- SelectResult
pub record SelectResult : Type 0 where
  pub ids : List Name
  pub total : ℕ

abbrev pub empty_result : SelectResult
empty_result = record { ids = []; total = 0 }

-- each id is below those behind it
abbrev pub Ascending : List ℕ → Type 0
Ascending [] = Unit {0}
Ascending (x ∷ []) = Unit {0}
Ascending (x ∷ y ∷ xs) = (x < y) × Ascending (y ∷ xs)

-- roaring_bitmap_range_uint32_array: the ids of the bitmap from a place on, as many as asked for
pub record RangeArray (roaring : RoaringBitmap) : Type 0 where
  pub range_uint32_array : roaring.Bitmap → ℕ → ℕ → List ℕ
  pub range_uint32_array_lem :
      (b : roaring.Bitmap) (offset limit : ℕ)
      → range_uint32_array b offset limit ≡ take limit (drop offset (roaring.to_uint32_array b))
  pub ascending : (b : roaring.Bitmap) → Ascending (roaring.to_uint32_array b)

-- the id that a local id stands for, and an empty one if there is none
unfoldable pub real_id : SimpleIdMapping → ℕ → Name
real_id mapping id = elim (get_id mapping id) [ none ↦ [] | some name ↦ name ]

-- the loop of Select over the local ids, from its place `i` on; `holds_zero` is whether the bitmap
-- contains 0
unfoldable pub collect_ids : SimpleIdMapping → Bool → ℕ → ℕ → List ℕ → List Name
collect_ids mapping holds_zero offset i [] = []
collect_ids mapping holds_zero offset i (id ∷ local_ids) =
    let rest = collect_ids mapping holds_zero offset (suc i) local_ids in
    if (id == 0) && (ltb 0 i || ltb 0 offset || not holds_zero)
    then []
    else real_id mapping id ∷ rest

unfoldable pub page_limit : ℤ → ℕ
page_limit (pos zero) = 100
page_limit (pos (suc n)) = suc n
page_limit (negsuc n) = 100

-- what the call leaves in an array of `limit` zeros
unfoldable pub filled : ℕ → List ℕ → List ℕ
filled limit found = found ++ replicate (limit - length found) 0

module _ (roaring : RoaringBitmap) (ranges : RangeArray roaring) where
  open roaring use {Bitmap, contains, cardinality}
  open ranges use {range_uint32_array}

  -- Select with the bitmap that the query gave
  unfoldable pub select_page : SimpleIdMapping → Bitmap → ℤ → ℤ → SelectResult
  unfolding collect_ids filled page_limit
  select_page mapping b offset limit =
      let from = pos_part offset in
      record {
        ids =
            collect_ids mapping (contains b 0) from 0
              (filled (page_limit limit) (range_uint32_array b from (page_limit limit)));
        total = cardinality b;
      }

  module _ (doubles : Doubles) (queries : QueryCache (Operand doubles.Double ℕ))
      (select : ℕ → FieldOperator → FieldArg doubles.Double → Selection Bitmap)
      (parse : Name → Option (Operand doubles.Double ℕ)) where
    open queries use {Cache}

    -- the fields as they are now
    abbrev pub current : Fields roaring
    current = record { doubles = doubles; Field = ℕ; select = select }

    -- what Select makes of the query's value; its return code and result
    unfoldable pub answer_of :
        SimpleIdMapping → ℤ → ℤ → QueryValue doubles.Double ℕ Bitmap → ℤ × SelectResult
    answer_of mapping offset limit (bitmap b) = (pos 0, select_page mapping b offset limit)
    answer_of mapping offset limit v = (negsuc 0, empty_result)

    unfoldable pub run_query :
        SimpleIdMapping
        → ℤ
        → ℤ
        → Initialized (Operand doubles.Double ℕ × Database Cache)
        → Database Cache
        → Option ((ℤ × SelectResult) × Database Cache)
    unfolding answer_of
    run_query mapping offset limit (failed e) db = some ((negsuc 0, empty_result), db)
    run_query mapping offset limit (ready (query, after)) db =
        elim (execute roaring current (some query)) [
          | none ↦ none
          | some v ↦ some (answer_of mapping offset limit v, after)
        ]

    -- RobimsDBImpl::Select; `none` is undefined behaviour in the query's arithmetic
    unfoldable pub select_ids :
        SimpleIdMapping
        → Database Cache
        → Name
        → ℤ
        → ℤ
        → Option ((ℤ × SelectResult) × Database Cache)
    unfolding run_query
    select_ids mapping db text offset limit =
        run_query mapping offset limit (query_of queries parse db text) db
