-- ===== src/Robims/Query/Stored/Compare.antt =====
-- Comparisons of an int field with a number, in terms of the field's values (robims/robims_query.cpp,
-- robims_field_bsi.cpp, robims_bsi.cpp).
use myctk.Base.{
  ℕ, ◌+◌, ◌^◌, ◌%◌, ◌<◌, ◌≤◌, ◌≡◌, refl, ap, ◌∙◌, Bool, true, false, not, ◌||◌, Option, none, some,
  Option-cases, Bool-cases, inl, inr, ltb, leb, ◌==◌, arith,
}
use myctk.Base.Int.{ℤ, pos_part, neg_part, ◌≤ℤ◌}
use native.Mathlib.Nat.{mod-eq_of_lt}
use myctk.Base.Bits.{low-lt}
use myctk.Robims.Bitmap.{RoaringBitmap}
use myctk.Robims.Bsi.Options.{CreateOptions, to_int64, get_actual_int_val, to_local_val_int}
use myctk.Robims.Bsi.Options.Codes.{get_actual-to_local}
use myctk.Robims.Bsi.Index.{BitSliceIndex, IsWellFormed, exist, row, do_get}
use myctk.Robims.Bsi.Index.PutGet.{do_get-value, value}
use myctk.Robims.Bsi.Index.Maximum.{pow_le}
use myctk.Robims.Bsi.Index.Queries.{
  holds, do_range_eq_exact, do_range_neq_exact, do_range_gt_exact, do_range_lt_exact,
}
use myctk.Robims.Bsi.Typed.{int_get, int_range_eq, int_range_neq, int_range_lt, int_range_gt}
use myctk.Robims.Field.{
  FieldOperator, field_op_eq, field_op_neq, field_op_gt, field_op_gte, field_op_lte, int_arg,
  selected, int_field_select, select_int,
}
use myctk.Robims.Query.Numbers.{equal_ints, less_ints, at_most_ints}

-- the comparisons that the index answers exactly; `<` is not one of them
pub data IntTest : Type 0 where
  equals differs exceeds at_least no_more : IntTest

unfoldable pub meets : IntTest → ℤ → ℤ → Bool
meets equals n m = equal_ints m n
meets differs n m = not (equal_ints m n)
meets exceeds n m = less_ints n m
meets at_least n m = at_most_ints n m
meets no_more n m = at_most_ints m n

abbrev pub field_operator : IntTest → FieldOperator
field_operator equals = field_op_eq
field_operator differs = field_op_neq
field_operator exceeds = field_op_gt
field_operator at_least = field_op_gte
field_operator no_more = field_op_lte

-- a test on an id's value, false if it has none
unfoldable pub holds_int : (ℤ → Bool) → Option ℤ → Bool
holds_int p none = false
holds_int p (some v) = p v

-- the same test on local values
abbrev local_test : IntTest → ℕ → ℕ → Bool
local_test equals e v = v == e
local_test differs e v = not (v == e)
local_test exceeds e v = ltb e v
local_test at_least e v = leb e v
local_test no_more e v = leb v e

get_actual-parts :
    (o : CreateOptions) (v : ℕ)
    → v < 2 ^ 63
    → pos_part (get_actual_int_val o v) + neg_part o.min_int
      ≡ neg_part (get_actual_int_val o v) + v + pos_part o.min_int
unfolding get_actual_int_val to_int64
get_actual-parts o v h = ground arith

local_test-meets :
    (t : IntTest) (o : CreateOptions) (n : ℤ) (v : ℕ)
    → v < 2 ^ 63
    → to_local_val_int o n + pos_part o.min_int + neg_part n ≡ pos_part n + neg_part o.min_int
    → local_test t (to_local_val_int o n) v ≡ meets t n (get_actual_int_val o v)
unfolding meets equal_ints less_ints at_most_ints
local_test-meets equals o n v h l = ground (arith, get_actual-parts o v h)
local_test-meets differs o n v h l = ground (arith, get_actual-parts o v h)
local_test-meets exceeds o n v h l = ground (arith, get_actual-parts o v h)
local_test-meets at_least o n v h l = ground (arith, get_actual-parts o v h)
local_test-meets no_more o n v h l = ground (arith, get_actual-parts o v h)

module _ (roaring : RoaringBitmap) where
  open roaring use {Bitmap, contains, create, is_empty, is_empty_iff, contains-create}

  -- an int that the index can hold
  abbrev pub InRange : BitSliceIndex roaring → ℤ → Type 0
  InRange s n =
      (s.options.min_int ≤ℤ n)
      × (pos_part n + neg_part s.options.min_int
          < 2 ^ s.bit_depth + pos_part s.options.min_int + neg_part n)

  do_get-lt :
      (s : BitSliceIndex roaring) (x v : ℕ) → do_get roaring s x ≡ some v → v < 2 ^ s.bit_depth
  do_get-lt s x v h = elim (Bool-cases (contains (exist roaring s) x)) [
    | inl there ↦
        let is_it : do_get roaring s x ≡ some (value roaring s x) =
          do_get-value roaring s x ∙ rw there refl in
        let same : value roaring s x ≡ v = cc (is_it, h) in
        omega (arith, same, low-lt (λ i. contains (row roaring s i) x) s.bit_depth)
    | inr away ↦
        let nothing : do_get roaring s x ≡ none = do_get-value roaring s x ∙ rw away refl in
        cc (nothing, h)
  ]

  holds-holds_int :
      (t : IntTest) (s : BitSliceIndex roaring) (n : ℤ) (x : ℕ)
      → IsWellFormed roaring s
      → InRange s n
      → holds (local_test t (to_local_val_int s.options n)) (do_get roaring s x)
        ≡ holds_int (meets t n) (int_get roaring s x)
  unfolding holds_int int_get
  holds-holds_int t s n x w (low, high) =
      let room : 2 ^ s.bit_depth ≤ 2 ^ 63 = pow_le s.bit_depth 63 (omega (arith, w.narrow)) in
      let (local, _) = get_actual-to_local s.options n low (omega arith) in
      elim (Option-cases (do_get roaring s x)) [
        | inl nothing ↦ rw (nothing, int_get) refl
        | inr (v, here) ↦
            let below : v < 2 ^ 63 = omega (arith, do_get-lt s x v here) in
            rw (here, int_get) (local_test-meets t s.options n v below local)
      ]

  to_local-mod :
      (s : BitSliceIndex roaring) (n : ℤ)
      → IsWellFormed roaring s
      → InRange s n
      → to_local_val_int s.options n % 2 ^ s.bit_depth ≡ to_local_val_int s.options n
  to_local-mod s n w (low, high) =
      let room : 2 ^ s.bit_depth ≤ 2 ^ 63 = pow_le s.bit_depth 63 (omega (arith, w.narrow)) in
      let (local, _) = get_actual-to_local s.options n low (omega arith) in
      mod-eq_of_lt (omega arith)

  unrestricted : (b : Bool) → (is_empty create || b) ≡ true
  unrestricted b = let e = (is_empty_iff create).1 contains-create in rw e refl

  -- the bitmap that Select gives for a test
  abbrev tested : IntTest → BitSliceIndex roaring → ℤ → Bitmap
  tested equals s n = int_range_eq roaring s n create
  tested differs s n = int_range_neq roaring s n create
  tested exceeds s n = int_range_gt roaring s n false create
  tested at_least s n = int_range_gt roaring s n true create
  tested no_more s n = int_range_lt roaring s n true create

  tested-local :
      (t : IntTest) (s : BitSliceIndex roaring) (n : ℤ) (x : ℕ)
      → 0 < s.bit_depth
      → contains (tested t s n) x
        ≡ holds (local_test t (to_local_val_int s.options n % 2 ^ s.bit_depth)) (do_get roaring s x)
  unfolding int_range_eq int_range_neq int_range_gt int_range_lt
  tested-local equals s n x deep =
      do_range_eq_exact roaring s x (to_local_val_int s.options n) create
      ∙ rw (unrestricted (contains create x)) refl
  tested-local differs s n x deep =
      do_range_neq_exact roaring s x (to_local_val_int s.options n) create
  tested-local exceeds s n x deep =
      do_range_gt_exact roaring s x (to_local_val_int s.options n) false create deep
      ∙ rw (unrestricted (contains create x)) refl
  tested-local at_least s n x deep =
      do_range_gt_exact roaring s x (to_local_val_int s.options n) true create deep
      ∙ rw (unrestricted (contains create x)) refl
  tested-local no_more s n x deep =
      do_range_lt_exact roaring s x (to_local_val_int s.options n) true create deep
      ∙ rw (unrestricted (contains create x)) refl

  int_field_select-tested :
      (Double : Type 0) (t : IntTest) (s : BitSliceIndex roaring) (n : ℤ)
      → int_field_select roaring {Double = Double} s (field_operator t) (int_arg n)
        ≡ selected (tested t s n)
  unfolding int_field_select select_int
  int_field_select-tested Double equals s n = refl
  int_field_select-tested Double differs s n = refl
  int_field_select-tested Double exceeds s n = refl
  int_field_select-tested Double at_least s n = refl
  int_field_select-tested Double no_more s n = refl

  -- Select of an int field gives for each of the tests the ids with a value that meets it.
  pub int_field_select-exact :
      (Double : Type 0) (t : IntTest) (s : BitSliceIndex roaring) (n : ℤ)
      → IsWellFormed roaring s
      → 0 < s.bit_depth
      → InRange s n
      → (b : Bitmap) × (int_field_select roaring {Double = Double} s (field_operator t) (int_arg n)
          ≡ selected b)
        × ((x : ℕ) → contains b x ≡ holds_int (meets t n) (int_get roaring s x))
  int_field_select-exact Double t s n w deep range = (
    tested t s n,
    int_field_select-tested Double t s n,
    λ x.
        tested-local t s n x deep
        ∙ ap (λ e. holds (local_test t e) (do_get roaring s x)) (to_local-mod s n w range)
        ∙ holds-holds_int t s n x w range,
  )
