-- ===== src/Robims/Query/Stored/Formula.antt =====
-- Queries for ids, by int fields (robims/robims_query.cpp, robims_field_bsi.cpp, robims_bsi.cpp): what
-- a condition means for an id, and what its query evaluates to.
use myctk.Base.{ℕ, ◌<◌, ◌≡◌, refl, ◌∙◌, Bool, ◌&&◌, ◌||◌, List, Option, none, some}
use myctk.Base.Int.{ℤ}
use myctk.Base.Name.{Name}
use myctk.Robims.Bitmap.{RoaringBitmap}
use myctk.Robims.Bsi.Index.{IsWellFormed}
use myctk.Robims.Bsi.Typed.{int_get}
use myctk.Robims.Field.{FieldOperator, int_arg}
use myctk.Robims.Query.{
  Doubles, Fields, Optoken, op_and, op_or, QueryValue, bitmap, int, field, int_literal, variable,
}
use myctk.Robims.Query.Calc.{
  scalar_of, compared, select_value, select_with, as_field, compare_field, or_field, calc_logical,
  calc,
}
use myctk.Robims.Query.Evaluate.{evaluate, evaluate_rest, execute, bind_value, field_value}
use myctk.Robims.Query.Types.{eq, neq, gt, gte, lte}
use myctk.Robims.Query.Types.Comparison.{Comparison, comparison}
use myctk.Robims.Query.Stored.{
  RobimsField, bool_field, set_field, int_field, select_field, stored_fields,
}
use myctk.Robims.Query.Stored.Compare.{
  IntTest, equals, differs, exceeds, at_least, no_more, meets, field_operator, holds_int, InRange,
  int_field_select-exact,
}
use myctk.Robims.Query.Stored.Condition.{
  Condition, test, chain, Links, done, and_also, or_else, token, single, additive_expr,
  relational_expr, comparison_of, equality_of, operations_of, query_of,
}

module _ (roaring : RoaringBitmap) where
  open roaring use {Bitmap, contains, bitmap_and, bitmap_or, contains-and, contains-or}

  -- the value of an id in a field
  unfoldable pub value_in : RobimsField roaring → ℕ → Option ℤ
  value_in (bool_field b) x = none
  value_in (set_field bs) x = none
  value_in (int_field s) x = int_get roaring s x

  -- whether an id meets a condition; `&&` and `||` are taken from the left to the right
  unfoldable mutual
    pub meaning : (ℕ → RobimsField roaring) → Condition → ℕ → Bool
    meaning memory (test v a t n) x = holds_int (meets t n) (value_in (memory a) x)
    meaning memory (chain c links) x = links_meaning memory links x (meaning memory c x)

    pub links_meaning : (ℕ → RobimsField roaring) → Links → ℕ → Bool → Bool
    links_meaning memory done x so_far = so_far
    links_meaning memory (and_also c links) x so_far =
        links_meaning memory links x (so_far && meaning memory c x)
    links_meaning memory (or_else c links) x so_far =
        links_meaning memory links x (so_far || meaning memory c x)

  -- an int field that can hold the number
  unfoldable pub Suits : RobimsField roaring → ℤ → Type 0
  Suits (bool_field b) n = ⊥
  Suits (set_field bs) n = ⊥
  Suits (int_field s) n = IsWellFormed roaring s × (0 < s.bit_depth) × InRange roaring s n

  unfoldable mutual
    pub AllSuit : (ℕ → RobimsField roaring) → Condition → Type 0
    AllSuit memory (test v a t n) = Suits (memory a) n
    AllSuit memory (chain c links) = AllSuit memory c × LinksSuit memory links

    pub LinksSuit : (ℕ → RobimsField roaring) → Links → Type 0
    LinksSuit memory done = Unit {0}
    LinksSuit memory (and_also c links) = AllSuit memory c × LinksSuit memory links
    LinksSuit memory (or_else c links) = AllSuit memory c × LinksSuit memory links

  -- a bitmap of exactly the ids that satisfy p
  abbrev pub Selects : {D F : Type 0} → Option (QueryValue D F Bitmap) → (ℕ → Bool) → Type 0
  Selects o p = (b : Bitmap) × (o ≡ some (bitmap b)) × ((x : ℕ) → contains b x ≡ p x)

  module _ (doubles : Doubles) (tables : ℕ → Bitmap) (memory : ℕ → RobimsField roaring) where
    abbrev pub fields : Fields roaring
    fields = stored_fields roaring doubles tables memory

    calc-field :
        {op : Optoken} {l r : FieldOperator} (k : Comparison roaring fields op l r) (a : ℕ) (n : ℤ)
        → calc roaring fields op (field a) (int n)
          ≡ some (
              select_value roaring fields (
                select_field roaring {Double = doubles.Double} (tables a) (memory a) l (int_arg n)))
    unfolding or_field compared scalar_of compare_field as_field select_with
    calc-field k a n = k.calc_lem (field a) (int n) ∙ rw (k.arg_int n) refl

    calc-test :
        (t : IntTest) (a : ℕ) (n : ℤ)
        → calc roaring fields (token t) (field a) (int n)
          ≡ some (
              select_value roaring fields (
                select_field roaring {Double = doubles.Double}
                  (tables a)
                  (memory a)
                  (field_operator t)
                  (int_arg n)))
    unfolding token
    calc-test equals a n = calc-field (comparison roaring fields eq) a n
    calc-test differs a n = calc-field (comparison roaring fields neq) a n
    calc-test exceeds a n = calc-field (comparison roaring fields gt) a n
    calc-test at_least a n = calc-field (comparison roaring fields gte) a n
    calc-test no_more a n = calc-field (comparison roaring fields lte) a n

    select_field-Selects :
        (t : IntTest) (table : Bitmap) (f : RobimsField roaring) (n : ℤ)
        → Suits f n
        → Selects {D = doubles.Double} {F = ℕ}
            (some (
              select_value roaring fields (
                select_field roaring {Double = doubles.Double} table f
                  (field_operator t)
                  (int_arg n))))
            (λ x. holds_int (meets t n) (value_in f x))
    unfolding Suits select_field value_in select_value
    select_field-Selects t table (bool_field b) n h = absurd h
    select_field-Selects t table (set_field bs) n h = absurd h
    select_field-Selects t table (int_field s) n (w, deep, range) =
        let (b, found, exact) = int_field_select-exact roaring doubles.Double t s n w deep range in
        (b, rw found refl, exact)

    both-Selects :
        (u v : QueryValue doubles.Double ℕ Bitmap) (p q : ℕ → Bool)
        → Selects {D = doubles.Double} {F = ℕ} (some u) p
        → Selects {D = doubles.Double} {F = ℕ} (some v) q
        → Selects (calc roaring fields op_and u v) (λ x. p x && q x)
    unfolding calc calc_logical
    both-Selects u v p q (a, is_a, has_a) (b, is_b, has_b) =
        let e : u ≡ bitmap a = cc is_a in
        let f : v ≡ bitmap b = cc is_b in
        (bitmap_and a b, rw (e, f) refl, λ x. contains-and a b x ∙ rw (has_a x, has_b x) refl)

    either-Selects :
        (u v : QueryValue doubles.Double ℕ Bitmap) (p q : ℕ → Bool)
        → Selects {D = doubles.Double} {F = ℕ} (some u) p
        → Selects {D = doubles.Double} {F = ℕ} (some v) q
        → Selects (calc roaring fields op_or u v) (λ x. p x || q x)
    unfolding calc calc_logical
    either-Selects u v p q (a, is_a, has_a) (b, is_b, has_b) =
        let e : u ≡ bitmap a = cc is_a in
        let f : v ≡ bitmap b = cc is_b in
        (bitmap_or a b, rw (e, f) refl, λ x. contains-or a b x ∙ rw (has_a x, has_b x) refl)

    evaluate-comparison_of :
        (t : IntTest) (v : List Name) (a : ℕ) (n : ℤ) (u : QueryValue doubles.Double ℕ Bitmap)
        → calc roaring fields (token t) (field a) (int n) ≡ some u
        → evaluate roaring fields (comparison_of t (variable v (some a)) (int_literal n)) ≡ some u
    unfolding evaluate evaluate_rest bind_value field_value comparison_of token single additive_expr
        relational_expr
    evaluate-comparison_of equals v a n u e = rw e refl
    evaluate-comparison_of differs v a n u e = rw e refl
    evaluate-comparison_of exceeds v a n u e = rw e refl
    evaluate-comparison_of at_least v a n u e = rw e refl
    evaluate-comparison_of no_more v a n u e = rw e refl

    mutual
      unfolding evaluate evaluate_rest bind_value equality_of operations_of single relational_expr
          additive_expr meaning links_meaning AllSuit LinksSuit

      evaluate-Selects :
          (c : Condition)
          → AllSuit memory c
          → Selects (evaluate roaring fields (equality_of c)) (meaning memory c)
      evaluate-Selects (test v a t n) h =
          let (b, found, exact) = select_field-Selects t (tables a) (memory a) n h in
          (b, evaluate-comparison_of t v a n (bitmap b) (calc-test t a n ∙ found), exact)
      evaluate-Selects (chain c links) (h, k) =
          let (b, found, exact) = evaluate-Selects c h in
          let (d, rest, meant) =
            evaluate_rest-Selects links (bitmap b) (meaning memory c) k (b, refl, exact) in
          (d, rw found (rw rest refl), meant)

      evaluate_rest-Selects :
          (links : Links) (u : QueryValue doubles.Double ℕ Bitmap) (p : ℕ → Bool)
          → LinksSuit memory links
          → Selects {D = doubles.Double} {F = ℕ} (some u) p
          → Selects
              (evaluate_rest roaring fields (operations_of links) u)
              (λ x. links_meaning memory links x (p x))
      evaluate_rest-Selects done u p h s = s
      evaluate_rest-Selects (and_also c links) u p (h, k) s =
          let (b, found, exact) = evaluate-Selects c h in
          let (d, joined, both) =
            both-Selects u (bitmap b) p (meaning memory c) s (b, refl, exact) in
          let (e, rest, meant) =
            evaluate_rest-Selects links (bitmap d) (λ x. p x && meaning memory c x) k
              (d, refl, both) in
          (e, rw (found, joined) rest, meant)
      evaluate_rest-Selects (or_else c links) u p (h, k) s =
          let (b, found, exact) = evaluate-Selects c h in
          let (d, joined, one) =
            either-Selects u (bitmap b) p (meaning memory c) s (b, refl, exact) in
          let (e, rest, meant) =
            evaluate_rest-Selects links (bitmap d) (λ x. p x || meaning memory c x) k
              (d, refl, one) in
          (e, rw (found, joined) rest, meant)

    -- The tree that the grammar's rules nest for a condition, made of comparisons (other than `<`) of
    -- well-formed int fields of at least one bit with numbers in their range, and of `&&`, `||` and
    -- brackets, evaluates to a bitmap of exactly the ids that meet the condition, where `&&` and `||`
    -- stand in one chain and are taken from the left. An id without a value in a field meets no
    -- comparison of it.
    pub execute-Selects :
        (c : Condition)
        → AllSuit memory c
        → Selects (execute roaring fields (some (query_of c))) (meaning memory c)
    unfolding execute evaluate evaluate_rest bind_value query_of single equality_of operations_of
        meaning AllSuit
    execute-Selects (test v a t n) h =
        let (b, found, exact) = evaluate-Selects (test v a t n) h in (b, rw found refl, exact)
    execute-Selects (chain c links) (h, k) =
        let (b, found, exact) = evaluate-Selects c h in
        let (d, rest, meant) =
          evaluate_rest-Selects links (bitmap b) (meaning memory c) k (b, refl, exact) in
        (d, rw found rest, meant)
