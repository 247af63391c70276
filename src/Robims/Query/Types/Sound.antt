-- ===== src/Robims/Query/Types/Sound.antt =====
-- A typed query evaluates to a value of its type (robims/robims_query.cpp).
use myctk.Base.{true, false, ◌≡◌, refl, ◌∙◌, Option, some}
use myctk.Base.Int.{ℤ}
use myctk.Robims.Bitmap.{RoaringBitmap}
use myctk.Robims.Field.{FieldOperator}
use myctk.Robims.Query.{
  Fields, Optoken, op_negative, op_positive, bool, int, double, string, field, bitmap, Operand,
  Operations,
}
use myctk.Robims.Query.Calc.{
  Value, scalar_of, compared, arithmetic, calc_arithmetic, equality_arg, select_value, select_with,
  as_field, compare_field, or_field, calc_equal, calc_not_equal, calc_logical, calc,
}
use myctk.Robims.Query.Evaluate.{
  evaluate, evaluate_rest, execute, bind_value, field_value, choose, apply_unary,
}
use myctk.Robims.Query.Types.{
  QueryType, truth, real_number, ids, Calculates, plus, minus, times, divide, both, either, Answers,
  answers_ints, answers_doubles, HasType, is_truth, is_int, is_double, is_string, is_field, is_ids,
  Numeric, is_integer, is_real, Operates, Typed, TypedRest,
}
use myctk.Robims.Query.Types.Comparison.{Comparison, comparison}

module _ (roaring : RoaringBitmap) (fields : Fields roaring) where
  open fields use {doubles, Field, select}
  open doubles use {Double}
  open roaring use {Bitmap}

  -- the value that an operation gives, with its type
  abbrev pub Gives : Option (Value roaring fields) → QueryType Field → Type 0
  Gives o τ = (v : Value roaring fields) × (o ≡ some v) × HasType roaring fields v τ

  compare-numbers :
      {op : Optoken} {l r : FieldOperator} {σ ρ : QueryType Field} {u v : Value roaring fields}
      → Comparison roaring fields op l r
      → Numeric roaring fields σ
      → Numeric roaring fields ρ
      → HasType roaring fields u σ
      → HasType roaring fields v ρ
      → Gives (calc roaring fields op u v) truth
  unfolding or_field compared scalar_of
  compare-numbers c is_integer is_integer (is_int m) (is_int n) =
      (bool (c.on_ints m n), c.calc_lem (int m) (int n), is_truth _)
  compare-numbers c is_integer is_real (is_int m) (is_double e) =
      (bool (c.on_doubles (doubles.of_int m) e), c.calc_lem (int m) (double e), is_truth _)
  compare-numbers c is_real is_integer (is_double d) (is_int n) =
      (bool (c.on_doubles d (doubles.of_int n)), c.calc_lem (double d) (int n), is_truth _)
  compare-numbers c is_real is_real (is_double d) (is_double e) =
      (bool (c.on_doubles d e), c.calc_lem (double d) (double e), is_truth _)

  compare-left :
      {op : Optoken} {l r : FieldOperator} {ρ : QueryType Field} {f : Field}
      {v : Value roaring fields}
      → Comparison roaring fields op l r
      → Answers roaring fields f l ρ
      → HasType roaring fields v ρ
      → Gives (calc roaring fields op (field f) v) ids
  unfolding or_field compared scalar_of compare_field as_field select_with select_value
  compare-left {f = f} c (answers_ints all) (is_int n) =
      let (b, found) = all n in
      (bitmap b, c.calc_lem (field f) (int n) ∙ rw (c.arg_int n, found) refl, is_ids b)
  compare-left {f = f} c (answers_doubles all) (is_double d) =
      let (b, found) = all d in
      (bitmap b, c.calc_lem (field f) (double d) ∙ rw (c.arg_double d, found) refl, is_ids b)

  compare-right :
      {op : Optoken} {l r : FieldOperator} {σ : QueryType Field} {f : Field}
      {u : Value roaring fields}
      → Comparison roaring fields op l r
      → Answers roaring fields f r σ
      → HasType roaring fields u σ
      → Gives (calc roaring fields op u (field f)) ids
  unfolding or_field compared scalar_of compare_field as_field select_with select_value
  compare-right {f = f} c (answers_ints all) (is_int n) =
      let (b, found) = all n in
      (bitmap b, c.calc_lem (int n) (field f) ∙ rw (c.arg_int n, found) refl, is_ids b)
  compare-right {f = f} c (answers_doubles all) (is_double d) =
      let (b, found) = all d in
      (bitmap b, c.calc_lem (double d) (field f) ∙ rw (c.arg_double d, found) refl, is_ids b)

  calculate :
      {op : Optoken} (u v : Value roaring fields) (d e : Double)
      → Calculates op
      → ((f : ℤ → ℤ → Option ℤ) (g : Double → Double → Double)
          → arithmetic roaring fields f g (scalar_of roaring fields u) (scalar_of roaring fields v)
            ≡ some (double (g d e)))
      → Gives (calc roaring fields op u v) real_number
  unfolding calc calc_arithmetic
  calculate u v d e plus h = (double _, h _ doubles.plus, is_double _)
  calculate u v d e minus h = (double _, h _ doubles.minus, is_double _)
  calculate u v d e times h = (double _, h _ doubles.times, is_double _)
  calculate u v d e divide h = (double _, h _ doubles.divided, is_double _)

  operate :
      {op : Optoken} {σ ρ τ : QueryType Field} {u v : Value roaring fields}
      → Operates roaring fields op σ ρ τ
      → HasType roaring fields u σ
      → HasType roaring fields v ρ
      → Gives (calc roaring fields op u v) τ
  unfolding calc calc_logical calc_equal calc_not_equal or_field compared scalar_of compare_field
      as_field select_with equality_arg select_value arithmetic
  operate (Operates.calculate_real_real c) (is_double d) (is_double e) =
      calculate (double d) (double e) d e c (λ f g. refl)
  operate (Operates.calculate_real_int c) (is_double d) (is_int n) =
      calculate (double d) (int n) d (doubles.of_int n) c (λ f g. refl)
  operate (Operates.calculate_int_real c) (is_int n) (is_double e) =
      calculate (int n) (double e) (doubles.of_int n) e c (λ f g. refl)
  operate (Operates.compare_numbers c i j) hu hv =
      compare-numbers (comparison roaring fields c) i j hu hv
  operate (Operates.compare_strings c s t) (is_string a) (is_string b) =
      let k = comparison roaring fields c in
      (bool (k.on_texts a b), k.calc_lem (string a) (string b), is_truth _)
  operate (Operates.select_left c a) (is_field f) hv =
      compare-left (comparison roaring fields c) a hv
  operate (Operates.select_right c a) hu (is_field f) =
      compare-right (comparison roaring fields c) a hu
  operate (Operates.equal_string b found) (is_field f) (is_string s) =
      (bitmap b, rw found refl, is_ids b)
  operate (Operates.not_equal_string b found) (is_field f) (is_string s) =
      (bitmap b, rw found refl, is_ids b)
  operate (Operates.join_truths both) (is_truth a) (is_truth b) = (bool _, refl, is_truth _)
  operate (Operates.join_truths either) (is_truth a) (is_truth b) = (bool _, refl, is_truth _)
  operate (Operates.join_ids both) (is_ids a) (is_ids b) = (bitmap _, refl, is_ids _)
  operate (Operates.join_ids either) (is_ids a) (is_ids b) = (bitmap _, refl, is_ids _)

  negate :
      {v : Value roaring fields}
      → HasType roaring fields v real_number
      → Gives (apply_unary roaring fields op_negative v) real_number
  unfolding apply_unary scalar_of
  negate (is_double d) = (double _, refl, is_double _)

  keep :
      {v : Value roaring fields} {τ : QueryType Field}
      → Numeric roaring fields τ
      → HasType roaring fields v τ
      → Gives (apply_unary roaring fields op_positive v) τ
  unfolding apply_unary scalar_of
  keep is_integer (is_int n) = (int n, refl, is_int n)
  keep is_real (is_double d) = (double d, refl, is_double d)

  chosen :
      {c : Value roaring fields} {τ : QueryType Field} (x y : Option (Value roaring fields))
      → HasType roaring fields c truth
      → Gives x τ
      → Gives y τ
      → Gives (choose roaring fields x y c) τ
  unfolding choose
  chosen x y (is_truth true) hx hy = hx
  chosen x y (is_truth false) hx hy = hy

  bound :
      {σ τ : QueryType Field} (o : Option (Value roaring fields))
      (k : Value roaring fields → Option (Value roaring fields))
      → Gives o σ
      → ((v : Value roaring fields) → HasType roaring fields v σ → Gives (k v) τ)
      → Gives (bind_value roaring fields o k) τ
  unfolding bind_value
  bound o k (v, is_so, h) next = let (w, done, t) = next v h in (w, rw is_so done, t)

  mutual
    unfolding evaluate field_value

    evaluate-Typed :
        (x : Operand Double Field) {τ : QueryType Field}
        → Typed roaring fields x τ
        → Gives (evaluate roaring fields x) τ
    evaluate-Typed _ (Typed.int_literal n) = (int n, refl, is_int n)
    evaluate-Typed _ (Typed.double_literal d) = (double d, refl, is_double d)
    evaluate-Typed _ (Typed.bool_literal b) = (bool b, refl, is_truth b)
    evaluate-Typed _ (Typed.string_literal s) = (string s, refl, is_string s)
    evaluate-Typed _ (Typed.variable v f) = (field f, refl, is_field f)
    evaluate-Typed _ (Typed.negative {x} h) =
        bound (evaluate roaring fields x) _ (evaluate-Typed x h) (λ v. negate)
    evaluate-Typed _ (Typed.positive {x} n h) =
        bound (evaluate roaring fields x) _ (evaluate-Typed x h) (λ v. keep n)
    evaluate-Typed _ (Typed.cond_expr {x} {y} {z} hx hy hz) =
        bound (evaluate roaring fields x) _ (evaluate-Typed x hx) (λ v t.
          chosen (evaluate roaring fields y) (evaluate roaring fields z) t (evaluate-Typed y hy)
            (evaluate-Typed z hz))
    evaluate-Typed _ (Typed.expression {x} {rest} hx hr) =
        bound (evaluate roaring fields x) _ (evaluate-Typed x hx)
          (λ v t. evaluate_rest-Typed rest v hr t)

    evaluate_rest-Typed :
        (rest : Operations Double Field) (u : Value roaring fields) {σ τ : QueryType Field}
        → TypedRest roaring fields rest σ τ
        → HasType roaring fields u σ
        → Gives (evaluate_rest roaring fields rest u) τ
    evaluate_rest-Typed _ u TypedRest.end hu = (u, refl, hu)
    evaluate_rest-Typed _ u (TypedRest.operation {op} {x} {rest} hx o hr) hu =
        bound (evaluate roaring fields x) _ (evaluate-Typed x hx) (λ v hv.
          bound (calc roaring fields op u v) _ (operate o hu hv)
            (λ w hw. evaluate_rest-Typed rest w hr hw))

  -- A query that is typed evaluates, without undefined behaviour and without an error, to a value of
  -- its type: so one of type ids to a bitmap.
  pub execute-Typed :
      (x : Operand Double Field) {τ : QueryType Field}
      → Typed roaring fields x τ
      → Gives (execute roaring fields (some x)) τ
  unfolding execute
  execute-Typed x h = evaluate-Typed x h
