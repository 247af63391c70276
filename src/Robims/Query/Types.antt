-- ===== src/Robims/Query/Types.antt =====
-- The types of queries, and what a query of each type evaluates to (robims/robims_query.cpp).
pub mod Comparison
pub mod Sound
use myctk.Base.{List, Bool, true, false, ◌≡◌, refl, ap, ◌∙◌, Option, none, some}
use myctk.Base.Int.{ℤ}
use myctk.Base.Name.{Name}
use myctk.Robims.Bitmap.{RoaringBitmap}
use myctk.Robims.Field.{
  FieldOperator, field_op_eq, field_op_neq, field_op_gt, field_op_gte, field_op_lt, field_op_lte,
  FieldArg, string_arg, int_arg, double_arg, Selection, selected,
}
use myctk.Robims.Query.{
  Doubles, Fields, Optoken, op_plus, op_minus, op_times, op_divide, op_positive, op_negative,
  op_equal, op_not_equal, op_less, op_less_equal, op_greater, op_greater_equal, op_and, op_or,
  op_and_not, QueryValue, error, bool, int, double, string, field, bitmap, Scalar, whole, real,
  text, other, Operand, unary, Operations,
}
use myctk.Robims.Query.Calc.{Value, calc}
use myctk.Robims.Query.Evaluate.{evaluate, evaluate_rest, bind_value}

pub data QueryType (Field : Type 0) : Type 0 where
  truth integer real_number ids : QueryType Field
  -- a string of which the text counts
  string_of : Name → QueryType Field
  field_of : Field → QueryType Field

-- the comparisons, with the operator that they pass to Select if the field is on the left, and if it
-- is on the right
pub data Compares : Optoken → FieldOperator → FieldOperator → Type 0 where
  eq : Compares op_equal field_op_eq field_op_eq
  neq : Compares op_not_equal field_op_neq field_op_neq
  lt : Compares op_less field_op_lt field_op_gt
  lte : Compares op_less_equal field_op_lte field_op_gte
  gt : Compares op_greater field_op_gt field_op_lt
  gte : Compares op_greater_equal field_op_gte field_op_lte

pub data Calculates : Optoken → Type 0 where
  plus : Calculates op_plus
  minus : Calculates op_minus
  times : Calculates op_times
  divide : Calculates op_divide

pub data Joins : Optoken → Type 0 where
  both : Joins op_and
  either : Joins op_or

module _ (roaring : RoaringBitmap) (fields : Fields roaring) where
  open fields use {doubles, Field, select}
  open doubles use {Double}
  open roaring use {Bitmap}

  -- Select of the field answers the operator for every argument of the type
  pub data Answers (f : Field) (op : FieldOperator) : QueryType Field → Type 0 where
    answers_ints :
        ((n : ℤ) → (b : Bitmap) × (select f op (int_arg n) ≡ selected b)) → Answers f op integer
    answers_doubles :
        ((d : Double) → (b : Bitmap) × (select f op (double_arg d) ≡ selected b))
        → Answers f op real_number

  pub data HasType : Value roaring fields → QueryType Field → Type 0 where
    is_truth : (b : Bool) → HasType (bool b) truth
    is_int : (n : ℤ) → HasType (int n) integer
    is_double : (d : Double) → HasType (double d) real_number
    is_string : (s : Name) → HasType (string s) (string_of s)
    is_field : (f : Field) → HasType (field f) (field_of f)
    is_ids : (b : Bitmap) → HasType (bitmap b) ids

  pub data Numeric : QueryType Field → Type 0 where
    is_integer : Numeric integer
    is_real : Numeric real_number

  -- what an operator gives on values of two types: int64_t with int64_t only in a comparison, since
  -- its arithmetic can overflow
  pub data Operates : Optoken → QueryType Field → QueryType Field → QueryType Field → Type 0 where
    calculate_real_real :
        {op : Optoken} → Calculates op → Operates op real_number real_number real_number
    calculate_real_int :
        {op : Optoken} → Calculates op → Operates op real_number integer real_number
    calculate_int_real :
        {op : Optoken} → Calculates op → Operates op integer real_number real_number
    compare_numbers :
        {op : Optoken} {l r : FieldOperator} {σ ρ : QueryType Field}
        → Compares op l r
        → Numeric σ
        → Numeric ρ
        → Operates op σ ρ truth
    compare_strings :
        {op : Optoken} {l r : FieldOperator}
        → Compares op l r
        → (s t : Name) → Operates op (string_of s) (string_of t) truth
    select_left :
        {op : Optoken} {l r : FieldOperator} {ρ : QueryType Field} {f : Field}
        → Compares op l r
        → Answers f l ρ
        → Operates op (field_of f) ρ ids
    select_right :
        {op : Optoken} {l r : FieldOperator} {σ : QueryType Field} {f : Field}
        → Compares op l r
        → Answers f r σ
        → Operates op σ (field_of f) ids
    equal_string :
        {f : Field} {s : Name} (b : Bitmap)
        → select f field_op_eq (string_arg s) ≡ selected b
        → Operates op_equal (field_of f) (string_of s) ids
    not_equal_string :
        {f : Field} {s : Name} (b : Bitmap)
        → select f field_op_neq (string_arg s) ≡ selected b
        → Operates op_not_equal (field_of f) (string_of s) ids
    join_truths : {op : Optoken} → Joins op → Operates op truth truth truth
    join_ids : {op : Optoken} → Joins op → Operates op ids ids ids

  mutual
    pub data Typed : Operand Double Field → QueryType Field → Type 0 where
      int_literal : (n : ℤ) → Typed (Operand.int_literal n) integer
      double_literal : (d : Double) → Typed (Operand.double_literal d) real_number
      bool_literal : (b : Bool) → Typed (Operand.bool_literal b) truth
      string_literal : (s : Name) → Typed (Operand.string_literal s) (string_of s)
      variable : (v : List Name) (f : Field) → Typed (Operand.variable v (some f)) (field_of f)
      negative :
          {x : Operand Double Field} → Typed x real_number → Typed (unary op_negative x) real_number
      positive :
          {x : Operand Double Field} {τ : QueryType Field}
          → Numeric τ
          → Typed x τ
          → Typed (unary op_positive x) τ
      cond_expr :
          {x y z : Operand Double Field} {τ : QueryType Field}
          → Typed x truth
          → Typed y τ
          → Typed z τ
          → Typed (Operand.cond_expr x y z) τ
      expression :
          {x : Operand Double Field} {rest : Operations Double Field} {σ τ : QueryType Field}
          → Typed x σ
          → TypedRest rest σ τ
          → Typed (Operand.expression x rest) τ

    pub data TypedRest : Operations Double Field → QueryType Field → QueryType Field → Type 0 where
      end : {τ : QueryType Field} → TypedRest Operations.end τ τ
      operation :
          {op : Optoken} {x : Operand Double Field} {rest : Operations Double Field}
          {σ ρ υ τ : QueryType Field}
          → Typed x ρ
          → Operates op σ ρ υ
          → TypedRest rest υ τ
          → TypedRest (Operations.operation op x rest) σ τ
