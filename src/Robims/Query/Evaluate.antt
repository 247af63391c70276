-- ===== src/Robims/Query/Evaluate.antt =====
-- QueryInterpreter and RobimsQuery::Execute (robims/robims_query.cpp).
use myctk.Base.{true, false, Option, none, some}
use myctk.Base.Int.{pos}
use myctk.Robims.Bitmap.{RoaringBitmap}
use myctk.Robims.Query.{
  Fields, Optoken, op_positive, op_negative, unknown_error, query_invalid_operator,
  query_invalid_operand, empty_field_instance, nil_interpreter, error, bool, int, double, string,
  field, Scalar, whole, real, text, other, Operand, nil, int_literal, double_literal, bool_literal,
  string_literal, variable, dynamic_variable, func_call, unary, cond_expr, expression, Operations,
  end, operation,
}
use myctk.Robims.Query.Numbers.{minus_ints}
use myctk.Robims.Query.Calc.{Value, scalar_of, int_value, calc}

module _ (roaring : RoaringBitmap) (fields : Fields roaring) where
  open fields use {doubles, Field}
  open doubles use {Double, minus, of_int}

  abbrev pub Query : Type 0
  Query = Operand Double Field

  unfoldable pub bind_value :
      Option (Value roaring fields)
      → (Value roaring fields → Option (Value roaring fields))
      → Option (Value roaring fields)
  bind_value none k = none
  bind_value (some v) k = k v

  unfoldable pub field_value : Option Field → Value roaring fields
  field_value none = error empty_field_instance
  field_value (some f) = field f

  -- what becomes of an operand's value under a unary operator
  unfoldable pub unary_positive : Scalar Double → Value roaring fields
  unary_positive (whole n) = int n
  unary_positive (real d) = double d
  unary_positive (text s) = error query_invalid_operand
  unary_positive other = error query_invalid_operand

  unfoldable pub unary_negative : Scalar Double → Option (Value roaring fields)
  unary_negative (whole n) = int_value roaring fields (minus_ints (pos 0) n)
  unary_negative (real d) = some (double (minus (of_int (pos 0)) d))
  unary_negative (text s) = some (error query_invalid_operand)
  unary_negative other = some (error query_invalid_operand)

  unfoldable pub apply_unary : Optoken → Value roaring fields → Option (Value roaring fields)
  unfolding unary_positive unary_negative
  apply_unary op_positive v = some (unary_positive (scalar_of roaring fields v))
  apply_unary op_negative v = unary_negative (scalar_of roaring fields v)
  apply_unary op v = some (error query_invalid_operator)

  -- a test that is no truth value is the result
  unfoldable pub choose :
      Option (Value roaring fields)
      → Option (Value roaring fields)
      → Value roaring fields
      → Option (Value roaring fields)
  choose on_true on_false (bool true) = on_true
  choose on_true on_false (bool false) = on_false
  choose on_true on_false test = some test

  unfoldable mutual
    pub evaluate : Operand Double Field → Option (Value roaring fields)
    evaluate nil = some (error unknown_error)
    evaluate (int_literal n) = some (int n)
    evaluate (double_literal d) = some (double d)
    evaluate (bool_literal b) = some (bool b)
    evaluate (string_literal s) = some (string s)
    evaluate (variable v f) = some (field_value f)
    evaluate (dynamic_variable v) = some (error unknown_error)
    evaluate (func_call name args) = some (error unknown_error)
    evaluate (unary op operand) = bind_value (evaluate operand) (apply_unary op)
    evaluate (cond_expr lhs rhs_true rhs_false) =
        bind_value (evaluate lhs) (choose (evaluate rhs_true) (evaluate rhs_false))
    evaluate (expression first rest) = bind_value (evaluate first) (evaluate_rest rest)

    pub evaluate_rest :
        Operations Double Field → Value roaring fields → Option (Value roaring fields)
    evaluate_rest end state = some state
    evaluate_rest (operation op operand rest) state =
        bind_value (evaluate operand)
          (λ rhs. bind_value (calc roaring fields op state rhs) (evaluate_rest rest))

  -- RobimsQuery::Execute, of the tree that a successful Init leaves
  unfoldable pub execute : Option (Operand Double Field) → Option (Value roaring fields)
  unfolding evaluate
  execute none = some (error nil_interpreter)
  execute (some ast) = evaluate ast
