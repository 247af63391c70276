-- ===== src/Robims/Query/Calc.antt =====
-- QueryCalc (robims/robims_query.cpp): an operator applied to two values. Its first two tests compare
-- a reference type with a type that is none, so that they never hold; they have no clause here.
use myctk.Base.{Bool, not, ◌&&◌, ◌||◌, Option, none, some}
use myctk.Base.Int.{ℤ}
use myctk.Base.Name.{Name, ◌=s◌, less}
use myctk.Robims.Bitmap.{RoaringBitmap}
use myctk.Robims.Field.{
  FieldOperator, field_op_eq, field_op_neq, field_op_gt, field_op_gte, field_op_lt, field_op_lte,
  FieldArg, string_arg, int_arg, double_arg, Selection, selected, not_found, invalid_args,
  invalid_operator,
}
use myctk.Robims.Query.{
  Fields, Optoken, op_plus, op_minus, op_times, op_divide, op_positive, op_negative, op_equal,
  op_not_equal, op_less, op_less_equal, op_greater, op_greater_equal, op_and, op_or, op_and_not,
  unknown_error, query_invalid_operator, query_invalid_operand, field_not_found, field_invalid_args,
  field_invalid_operator, QueryValue, error, bool, int, double, string, field, bitmap, Scalar,
  whole, real, text, other,
}
use myctk.Robims.Query.Numbers.{
  plus_ints, minus_ints, times_ints, divided_ints, equal_ints, less_ints, at_most_ints,
}

module _ (roaring : RoaringBitmap) (fields : Fields roaring) where
  open fields use {doubles, Field, select}
  open doubles use {Double, plus, minus, times, divided, equal, below, at_most, of_int}
  open roaring use {Bitmap, bitmap_and, bitmap_or}

  abbrev pub Value : Type 0
  Value = QueryValue Double Field Bitmap

  unfoldable pub scalar_of : Value → Scalar Double
  scalar_of (int n) = whole n
  scalar_of (double d) = real d
  scalar_of (string s) = text s
  scalar_of (error c) = other
  scalar_of (bool b) = other
  scalar_of (field f) = other
  scalar_of (bitmap b) = other

  unfoldable pub int_value : Option ℤ → Option Value
  int_value none = none
  int_value (some n) = some (int n)

  -- a value of the variant that nothing is assigned to is an error with its default code
  unfoldable pub arithmetic :
      (ℤ → ℤ → Option ℤ) → (Double → Double → Double) → Scalar Double → Scalar Double → Option Value
  arithmetic on_ints on_doubles (whole a) (whole b) = int_value (on_ints a b)
  arithmetic on_ints on_doubles (whole a) (real b) = some (double (on_doubles (of_int a) b))
  arithmetic on_ints on_doubles (real a) (whole b) = some (double (on_doubles a (of_int b)))
  arithmetic on_ints on_doubles (real a) (real b) = some (double (on_doubles a b))
  arithmetic on_ints on_doubles (whole a) (text b) = some (error unknown_error)
  arithmetic on_ints on_doubles (whole a) other = some (error unknown_error)
  arithmetic on_ints on_doubles (real a) (text b) = some (error unknown_error)
  arithmetic on_ints on_doubles (real a) other = some (error unknown_error)
  arithmetic on_ints on_doubles (text a) b = some (error unknown_error)
  arithmetic on_ints on_doubles other b = some (error unknown_error)

  -- a comparison of two scalars, if there is one of their types
  unfoldable pub compared :
      (ℤ → ℤ → Bool)
      → (Double → Double → Bool)
      → (Name → Name → Bool)
      → Scalar Double
      → Scalar Double
      → Option Bool
  compared on_ints on_doubles on_texts (whole a) (whole b) = some (on_ints a b)
  compared on_ints on_doubles on_texts (whole a) (real b) = some (on_doubles (of_int a) b)
  compared on_ints on_doubles on_texts (real a) (whole b) = some (on_doubles a (of_int b))
  compared on_ints on_doubles on_texts (real a) (real b) = some (on_doubles a b)
  compared on_ints on_doubles on_texts (text a) (text b) = some (on_texts a b)
  compared on_ints on_doubles on_texts (whole a) (text b) = none
  compared on_ints on_doubles on_texts (whole a) other = none
  compared on_ints on_doubles on_texts (real a) (text b) = none
  compared on_ints on_doubles on_texts (real a) other = none
  compared on_ints on_doubles on_texts (text a) (whole b) = none
  compared on_ints on_doubles on_texts (text a) (real b) = none
  compared on_ints on_doubles on_texts (text a) other = none
  compared on_ints on_doubles on_texts other b = none

  -- the argument for Select, in the cases of EQ and NEQ and in those of the other operators
  unfoldable pub equality_arg : Scalar Double → Option (FieldArg Double)
  equality_arg (whole n) = some (int_arg n)
  equality_arg (real d) = some (double_arg d)
  equality_arg (text s) = some (string_arg s)
  equality_arg other = none

  unfoldable pub order_arg : Scalar Double → Option (FieldArg Double)
  order_arg (whole n) = some (int_arg n)
  order_arg (real d) = some (double_arg d)
  order_arg (text s) = none
  order_arg other = none

  -- what becomes of a Select's return code and bitmap
  unfoldable pub select_value : Selection Bitmap → Value
  select_value (selected b) = bitmap b
  select_value not_found = error field_not_found
  select_value invalid_args = error field_invalid_args
  select_value invalid_operator = error field_invalid_operator

  unfoldable pub select_with : Field → FieldOperator → Option (FieldArg Double) → Value
  unfolding select_value
  select_with f op none = error query_invalid_operand
  select_with f op (some arg) = select_value (select f op arg)

  unfoldable pub as_field : Value → Option Field
  as_field (field f) = some f
  as_field (error c) = none
  as_field (bool b) = none
  as_field (int n) = none
  as_field (double d) = none
  as_field (string s) = none
  as_field (bitmap b) = none

  -- the branches behind the comparison of scalars: a field on the left, one on the right, none
  unfoldable pub compare_field :
      (Scalar Double → Option (FieldArg Double))
      → FieldOperator
      → FieldOperator
      → Value
      → Value
      → Value
  compare_field arg op mirrored left right = elim (as_field left) [
    | some f ↦ select_with f op (arg (scalar_of right))
    | none ↦ elim (as_field right) [
      | some f ↦ select_with f mirrored (arg (scalar_of left))
      | none ↦ error query_invalid_operand
    ]
  ]

  unfoldable pub or_field : Option Bool → Value → Value
  or_field none v = v
  or_field (some b) v = bool b

  unfoldable pub calc_equal : Value → Value → Value
  calc_equal left right =
      or_field (compared equal_ints equal ◌=s◌ (scalar_of left) (scalar_of right))
        (compare_field equality_arg field_op_eq field_op_eq left right)

  unfoldable pub calc_not_equal : Value → Value → Value
  calc_not_equal left right =
      or_field
        (compared (λ a b. not (equal_ints a b)) (λ a b. not (equal a b)) (λ a b. not (a =s b))
          (scalar_of left) (scalar_of right))
        (compare_field equality_arg field_op_neq field_op_neq left right)

  unfoldable pub calc_less : Value → Value → Value
  calc_less left right =
      or_field (compared less_ints below less (scalar_of left) (scalar_of right))
        (compare_field order_arg field_op_lt field_op_gt left right)

  unfoldable pub calc_less_equal : Value → Value → Value
  calc_less_equal left right =
      or_field
        (compared at_most_ints at_most (λ a b. not (less b a)) (scalar_of left) (scalar_of right))
        (compare_field order_arg field_op_lte field_op_gte left right)

  unfoldable pub calc_greater : Value → Value → Value
  calc_greater left right =
      or_field
        (compared (λ a b. less_ints b a) (λ a b. below b a) (λ a b. less b a) (scalar_of left)
          (scalar_of right))
        (compare_field order_arg field_op_gt field_op_lt left right)

  unfoldable pub calc_greater_equal : Value → Value → Value
  calc_greater_equal left right =
      or_field
        (compared (λ a b. at_most_ints b a) (λ a b. at_most b a) (λ a b. not (less a b))
          (scalar_of left) (scalar_of right))
        (compare_field order_arg field_op_gte field_op_lte left right)

  -- the cases of op_and and op_or: two truth values, or two bitmaps
  unfoldable pub calc_logical :
      (Bool → Bool → Bool) → (Bitmap → Bitmap → Bitmap) → Value → Value → Value
  calc_logical on_bools on_bitmaps (bool a) (bool b) = bool (on_bools a b)
  calc_logical on_bools on_bitmaps (bitmap a) (bitmap b) = bitmap (on_bitmaps a b)
  calc_logical on_bools on_bitmaps left right = error query_invalid_operand

  unfoldable pub calc_arithmetic :
      (ℤ → ℤ → Option ℤ) → (Double → Double → Double) → Value → Value → Option Value
  calc_arithmetic on_ints on_doubles left right =
      arithmetic on_ints on_doubles (scalar_of left) (scalar_of right)

  unfoldable pub calc : Optoken → Value → Value → Option Value
  calc op_plus left right = calc_arithmetic plus_ints plus left right
  calc op_minus left right = calc_arithmetic minus_ints minus left right
  calc op_times left right = calc_arithmetic times_ints times left right
  calc op_divide left right = calc_arithmetic divided_ints divided left right
  calc op_equal left right = some (calc_equal left right)
  calc op_not_equal left right = some (calc_not_equal left right)
  calc op_less left right = some (calc_less left right)
  calc op_less_equal left right = some (calc_less_equal left right)
  calc op_greater left right = some (calc_greater left right)
  calc op_greater_equal left right = some (calc_greater_equal left right)
  calc op_and left right = some (calc_logical ◌&&◌ bitmap_and left right)
  calc op_or left right = some (calc_logical ◌||◌ bitmap_or left right)
  calc op_positive left right = some (error query_invalid_operator)
  calc op_negative left right = some (error query_invalid_operator)
  calc op_and_not left right = some (error query_invalid_operator)
