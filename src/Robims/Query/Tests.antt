-- ===== src/Robims/Query/Tests.antt =====
-- Queries on concrete fields (robims/robims_query.cpp). Doubles are natural numbers here.
use myctk.Base.{ℕ, ◌+◌, ◌-◌, ◌*◌, ◌/◌, ◌≡◌, refl, true, [], ◌∷◌, none, some, ltb, leb, ◌==◌, arith}
use myctk.Base.Int.{pos, pos_part}
use myctk.Robims.Bitmap.Flags.{flags}
use myctk.Robims.Field.{FieldOperator, selected}
use myctk.Robims.Query.{
  Doubles, Fields, op_greater, op_and, op_and_not, query_invalid_operator, empty_field_instance,
  error, Operand, int_literal, variable, expression, end, operation,
}
use myctk.Robims.Query.Calc.{
  calc, calc_greater, scalar_of, compared, or_field, compare_field, as_field, select_with,
  select_value, order_arg,
}
use myctk.Robims.Query.Evaluate.{evaluate, evaluate_rest, execute, bind_value, field_value}
use myctk.Robims.Query.Types.{
  ids, integer, gt, both, Answers, answers_ints, Operates, Typed, TypedRest,
}
use myctk.Robims.Query.Types.Sound.{Gives, execute-Typed}
use myctk.Robims.Tests.{count_up, count_up-IsWellFormed}
use myctk.Robims.Query.Stored.{RobimsField, int_field, stored_fields}
use myctk.Robims.Query.Stored.Compare.{exceeds, no_more}
use myctk.Robims.Query.Stored.Condition.{Condition, test, chain, done, and_also, query_of}
use myctk.Robims.Query.Stored.Formula.{meaning, Suits, AllSuit, LinksSuit, Selects, execute-Selects}

abbrev doubles : Doubles
doubles = record {
  Double = ℕ;
  plus = λ a b. a + b;
  minus = λ a b. a - b;
  times = λ a b. a * b;
  divided = λ a b. a / b;
  equal = λ a b. a == b;
  below = λ a b. ltb a b;
  at_most = λ a b. leb a b;
  of_int = pos_part;
}

-- a field that gives the ids 0 and 1 whatever it is asked
abbrev fields : Fields flags
fields = record { doubles = doubles; Field = ℕ; select = λ f op arg. selected (true ∷ true ∷ []) }

abbrev TestQuery : Type 0
TestQuery = Operand ℕ ℕ

abbrev age : TestQuery
age = variable ((b'p' ∷ []) ∷ (b'a' ∷ []) ∷ []) (some 0)

-- `p.a > 5`, and `p.a > 5 && 9 > p.a`
abbrev older : TestQuery
older = expression age (operation op_greater (int_literal (pos 5)) end)

abbrev older_of_two : TestQuery
older_of_two =
    expression older
      (operation op_and (expression (int_literal (pos 9)) (operation op_greater age end)) end)

answers : (op : FieldOperator) → Answers flags fields 0 op integer
answers op = answers_ints (λ n. (true ∷ true ∷ [], refl))

typed : Typed flags fields older_of_two ids
typed =
    Typed.expression
      (Typed.expression (Typed.variable _ 0) (
        TypedRest.operation (Typed.int_literal (pos 5)) (Operates.select_left gt (answers _))
          TypedRest.end))
      (TypedRest.operation
        (Typed.expression (Typed.int_literal (pos 9)) (
          TypedRest.operation (Typed.variable _ 0) (Operates.select_right gt (answers _))
            TypedRest.end))
        (Operates.join_ids both) TypedRest.end)

execute-Typed_example : Gives flags fields (execute flags fields (some older_of_two)) ids
execute-Typed_example = execute-Typed flags fields older_of_two typed

-- a field that is not there, `p.x > 5`
missing :
    execute flags fields (some (variable ((b'p' ∷ []) ∷ (b'x' ∷ []) ∷ []) none))
    ≡ some (error empty_field_instance)
unfolding execute evaluate field_value
missing = refl

-- `&&!` is parsed, and has no case in QueryCalc
and_not :
    execute flags fields (some (expression older (operation op_and_not older end)))
    ≡ some (error query_invalid_operator)
unfolding execute evaluate evaluate_rest bind_value field_value calc calc_greater compared scalar_of
    or_field compare_field as_field select_with select_value order_arg
and_not = refl

-- one int field with the numbers 10 to 17 for the ids 0 to 7
abbrev memory : ℕ → RobimsField flags
memory a = int_field count_up

-- `p.a > 12 && p.a <= 15`
abbrev middle : Condition
middle =
    chain (test ((b'p' ∷ []) ∷ (b'a' ∷ []) ∷ []) 0 exceeds (pos 12))
      (and_also (test ((b'p' ∷ []) ∷ (b'a' ∷ []) ∷ []) 0 no_more (pos 15)) done)

middle_suits : AllSuit flags memory middle
unfolding AllSuit LinksSuit Suits
middle_suits = (
  (count_up-IsWellFormed, omega arith, omega arith),
  ((count_up-IsWellFormed, omega arith, omega arith), tt),
)

execute-Selects_example :
    Selects flags
      (execute flags
        (stored_fields flags doubles (λ a. flags.create) memory)
        (some (query_of middle)))
      (meaning flags memory middle)
execute-Selects_example =
    execute-Selects flags doubles (λ a. flags.create) memory middle middle_suits
