-- ===== src/Robims/Query/Stored/Condition.antt =====
-- Conditions on int fields, and the trees that the grammar of queries (robims/robims_query.cpp) nests
-- for them.
use myctk.Base.{ℕ, List, some}
use myctk.Base.Int.{ℤ}
use myctk.Base.Name.{Name}
use myctk.Robims.Query.{
  Optoken, op_equal, op_not_equal, op_less_equal, op_greater, op_greater_equal, op_and, op_or,
  Operand, int_literal, variable, expression, Operations, end, operation,
}
use myctk.Robims.Query.Stored.Compare.{IntTest, equals, differs, exceeds, at_least, no_more}

-- a chain of `&&` and `||` without brackets has one condition after the other
mutual
  pub data Condition : Type 0 where
    test : List Name → ℕ → IntTest → ℤ → Condition
    chain : Condition → Links → Condition

  pub data Links : Type 0 where
    done : Links
    and_also : Condition → Links → Links
    or_else : Condition → Links → Links

unfoldable pub token : IntTest → Optoken
token equals = op_equal
token differs = op_not_equal
token exceeds = op_greater
token at_least = op_greater_equal
token no_more = op_less_equal

-- The rules of the grammar from logical_expr to multiplicative_expr each make an Expression, also of
-- one operand; cond_expr, unary_expr and brackets pass theirs on as it is.
unfoldable pub single : {Double : Type 0} → Operand Double ℕ → Operand Double ℕ
single o = expression o end

-- a primary_expr as an operand of relational_op
unfoldable pub additive_expr : {Double : Type 0} → Operand Double ℕ → Operand Double ℕ
unfolding single
additive_expr o = single (single o)

-- and as an operand of equality_op
unfoldable pub relational_expr : {Double : Type 0} → Operand Double ℕ → Operand Double ℕ
unfolding single additive_expr
relational_expr o = single (additive_expr o)

-- a comparison as an operand of logical_op
unfoldable pub comparison_of :
    {Double : Type 0} → IntTest → Operand Double ℕ → Operand Double ℕ → Operand Double ℕ
unfolding single additive_expr relational_expr
comparison_of equals l r =
    expression (relational_expr l) (operation op_equal (relational_expr r) end)
comparison_of differs l r =
    expression (relational_expr l) (operation op_not_equal (relational_expr r) end)
comparison_of exceeds l r =
    single (expression (additive_expr l) (operation op_greater (additive_expr r) end))
comparison_of at_least l r =
    single (expression (additive_expr l) (operation op_greater_equal (additive_expr r) end))
comparison_of no_more l r =
    single (expression (additive_expr l) (operation op_less_equal (additive_expr r) end))

-- a condition as an operand of logical_op, where a chain stands in brackets
unfoldable mutual
  unfolding single additive_expr relational_expr comparison_of

  pub equality_of : {Double : Type 0} → Condition → Operand Double ℕ
  equality_of (test v a t n) = comparison_of t (variable v (some a)) (int_literal n)
  equality_of (chain c links) =
      single (relational_expr (expression (equality_of c) (operations_of links)))

  pub operations_of : {Double : Type 0} → Links → Operations Double ℕ
  operations_of done = end
  operations_of (and_also c links) = operation op_and (equality_of c) (operations_of links)
  operations_of (or_else c links) = operation op_or (equality_of c) (operations_of links)

-- the tree of a condition, Expression by Expression as the grammar nests them
unfoldable pub query_of : {Double : Type 0} → Condition → Operand Double ℕ
unfolding single equality_of operations_of
query_of (test v a t n) = single (equality_of (test v a t n))
query_of (chain c links) = expression (equality_of c) (operations_of links)
