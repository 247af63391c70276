-- ===== src/Robims/Query/Init.antt =====
-- Initializer and RobimsQuery::Init (robims/robims_query.cpp): a parsed query's variables get the
-- fields that they name. The parser, a grammar for boost::spirit, is not modelled: its result comes in
-- as an argument.
use myctk.Base.{List, [], ◌∷◌, Option, none, some}
use myctk.Base.Name.{Name}
use myctk.Robims.Query.{
  Operand, nil, int_literal, double_literal, bool_literal, string_literal, variable,
  dynamic_variable, func_call, unary, cond_expr, expression, Operations, end, operation,
}

-- the codes that Init returns; `syntax` is -1
pub data InitError : Type 0 where
  syntax invalid_field_args invalid_table_name : InitError

pub data Initialized (A : Type 0) : Type 0 where
  ready : A → Initialized A
  failed : InitError → Initialized A

unfoldable pub and_then : {A B : Type 0} → Initialized A → (A → Initialized B) → Initialized B
and_then (ready a) k = k a
and_then (failed e) k = failed e

-- `get_table` is RobimsDBImpl::GetTable, and `get_field` RobimsTable::GetField, which give null where
-- there is none
module _ {Double Field Table : Type 0} (get_table : Name → Option Table)
    (get_field : Table → Name → Option Field) where
  -- the second null check tests the table again, so that a field that is not there gets by
  unfoldable pub initialize_variable : List Name → Initialized (Operand Double Field)
  initialize_variable [] = failed invalid_field_args
  initialize_variable (t ∷ []) = failed invalid_field_args
  initialize_variable (t ∷ f ∷ []) = elim (get_table t) [
    | none ↦ failed invalid_table_name
    | some table ↦ ready (variable (t ∷ f ∷ []) (get_field table f))
  ]
  initialize_variable (t ∷ f ∷ more ∷ rest) = failed invalid_field_args

  unfoldable mutual
    pub initialize : Operand Double Field → Initialized (Operand Double Field)
    initialize nil = ready nil
    initialize (int_literal n) = ready (int_literal n)
    initialize (double_literal d) = ready (double_literal d)
    initialize (bool_literal b) = ready (bool_literal b)
    initialize (string_literal s) = ready (string_literal s)
    initialize (variable v f) = initialize_variable v
    initialize (dynamic_variable v) = ready (dynamic_variable v)
    initialize (func_call name args) = ready (func_call name args)
    initialize (unary op operand) = and_then (initialize operand) (λ x. ready (unary op x))
    initialize (cond_expr lhs rhs_true rhs_false) = and_then (initialize lhs) (λ x.
        and_then (initialize rhs_true)
          (λ y. and_then (initialize rhs_false) (λ z. ready (cond_expr x y z))))
    initialize (expression first rest) =
        and_then (initialize first)
          (λ x. and_then (initialize_rest rest) (λ xs. ready (expression x xs)))

    pub initialize_rest : Operations Double Field → Initialized (Operations Double Field)
    initialize_rest end = ready end
    initialize_rest (operation op operand rest) =
        and_then (initialize operand)
          (λ x. and_then (initialize_rest rest) (λ xs. ready (operation op x xs)))

  -- RobimsQuery::Init, of what the parser found: the tree, or nothing
  unfoldable pub init_query : Option (Operand Double Field) → Initialized (Operand Double Field)
  unfolding initialize
  init_query none = failed syntax
  init_query (some first) = initialize (expression first end)
