-- ===== src/Robims/Database/Owned.antt =====
-- The fields that cached queries point to (robims/robims_db_impl.cpp, robims_query.cpp).
use myctk.Base.{ℕ, ◌≡◌, refl, subst, inl, inr, List, [], ◌∷◌, Option, none, some, Option-cases}
use myctk.Base.Name.{Name}
use myctk.Robims.Query.{
  Operand, nil, int_literal, double_literal, bool_literal, string_literal, variable,
  dynamic_variable, func_call, unary, cond_expr, expression, Operations, end, operation,
}
use myctk.Robims.Query.Init.{
  Initialized, ready, failed, and_then, initialize_variable, initialize, initialize_rest,
  init_query,
}
use myctk.Robims.Database.{Table, get_field, Database, get_table}

-- every field in a query's tree satisfies P
unfoldable pub VariableField : {F : Type 0} → (F → Type 0) → Option F → Type 0
VariableField P none = Unit {0}
VariableField P (some f) = P f

unfoldable mutual
  unfolding VariableField

  pub AllFields : {D F : Type 0} → (F → Type 0) → Operand D F → Type 0
  AllFields P nil = Unit {0}
  AllFields P (int_literal n) = Unit {0}
  AllFields P (double_literal d) = Unit {0}
  AllFields P (bool_literal b) = Unit {0}
  AllFields P (string_literal s) = Unit {0}
  AllFields P (variable v f) = VariableField P f
  AllFields P (dynamic_variable v) = Unit {0}
  AllFields P (func_call name args) = Unit {0}
  AllFields P (unary op x) = AllFields P x
  AllFields P (cond_expr x y z) = AllFields P x × AllFields P y × AllFields P z
  AllFields P (expression x rest) = AllFields P x × AllFieldsRest P rest

  pub AllFieldsRest : {D F : Type 0} → (F → Type 0) → Operations D F → Type 0
  AllFieldsRest P end = Unit {0}
  AllFieldsRest P (operation op x rest) = AllFields P x × AllFieldsRest P rest

-- the field at an address is one of the current tables'
abbrev pub Owned : {C : Type 0} → Database C → ℕ → Type 0
Owned db a =
    (t : Name) × (f : Name) × (table : Table) × (get_table db t ≡ some table)
    × (get_field table f ≡ some a)

mutual
  unfolding AllFields VariableField

  pub AllFields-map :
      {D F : Type 0} (P Q : F → Type 0) (q : Operand D F)
      → ((f : F) → P f → Q f)
      → AllFields P q
      → AllFields Q q
  AllFields-map P Q nil m h = tt
  AllFields-map P Q (int_literal n) m h = tt
  AllFields-map P Q (double_literal d) m h = tt
  AllFields-map P Q (bool_literal b) m h = tt
  AllFields-map P Q (string_literal s) m h = tt
  AllFields-map P Q (variable v none) m h = tt
  AllFields-map P Q (variable v (some f)) m h = m f h
  AllFields-map P Q (dynamic_variable v) m h = tt
  AllFields-map P Q (func_call name args) m h = tt
  AllFields-map P Q (unary op x) m h = AllFields-map P Q x m h
  AllFields-map P Q (cond_expr x y z) m (h, k, l) =
      (AllFields-map P Q x m h, AllFields-map P Q y m k, AllFields-map P Q z m l)
  AllFields-map P Q (expression x rest) m (h, k) =
      (AllFields-map P Q x m h, AllFieldsRest-map P Q rest m k)

  pub AllFieldsRest-map :
      {D F : Type 0} (P Q : F → Type 0) (q : Operations D F)
      → ((f : F) → P f → Q f)
      → AllFieldsRest P q
      → AllFieldsRest Q q
  AllFieldsRest-map P Q end m h = tt
  AllFieldsRest-map P Q (operation op x rest) m (h, k) =
      (AllFields-map P Q x m h, AllFieldsRest-map P Q rest m k)

-- Inversion of the steps of Init.
and_then-ready :
    {A B : Type 0} (m : Initialized A) (k : A → Initialized B) (b : B)
    → and_then m k ≡ ready b
    → (a : A) × (m ≡ ready a) × (k a ≡ ready b)
unfolding and_then
and_then-ready (ready a) k b h = (a, refl, h)
and_then-ready (failed e) k b h = cc h

pub ready_inj : {A : Type 0} (a b : A) → ready a ≡ ready b → a ≡ b
ready_inj a b h = cc h

module _ {C : Type 0} (db : Database C) where
  get_field-Owned :
      (t f : Name) (table : Table)
      → get_table db t ≡ some table
      → VariableField (Owned db) (get_field table f)
  unfolding VariableField
  get_field-Owned t f table here = elim (Option-cases (get_field table f)) [
    | inl nothing ↦ rw nothing tt
    | inr (a, there) ↦ rw there (t, f, table, here, there)
  ]

module _ {D C : Type 0} (db : Database C) where
  ready-AllFields :
      (x q : Operand D ℕ) → ready x ≡ ready q → AllFields (Owned db) x → AllFields (Owned db) q
  ready-AllFields x q h = subst (AllFields (Owned db)) (ready_inj x q h)

  variable-Owned :
      (v : List Name) (q : Operand D ℕ)
      → initialize_variable (get_table db) get_field v ≡ ready q
      → AllFields (Owned db) q
  unfolding initialize_variable AllFields
  variable-Owned [] q h = cc h
  variable-Owned (t ∷ []) q h = cc h
  variable-Owned (t ∷ f ∷ []) q h = elim (Option-cases (get_table db t)) [
    | inl nothing ↦ cc (rw (nothing, initialize_variable) at h)
    | inr (table, here) ↦
        let found : ready (variable (t ∷ f ∷ []) (get_field table f)) ≡ ready q =
          rw (here, initialize_variable) at h in
        ready-AllFields (variable (t ∷ f ∷ []) (get_field table f)) q found
          (get_field-Owned db t f table here)
  ]
  variable-Owned (t ∷ f ∷ more ∷ rest) q h = cc h

  mutual
    unfolding initialize AllFields

    initialize-Owned :
        (x : Operand D ℕ) (q : Operand D ℕ)
        → initialize (get_table db) get_field x ≡ ready q
        → AllFields (Owned db) q
    initialize-Owned nil q h = ready-AllFields nil q h tt
    initialize-Owned (int_literal n) q h = ready-AllFields (int_literal n) q h tt
    initialize-Owned (double_literal d) q h = ready-AllFields (double_literal d) q h tt
    initialize-Owned (bool_literal b) q h = ready-AllFields (bool_literal b) q h tt
    initialize-Owned (string_literal s) q h = ready-AllFields (string_literal s) q h tt
    initialize-Owned (variable v f) q h = variable-Owned v q h
    initialize-Owned (dynamic_variable v) q h = ready-AllFields (dynamic_variable v) q h tt
    initialize-Owned (func_call name args) q h = ready-AllFields (func_call name args) q h tt
    initialize-Owned (unary op x) q h =
        let (y, first, done) =
          and_then-ready (initialize (get_table db) get_field x) (λ z. ready (unary op z)) q h in
        ready-AllFields (unary op y) q done (initialize-Owned x y first)
    initialize-Owned (cond_expr x y z) q h =
        let (x', first, h1) = and_then-ready (initialize (get_table db) get_field x) _ q h in
        let (y', second, h2) = and_then-ready (initialize (get_table db) get_field y) _ q h1 in
        let (z', third, done) = and_then-ready (initialize (get_table db) get_field z) _ q h2 in
        ready-AllFields (cond_expr x' y' z') q done
          (initialize-Owned x x' first, initialize-Owned y y' second, initialize-Owned z z' third)
    initialize-Owned (expression x rest) q h =
        let (x', first, h1) = and_then-ready (initialize (get_table db) get_field x) _ q h in
        let (rest', second, done) =
          and_then-ready (initialize_rest (get_table db) get_field rest) _ q h1 in
        ready-AllFields (expression x' rest') q done
          (initialize-Owned x x' first, initialize_rest-Owned rest rest' second)

    initialize_rest-Owned :
        (rest : Operations D ℕ) (q : Operations D ℕ)
        → initialize_rest (get_table db) get_field rest ≡ ready q
        → AllFieldsRest (Owned db) q
    initialize_rest-Owned end q h = subst (AllFieldsRest (Owned db)) (ready_inj end q h) tt
    initialize_rest-Owned (operation op x rest) q h =
        let (x', first, h1) = and_then-ready (initialize (get_table db) get_field x) _ q h in
        let (rest', second, done) =
          and_then-ready (initialize_rest (get_table db) get_field rest) _ q h1 in
        subst (AllFieldsRest (Owned db)) (ready_inj (operation op x' rest') q done)
          (initialize-Owned x x' first, initialize_rest-Owned rest rest' second)

  pub init_query-Owned :
      (parsed : Option (Operand D ℕ)) (q : Operand D ℕ)
      → init_query (get_table db) get_field parsed ≡ ready q
      → AllFields (Owned db) q
  unfolding init_query
  init_query-Owned none q h = cc h
  init_query-Owned (some first) q h = initialize-Owned (expression first end) q h
