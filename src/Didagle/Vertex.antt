-- ===== src/Didagle/Vertex.antt =====
-- Vertices and their links (didagle/graph_vertex.h, graph_vertex.cpp). A Vertex* is an address, and
-- a heap gives the vertex at each; null is `none`. Left out are the fields that this code does not
-- read: the parameters of processors (args), `while_cluster`, `while_async`, `_vertex_graph`,
-- `_is_cond_processor`; `_graph` is the graph that is built, whose tables are arguments.
pub mod Linked
pub mod Build
use myctk.Base.{
  ℕ, zero, suc, ◌+◌, ◌≡◌, Bool, true, false, not, ◌&&◌, ◌||◌, List, [], ◌∷◌, ◌++◌, Option, none,
  some, length, set, elem, leb, ◌==◌, if◌then◌else◌,
}
use myctk.Base.Name.{Name, ◌=s◌, is_nil, set_union, find}

pub data VertexResult : Type 0 where
  invalid ok err all : VertexResult

-- GraphData (didagle/graph_data.h)
pub record GraphData : Type 0 where
  pub id : Name
  pub field : Name
  pub move_from_when_skipped : Name
  pub aggregate : List Name
  pub required : Bool
  pub move : Bool
  pub is_extern : Bool
  pub is_in_out : Bool

pub record Vertex : Type 0 where
  pub id : Name
  pub processor : Name
  pub select_args : List Name
  pub cond : Name
  pub expect : Name
  pub expect_deps : List Name
  pub expect_config : Name
  pub is_start : Bool
  pub cluster : Name
  pub graph : Name
  pub successor : List Name
  pub successor_on_ok : List Name
  pub successor_on_err : List Name
  pub consequent : List Name
  pub alternative : List Name
  pub deps : List Name
  pub deps_on_ok : List Name
  pub deps_on_err : List Name
  pub input : List GraphData
  pub output : List GraphData
  pub ignore_processor_execute_error : Bool
  pub successor_vertex : List ℕ
  pub deps_expected_results : List VertexResult
  pub deps_idx : List (ℕ × ℕ)
  pub is_id_generated : Bool

abbrev pub Heap : Type 0
Heap = ℕ → Vertex

abbrev pub update : Heap → ℕ → Vertex → Heap
update h p v q = if q == p then v else h q

infixl 5 ◌>>=◌
abbrev pub ◌>>=◌ {ℓ κ} : {A : Type ℓ} {B : Type κ} → Option A → (A → Option B) → Option B
none >>= f = none
some a >>= f = f a

abbrev pub none_in {ℓ} : {A : Type ℓ} → List A → Bool
none_in [] = true
none_in (a ∷ xs) = false

-- Vertex::Verify
-- isalpha, isdigit or '_'
unfoldable pub is_word_char : ℕ → Bool
is_word_char c =
    leb b'a' c && leb c b'z' || leb b'A' c && leb c b'Z' || leb b'0' c && leb c b'9' || c == b'_'

-- CondParams::IsCondExpr
unfoldable pub is_cond_expr : Name → Bool
unfolding is_word_char
is_cond_expr [] = false
is_cond_expr (c ∷ cs) = not (is_word_char c) || is_cond_expr cs

-- `_deps_idx.find(v)`
unfoldable pub index_of : ℕ → List (ℕ × ℕ) → Option ℕ
index_of v [] = none
index_of v ((u, i) ∷ m) = if v == u then some i else index_of v m

abbrev pub has {ℓ} : {A : Type ℓ} → Option A → Bool
has none = false
has (some a) = true

-- Vertex::GetDependencyIndex; `none` is -1
unfoldable pub get_dependency_index : Vertex → ℕ → Option ℕ
unfolding index_of
get_dependency_index w v = index_of v w.deps_idx

-- std::vector::resize, with V_RESULT_INVALID for new places
unfoldable pub resize : ℕ → List VertexResult → List VertexResult
resize zero xs = []
resize (suc n) [] = invalid ∷ resize n []
resize (suc n) (x ∷ xs) = x ∷ resize n xs

-- std::unordered_set::insert
unfoldable pub insert_vertex : ℕ → List ℕ → List ℕ
insert_vertex w xs = if elem w xs then xs else xs ++ w ∷ []

unfoldable pub add_dep : Vertex → ℕ → VertexResult → Vertex
unfolding resize get_dependency_index
add_dep w v expected =
    if has (get_dependency_index w v)
    then w
    else let idx = length w.deps_idx in
      let deps_idx = w.deps_idx ++ (v, idx) ∷ [] in
      record w {
        deps_idx = deps_idx;
        deps_expected_results = set (resize (length deps_idx) w.deps_expected_results) idx expected;
      }

-- Vertex::Depend on the vertex at w, for the vertex at v
unfoldable pub depend : Heap → ℕ → ℕ → VertexResult → Heap
depend h w v expected =
    let h1 =
      update h v (record (h v) { successor_vertex = insert_vertex w (h v).successor_vertex }) in
    update h1 w (add_dep (h1 w) v expected)

-- `none` is the error -1 in what follows
unfoldable pub build_deps : List (Name × ℕ) → Heap → ℕ → List Name → VertexResult → Option Heap
build_deps nodes h w [] expected = some h
build_deps nodes h w (dep ∷ dependency) expected = elim (find dep nodes) [
  | none ↦ none
  | some v ↦ build_deps nodes (depend h w v expected) w dependency expected
]

unfoldable pub build_successors :
    List (Name × ℕ) → Heap → ℕ → List Name → VertexResult → Option Heap
build_successors nodes h v [] expected = some h
build_successors nodes h v (id ∷ successor) expected = elim (find id nodes) [
  | none ↦ none
  | some w ↦ build_successors nodes (depend h w v expected) v successor expected
]

-- the loop over `data.aggregate` in Vertex::Build
unfoldable pub build_aggregate : List (Name × ℕ) → Heap → ℕ → GraphData → List Name → Option Heap
build_aggregate table h w item [] = some h
build_aggregate table h w item (id ∷ ids) = elim (find id table) [
  | none ↦ if item.is_extern then build_aggregate table h w item ids else none
  | some v ↦ build_aggregate table (depend h w v (if item.required then ok else all)) w item ids
]

-- the branch for an input with no aggregate
unfoldable pub build_single : List (Name × ℕ) → Heap → ℕ → GraphData → Option Heap
build_single table h w item = elim (find item.id table) [
  | none ↦ if item.is_extern then some h else none
  | some v ↦
      if item.is_in_out && v == w
      then some h
      else some (depend h w v (if item.required then ok else all))
]

unfoldable pub build_input : List (Name × ℕ) → Heap → ℕ → GraphData → Option Heap
build_input table h w item =
    if none_in item.aggregate
    then build_single table h w item
    else build_aggregate table h w item item.aggregate

unfoldable pub build_inputs : List (Name × ℕ) → Heap → ℕ → List GraphData → Option Heap
build_inputs table h w [] = some h
build_inputs table h w (item ∷ items) =
    build_input table h w item >>= λ h'. build_inputs table h' w items

-- the loop over select_args in Vertex::Build
unfoldable pub selects_known : (Name → Bool) → List Name → Bool
unfolding is_cond_expr
selects_known contains_config_setting [] = true
selects_known contains_config_setting (m ∷ ms) =
    (is_cond_expr m || contains_config_setting m) && selects_known contains_config_setting ms

-- Vertex::Build
unfoldable pub build : (Name → Bool) → List (Name × ℕ) → List (Name × ℕ) → Heap → ℕ → Option Heap
build contains_config_setting nodes data_table h p =
    let v = h p in
    if not (selects_known contains_config_setting v.select_args) then none else do
      h1 ← build_deps nodes h p v.deps all
      h2 ← build_deps nodes h1 p v.deps_on_ok ok
      h3 ← build_deps nodes h2 p v.deps_on_err err
      h4 ← build_successors nodes h3 p v.successor all
      h5 ← build_successors nodes h4 p v.successor_on_ok ok
      h6 ← build_successors nodes h5 p v.successor_on_err err
      build_inputs data_table h6 p v.input

-- Vertex::MergeSuccessor
unfoldable pub merge_successor : Vertex → Vertex
merge_successor v = record v {
  successor_on_ok = set_union v.successor_on_ok v.consequent;
  successor_on_err = set_union v.successor_on_err v.alternative;
}

unfoldable pub set_generated_id : Vertex → Name → Vertex
set_generated_id v id = record v { id = id; is_id_generated = true }

unfoldable pub verify : Vertex → Bool
verify v =
    if v.is_start
    then none_in v.deps && none_in v.deps_on_ok && none_in v.deps_on_err
    else not (none_in v.successor_vertex && none_in v.deps_idx)
