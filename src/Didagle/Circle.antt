-- ===== src/Didagle/Circle.antt =====
-- The search for circles: Vertex::FindVertexInSuccessors (didagle/graph_vertex.cpp) and
-- Graph::TestCircle (didagle/graph.cpp). The search recurs with no record of what it has seen, so it
-- need not end: `fuel` bounds its depth, and `none` says that the depth was reached.
pub mod Sound
use myctk.Base.{ℕ, zero, suc, Bool, true, false, List, [], ◌∷◌, Option, none, some, elem}

-- the loop over `_successor_vertex`, for a search `look` from each
unfoldable pub any_of : (ℕ → Option Bool) → List ℕ → Option Bool
any_of look [] = some false
any_of look (s ∷ ss) = elim (look s) [
  | none ↦ none
  | some true ↦ some true
  | some false ↦ any_of look ss
]

-- FindVertexInSuccessors(v) on the vertex at p; an empty set has no v and nothing to loop over
unfoldable pub find_vertex_in_successors : (ℕ → List ℕ) → ℕ → ℕ → ℕ → Option Bool
find_vertex_in_successors successors zero p v = none
find_vertex_in_successors successors (suc fuel) p v = elim (elem v (successors p)) [
  | true ↦ some true
  | false ↦ any_of (λ s. find_vertex_in_successors successors fuel s v) (successors p)
]

-- TestCircle over the vertices of `_nodes`
unfoldable pub test_circle : (ℕ → List ℕ) → ℕ → List ℕ → Option Bool
test_circle successors fuel = any_of (λ v. find_vertex_in_successors successors fuel v v)
