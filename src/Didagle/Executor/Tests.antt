-- ===== src/Didagle/Executor/Tests.antt =====
-- The execution of didagle's graphs on concrete inputs.
use myctk.Base.{
  ℕ, ◌≤◌, ◌≡◌, ◌↔◌, refl, Bool, true, List, [], ◌∷◌, ◌++◌, Option, none, some, length, elem, ◌&&◌,
  ◌||◌, ◌==◌, ==_iff, if◌then◌else◌, arith,
}
use myctk.Base.Name.{Name}
use myctk.Didagle.Vertex.{VertexResult, invalid, ok, err, all, Vertex, Heap, depend}
use myctk.Didagle.Graph.{blank}
use myctk.Didagle.Executor.{
  value, VertexContext, reset, ready, int_max, Dispatched, GraphContext, on_vertex_done,
}
use myctk.Didagle.Executor.Deliver.{deliver, deliver_once, Deliverable, countdown}
use myctk.Didagle.Executor.Dispatch.{count}
use myctk.Didagle.Executor.Done.{names, IsSimple, on_vertex_done-executes}

-- depends on the vertices at 5 and 7, and expects the first to succeed
abbrev joined : Vertex
joined = record blank { deps_idx = (5, 0) ∷ (7, 1) ∷ []; deps_expected_results = ok ∷ all ∷ [] }

abbrev context : VertexContext
context = record {
  vertex = joined;
  waiting_num = 0;
  deps_results = ok ∷ err ∷ [];
  result = invalid;
  code = 0;
  exec_rc = int_max;
}

abbrev deliveries : List (ℕ × VertexResult)
deliveries = (1, err) ∷ (0, ok) ∷ []

deliverable : Deliverable 2 deliveries
unfolding Deliverable value
deliverable = (omega arith, refl, refl, (omega arith, refl, refl, tt))

deliver_once_example :
    ((deliver (reset context) deliveries).0 ≡ countdown 2 2)
    × ((ready (deliver (reset context) deliveries).1 ≡ true)
        ↔ (length deliveries ≡ length joined.deps_idx))
deliver_once_example = deliver_once context deliveries (omega arith) deliverable

abbrev unlinked : Heap
unlinked p = blank

abbrev linked : Heap
linked = depend unlinked 3 4 ok

abbrev no_settings : Name → Option Bool
no_settings name = none

abbrev even_io : ℕ → Bool
even_io p = p == 2 || p == 4

abbrev three : List ℕ
three = 2 ∷ 3 ∷ 4 ∷ []

three-once : (y : ℕ) → count y three ≤ 1
three-once y = ground (arith, ==_iff y 2, ==_iff y 3, ==_iff y 4)

-- 1 has finished; 2 waits for it alone, 3 for another one too
abbrev contexts : ℕ → VertexContext
contexts p = record context {
  waiting_num = if p == 2 then 1 else 2;
  deps_results = invalid ∷ invalid ∷ [];
  result = ok;
}

abbrev running : GraphContext
running = record { join_vertex_num = 3; contexts = contexts }

abbrev both : List (ℕ × ℕ)
both = (2, 0) ∷ (3, 1) ∷ []

both-IsSimple : IsSimple (names both)
unfolding IsSimple
both-IsSimple = (refl, (refl, tt))

on_vertex_done-executes_example :
    (d : Dispatched) × ((on_vertex_done even_io running 1 both).1 ≡ some d)
    × ((x : ℕ)
        → count x (d.posted ++ d.local_execute)
          ≡ (if elem x (names both) && (contexts x).waiting_num == 1 then 1 else 0))
on_vertex_done-executes_example =
    on_vertex_done-executes even_io running 1 both both-IsSimple (λ e. absurd (omega arith))
