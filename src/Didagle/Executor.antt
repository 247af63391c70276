-- ===== src/Didagle/Executor.antt =====
-- The execution of a graph (didagle/graph_executor.h, graph_executor.cpp): VertexContext and
-- GraphContext. A context has the address of its vertex. An int is its 32 bits as a number. What a
-- processor or a subgraph answers, and the values of config settings, are arguments; the moves of
-- data, the events and the parameters are not modelled.
pub mod Deliver
pub mod Allowed
pub mod Finish
pub mod Dispatch
pub mod Done
mod Tests
use Prim.Native.Nat.{bit_and}
use myctk.Base.{
  ℕ, zero, suc, ◌+◌, ◌-◌, ◌%◌, ◌^◌, ◌≡◌, Bool, true, false, not, ◌&&◌, ◌||◌, List, [], ◌∷◌, ◌++◌,
  Option, none, some, length, get_or, set, replicate, leb, ◌==◌, if◌then◌else◌,
}
use myctk.Base.Name.{Name, is_nil}
use myctk.Didagle.Vertex.{
  VertexResult, invalid, ok, err, all, Vertex, Heap, get_dependency_index, ◌>>=◌,
}

-- the value of the enumerator
unfoldable pub value : VertexResult → ℕ
value invalid = 0
value ok = 1
value err = 2
value all = 3

abbrev pub int_max : ℕ
int_max = 2 ^ 31 - 1

-- VertexErrCode
abbrev pub v_code_err : ℕ
v_code_err = 2

abbrev pub v_code_skip : ℕ
v_code_skip = 3

pub record VertexContext : Type 0 where
  pub vertex : Vertex
  pub waiting_num : ℕ
  pub deps_results : List VertexResult
  pub result : VertexResult
  pub code : ℕ
  pub exec_rc : ℕ

-- VertexContext::Reset
unfoldable pub reset : VertexContext → VertexContext
reset c =
    let n = length c.vertex.deps_idx in
    record c {
      result = invalid;
      code = 0;
      exec_rc = int_max;
      deps_results = replicate n invalid;
      waiting_num = n % 2 ^ 32;
    }

-- VertexContext::SetDependencyResult; the index is one of `deps_results`
unfoldable pub set_dependency_result : VertexContext → ℕ → VertexResult → ℕ × VertexContext
unfolding value
set_dependency_result c idx r =
    let last = get_or c.deps_results idx invalid in
    let c1 = record c { deps_results = set c.deps_results idx r } in
    (
      c.waiting_num,
      if value last == 0
          then record c1 { waiting_num = (c.waiting_num + 2 ^ 32 - 1) % 2 ^ 32 }
          else c1,
    )

-- VertexContext::Ready
unfoldable pub ready : VertexContext → Bool
ready c = c.waiting_num == 0

-- the loop of VertexContext::Execute over the results and what is expected of them
unfoldable pub accepts : VertexResult → VertexResult → Bool
unfolding value
accepts r expected = not (value r == 0 || bit_and (value r) (value expected) == 0)

unfoldable pub match_deps : List VertexResult → List VertexResult → Bool
unfolding accepts
match_deps [] es = true
match_deps (r ∷ rs) [] = false
match_deps (r ∷ rs) (e ∷ es) = accepts r e && match_deps rs es

abbrev pub value_or_false : Option Bool → Bool
value_or_false none = false
value_or_false (some b) = b

-- the test of expect_config in VertexContext::Execute
unfoldable pub match_config : (Name → Option Bool) → Name → Bool
match_config get [] = true
match_config get (c ∷ cs) =
    if c == b'!' then not (value_or_false (get cs)) else value_or_false (get (c ∷ cs))

unfoldable pub is_late : ℕ → ℕ → Bool
is_late now end_ustime = not (end_ustime == 0) && leb end_ustime now

-- what Execute tests before it runs anything; `runnable` is that there is a processor or a subgraph
unfoldable pub executes : (Name → Option Bool) → ℕ → ℕ → Bool → VertexContext → Bool
unfolding match_deps match_config is_late
executes get now end_ustime runnable c =
    runnable
    && match_deps c.deps_results c.vertex.deps_expected_results
    && match_config get c.vertex.expect_config
    && not (is_late now end_ustime)

-- VertexContext::FinishVertexProcess, up to the call of OnVertexDone
unfoldable pub finish_vertex_process : VertexContext → ℕ → VertexContext
finish_vertex_process c code = record c {
  code = code;
  exec_rc = if c.exec_rc == int_max then code else c.exec_rc;
  result = if code == 0 then ok else err;
}

-- What the processor or the subgraph does. `threw` is an exception out of the call itself;
-- `continuation_lost` is a future or a coroutine that ends in an exception or never, whose thenValue is
-- then not called.
pub data Answer : Type 0 where
  not_injected : Answer
  returned : ℕ → Answer
  threw : Answer
  continuation_lost : Answer
  subgraph_done : ℕ → Answer

unfoldable pub finish_code : Vertex → ℕ → ℕ
finish_code v rc = if v.ignore_processor_execute_error && is_nil v.cond then 0 else rc

-- VertexContext::ExecuteProcessor, or ExecuteSubGraph for `subgraph_done`
unfoldable pub run : VertexContext → Answer → VertexContext
unfolding finish_vertex_process finish_code
run c not_injected = finish_vertex_process c v_code_skip
run c (returned rc) = finish_vertex_process (record c { exec_rc = rc }) (finish_code c.vertex rc)
run c threw =
    finish_vertex_process (record c { exec_rc = v_code_err }) (finish_code c.vertex v_code_err)
run c continuation_lost = c
run c (subgraph_done code) = finish_vertex_process c code

-- VertexContext::Execute
unfoldable pub execute :
    (Name → Option Bool) → ℕ → ℕ → Bool → Answer → VertexContext → VertexContext
unfolding executes run
execute get now end_ustime runnable answer c =
    if executes get now end_ustime runnable c
    then run c answer
    else finish_vertex_process (record c { result = err; code = v_code_skip }) v_code_skip

-- VertexContext::SetupSuccessors; `none` is the call of abort, or an index of -1
unfoldable pub setup_all : Heap → ℕ → List ℕ → Option (List (ℕ × ℕ))
setup_all h v [] = some []
setup_all h v (w ∷ ws) =
    get_dependency_index (h w) v >>= λ idx. setup_all h v ws >>= λ rest. some ((w, idx) ∷ rest)

unfoldable pub setup_successors : Heap → ℕ → Option (List (ℕ × ℕ))
unfolding setup_all
setup_successors h v = setup_all h v (h v).successor_vertex

-- the loop of GraphContext::OnVertexDone: the successors that are ready now
unfoldable pub deliver_result :
    (ℕ → VertexContext) → List (ℕ × ℕ) → VertexResult → List ℕ × (ℕ → VertexContext)
unfolding set_dependency_result
deliver_result ctxs [] r = ([], ctxs)
deliver_result ctxs ((w, idx) ∷ successors) r =
    let (wait_num, c) = set_dependency_result (ctxs w) idx r in
    let (rest, ctxs') = deliver_result (λ p. if p == w then c else ctxs p) successors r in
    (if wait_num == 1 then w ∷ rest else rest, ctxs')

-- GraphContext::ExecuteReadyVertexs: `is_io p` is false for a subgraph. First the one that is run
-- in place, then those that are handed to the concurrent executor.
unfoldable pub first_local : (ℕ → Bool) → List ℕ → Option ℕ
first_local is_io [] = none
first_local is_io (p ∷ ps) = if is_io p then first_local is_io ps else some p

unfoldable pub others : ℕ → List ℕ → List ℕ
others p [] = []
others p (q ∷ qs) = if q == p then others p qs else q ∷ others p qs

pub record Dispatched : Type 0 where
  pub posted : List ℕ
  pub local_execute : List ℕ

unfoldable pub local_or : ℕ → Option ℕ → ℕ
local_or p none = p
local_or p (some q) = q

unfoldable pub execute_ready_vertexs : (ℕ → Bool) → List ℕ → Dispatched
unfolding first_local others local_or
execute_ready_vertexs is_io [] = record { posted = []; local_execute = [] }
execute_ready_vertexs is_io (p ∷ []) = record { posted = []; local_execute = p ∷ [] }
execute_ready_vertexs is_io (p ∷ q ∷ ps) =
    let chosen = local_or p (first_local is_io (p ∷ q ∷ ps)) in
    record { posted = others chosen (p ∷ q ∷ ps); local_execute = chosen ∷ [] }

-- GraphContext::OnVertexDone: `none` is the call of `_done`
pub record GraphContext : Type 0 where
  pub join_vertex_num : ℕ
  pub contexts : ℕ → VertexContext

unfoldable pub on_vertex_done :
    (ℕ → Bool) → GraphContext → ℕ → List (ℕ × ℕ) → GraphContext × Option Dispatched
unfolding deliver_result execute_ready_vertexs
on_vertex_done is_io g v successors =
    let left = (g.join_vertex_num + 2 ^ 32 - 1) % 2 ^ 32 in
    let (ready, ctxs) = deliver_result g.contexts successors (g.contexts v).result in
    if g.join_vertex_num == 1 then (record g { join_vertex_num = left }, none) else (
      record { join_vertex_num = left; contexts = ctxs },
      some (execute_ready_vertexs is_io ready),
    )
