-- ===== src/Didagle/Executor/Finish.antt =====
-- When a vertex is executed and what its successors hear of it.
use myctk.Base.{Bool, true, false, ◌&&◌, ◌||◌, ◌==◌}
use myctk.Base.Name.{Name, is_nil}
use myctk.Didagle.Vertex.{Vertex}
use myctk.Didagle.Executor.{Answer, not_injected, returned, threw, continuation_lost, subgraph_done}

-- what counts as success of what a vertex runs
pub passes : Vertex → Answer → Bool
passes v not_injected = false
passes v (returned rc) = v.ignore_processor_execute_error && is_nil v.cond || rc == 0
passes v threw = v.ignore_processor_execute_error && is_nil v.cond
passes v continuation_lost = false
passes v (subgraph_done code) = code == 0

-- whether what a vertex runs comes to an end that the vertex hears of
unfoldable pub comes_back : Answer → Bool
comes_back continuation_lost = false
comes_back not_injected = true
comes_back (returned rc) = true
comes_back threw = true
comes_back (subgraph_done code) = true
