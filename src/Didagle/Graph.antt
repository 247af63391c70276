-- ===== src/Didagle/Graph.antt =====
-- Graph::Build (didagle/graph.cpp). The configured vertices stand at the addresses below `size`, the generated ones behind them. What the
-- factory of processors knows of a name, and std::to_string, are arguments.
pub mod Blank
pub mod Sound
use myctk.Base.{
  ℕ, zero, suc, ◌+◌, ◌≡◌, Bool, true, false, not, ◌&&◌, ◌||◌, List, [], ◌∷◌, ◌++◌, map, Option,
  none, some, length, set, elem, leb, ◌==◌, if◌then◌else◌,
}
use myctk.Base.Name.{Name, ◌=s◌, is_nil, set_insert, find, assign}
use myctk.Didagle.Vertex.{
  VertexResult, GraphData, Vertex, Heap, update, has, build, merge_successor, set_generated_id,
  verify, none_in, ◌>>=◌,
}
use myctk.Didagle.Circle.{test_circle}
use myctk.Didagle.Config.{Cluster, contains_config_setting}
use myctk.Didagle.Fill.{ProcessorIds, empty_data, fill_input_output}

pub record Graph : Type 0 where
  pub name : Name
  pub heap : Heap
  pub size : ℕ
  pub gen_vertex : List ℕ
  pub nodes : List (Name × ℕ)
  pub data_mapping_table : List (Name × ℕ)
  pub idx : ℕ
  -- the first address that is free, and the local table of Build
  pub next : ℕ
  pub generated_cond_nodes : List (Name × ℕ)

abbrev pub modify : Graph → ℕ → (Vertex → Vertex) → Graph
modify g p f = record g { heap = update g.heap p (f (g.heap p)) }

abbrev pub blank : Vertex
blank = record {
  id = [];
  processor = [];
  select_args = [];
  cond = [];
  expect = [];
  expect_deps = [];
  expect_config = [];
  is_start = false;
  cluster = [];
  graph = [];
  successor = [];
  successor_on_ok = [];
  successor_on_err = [];
  consequent = [];
  alternative = [];
  deps = [];
  deps_on_ok = [];
  deps_on_err = [];
  input = [];
  output = [];
  ignore_processor_execute_error = true;
  successor_vertex = [];
  deps_expected_results = [];
  deps_idx = [];
  is_id_generated = false;
}

unfoldable pub take_deps : Vertex → Vertex → Vertex
take_deps v u =
    if not (none_in v.expect_deps)
    then record u { deps = v.expect_deps }
    else record u { deps = v.deps; deps_on_ok = v.deps_on_ok; deps_on_err = v.deps_on_err }

abbrev pub with_id : GraphData → GraphData
with_id d = if is_nil d.id then record d { id = d.field } else d

unfoldable pub add_outputs : ℕ → List GraphData → List (Name × ℕ) → Option (List (Name × ℕ))
add_outputs p [] table = some table
add_outputs p (d ∷ ds) table =
    if is_nil d.field || has (find (with_id d).id table)
    then none
    else add_outputs p ds (assign (with_id d).id p table)

unfoldable pub all_fields : List GraphData → Bool
all_fields [] = true
all_fields (d ∷ ds) = not (is_nil d.field) && all_fields ds

unfoldable pub verify_all : Heap → List ℕ → Bool
verify_all h [] = true
verify_all h (p ∷ ps) = verify (h p) && verify_all h ps

unfoldable pub addresses : ℕ → List ℕ
addresses zero = []
addresses (suc n) = addresses n ++ n ∷ []

pub data Outcome : Type 0 where
  built : Graph → Outcome
  failed : Outcome
  -- the search for circles went past its depth
  endless : Outcome

abbrev pub links : Heap → ℕ → List ℕ
links h p = (h p).successor_vertex

module _ (to_string : ℕ → Name) (processors : Name → Option ProcessorIds) (c : Cluster) where
  -- Graph::generateNodeId
  unfoldable pub generate_node_id : Graph → Name × Graph
  generate_node_id g = (g.name ++ b'_' ∷ to_string g.idx, record g { idx = g.idx + 1 })

  -- Graph::geneatedCondVertex
  unfoldable pub generated_cond_vertex : Graph → Name → ℕ × Graph
  unfolding generate_node_id
  generated_cond_vertex g cond =
      let (id, g1) = generate_node_id g in
      let v = merge_successor (record (set_generated_id blank id) {
        processor = c.default_expr_processor;
        cond = cond;
      }) in
      (
        g1.next,
        record g1 {
          heap = update g1.heap g1.next v;
          nodes = assign id g1.next g1.nodes;
          gen_vertex = g1.gen_vertex ++ g1.next ∷ [];
          next = g1.next + 1;
        },
      )

  -- the steps of the first loop of Build, for the vertex at p
  unfoldable pub choose_processor : Graph → ℕ → Graph
  choose_processor g p =
      if is_nil (g.heap p).processor && not (is_nil (g.heap p).cond)
      then modify g p (λ v. record v { processor = c.default_expr_processor })
      else g

  unfoldable pub choose_id : Graph → ℕ → Graph
  unfolding generate_node_id
  choose_id g p =
      let (id, g1) = generate_node_id g in
      if is_nil (g.heap p).id
      then (if is_nil (g.heap p).processor
          then modify g1 p (λ v. set_generated_id v id)
          else modify g p (λ v. record v { id = v.processor }))
      else g

  unfoldable pub choose_cluster : Graph → ℕ → Graph
  choose_cluster g p =
      let v = g.heap p in
      if not (is_nil v.graph) && (v.cluster =s (b'.' ∷ []) || is_nil v.cluster)
      then modify g p (λ u. record u { cluster = c.name })
      else g

  unfoldable pub name_vertex : Graph → ℕ → Graph
  unfolding choose_processor choose_id choose_cluster
  name_vertex g p = choose_cluster (choose_id (choose_processor g p) p) p

  unfoldable pub expect_settings : Vertex → Bool
  expect_settings v =
      not (not (is_nil v.expect) && not (is_nil v.expect_config))
      && (is_nil v.expect_config || contains_config_setting c.config_setting v.expect_config)

  -- the vertex of a condition, made at its first use
  unfoldable pub condition_vertex : Graph → ℕ → ℕ × Graph
  unfolding generated_cond_vertex take_deps
  condition_vertex g p =
      let v = g.heap p in
      elim (find v.expect g.generated_cond_nodes) [
        | some q ↦ (q, g)
        | none ↦
            let (q, g1) = generated_cond_vertex g v.expect in
            let g2 = record g1 {
              generated_cond_nodes = assign v.expect q g1.generated_cond_nodes;
            } in
            (q, modify g2 q (take_deps v))
      ]

  unfoldable pub add_condition : Graph → ℕ → Graph
  unfolding condition_vertex
  add_condition g p =
      let (q, g1) = condition_vertex g p in
      let id = (g1.heap q).id in
      if is_nil (g.heap p).expect
      then g
      else modify g1 p (λ v. record v { deps_on_ok = set_insert id v.deps_on_ok })

  unfoldable pub register : Graph → ℕ → Option Graph
  register g p =
      if has (find (g.heap p).id g.nodes)
      then none
      else let g1 = modify g p merge_successor in
        some (record g1 { nodes = assign (g1.heap p).id p g1.nodes })

  unfoldable pub fill : Graph → ℕ → Option Graph
  fill g p = elim (fill_input_output processors (g.heap p)) [
    | none ↦ if c.strict_dsl then none else some g
    | some v ↦ some (modify g p (λ _. v))
  ]

  unfoldable pub add_data : Graph → ℕ → Option Graph
  add_data g p = add_outputs p (g.heap p).output g.data_mapping_table >>= λ table.
      if not (all_fields (g.heap p).input)
      then none
      else some
          (record (modify g p
            (λ v. record v { input = map with_id v.input; output = map with_id v.output })) {
              data_mapping_table = table;
            })

  -- the body of the first loop
  unfoldable pub prepare : Graph → ℕ → Option Graph
  prepare g p =
      let g1 = name_vertex g p in
      if not (expect_settings (g1.heap p))
      then none
      else do g2 ← register (add_condition g1 p) p; g3 ← fill g2 p; add_data g3 p

  -- the loops: over the vertices at the addresses given
  unfoldable pub prepare_all : Graph → List ℕ → Option Graph
  prepare_all g [] = some g
  prepare_all g (p ∷ ps) = prepare g p >>= λ g'. prepare_all g' ps

  unfoldable pub build_all : Graph → List ℕ → Option Graph
  build_all g [] = some g
  build_all g (p ∷ ps) =
      build (contains_config_setting c.config_setting) g.nodes g.data_mapping_table g.heap p
      >>= λ h. build_all (record g { heap = h }) ps

  unfoldable pub check_graph : ℕ → Graph → Outcome
  check_graph fuel g =
      if not (verify_all g.heap (addresses g.size) && verify_all g.heap g.gen_vertex)
      then failed
      else elim (test_circle (links g.heap) fuel (map (λ e. e.1) g.nodes)) [
        | none ↦ endless
        | some true ↦ failed
        | some false ↦ if none_in g.nodes && none_in g.gen_vertex then failed else built g
      ]

  unfoldable pub linked_graph : Graph → Option Graph
  linked_graph g = do
    g1 ← prepare_all g (addresses g.size)
    g2 ← build_all g1 (addresses g.size)
    build_all g2 g2.gen_vertex

  -- Graph::Build
  unfoldable pub build_graph : ℕ → Graph → Outcome
  build_graph fuel g = elim (linked_graph g) [ none ↦ failed | some g' ↦ check_graph fuel g' ]
