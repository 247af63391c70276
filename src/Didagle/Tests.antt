-- ===== src/Didagle/Tests.antt =====
-- The graphs of didagle on concrete inputs.
use myctk.Base.{
  ℕ, zero, suc, ◌+◌, ◌<◌, ◌≡◌, refl, subst, map, true, false, List, [], ◌∷◌, Option, none, some,
  elem, arith,
}
use myctk.Base.Name.{Name, find, assign, ◌=s◌, less, set_insert, set_union}
use myctk.Didagle.Vertex.{
  Vertex, Heap, none_in, build, verify, merge_successor, add_dep, build_aggregate, build_deps,
  build_input, build_inputs, build_single, build_successors, depend, get_dependency_index, index_of,
  insert_vertex, is_cond_expr, is_word_char, resize, selects_known, set_generated_id,
}
use myctk.Didagle.Vertex.Linked.{IsLinked}
use myctk.Didagle.Vertex.Build.{build-IsLinked}
use myctk.Didagle.Circle.{any_of, find_vertex_in_successors, test_circle}
use myctk.Didagle.Circle.Sound.{Walk, last, step, find_vertex-endless}
use myctk.Didagle.Config.{Cluster, contains_config_setting, setting_matches}
use myctk.Didagle.Fill.{
  ProcessorIds, empty_data, fill_input_output, fill_all, fill_input, fill_output,
}
use myctk.Didagle.Graph.{
  Graph, built, blank, linked_graph, build_graph, verify_all, addresses, prepare_all, prepare,
  expect_settings, name_vertex, register, add_condition, fill, add_data, add_outputs, all_fields,
  build_all, check_graph, choose_cluster, choose_id, choose_processor, condition_vertex,
  generate_node_id, generated_cond_vertex, take_deps,
}
use myctk.Didagle.Graph.Blank.{AreBlank, AreBlank-IsLinked}
use myctk.Didagle.Graph.Sound.{build_graph-right, build_graph-built}

-- 0 leads to 1, which leads to itself and to nothing else
abbrev looped : ℕ → List ℕ
looped zero = 1 ∷ []
looped (suc zero) = 1 ∷ []
looped (suc (suc n)) = []

-- 0 leads to 1 and 2, 1 leads to 2
abbrev forked : ℕ → List ℕ
forked zero = 1 ∷ 2 ∷ []
forked (suc zero) = 2 ∷ []
forked (suc (suc n)) = []

abbrev forked_rank : ℕ → ℕ
forked_rank zero = 2
forked_rank (suc zero) = 1
forked_rank (suc (suc n)) = 0

forked_rank-lt : (u w : ℕ) → elem w (forked u) ≡ true → forked_rank w < forked_rank u
forked_rank-lt zero zero e = cc
forked_rank-lt zero (suc zero) e = omega arith
forked_rank-lt zero (suc (suc w)) e = omega arith
forked_rank-lt (suc zero) zero e = cc
forked_rank-lt (suc zero) (suc zero) e = cc
forked_rank-lt (suc zero) (suc (suc w)) e = omega arith
forked_rank-lt (suc (suc u)) w e = cc

forked_rank-enough : (p : ℕ) → forked_rank p < 3
forked_rank-enough zero = omega arith
forked_rank-enough (suc zero) = omega arith
forked_rank-enough (suc (suc p)) = omega arith

found_forked : find_vertex_in_successors forked 3 0 2 ≡ some true
unfolding find_vertex_in_successors
found_forked = refl

never_0 : {n p : ℕ} → Walk looped n p 0 → ⊥
never_0 (last {u = zero} e) = cc
never_0 (last {u = suc zero} e) = cc
never_0 (last {u = suc (suc u)} e) = cc
never_0 (step e walk) = never_0 walk

find_vertex-endless_example : find_vertex_in_successors looped 1000 0 0 ≡ none
find_vertex-endless_example =
    find_vertex-endless looped 1000 0 0 0 1 0 (last refl) (last refl) (λ (k, walk). never_0 walk)

looped_circle : test_circle looped 9 (1 ∷ 0 ∷ []) ≡ some true
unfolding any_of find_vertex_in_successors test_circle
looped_circle = refl

abbrev chain : ℕ → List ℕ
chain zero = 1 ∷ []
chain (suc p) = []

-- the vertex "b" depends on "a" by name, and takes its output "x"
abbrev producer : Vertex
producer = record blank {
  processor = b'a' ∷ [];
  output = record empty_data { field = b'x' ∷ [] } ∷ [];
}

abbrev consumer : Vertex
consumer = record blank {
  processor = b'b' ∷ [];
  deps = (b'a' ∷ []) ∷ [];
  input = record empty_data { field = b'x' ∷ []; required = true } ∷ [];
}

abbrev configured : Heap
configured zero = producer
configured (suc zero) = consumer
configured (suc (suc n)) = blank

configured-AreBlank : AreBlank configured
configured-AreBlank zero = (refl, refl, refl)
configured-AreBlank (suc zero) = (refl, refl, refl)
configured-AreBlank (suc (suc n)) = (refl, refl, refl)

abbrev pair : Graph
pair = record {
  name = b'g' ∷ [];
  heap = configured;
  size = 2;
  gen_vertex = [];
  nodes = [];
  data_mapping_table = [];
  idx = 0;
  next = 2;
  generated_cond_nodes = [];
}

abbrev cluster : Cluster
cluster = record {
  name = b'c' ∷ [];
  strict_dsl = false;
  default_expr_processor = b'e' ∷ [];
  config_setting = [];
}

abbrev one_digit : ℕ → Name
one_digit n = (b'0' + n) ∷ []

abbrev no_ids : Name → Option ProcessorIds
no_ids name = some (record { input_ids = []; output_ids = [] })

abbrev value_of : Option Graph → Graph
value_of (some g) = g
value_of none = pair

abbrev linked : Graph
linked = value_of (linked_graph one_digit no_ids cluster pair)

linked-pair : linked_graph one_digit no_ids cluster pair ≡ some linked
unfolding build_graph linked_graph addresses verify_all verify build any_of
    find_vertex_in_successors test_circle prepare_all prepare expect_settings name_vertex register
    add_condition fill fill_input_output add_data add_outputs all_fields build_all check_graph
    choose_cluster choose_id choose_processor condition_vertex contains_config_setting fill_all
    fill_input fill_output generate_node_id generated_cond_vertex setting_matches take_deps find
    assign ◌=s◌ less set_insert set_union merge_successor add_dep build_aggregate build_deps
    build_input build_inputs build_single build_successors depend get_dependency_index index_of
    insert_vertex is_cond_expr is_word_char resize selects_known set_generated_id
linked-pair = refl

linked_successors : (p : ℕ) → (linked.heap p).successor_vertex ≡ chain p
unfolding build_graph linked_graph addresses verify_all verify build any_of
    find_vertex_in_successors test_circle prepare_all prepare expect_settings name_vertex register
    add_condition fill fill_input_output add_data add_outputs all_fields build_all check_graph
    choose_cluster choose_id choose_processor condition_vertex contains_config_setting fill_all
    fill_input fill_output generate_node_id generated_cond_vertex setting_matches take_deps find
    assign ◌=s◌ less set_insert set_union merge_successor add_dep build_aggregate build_deps
    build_input build_inputs build_single build_successors depend get_dependency_index index_of
    insert_vertex is_cond_expr is_word_char resize selects_known set_generated_id
linked_successors zero = refl
linked_successors (suc zero) = refl
linked_successors (suc (suc p)) = ground arith

abbrev chain_rank : ℕ → ℕ
chain_rank zero = 1
chain_rank (suc p) = 0

chain_rank-lt : (u w : ℕ) → elem w (chain u) ≡ true → chain_rank w < chain_rank u
chain_rank-lt zero zero e = cc
chain_rank-lt zero (suc w) e = omega arith
chain_rank-lt (suc u) w e = cc

chain_rank-enough : (p : ℕ) → chain_rank p < 2
chain_rank-enough zero = omega arith
chain_rank-enough (suc p) = omega arith

configured_verify : verify_all linked.heap (addresses linked.size) ≡ true
unfolding build_graph linked_graph addresses verify_all verify build any_of
    find_vertex_in_successors test_circle prepare_all prepare expect_settings name_vertex register
    add_condition fill fill_input_output add_data add_outputs all_fields build_all check_graph
    choose_cluster choose_id choose_processor condition_vertex contains_config_setting fill_all
    fill_input fill_output generate_node_id generated_cond_vertex setting_matches take_deps find
    assign ◌=s◌ less set_insert set_union merge_successor add_dep build_aggregate build_deps
    build_input build_inputs build_single build_successors depend get_dependency_index index_of
    insert_vertex is_cond_expr is_word_char resize selects_known set_generated_id
configured_verify = refl

generated_verify : verify_all linked.heap linked.gen_vertex ≡ true
unfolding build_graph linked_graph addresses verify_all verify build any_of
    find_vertex_in_successors test_circle prepare_all prepare expect_settings name_vertex register
    add_condition fill fill_input_output add_data add_outputs all_fields build_all check_graph
    choose_cluster choose_id choose_processor condition_vertex contains_config_setting fill_all
    fill_input fill_output generate_node_id generated_cond_vertex setting_matches take_deps find
    assign ◌=s◌ less set_insert set_union merge_successor add_dep build_aggregate build_deps
    build_input build_inputs build_single build_successors depend get_dependency_index index_of
    insert_vertex is_cond_expr is_word_char resize selects_known set_generated_id
generated_verify = refl

linked_nodes : none_in linked.nodes ≡ false
unfolding build_graph linked_graph addresses verify_all verify build any_of
    find_vertex_in_successors test_circle prepare_all prepare expect_settings name_vertex register
    add_condition fill fill_input_output add_data add_outputs all_fields build_all check_graph
    choose_cluster choose_id choose_processor condition_vertex contains_config_setting fill_all
    fill_input fill_output generate_node_id generated_cond_vertex setting_matches take_deps find
    assign ◌=s◌ less set_insert set_union merge_successor add_dep build_aggregate build_deps
    build_input build_inputs build_single build_successors depend get_dependency_index index_of
    insert_vertex is_cond_expr is_word_char resize selects_known set_generated_id
linked_nodes = refl

build_graph-built_example : build_graph one_digit no_ids cluster 2 pair ≡ built linked
build_graph-built_example =
    build_graph-built one_digit no_ids cluster chain_rank 2 pair linked linked-pair
      configured_verify generated_verify linked_nodes
      (λ u w e. chain_rank-lt u w (subst (λ ss. elem w ss ≡ true) (linked_successors u) e))
      chain_rank-enough

built-pair : build_graph one_digit no_ids cluster 2 pair ≡ built linked
unfolding build_graph linked_graph addresses verify_all verify build any_of
    find_vertex_in_successors test_circle prepare_all prepare expect_settings name_vertex register
    add_condition fill fill_input_output add_data add_outputs all_fields build_all check_graph
    choose_cluster choose_id choose_processor condition_vertex contains_config_setting fill_all
    fill_input fill_output generate_node_id generated_cond_vertex setting_matches take_deps find
    assign ◌=s◌ less set_insert set_union merge_successor add_dep build_aggregate build_deps
    build_input build_inputs build_single build_successors depend get_dependency_index index_of
    insert_vertex is_cond_expr is_word_char resize selects_known set_generated_id
built-pair = refl

build_graph-right_example :
    IsLinked linked.heap
    × ((p : ℕ) → p < linked.size → verify (linked.heap p) ≡ true)
    × ((p : ℕ) → elem p linked.gen_vertex ≡ true → verify (linked.heap p) ≡ true)
    × ((p n : ℕ)
        → elem p (map (λ e. e.1) linked.nodes) ≡ true
        → ¬ Walk (λ q. (linked.heap q).successor_vertex) n p p)
build_graph-right_example =
    build_graph-right one_digit no_ids cluster 2 pair linked configured-AreBlank built-pair

-- the consumer alone, with the tables of both
abbrev nodes : List (Name × ℕ)
nodes = (b'a' ∷ [], 0) ∷ (b'b' ∷ [], 1) ∷ []

abbrev data_table : List (Name × ℕ)
data_table = (b'y' ∷ [], 0) ∷ (b'x' ∷ [], 0) ∷ []

-- the input has its id by now
abbrev named : Heap
named zero = producer
named (suc zero) = record consumer {
  input = record empty_data { id = b'y' ∷ []; field = b'x' ∷ []; required = true } ∷ [];
}
named (suc (suc p)) = blank

named-AreBlank : AreBlank named
named-AreBlank zero = (refl, refl, refl)
named-AreBlank (suc zero) = (refl, refl, refl)
named-AreBlank (suc (suc n)) = (refl, refl, refl)

abbrev heap_of : Option Heap → Heap
heap_of (some h) = h
heap_of none = named

build-named :
    build (λ name. false) nodes data_table named 1
    ≡ some (heap_of (build (λ name. false) nodes data_table named 1))
unfolding build_graph linked_graph addresses verify_all verify build any_of
    find_vertex_in_successors test_circle prepare_all prepare expect_settings name_vertex register
    add_condition fill fill_input_output add_data add_outputs all_fields build_all check_graph
    choose_cluster choose_id choose_processor condition_vertex contains_config_setting fill_all
    fill_input fill_output generate_node_id generated_cond_vertex setting_matches take_deps find
    assign ◌=s◌ less set_insert set_union merge_successor add_dep build_aggregate build_deps
    build_input build_inputs build_single build_successors depend get_dependency_index index_of
    insert_vertex is_cond_expr is_word_char resize selects_known set_generated_id
build-named = refl

build-IsLinked_example : IsLinked (heap_of (build (λ name. false) nodes data_table named 1))
build-IsLinked_example =
    build-IsLinked (λ name. false) nodes data_table named
      (heap_of (build (λ name. false) nodes data_table named 1)) 1
      (AreBlank-IsLinked named named-AreBlank) build-named
