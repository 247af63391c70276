-- ===== src/Didagle/Graph/Blank.antt =====
-- The first loop of Graph::Build makes no links.
use myctk.Base.{
  ℕ, ◌≡◌, refl, subst, Bool, true, false, not, ◌&&◌, ◌||◌, List, [], ◌∷◌, Option, none, some, ◌==◌,
  if◌then◌else◌, Bool-cases, Option-cases, inl, inr,
}
use myctk.Base.Name.{Name, ◌=s◌, is_nil, find}
use myctk.Didagle.Vertex.{
  Vertex, Heap, update, has, merge_successor, set_generated_id, none_in, get_dependency_index,
  index_of, ◌>>=◌,
}
use myctk.Didagle.Vertex.Linked.{IsLinked}
use myctk.Didagle.Config.{Cluster}
use myctk.Didagle.Fill.{ProcessorIds, fill_input_output}
use myctk.Didagle.Graph.{
  Graph, generate_node_id, generated_cond_vertex, choose_processor, choose_id, choose_cluster,
  name_vertex, take_deps, condition_vertex, add_condition, register, fill, add_outputs, all_fields,
  add_data, prepare, prepare_all,
}

-- a vertex with no links
abbrev pub IsBlank : Vertex → Type 0
IsBlank v = (v.successor_vertex ≡ []) × (v.deps_idx ≡ []) × (v.deps_expected_results ≡ [])

abbrev pub AreBlank : Heap → Type 0
AreBlank h = (p : ℕ) → IsBlank (h p)

pub AreBlank-IsLinked : (h : Heap) → AreBlank h → IsLinked h
unfolding get_dependency_index index_of
AreBlank-IsLinked h b = record {
  mutual_links = λ v w. rw ((b v).0, (b w).1) refl;
  indexed = λ w. record {
    sized = rw ((b w).2, (b w).1) refl;
    bounded = λ u i e. cc (rw (b w).1 at e);
    injective = λ u u' i e e'. cc (rw (b w).1 at e);
  };
}

if_AreBlank :
    (b : Bool) (g g' : Graph)
    → AreBlank g.heap
    → AreBlank g'.heap
    → AreBlank (if b then g else g').heap
if_AreBlank true g g' p q = p
if_AreBlank false g g' p q = q

update-AreBlank : (h : Heap) (p : ℕ) (v : Vertex) → AreBlank h → IsBlank v → AreBlank (update h p v)
update-AreBlank h p v b bv q = elim (Bool-cases (q == p)) [
  | inl same ↦ rw same bv
  | inr other ↦ rw other (b q)
]

-- what a step leaves blank, if it succeeds
abbrev pub KeepsBlank : Option Graph → Type 0
KeepsBlank none = Unit {0}
KeepsBlank (some g) = AreBlank g.heap

KeepsBlank-bind :
    (m : Option Graph) (f : Graph → Option Graph)
    → KeepsBlank m
    → ((g : Graph) → AreBlank g.heap → KeepsBlank (f g))
    → KeepsBlank (m >>= f)
KeepsBlank-bind none f k keeps = tt
KeepsBlank-bind (some g) f k keeps = keeps g k

KeepsBlank-if :
    (b : Bool) (m n : Option Graph) → KeepsBlank m → KeepsBlank n → KeepsBlank (if b then m else n)
KeepsBlank-if true m n p q = p
KeepsBlank-if false m n p q = q

abbrev IsBlankIfSome : Option Vertex → Type 0
IsBlankIfSome none = Unit {0}
IsBlankIfSome (some v) = IsBlank v

fill-IsBlank :
    (processors : Name → Option ProcessorIds) (v : Vertex)
    → IsBlank v
    → IsBlankIfSome (fill_input_output processors v)
unfolding fill_input_output
fill-IsBlank processors v b = elim (Bool-cases (is_nil v.processor)) [
  | inl e ↦ rw (e, fill_input_output) b
  | inr e ↦ elim (Option-cases (processors v.processor)) [
    | inl e' ↦ rw (e, e', fill_input_output) tt
    | inr (p, e') ↦ rw (e, e', fill_input_output) b
  ]
]

module _ (to_string : ℕ → Name) (processors : Name → Option ProcessorIds) (c : Cluster) where
  choose_processor-AreBlank :
      (g : Graph) (p : ℕ)
      → AreBlank g.heap
      → AreBlank (choose_processor to_string processors c g p).heap
  unfolding choose_processor
  choose_processor-AreBlank g p b =
      if_AreBlank (is_nil (g.heap p).processor && not (is_nil (g.heap p).cond)) _ g
        (update-AreBlank g.heap p _ b (b p)) b

  choose_id-AreBlank :
      (g : Graph) (p : ℕ) → AreBlank g.heap → AreBlank (choose_id to_string processors c g p).heap
  unfolding choose_id generate_node_id set_generated_id
  choose_id-AreBlank g p b =
      if_AreBlank (is_nil (g.heap p).id) _ g
        (if_AreBlank (is_nil (g.heap p).processor) _ _ (update-AreBlank g.heap p _ b (b p))
          (update-AreBlank g.heap p _ b (b p)))
        b

  choose_cluster-AreBlank :
      (g : Graph) (p : ℕ)
      → AreBlank g.heap
      → AreBlank (choose_cluster to_string processors c g p).heap
  unfolding choose_cluster
  choose_cluster-AreBlank g p b =
      let v = g.heap p in
      if_AreBlank (not (is_nil v.graph) && (v.cluster =s (b'.' ∷ []) || is_nil v.cluster)) _ g
        (update-AreBlank g.heap p _ b (b p)) b

  name_vertex-AreBlank :
      (g : Graph) (p : ℕ) → AreBlank g.heap → AreBlank (name_vertex to_string processors c g p).heap
  unfolding name_vertex
  name_vertex-AreBlank g p b =
      let g1 = choose_processor to_string processors c g p in
      let g2 = choose_id to_string processors c g1 p in
      choose_cluster-AreBlank g2 p (choose_id-AreBlank g1 p (choose_processor-AreBlank g p b))

  generated-AreBlank :
      (g : Graph) (cond : Name)
      → AreBlank g.heap
      → AreBlank (generated_cond_vertex to_string processors c g cond).1.heap
  unfolding generated_cond_vertex generate_node_id set_generated_id merge_successor
  generated-AreBlank g cond b = update-AreBlank g.heap g.next _ b (refl, refl, refl)

  take_deps-IsBlank : (v u : Vertex) → IsBlank u → IsBlank (take_deps v u)
  unfolding take_deps
  take_deps-IsBlank v u b = elim (Bool-cases (none_in v.expect_deps)) [
    | inl e ↦ rw (e, take_deps) b
    | inr e ↦ rw (e, take_deps) b
  ]

  condition-AreBlank :
      (g : Graph) (p : ℕ)
      → AreBlank g.heap
      → AreBlank (condition_vertex to_string processors c g p).1.heap
  unfolding condition_vertex
  condition-AreBlank g p b = elim (Option-cases (find (g.heap p).expect g.generated_cond_nodes)) [
    | inl e ↦
        let made = generated-AreBlank g (g.heap p).expect b in
        let (q, g1) = generated_cond_vertex to_string processors c g (g.heap p).expect in
        rw (e, condition_vertex)
          (update-AreBlank g1.heap q _ made (take_deps-IsBlank (g.heap p) (g1.heap q) (made q)))
    | inr (q, e) ↦ rw (e, condition_vertex) b
  ]

  add_condition-AreBlank :
      (g : Graph) (p : ℕ)
      → AreBlank g.heap
      → AreBlank (add_condition to_string processors c g p).heap
  unfolding add_condition
  add_condition-AreBlank g p b =
      let b1 = condition-AreBlank g p b in
      if_AreBlank (is_nil (g.heap p).expect) g _ b (update-AreBlank _ p _ b1 (b1 p))

  register-KeepsBlank :
      (g : Graph) (p : ℕ) → AreBlank g.heap → KeepsBlank (register to_string processors c g p)
  unfolding register merge_successor
  register-KeepsBlank g p b =
      KeepsBlank-if (has (find (g.heap p).id g.nodes)) none _ tt
        (update-AreBlank g.heap p _ b (b p))

  fill-KeepsBlank :
      (g : Graph) (p : ℕ) → AreBlank g.heap → KeepsBlank (fill to_string processors c g p)
  unfolding fill
  fill-KeepsBlank g p b = elim (Option-cases (fill_input_output processors (g.heap p))) [
    | inl e ↦ rw (e, fill) (KeepsBlank-if c.strict_dsl none (some g) tt b)
    | inr (v, e) ↦
        rw (e, fill)
          (update-AreBlank g.heap p v b
            (subst IsBlankIfSome e (fill-IsBlank processors (g.heap p) (b p))))
  ]

  add_data-KeepsBlank :
      (g : Graph) (p : ℕ) → AreBlank g.heap → KeepsBlank (add_data to_string processors c g p)
  unfolding add_data
  add_data-KeepsBlank g p b =
      elim (Option-cases (add_outputs p (g.heap p).output g.data_mapping_table)) [
        | inl e ↦ rw (e, add_data) tt
        | inr (table, e) ↦
            rw (e, add_data)
              (KeepsBlank-if (not (all_fields (g.heap p).input)) none _ tt
                (update-AreBlank g.heap p _ b (b p)))
      ]

  prepare-KeepsBlank :
      (g : Graph) (p : ℕ) → AreBlank g.heap → KeepsBlank (prepare to_string processors c g p)
  unfolding prepare
  prepare-KeepsBlank g p b =
      let b1 = add_condition-AreBlank _ p (name_vertex-AreBlank g p b) in
      KeepsBlank-if _ none _ tt (
        KeepsBlank-bind _ _ (register-KeepsBlank _ p b1) λ g2 b2.
          KeepsBlank-bind _ _ (fill-KeepsBlank g2 p b2) λ g3 b3. add_data-KeepsBlank g3 p b3)

  pub prepare_all-KeepsBlank :
      (ps : List ℕ) (g : Graph)
      → AreBlank g.heap
      → KeepsBlank (prepare_all to_string processors c g ps)
  unfolding prepare_all
  prepare_all-KeepsBlank [] g b = b
  prepare_all-KeepsBlank (p ∷ ps) g b =
      KeepsBlank-bind _ _ (prepare-KeepsBlank g p b) (λ g' b'. prepare_all-KeepsBlank ps g' b')
