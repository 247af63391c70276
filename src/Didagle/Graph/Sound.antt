-- ===== src/Didagle/Graph/Sound.antt =====
-- A graph that Graph::Build accepts is sound.
use myctk.Base.{
  ℕ, zero, suc, ◌<◌, ◌≡◌, refl, subst, Bool, true, false, ◌&&◌, List, [], ◌∷◌, map, Option, none,
  some, elem, ◌==◌, arith, Bool-cases, Option-cases, inl, inr, ==_iff,
}
use myctk.Base.Name.{Name}
use myctk.Didagle.Vertex.{Heap, build, verify, none_in}
use myctk.Didagle.Vertex.Linked.{elem-append, IsLinked}
use myctk.Didagle.Vertex.Build.{build-IsLinked}
use myctk.Didagle.Circle.{test_circle}
use myctk.Didagle.Circle.Sound.{Walk, test_circle-right, test_circle-acyclic}
use myctk.Didagle.Config.{Cluster, contains_config_setting}
use myctk.Didagle.Fill.{ProcessorIds}
use myctk.Didagle.Graph.{
  Graph, Outcome, built, prepare_all, build_all, verify_all, addresses, check_graph, linked_graph,
  build_graph,
}
use myctk.Didagle.Graph.Blank.{AreBlank, AreBlank-IsLinked, KeepsBlank, prepare_all-KeepsBlank}

module _ (to_string : ℕ → Name) (processors : Name → Option ProcessorIds) (c : Cluster) where
  KeepsLinked : Option Graph → Type 0
  KeepsLinked none = Unit {0}
  KeepsLinked (some g) = IsLinked g.heap

  build_all-KeepsLinked :
      (ps : List ℕ) (g : Graph)
      → IsLinked g.heap
      → KeepsLinked (build_all to_string processors c g ps)
  unfolding build_all KeepsLinked
  build_all-KeepsLinked [] g l = l
  build_all-KeepsLinked (p ∷ ps) g l =
      let settings = contains_config_setting c.config_setting in
      elim (Option-cases (build settings g.nodes g.data_mapping_table g.heap p)) [
        | inl e ↦ rw (e, build_all) tt
        | inr (h, e) ↦
            rw (e, build_all)
              (build_all-KeepsLinked ps (record g { heap = h })
                (build-IsLinked settings g.nodes g.data_mapping_table g.heap h p l e))
      ]

  linked-KeepsLinked :
      (g : Graph) → AreBlank g.heap → KeepsLinked (linked_graph to_string processors c g)
  unfolding linked_graph KeepsLinked
  linked-KeepsLinked g b =
      let ps = addresses g.size in
      elim (Option-cases (prepare_all to_string processors c g ps)) [
        | inl e ↦ rw (e, linked_graph) tt
        | inr (g1, e) ↦
            let b1 = subst KeepsBlank e (prepare_all-KeepsBlank to_string processors c ps g b) in
            let l1 = build_all-KeepsLinked ps g1 (AreBlank-IsLinked g1.heap b1) in
            elim (Option-cases (build_all to_string processors c g1 ps)) [
              | inl e' ↦ rw (e, e', linked_graph) tt
              | inr (g2, e') ↦
                  rw (e, e', linked_graph)
                    (build_all-KeepsLinked g2.gen_vertex g2 (subst KeepsLinked e' l1))
            ]
      ]

  verify_all-each :
      (h : Heap) (ps : List ℕ) (p : ℕ)
      → verify_all h ps ≡ true
      → elem p ps ≡ true
      → verify (h p) ≡ true
  unfolding verify_all
  verify_all-each h [] p e m = cc
  verify_all-each h (q ∷ ps) p e m = elim (Bool-cases (p == q)) [
    | inl same ↦ rw ((==_iff p q).0 same) (ground arith)
    | inr other ↦ verify_all-each h ps p (ground arith) (ground arith)
  ]

  elem-addresses : (n p : ℕ) → p < n → elem p (addresses n) ≡ true
  unfolding addresses
  elem-addresses zero p lt = absurd (omega arith)
  elem-addresses (suc n) p lt =
      ground (arith, elem-append p (addresses n) (n ∷ []), elem-addresses n p, ==_iff p n)

  abbrev check : ℕ → Graph → Outcome
  check = check_graph to_string processors c

  abbrev verified : Graph → Bool
  verified g = verify_all g.heap (addresses g.size) && verify_all g.heap g.gen_vertex

  abbrev registered : Graph → List ℕ
  registered g = map (λ e. e.1) g.nodes

  -- what the checks at the end have found of a graph that they let through
  record IsChecked (g g' : Graph) (fuel : ℕ) : Type 0 where
    same : g ≡ g'
    verifies : verified g ≡ true
    open_links : test_circle (λ p. (g.heap p).successor_vertex) fuel (registered g) ≡ some false

  check-IsChecked : (fuel : ℕ) (g g' : Graph) → check fuel g ≡ built g' → IsChecked g g' fuel
  unfolding check_graph
  check-IsChecked fuel g g' e = elim (Bool-cases (verified g)) [
    | inr refused ↦ cc (rw (refused, check_graph) at e)
    | inl passed ↦
        elim (Option-cases (test_circle (λ p. (g.heap p).successor_vertex) fuel (registered g))) [
          | inl e1 ↦ cc (rw (passed, e1, check_graph) at e)
          | inr (true, e1) ↦ cc (rw (passed, e1, check_graph) at e)
          | inr (false, e1) ↦ elim (Bool-cases (none_in g.nodes && none_in g.gen_vertex)) [
            | inl empty ↦ cc (rw (passed, e1, empty, check_graph) at e)
            | inr full ↦
                let same : built g ≡ built g' = rw (passed, e1, full, check_graph) at e in
                record { same = cc same; verifies = passed; open_links = e1 }
          ]
        ]
  ]

  -- If Graph::Build accepts a graph whose vertices had no links, then its links are sound, each of
  -- its vertices passes Verify, and no vertex of its table lies on a circle of successor links.
  pub build_graph-right :
      (fuel : ℕ) (g g' : Graph)
      → AreBlank g.heap
      → build_graph to_string processors c fuel g ≡ built g'
      → IsLinked g'.heap
        × ((p : ℕ) → p < g'.size → verify (g'.heap p) ≡ true)
        × ((p : ℕ) → elem p g'.gen_vertex ≡ true → verify (g'.heap p) ≡ true)
        × ((p n : ℕ)
            → elem p (map (λ e. e.1) g'.nodes) ≡ true
            → ¬ Walk (λ q. (g'.heap q).successor_vertex) n p p)
  unfolding build_graph KeepsLinked
  build_graph-right fuel g g' b e = elim (Option-cases (linked_graph to_string processors c g)) [
    | inl e1 ↦ cc (rw (e1, build_graph) at e)
    | inr (g1, e1) ↦
        let found = check-IsChecked fuel g1 g' (rw (e1, build_graph) at e) in
        let linked : IsLinked g1.heap = subst KeepsLinked e1 (linked-KeepsLinked g b) in
        let vs = addresses g'.size in
        let verifies : verified g' ≡ true =
          subst (λ g. verified g ≡ true) found.same found.verifies in
        let acyclic =
          subst
            (λ g. test_circle (λ p. (g.heap p).successor_vertex) fuel (registered g) ≡ some false)
            found.same found.open_links in
        (
          subst (λ g. IsLinked g.heap) found.same linked,
          λ p lt. verify_all-each g'.heap vs p (ground arith) (elem-addresses g'.size p lt),
          λ p m. verify_all-each g'.heap g'.gen_vertex p (ground arith) m,
          λ p n m walk.
              let found =
                (test_circle-right _ fuel (registered g') false acyclic).1 ∣ (p, m, (n, walk)) ∣₁ in
              cc found,
        )
  ]

  -- If the loops of Graph::Build link the graph, every vertex passes Verify, the table of vertices
  -- is not empty and the links go down in some rank, then at a depth above all ranks Graph::Build
  -- ends, and accepts the graph as linked.
  pub build_graph-built :
      (rank : ℕ → ℕ) (fuel : ℕ) (g g1 : Graph)
      → linked_graph to_string processors c g ≡ some g1
      → verify_all g1.heap (addresses g1.size) ≡ true
      → verify_all g1.heap g1.gen_vertex ≡ true
      → none_in g1.nodes ≡ false
      → ((u w : ℕ) → elem w (g1.heap u).successor_vertex ≡ true → rank w < rank u)
      → ((p : ℕ) → rank p < fuel)
      → build_graph to_string processors c fuel g ≡ built g1
  unfolding build_graph check_graph
  build_graph-built rank fuel g g1 e configured generated full down enough =
      let acyclic = test_circle-acyclic _ rank fuel (registered g1) down enough in
      rw (e, build_graph, configured, generated, acyclic, check_graph, full) refl
