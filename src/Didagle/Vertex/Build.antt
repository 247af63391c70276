-- ===== src/Didagle/Vertex/Build.antt =====
-- Vertex::Build keeps the links of a graph sound.
use myctk.Base.{
  ℕ, ◌≡◌, subst, Bool, true, false, ◌&&◌, List, [], ◌∷◌, Option, none, some, ◌==◌, if◌then◌else◌,
  Option-cases, inl, inr,
}
use myctk.Base.Name.{Name, find}
use myctk.Didagle.Vertex.{
  VertexResult, ok, err, all, GraphData, Heap, depend, build_deps, build_successors,
  build_aggregate, build_single, build_input, build_inputs, none_in, build, ◌>>=◌,
}
use myctk.Didagle.Vertex.Linked.{IsLinked, depend-IsLinked}

-- what a step leaves linked, if it succeeds
abbrev Keeps : Option Heap → Type 0
Keeps none = Unit {0}
Keeps (some h) = IsLinked h

Keeps-bind :
    (m : Option Heap) (f : Heap → Option Heap)
    → Keeps m
    → ((h : Heap) → IsLinked h → Keeps (f h))
    → Keeps (m >>= f)
Keeps-bind none f k g = tt
Keeps-bind (some h) f k g = g h k

build_deps-IsLinked :
    (nodes : List (Name × ℕ)) (h : Heap) (w : ℕ) (ds : List Name) (expected : VertexResult)
    → IsLinked h
    → Keeps (build_deps nodes h w ds expected)
unfolding build_deps
build_deps-IsLinked nodes h w [] expected l = l
build_deps-IsLinked nodes h w (d ∷ ds) expected l = elim (Option-cases (find d nodes)) [
  | inl e ↦ rw (e, build_deps) tt
  | inr (v, e) ↦
      rw (e, build_deps)
        (build_deps-IsLinked nodes (depend h w v expected) w ds expected
          (depend-IsLinked h w v expected l))
]

build_successors-IsLinked :
    (nodes : List (Name × ℕ)) (h : Heap) (v : ℕ) (ss : List Name) (expected : VertexResult)
    → IsLinked h
    → Keeps (build_successors nodes h v ss expected)
unfolding build_successors
build_successors-IsLinked nodes h v [] expected l = l
build_successors-IsLinked nodes h v (s ∷ ss) expected l = elim (Option-cases (find s nodes)) [
  | inl e ↦ rw (e, build_successors) tt
  | inr (w, e) ↦
      rw (e, build_successors)
        (build_successors-IsLinked nodes (depend h w v expected) v ss expected
          (depend-IsLinked h w v expected l))
]

Keeps-if : (b : Bool) (m n : Option Heap) → Keeps m → Keeps n → Keeps (if b then m else n)
Keeps-if true m n p q = p
Keeps-if false m n p q = q

build_aggregate-IsLinked :
    (table : List (Name × ℕ)) (h : Heap) (w : ℕ) (item : GraphData) (ids : List Name)
    → IsLinked h
    → Keeps (build_aggregate table h w item ids)
unfolding build_aggregate
build_aggregate-IsLinked table h w item [] l = l
build_aggregate-IsLinked table h w item (id ∷ ids) l = elim (Option-cases (find id table)) [
  | inl e ↦
      rw (e, build_aggregate)
        (Keeps-if item.is_extern _ none (build_aggregate-IsLinked table h w item ids l) tt)
  | inr (v, e) ↦
      let expected = if item.required then ok else all in
      rw (e, build_aggregate)
        (build_aggregate-IsLinked table (depend h w v expected) w item ids
          (depend-IsLinked h w v expected l))
]

build_single-IsLinked :
    (table : List (Name × ℕ)) (h : Heap) (w : ℕ) (item : GraphData)
    → IsLinked h
    → Keeps (build_single table h w item)
unfolding build_single
build_single-IsLinked table h w item l = elim (Option-cases (find item.id table)) [
  | inl e ↦ rw (e, build_single) (Keeps-if item.is_extern (some h) none l tt)
  | inr (v, e) ↦
      let expected = if item.required then ok else all in
      rw (e, build_single)
        (Keeps-if (item.is_in_out && v == w) (some h) (some (depend h w v expected)) l
          (depend-IsLinked h w v expected l))
]

build_inputs-IsLinked :
    (table : List (Name × ℕ)) (h : Heap) (w : ℕ) (items : List GraphData)
    → IsLinked h
    → Keeps (build_inputs table h w items)
unfolding build_inputs build_input
build_inputs-IsLinked table h w [] l = l
build_inputs-IsLinked table h w (item ∷ items) l =
    Keeps-bind (build_input table h w item) (λ h'. build_inputs table h' w items)
      (Keeps-if (none_in item.aggregate) _ _ (build_single-IsLinked table h w item l)
        (build_aggregate-IsLinked table h w item item.aggregate l))
      (λ h' l'. build_inputs-IsLinked table h' w items l')

build-Keeps :
    (contains_config_setting : Name → Bool) (nodes table : List (Name × ℕ)) (h : Heap) (p : ℕ)
    → IsLinked h
    → Keeps (build contains_config_setting nodes table h p)
unfolding build
build-Keeps contains_config_setting nodes table h p l =
    let v = h p in
    Keeps-if _ none _ tt (
      Keeps-bind (build_deps nodes h p v.deps all) _ (build_deps-IsLinked nodes h p v.deps all l)
        λ h1 l1.
          Keeps-bind (build_deps nodes h1 p v.deps_on_ok ok) _
            (build_deps-IsLinked nodes h1 p v.deps_on_ok ok l1)
            λ h2 l2.
              Keeps-bind (build_deps nodes h2 p v.deps_on_err err) _
                (build_deps-IsLinked nodes h2 p v.deps_on_err err l2)
                λ h3 l3.
                  Keeps-bind (build_successors nodes h3 p v.successor all) _
                    (build_successors-IsLinked nodes h3 p v.successor all l3)
                    λ h4 l4.
                      Keeps-bind (build_successors nodes h4 p v.successor_on_ok ok) _
                        (build_successors-IsLinked nodes h4 p v.successor_on_ok ok l4)
                        λ h5 l5.
                          Keeps-bind (build_successors nodes h5 p v.successor_on_err err) _
                            (build_successors-IsLinked nodes h5 p v.successor_on_err err l5)
                            λ h6 l6. build_inputs-IsLinked table h6 p v.input l6)

-- If Vertex::Build succeeds on a graph with sound links, they are sound afterwards: one vertex is
-- a successor of another exactly if that one is a dependency of it, and the dependencies of each
-- vertex have distinct indices, all of them places of its expected results.
pub build-IsLinked :
    (contains_config_setting : Name → Bool) (nodes table : List (Name × ℕ)) (h h' : Heap) (p : ℕ)
    → IsLinked h
    → build contains_config_setting nodes table h p ≡ some h'
    → IsLinked h'
build-IsLinked contains_config_setting nodes table h h' p l e =
    subst Keeps e (build-Keeps contains_config_setting nodes table h p l)
