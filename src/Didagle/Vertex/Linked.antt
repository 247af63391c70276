-- ===== src/Didagle/Vertex/Linked.antt =====
-- The links that Vertex::Depend makes go both ways, and the indices of dependencies are sound.
use myctk.Base.{
  ℕ, zero, suc, ◌<◌, ◌≡◌, refl, ap, ◌∙◌, sym, ◌&&◌, ◌||◌, List, [], ◌∷◌, ◌++◌, none, some, length,
  length-append, length-set, elem, ◌==◌, if◌then◌else◌, arith, ==_iff, subst, Bool-cases, inl, inr,
}
use myctk.Didagle.Vertex.{
  VertexResult, Vertex, Heap, update, index_of, has, get_dependency_index, resize, insert_vertex,
  add_dep, depend,
}

pub elem-append : (x : ℕ) (xs ys : List ℕ) → elem x (xs ++ ys) ≡ (elem x xs || elem x ys)
elem-append x [] ys = refl
elem-append x (y ∷ xs) ys = ground (arith, elem-append x xs ys)

elem-insert_vertex : (x w : ℕ) (xs : List ℕ) → elem x (insert_vertex w xs) ≡ (x == w || elem x xs)
unfolding insert_vertex
elem-insert_vertex x w xs = ground (arith, elem-append x xs (w ∷ []))

length-resize : (n : ℕ) (xs : List VertexResult) → length (resize n xs) ≡ n
unfolding resize
length-resize zero xs = refl
length-resize (suc n) [] = ap suc (length-resize n [])
length-resize (suc n) (x ∷ xs) = ap suc (length-resize n xs)

index_of-append :
    (u v i : ℕ) (m : List (ℕ × ℕ))
    → index_of u (m ++ (v, i) ∷ [])
      ≡ (if has (index_of u m) then index_of u m else if u == v then some i else none)
unfolding index_of
index_of-append u v i [] = refl
index_of-append u v i ((x, j) ∷ m) = ground (arith, index_of-append u v i m)

-- the indices in use are those of the vector of expected results, each by one vertex
pub record IsIndexed (w : Vertex) : Type 0 where
  pub sized : length w.deps_expected_results ≡ length w.deps_idx
  pub bounded : (v i : ℕ) → get_dependency_index w v ≡ some i → i < length w.deps_expected_results
  pub injective :
      (u v i : ℕ) → get_dependency_index w u ≡ some i → get_dependency_index w v ≡ some i → u ≡ v

add_dep-has :
    (w : Vertex) (v u : ℕ) (expected : VertexResult)
    → has (get_dependency_index (add_dep w v expected) u)
      ≡ (u == v || has (get_dependency_index w u))
unfolding add_dep
add_dep-has w v u expected = ground (arith, index_of-append u v (length w.deps_idx) w.deps_idx)

add_dep-IsIndexed :
    (w : Vertex) (v : ℕ) (expected : VertexResult) → IsIndexed w → IsIndexed (add_dep w v expected)
unfolding add_dep
add_dep-IsIndexed w v expected h =
    let idx = length w.deps_idx in
    let grown = w.deps_idx ++ (v, idx) ∷ [] in
    let size = length-append w.deps_idx ((v, idx) ∷ []) in
    let room = length-resize (length grown) w.deps_expected_results in
    let kept = length-set (resize (length grown) w.deps_expected_results) idx expected in
    let look = λ (u : ℕ). index_of-append u v idx w.deps_idx in
    record {
      sized = ground (arith, h.sized, size, room, kept);
      bounded = λ u i e. ground (arith, h.sized, size, room, kept, look u, h.bounded u i);
      injective = λ u u' i e e'.
          ground
            (arith, h.sized, look u, look u', h.bounded u i, h.bounded u' i, h.injective u u' i);
    }

-- in the heap, `w` is a successor of `v` exactly if `v` is a dependency of `w`
pub record IsLinked (h : Heap) : Type 0 where
  pub mutual_links : (v w : ℕ) → elem w (h v).successor_vertex ≡ has (get_dependency_index (h w) v)
  pub indexed : (w : ℕ) → IsIndexed (h w)

add_dep-successors :
    (w : Vertex) (v : ℕ) (expected : VertexResult)
    → (add_dep w v expected).successor_vertex ≡ w.successor_vertex
unfolding add_dep
add_dep-successors w v expected = ground arith

gdi_of_deps :
    (u w : Vertex) (a : ℕ)
    → u.deps_idx ≡ w.deps_idx
    → get_dependency_index u a ≡ get_dependency_index w a
unfolding get_dependency_index
gdi_of_deps u w a e = ap (index_of a) e

module _ (h : Heap) (w v : ℕ) (expected : VertexResult) where
  abbrev h1 : Heap
  h1 = update h v (record (h v) { successor_vertex = insert_vertex w (h v).successor_vertex })

  h1-deps : (a : ℕ) → (h1 a).deps_idx ≡ (h a).deps_idx
  h1-deps a = elim (Bool-cases (a == v)) [
    | inl same ↦ rw same (ap (λ p. (h p).deps_idx) (sym ((==_iff a v).0 same)))
    | inr other ↦ rw other
  ]

  h1-results : (a : ℕ) → (h1 a).deps_expected_results ≡ (h a).deps_expected_results
  h1-results a = elim (Bool-cases (a == v)) [
    | inl same ↦ rw same (ap (λ p. (h p).deps_expected_results) (sym ((==_iff a v).0 same)))
    | inr other ↦ rw other
  ]

  h1-successors :
      (a b : ℕ)
      → elem b (h1 a).successor_vertex ≡ (a == v && b == w || elem b (h a).successor_vertex)
  h1-successors a b = elim (Bool-cases (a == v)) [
    | inl same ↦ rw same (
        elem-insert_vertex b w (h v).successor_vertex
        ∙ ap (λ p. b == w || elem b (h p).successor_vertex) (sym ((==_iff a v).0 same)))
    | inr other ↦ rw other
  ]

  depend-successors :
      (a b : ℕ)
      → elem b (depend h w v expected a).successor_vertex
        ≡ (a == v && b == w || elem b (h a).successor_vertex)
  unfolding depend
  depend-successors a b = elim (Bool-cases (a == w)) [
    | inl same ↦ rw same (
        ap (elem b) (add_dep-successors (h1 w) v expected)
        ∙ ap (λ p. elem b (h1 p).successor_vertex) (sym ((==_iff a w).0 same))
        ∙ h1-successors a b)
    | inr other ↦ rw other (h1-successors a b)
  ]

  depend-deps :
      (b a : ℕ)
      → has (get_dependency_index (depend h w v expected b) a)
        ≡ (a == v && b == w || has (get_dependency_index (h b) a))
  unfolding depend
  depend-deps b a = elim (Bool-cases (b == w)) [
    | inl same ↦ rw same (
        ground (
          arith,
          add_dep-has (h1 w) v a expected,
          gdi_of_deps (h1 w) (h w) a (h1-deps w),
          ap (λ p. has (get_dependency_index (h p) a)) ((==_iff b w).0 same),
        ))
    | inr other ↦ rw other (ground (arith, gdi_of_deps (h1 b) (h b) a (h1-deps b)))
  ]

  h1-IsIndexed : (a : ℕ) → IsIndexed (h a) → IsIndexed (h1 a)
  h1-IsIndexed a i = record {
    sized = ap length (h1-results a) ∙ i.sized ∙ ap length (sym (h1-deps a));
    bounded = λ u k e.
        subst (λ (n : ℕ). k < n) (ap length (sym (h1-results a)))
          (i.bounded u k (sym (gdi_of_deps (h1 a) (h a) u (h1-deps a)) ∙ e));
    injective = λ u u' k e e'.
        i.injective u u' k (sym (gdi_of_deps (h1 a) (h a) u (h1-deps a)) ∙ e)
          (sym (gdi_of_deps (h1 a) (h a) u' (h1-deps a)) ∙ e');
  }

  depend-IsIndexed : (a : ℕ) → ((p : ℕ) → IsIndexed (h p)) → IsIndexed (depend h w v expected a)
  unfolding depend
  depend-IsIndexed a i = elim (Bool-cases (a == w)) [
    | inl same ↦ rw same (add_dep-IsIndexed (h1 w) v expected (h1-IsIndexed w (i w)))
    | inr other ↦ rw other (h1-IsIndexed a (i a))
  ]

  pub depend-IsLinked : IsLinked h → IsLinked (depend h w v expected)
  depend-IsLinked l = record {
    mutual_links =
        λ a b. ground (arith, depend-successors a b, depend-deps b a, l.mutual_links a b);
    indexed = λ a. depend-IsIndexed a l.indexed;
  }
