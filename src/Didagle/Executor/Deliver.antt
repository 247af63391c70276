-- ===== src/Didagle/Executor/Deliver.antt =====
-- The results that a vertex waits for.
use myctk.Base.{
  ℕ, zero, suc, ◌+◌, ◌-◌, ◌%◌, ◌^◌, ◌<◌, ◌≤◌, ◌≡◌, ◌↔◌, refl, ap, sym, subst, true, false, List, [],
  ◌∷◌, some, length, length-set, length-replicate, get_or, get_or-set_ne, set, replicate, elem,
  ◌==◌, ==_iff, ==_refl, ◌∙◌, if◌then◌else◌, arith, Bool-cases, Option-cases, inl, inr,
}
use myctk.Didagle.Vertex.{VertexResult, invalid, Heap, get_dependency_index, has}
use myctk.Didagle.Vertex.Linked.{IsLinked}
use myctk.Didagle.Executor.{
  value, VertexContext, reset, set_dependency_result, ready, setup_all, setup_successors,
}

-- the number of results that are not there yet
pending : List VertexResult → ℕ
unfolding value
pending [] = 0
pending (r ∷ rs) = if value r == 0 then suc (pending rs) else pending rs

pending-le : (rs : List VertexResult) → pending rs ≤ length rs
unfolding pending
pending-le [] = omega arith
pending-le (r ∷ rs) = ground (arith, pending-le rs)

pending-replicate : (n : ℕ) → pending (replicate n invalid) ≡ n
unfolding pending value
pending-replicate zero = refl
pending-replicate (suc n) = ap suc (pending-replicate n)

pending-set :
    (rs : List VertexResult) (i : ℕ) (r : VertexResult)
    → i < length rs
    → (value (get_or rs i invalid) == 0) ≡ true
    → (value r == 0) ≡ false
    → suc (pending (set rs i r)) ≡ pending rs
unfolding pending
pending-set [] i r lt e f = absurd (omega arith)
pending-set (x ∷ rs) zero r lt e f = ground arith
pending-set (x ∷ rs) (suc i) r lt e f = ground (arith, pending-set rs i r)

get_or-replicate : (n i : ℕ) → get_or (replicate n invalid) i invalid ≡ invalid
get_or-replicate zero i = refl
get_or-replicate (suc n) zero = refl
get_or-replicate (suc n) (suc i) = get_or-replicate n i

value-invalid : (value invalid == 0) ≡ true
unfolding value
value-invalid = refl

-- the calls of SetDependencyResult on one context, in the order in which they come, and what each
-- of them returns
pub deliver : VertexContext → List (ℕ × VertexResult) → List ℕ × VertexContext
deliver c [] = ([], c)
deliver c ((i, r) ∷ ds) =
    let (wait_num, c1) = set_dependency_result c i r in
    let (rest, c2) = deliver c1 ds in (wait_num ∷ rest, c2)

abbrev indices : List (ℕ × VertexResult) → List ℕ
indices [] = []
indices ((i, r) ∷ ds) = i ∷ indices ds

-- each index at most once, below n, with a result that is one
unfoldable pub Deliverable : ℕ → List (ℕ × VertexResult) → Type 0
unfolding value
Deliverable n [] = Unit {0}
Deliverable n ((i, r) ∷ ds) =
    (i < n) × ((value r == 0) ≡ false) × (elem i (indices ds) ≡ false) × Deliverable n ds

-- n, n - 1, ..., k of them
pub countdown : ℕ → ℕ → List ℕ
countdown n zero = []
countdown n (suc k) = n ∷ countdown (n - 1) k

abbrev delivered : VertexContext → ℕ → VertexResult → VertexContext
delivered c i r = record c {
  waiting_num = c.waiting_num - 1;
  deps_results = set c.deps_results i r;
}

set_dependency_result-pending :
    (c : VertexContext) (i : ℕ) (r : VertexResult)
    → (value (get_or c.deps_results i invalid) == 0) ≡ true
    → 1 ≤ c.waiting_num
    → c.waiting_num < 2 ^ 32
    → set_dependency_result c i r ≡ (c.waiting_num, delivered c i r)
unfolding set_dependency_result
set_dependency_result-pending c i r e pos lt =
    let wraps : (c.waiting_num + 2 ^ 32 - 1) % 2 ^ 32 ≡ c.waiting_num - 1 = omega arith in
    rw (e, set_dependency_result)
      (ap
        (λ n. (c.waiting_num, record c { waiting_num = n; deps_results = set c.deps_results i r }))
        wraps)

-- still pending after a delivery elsewhere
pending_after :
    (rs : List VertexResult) (i j : ℕ) (r : VertexResult)
    → (i == j) ≡ false
    → (value (get_or rs j invalid) == 0) ≡ true
    → (value (get_or (set rs i r) j invalid) == 0) ≡ true
pending_after rs i j r ne e =
    let same : get_or (set rs i r) j invalid ≡ get_or rs j invalid =
      get_or-set_ne rs i j r invalid (λ p. let t = (==_iff i j).1 p in cc) in
    ap (λ x. value x == 0) same ∙ e

apart : (i j : ℕ) (xs : List ℕ) → elem i xs ≡ false → elem j xs ≡ true → (i == j) ≡ false
apart i j xs a b = elim (Bool-cases (i == j)) [
  | inl same ↦ let e : elem i xs ≡ elem j xs = ap (λ k. elem k xs) ((==_iff i j).0 same) in cc
  | inr other ↦ other
]

deliver-counts :
    (ds : List (ℕ × VertexResult)) (c : VertexContext)
    → c.waiting_num ≡ pending c.deps_results
    → length c.deps_results < 2 ^ 32
    → Deliverable (length c.deps_results) ds
    → ((i : ℕ) → elem i (indices ds) ≡ true → (value (get_or c.deps_results i invalid) == 0) ≡ true)
    → ((deliver c ds).0 ≡ countdown c.waiting_num (length ds))
      × ((deliver c ds).1.waiting_num + length ds ≡ c.waiting_num)
unfolding deliver Deliverable countdown
deliver-counts [] c w small d fresh = (refl, omega arith)
deliver-counts ((i, r) ∷ ds) c w small (lt, valid, once, d) fresh =
    let here : (value (get_or c.deps_results i invalid) == 0) ≡ true =
      fresh i (ground (arith, ==_refl i)) in
    let falls = pending-set c.deps_results i r lt here valid in
    let bound = pending-le c.deps_results in
    let c1 = delivered c i r in
    let size : length c1.deps_results ≡ length c.deps_results = length-set c.deps_results i r in
    let (answers, left) =
      deliver-counts ds c1 (omega arith) (omega arith) (subst (λ n. Deliverable n ds) (sym size) d)
        (λ j m.
          pending_after c.deps_results i j r (apart i j (indices ds) once m)
            (fresh j (ground arith))) in
    let e = set_dependency_result-pending c i r here (omega arith) (omega arith) in
    (rw (e, deliver) (ap (λ ns. c.waiting_num ∷ ns) answers), rw (e, deliver) (omega arith))

-- A context that was reset, with fewer than 2 ^ 32 dependencies, is given results of distinct
-- dependencies, in any order. Then SetDependencyResult returns the number of dependencies, then one
-- less, and so on, and the context is ready exactly if every dependency has had its result. So the
-- value 1, at which OnVertexDone takes a vertex as ready, is returned once, by the last delivery.
pub deliver_once :
    (c : VertexContext) (ds : List (ℕ × VertexResult))
    → length c.vertex.deps_idx < 2 ^ 32
    → Deliverable (length c.vertex.deps_idx) ds
    → ((deliver (reset c) ds).0 ≡ countdown (length c.vertex.deps_idx) (length ds))
      × ((ready (deliver (reset c) ds).1 ≡ true) ↔ (length ds ≡ length c.vertex.deps_idx))
unfolding reset ready
deliver_once c ds small d =
    let n = length c.vertex.deps_idx in
    let size = length-replicate n invalid in
    let whole : n % 2 ^ 32 ≡ n = omega arith in
    let counted = pending-replicate n in
    let (answers, left) =
      deliver-counts ds (reset c) (omega arith) (omega arith)
        (subst (λ m. Deliverable m ds) (sym size) d)
        (λ i m. ap (λ x. value x == 0) (get_or-replicate n i) ∙ value-invalid) in
    (
      answers ∙ ap (λ m. countdown m (length ds)) whole,
      ground (arith, ==_iff (deliver (reset c) ds).1.waiting_num 0),
    )

-- each successor in order, with the index at which it keeps the result of v
pub IsWired : Heap → ℕ → List ℕ → List (ℕ × ℕ) → Type 0
IsWired h v [] [] = Unit {0}
IsWired h v [] (s ∷ ss) = ⊥
IsWired h v (w ∷ ws) [] = ⊥
IsWired h v (w ∷ ws) ((u, i) ∷ ss) =
    (u ≡ w)
    × (get_dependency_index (h w) v ≡ some i)
    × (i < length (h w).deps_idx)
    × IsWired h v ws ss

setup_all-IsWired :
    (h : Heap) (v : ℕ) (ws : List ℕ)
    → IsLinked h
    → ((w : ℕ) → elem w ws ≡ true → elem w (h v).successor_vertex ≡ true)
    → (ss : List (ℕ × ℕ)) × (setup_all h v ws ≡ some ss) × IsWired h v ws ss
unfolding setup_all IsWired
setup_all-IsWired h v [] l inside = ([], refl, tt)
setup_all-IsWired h v (w ∷ ws) l inside =
    let (rest, e, wired) =
      setup_all-IsWired h v ws l (λ u m. inside u (ground (arith, ==_refl u))) in
    let known : has (get_dependency_index (h w) v) ≡ true =
      sym (l.mutual_links v w) ∙ inside w (ground (arith, ==_refl w)) in
    elim (Option-cases (get_dependency_index (h w) v)) [
      | inl e' ↦ absurd (cc (rw e' at known))
      | inr (i, e') ↦
          let ix = l.indexed w in
          (
            (w, i) ∷ rest,
            rw (e', setup_all, e) refl,
            (refl, e', subst (λ n. i < n) ix.sized (ix.bounded v i e'), wired),
          )
    ]

-- On sound links SetupSuccessors does not abort: it gives each successor of v, in order, with the
-- index at which the successor has v among its dependencies, which is below their number.
pub setup_successors-IsWired :
    (h : Heap) (v : ℕ)
    → IsLinked h
    → (ss : List (ℕ × ℕ)) × (setup_successors h v ≡ some ss) × IsWired h v (h v).successor_vertex ss
unfolding setup_successors
setup_successors-IsWired h v l = setup_all-IsWired h v (h v).successor_vertex l (λ w m. m)
