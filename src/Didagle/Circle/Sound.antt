-- ===== src/Didagle/Circle/Sound.antt =====
-- What the search for circles finds, and where it does not end.
use mathlib.Core.Logic.{∥∥₁_elim, ◌↔◌}
use mathlib.Core.HLevel.{⊥_prop}
use myctk.Base.{
  ℕ, zero, suc, ◌+◌, ◌<◌, ◌≤◌, ◌≡◌, refl, Bool, true, false, List, [], ◌∷◌, Option, none, some,
  elem, ==_iff, ==_refl, arith, Bool-cases, Option-cases, ◌≢◌, inl, inr,
}
use myctk.Didagle.Circle.{any_of, find_vertex_in_successors, test_circle}

module _ (successors : ℕ → List ℕ) where
  abbrev pub Edge : ℕ → ℕ → Type 0
  Edge u v = elem v (successors u) ≡ true

  -- the walks of n edges and one more
  pub data Walk : ℕ → ℕ → ℕ → Type 0 where
    last : {u v : ℕ} → Edge u v → Walk 0 u v
    step : {n u v w : ℕ} → Edge u v → Walk n v w → Walk (suc n) u w

  any_of-false :
      (look : ℕ → Option Bool) (ss : List ℕ) (s : ℕ)
      → any_of look ss ≡ some false
      → elem s ss ≡ true
      → look s ≡ some false
  unfolding any_of
  any_of-false look [] s e m = cc
  any_of-false look (x ∷ ss) s e m = ground (arith, any_of-false look ss s, ==_iff s x)

  any_of-true :
      (look : ℕ → Option Bool) (ss : List ℕ)
      → any_of look ss ≡ some true
      → (s : ℕ) × (elem s ss ≡ true) × (look s ≡ some true)
  unfolding any_of
  any_of-true look [] e = cc
  any_of-true look (x ∷ ss) e = elim (Option-cases (look x)) [
    | inl unknown ↦ cc (rw (unknown, any_of) at e)
    | inr (b, known) ↦ elim (Bool-cases b) [
      | inl yes_b ↦ (x, ground arith, ground arith)
      | inr no_b ↦
          let (s, m, found) = any_of-true look ss (ground arith) in (s, ground arith, found)
    ]
  ]

  any_of-known :
      (look : ℕ → Option Bool) (ss : List ℕ)
      → ((s : ℕ) → elem s ss ≡ true → look s ≢ none)
      → any_of look ss ≢ none
  unfolding any_of
  any_of-known look [] known = ground arith
  any_of-known look (x ∷ ss) known =
      ground (arith, known x, ==_refl x, any_of-known look ss (λ s m. known s (ground arith)))

  abbrev find : ℕ → ℕ → ℕ → Option Bool
  find = find_vertex_in_successors successors

  find-true : (fuel p v : ℕ) → find fuel p v ≡ some true → (n : ℕ) × Walk n p v
  unfolding find_vertex_in_successors
  find-true zero p v e = cc
  find-true (suc fuel) p v e = elim (Bool-cases (elem v (successors p))) [
    | inl here ↦ (0, last here)
    | inr further ↦
        let (s, m, found) = any_of-true (λ s. find fuel s v) (successors p) (ground arith) in
        let (n, walk) = find-true fuel s v found in (suc n, step m walk)
  ]

  find-false_step :
      (fuel p v s : ℕ)
      → find (suc fuel) p v ≡ some false
      → Edge p s
      → (elem v (successors p) ≡ false) × (find fuel s v ≡ some false)
  unfolding find_vertex_in_successors
  find-false_step fuel p v s e m =
      ground (arith, any_of-false (λ s. find fuel s v) (successors p) s)

  find-some-pos : (fuel p v : ℕ) (b : Bool) → find fuel p v ≡ some b → 0 < fuel
  unfolding find_vertex_in_successors
  find-some-pos zero p v b e = cc
  find-some-pos (suc fuel) p v b e = omega arith

  -- a search that finds nothing has seen the end of every walk
  find-false-lt : {n p w : ℕ} (fuel v : ℕ) → Walk n p w → find fuel p v ≡ some false → n + 1 < fuel
  find-false-lt zero v walk e = absurd (omega (arith, find-some-pos 0 _ v false e))
  find-false-lt (suc fuel) v (last {v = s} m) e =
      omega (arith, find-some-pos fuel s v false (find-false_step fuel _ v s e m).1)
  find-false-lt (suc fuel) v (step {v = s} m walk) e =
      omega (arith, find-false-lt fuel v walk (find-false_step fuel _ v s e m).1)

  find-false-none : {n p v : ℕ} (fuel : ℕ) → Walk n p v → find fuel p v ≡ some false → ⊥
  find-false-none zero walk e = absurd (omega (arith, find-some-pos 0 _ _ false e))
  find-false-none (suc fuel) (last m) e = cc (find-false_step fuel _ _ _ e m).0
  find-false-none (suc fuel) (step m walk) e =
      find-false-none fuel walk (find-false_step fuel _ _ _ e m).1

  -- With an answer the search is right: it says true exactly if a walk of one edge or more leads
  -- from p to v.
  pub find_vertex-right :
      (fuel p v : ℕ) (b : Bool)
      → find_vertex_in_successors successors fuel p v ≡ some b
      → (b ≡ true) ↔ ∥ ((n : ℕ) × Walk n p v) ∥₁
  find_vertex-right fuel p v true e = (λ _. ∣ find-true fuel p v e ∣₁, λ _. refl)
  find_vertex-right fuel p v false e =
      (λ t. cc, λ w. absurd (∥∥₁_elim w ⊥_prop (λ (n, walk). find-false-none fuel walk e)))

  -- If every edge goes down in some rank, a depth above the rank of p is enough for an answer.
  pub find_vertex-answers :
      (rank : ℕ → ℕ) (fuel p v : ℕ)
      → ((u w : ℕ) → elem w (successors u) ≡ true → rank w < rank u)
      → rank p < fuel
      → find_vertex_in_successors successors fuel p v ≢ none
  unfolding find_vertex_in_successors
  find_vertex-answers rank zero p v down h = absurd (omega arith)
  find_vertex-answers rank (suc fuel) p v down h =
      let known =
        any_of-known (λ s. find fuel s v) (successors p)
          (λ s m. find_vertex-answers rank fuel s v down (omega (arith, down p s m))) in
      ground (arith, known)

  extend : {n m u v w : ℕ} → Walk n u v → Walk m v w → (k : ℕ) × (n < k) × Walk k u w
  extend (last e) t = (_, omega arith, step e t)
  extend (step e s) t = let (k, lt, walk) = extend s t in (suc k, omega arith, step e walk)

  long : {n m p c : ℕ} (j : ℕ) → Walk n p c → Walk m c c → (k : ℕ) × (j ≤ k) × Walk k p c
  long {n} zero s t = (n, omega arith, s)
  long (suc j) s t =
      let (k, le, walk) = long j s t in
      let (i, lt, longer) = extend walk t in (i, omega arith, longer)

  -- If p leads to a circle and not to v, the search for v from p has no answer at any depth: the
  -- recursion does not end.
  pub find_vertex-endless :
      (fuel n m p c v : ℕ)
      → Walk n p c
      → Walk m c c
      → ¬ ((k : ℕ) × Walk k p v)
      → find_vertex_in_successors successors fuel p v ≡ none
  find_vertex-endless fuel n m p c v s t apart = elim (Option-cases (find fuel p v)) [
    | inl e ↦ e
    | inr (b, e) ↦ elim (Bool-cases b) [
      | inl found ↦ absurd (apart (find-true fuel p v (ground arith)))
      | inr missed ↦
          let (k, le, walk) = long fuel s t in
          let few : k + 1 < fuel = find-false-lt fuel v walk (ground arith) in absurd (omega arith)
    ]
  ]

  -- With an answer TestCircle is right: it says true exactly if one of the vertices given lies on
  -- a circle of successor links.
  pub test_circle-right :
      (fuel : ℕ) (vs : List ℕ) (b : Bool)
      → test_circle successors fuel vs ≡ some b
      → (b ≡ true) ↔ ∥ ((v : ℕ) × (elem v vs ≡ true) × ((n : ℕ) × Walk n v v)) ∥₁
  unfolding test_circle
  test_circle-right fuel vs true e = (
    λ _.
        let (v, m, found) = any_of-true (λ v. find fuel v v) vs e in
        ∣ (v, m, find-true fuel v v found) ∣₁,
    λ _. refl,
  )
  test_circle-right fuel vs false e = (
    λ t. cc,
    λ w. absurd (
        ∥∥₁_elim w ⊥_prop (λ (v, m, (n, walk)).
          find-false-none fuel walk (any_of-false (λ v. find fuel v v) vs v e m))),
  )

  Walk-descends :
      {n u v : ℕ} (rank : ℕ → ℕ)
      → ((u w : ℕ) → elem w (successors u) ≡ true → rank w < rank u)
      → Walk n u v
      → rank v < rank u
  Walk-descends rank down (last e) = down _ _ e
  Walk-descends rank down (step e walk) = omega (arith, down _ _ e, Walk-descends rank down walk)

  -- If every edge goes down in some rank, TestCircle says at a depth above all ranks that there is
  -- no circle.
  pub test_circle-acyclic :
      (rank : ℕ → ℕ) (fuel : ℕ) (vs : List ℕ)
      → ((u w : ℕ) → elem w (successors u) ≡ true → rank w < rank u)
      → ((p : ℕ) → rank p < fuel)
      → test_circle successors fuel vs ≡ some false
  unfolding test_circle
  test_circle-acyclic rank fuel vs down enough =
      elim (Option-cases (test_circle successors fuel vs)) [
        | inl e ↦ absurd (
            any_of-known (λ v. find fuel v v) vs
              (λ s m. find_vertex-answers rank fuel s s down (enough s)) e)
        | inr (false, e) ↦ e
        | inr (true, e) ↦ absurd (
            ∥∥₁_elim ((test_circle-right fuel vs true e).0 refl) ⊥_prop (λ (v, m, (n, walk)).
              let lt : rank v < rank v = Walk-descends rank down walk in absurd (omega arith)))
      ]
