-- ===== src/Didagle/Executor/Dispatch.antt =====
-- The choice of the vertex that runs in place among those that are ready.
use myctk.Base.{
  ℕ, suc, ◌+◌, ◌≤◌, ◌≡◌, refl, ap, subst, sym, Bool, true, false, List, [], ◌∷◌, ◌++◌, Option, none,
  some, elem, ◌==◌, ==_iff, ==_refl, if◌then◌else◌, arith, Bool-cases, inl, inr,
}
use myctk.Didagle.Executor.{first_local, others, local_or, execute_ready_vertexs}

-- how often x stands in the list
abbrev pub count : ℕ → List ℕ → ℕ
count x [] = 0
count x (p ∷ ps) = if x == p then suc (count x ps) else count x ps

count-append : (x : ℕ) (ps qs : List ℕ) → count x (ps ++ qs) ≡ count x ps + count x qs
count-append x [] qs = omega arith
count-append x (p ∷ ps) qs = ground (arith, count-append x ps qs)

count-others : (x p : ℕ) (qs : List ℕ) → count x (others p qs) ≡ (if x == p then 0 else count x qs)
unfolding others
count-others x p [] = ground arith
count-others x p (q ∷ qs) = ground (arith, count-others x p qs, ==_iff q p, ==_iff x p, ==_iff x q)

count-first_local :
    (is_io : ℕ → Bool) (ps : List ℕ) (p : ℕ) → first_local is_io ps ≡ some p → 1 ≤ count p ps
unfolding first_local
count-first_local is_io [] p e = cc
count-first_local is_io (q ∷ ps) p e =
    ground (arith, count-first_local is_io ps p, ==_iff p q, ==_refl p)

first_local-none :
    (is_io : ℕ → Bool) (ps : List ℕ) (p : ℕ)
    → first_local is_io ps ≡ none
    → elem p ps ≡ true
    → is_io p ≡ true
unfolding first_local
first_local-none is_io [] p e m = cc
first_local-none is_io (q ∷ ps) p e m = elim (Bool-cases (p == q)) [
  | inl same ↦ rw ((==_iff p q).0 same) (ground arith)
  | inr other ↦ first_local-none is_io ps p (ground arith) (ground arith)
]

first_local-some :
    (is_io : ℕ → Bool) (ps : List ℕ) (p : ℕ) → first_local is_io ps ≡ some p → is_io p ≡ false
unfolding first_local
first_local-some is_io [] p e = cc
first_local-some is_io (q ∷ ps) p e = elim (Bool-cases (is_io q)) [
  | inl io ↦ first_local-some is_io ps p (ground arith)
  | inr not_io ↦ let t : some q ≡ some p = ground arith in let s : q ≡ p = cc t in rw (s) at not_io
]

count-local_or :
    (p : ℕ) (ps : List ℕ) (o : Option ℕ)
    → 1 ≤ count p ps
    → ((q : ℕ) → o ≡ some q → 1 ≤ count q ps)
    → 1 ≤ count (local_or p o) ps
unfolding local_or
count-local_or p ps none here there = here
count-local_or p ps (some q) here there = there q refl

count-chosen :
    (x p : ℕ) (ps : List ℕ)
    → 1 ≤ count p ps
    → count p ps ≤ 1
    → count x (others p ps ++ p ∷ []) ≡ count x ps
count-chosen x p ps there few =
    let split = count-append x (others p ps) (p ∷ []) in
    let rest = count-others x p ps in
    elim (Bool-cases (x == p)) [
      | inl same ↦
          let e : count x ps ≡ count p ps = ap (λ y. count y ps) ((==_iff x p).0 same) in
          ground (arith, split, rest)
      | inr other ↦ ground (arith, split, rest)
    ]

-- If no vertex stands twice among those that are ready, each of them is executed exactly once,
-- posted or in place, and no other one is.
pub execute_ready-once :
    (is_io : ℕ → Bool) (ps : List ℕ) (x : ℕ)
    → ((y : ℕ) → count y ps ≤ 1)
    → count x
        ((execute_ready_vertexs is_io ps).posted ++ (execute_ready_vertexs is_io ps).local_execute)
      ≡ count x ps
unfolding execute_ready_vertexs
execute_ready-once is_io [] x once = refl
execute_ready-once is_io (p ∷ []) x once = refl
execute_ready-once is_io (p ∷ q ∷ ps) x once =
    let ready = p ∷ q ∷ ps in
    let chosen = local_or p (first_local is_io ready) in
    count-chosen x chosen ready
      (count-local_or p ready (first_local is_io ready) (ground (arith, ==_refl p))
        (count-first_local is_io ready))
      (once chosen)

local_or-io :
    (is_io : ℕ → Bool) (p : ℕ) (ps : List ℕ) (o : Option ℕ)
    → first_local is_io ps ≡ o
    → is_io (local_or p o) ≡ true
    → (y : ℕ) → elem y ps ≡ true
    → is_io y ≡ true
unfolding local_or
local_or-io is_io p ps none e io y m = first_local-none is_io ps y e m
local_or-io is_io p ps (some q) e io y m = cc (first_local-some is_io ps q e)

-- If vertices are ready, one of them runs in place, and it is an IO operator only if all of them are.
pub execute_ready-local :
    (is_io : ℕ → Bool) (p : ℕ) (ps : List ℕ)
    → (x : ℕ) × ((execute_ready_vertexs is_io (p ∷ ps)).local_execute ≡ x ∷ [])
      × (is_io x ≡ true → (y : ℕ) → elem y (p ∷ ps) ≡ true → is_io y ≡ true)
unfolding execute_ready_vertexs
execute_ready-local is_io p [] =
    (p, refl, λ io y m. subst (λ z. is_io z ≡ true) (sym ((==_iff y p).0 (ground arith))) io)
execute_ready-local is_io p (q ∷ ps) =
    let ready = p ∷ q ∷ ps in
    (
      local_or p (first_local is_io ready),
      refl,
      local_or-io is_io p ready (first_local is_io ready) refl,
    )
