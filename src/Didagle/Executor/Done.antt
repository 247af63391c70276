-- ===== src/Didagle/Executor/Done.antt =====
-- What GraphContext::OnVertexDone starts.
use myctk.Base.{
  ℕ, suc, ◌≤◌, ◌≡◌, ◌≢◌, refl, ap, ◌∙◌, Bool, true, false, ◌&&◌, List, [], ◌∷◌, ◌++◌, some, elem,
  ◌==◌, ==_iff, if◌then◌else◌, arith, Bool-cases, inl, inr,
}
use myctk.Didagle.Vertex.{VertexResult}
use myctk.Didagle.Executor.{
  VertexContext, set_dependency_result, deliver_result, Dispatched, execute_ready_vertexs,
  GraphContext, on_vertex_done,
}
use myctk.Didagle.Executor.Dispatch.{count, execute_ready-once}

abbrev pub names : List (ℕ × ℕ) → List ℕ
names [] = []
names ((w, i) ∷ ss) = w ∷ names ss

-- no vertex twice
unfoldable pub IsSimple : List ℕ → Type 0
IsSimple [] = Unit {0}
IsSimple (w ∷ ws) = (elem w ws ≡ false) × IsSimple ws

count-if :
    (x w : ℕ) (b : Bool) (ps : List ℕ)
    → count x (if b then w ∷ ps else ps) ≡ (if b && x == w then suc (count x ps) else count x ps)
count-if x w true ps = refl
count-if x w false ps = refl

deliver_result-count :
    (ss : List (ℕ × ℕ)) (ctxs : ℕ → VertexContext) (r : VertexResult) (x : ℕ)
    → IsSimple (names ss)
    → count x (deliver_result ctxs ss r).0
      ≡ (if elem x (names ss) && (ctxs x).waiting_num == 1 then 1 else 0)
unfolding deliver_result set_dependency_result IsSimple
deliver_result-count [] ctxs r x s = refl
deliver_result-count ((w, i) ∷ ss) ctxs r x (apart, s) =
    let c = (set_dependency_result (ctxs w) i r).1 in
    let rest = deliver_result-count ss (λ p. if p == w then c else ctxs p) r x s in
    let ready = (deliver_result (λ p. if p == w then c else ctxs p) ss r).0 in
    let first = count-if x w ((ctxs w).waiting_num == 1) ready in
    elim (Bool-cases (x == w)) [
      | inl same ↦
          let e : x ≡ w = (==_iff x w).0 same in
          let away : elem x (names ss) ≡ false = ap (λ y. elem y (names ss)) e ∙ apart in
          let wait : (ctxs x).waiting_num ≡ (ctxs w).waiting_num =
            ap (λ y. (ctxs y).waiting_num) e in
          let none_more : count x ready ≡ 0 = rest ∙ (rw away refl) in
          first ∙ rw (same, none_more, wait) (ground arith)
      | inr other ↦
          let kept : count x ready
              ≡ (if elem x (names ss) && (ctxs x).waiting_num == 1 then 1 else 0) =
            rw other at rest in
          first ∙ rw other (ground (arith, kept))
    ]

-- After a vertex that is not the last one, whose successors are distinct, OnVertexDone executes each
-- successor with a waiting number of 1 exactly once, and no other vertex.
pub on_vertex_done-executes :
    (is_io : ℕ → Bool) (g : GraphContext) (v : ℕ) (ss : List (ℕ × ℕ))
    → IsSimple (names ss)
    → g.join_vertex_num ≢ 1
    → (d : Dispatched) × ((on_vertex_done is_io g v ss).1 ≡ some d)
      × ((x : ℕ)
          → count x (d.posted ++ d.local_execute)
            ≡ (if elem x (names ss) && (g.contexts x).waiting_num == 1 then 1 else 0))
unfolding on_vertex_done
on_vertex_done-executes is_io g v ss s more =
    let r = (g.contexts v).result in
    let ready = (deliver_result g.contexts ss r).0 in
    let each = λ (x : ℕ). deliver_result-count ss g.contexts r x s in
    let once : (y : ℕ) → count y ready ≤ 1 = λ y. ground (arith, each y) in
    elim (Bool-cases (g.join_vertex_num == 1)) [
      | inl last ↦ absurd (more ((==_iff g.join_vertex_num 1).0 last))
      | inr other ↦ (
        execute_ready_vertexs is_io ready,
        rw (other, on_vertex_done) refl,
        λ x. execute_ready-once is_io ready x once ∙ each x,
      )
    ]
