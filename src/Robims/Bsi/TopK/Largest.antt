-- ===== src/Robims/Bsi/TopK/Largest.antt =====
-- TopK (robims/robims_bsi.cpp): how many ids it returns, and which.
use myctk.Base.{
  ℕ, zero, suc, ◌+◌, ◌^◌, ◌<◌, ◌≤◌, ◌≡◌, refl, ap, ◌∙◌, subst, sym, Bool, true, false,
  if◌then◌else◌, arith, Bool-cases, inl, inr,
}
use myctk.Robims.Bitmap.{RoaringBitmap}
use myctk.Robims.Bsi.Index.{BitSliceIndex, exist, row}
use myctk.Robims.Bsi.Index.PutGet.{value}
use myctk.Robims.Bsi.TopK.{Top, top_step, top_loop, top_k}
use myctk.Robims.Bsi.TopK.Enough.{
  Left, Outnumbered, Left-Outnumbered, Round-Left, Round-Outnumbered,
}
use myctk.Robims.Bsi.TopK.Round.{
  One, Two, Ordered, Two-Ordered, top_step-size, top_step-One, top_step-Round, Round-Two,
}

if_eq {ℓ} : {A : Type ℓ} (b : Bool) (x y : A) → b ≡ true → (if b then x else y) ≡ x
if_eq true x y h = refl
if_eq false x y h = cc

if_ne {ℓ} : {A : Type ℓ} (b : Bool) (x y : A) → b ≡ false → (if b then x else y) ≡ y
if_ne true x y h = cc
if_ne false x y h = refl

module _ (roaring : RoaringBitmap) where
  open roaring use {Bitmap, contains, create, cardinality, contains-create, cardinality_zero}

  module _ (k : ℕ) (rows : ℕ → Bitmap) where
    top_loop-stopped : (i : ℕ) (s : Top roaring) → s.stop ≡ true → top_loop roaring k rows i s ≡ s
    unfolding top_loop
    top_loop-stopped zero s h = refl
    top_loop-stopped (suc i) s h =
        ap (top_loop roaring k rows i) (if_eq s.stop s (top_step roaring k (rows i) i s) h)
        ∙ top_loop-stopped i s h

    top_loop-going :
        (i : ℕ) (s : Top roaring)
        → s.stop ≡ false
        → top_loop roaring k rows (suc i) s
          ≡ top_loop roaring k rows i (top_step roaring k (rows i) i s)
    unfolding top_loop
    top_loop-going i s h =
        ap (top_loop roaring k rows i) (if_ne s.stop s (top_step roaring k (rows i) i s) h)

    -- An invariant of the rounds with what it says of the state at any time.
    top_loop_rule {ℓ} :
        (P : ℕ → Top roaring → Type ℓ) (Q : Top roaring → Type ℓ)
        → ((s : Top roaring) → P 0 s → Q s)
        → ((i : ℕ) (s : Top roaring)
            → s.stop ≡ false
            → P (suc i) s
            → let t = top_step roaring k (rows i) i s in
              (t.stop ≡ true → Q t) × (t.stop ≡ false → P i t))
        → (i : ℕ) (s : Top roaring) → s.stop ≡ false
        → P i s
        → Q (top_loop roaring k rows i s)
    unfolding top_loop
    top_loop_rule P Q last keep zero s going p = last s p
    top_loop_rule P Q last keep (suc i) s going p =
        let t = top_step roaring k (rows i) i s in
        let (q, next) = keep i s going p in
        subst Q (sym (top_loop-going i s going)) (elim (Bool-cases t.stop) [
          | inl stopped ↦ subst Q (sym (top_loop-stopped i t stopped)) (q stopped)
          | inr more ↦ top_loop_rule P Q last keep i t more (next more)
        ])

  -- the loop starts with all ids in question
  abbrev start_of : BitSliceIndex roaring → ℕ → Top roaring
  start_of s k = record { filter = exist roaring s; out = create; rest_k = k; stop = false }

  One-start :
      (s : BitSliceIndex roaring) (k x : ℕ)
      → One roaring k
          (row roaring s)
          (exist roaring s)
          (value roaring s)
          s.bit_depth
          (start_of s k)
          x
  One-start s k x = record {
    listed = λ m. m;
    taken = λ m. cc (contains-create x);
    covers = λ m. omega arith;
    positive = λ m. cc (contains-create x);
  }

  Two-start :
      (s : BitSliceIndex roaring) (k x y : ℕ)
      → Two roaring k
          (row roaring s)
          (exist roaring s)
          (value roaring s)
          s.bit_depth
          (start_of s k)
          x
          y
  Two-start s k x y = record {
    taken_open = λ m _ _. cc (contains-create x);
    taken_passed = λ m _ _ _. cc (contains-create x);
    open_passed = λ m a _ b. cc;
    open_open = λ m _. omega arith;
  }

  top_k-Outnumbered :
      (s : BitSliceIndex roaring) (k y : ℕ) (all : Bitmap)
      → k < 2 ^ 32
      → ((x : ℕ)
          → contains (exist roaring s) x ≡ true
          → value roaring s y ≤ value roaring s x
          → contains all x ≡ true)
      → Outnumbered roaring k
          (row roaring s)
          (exist roaring s)
          (value roaring s)
          all
          y
          (top_loop roaring k (row roaring s) s.bit_depth (start_of s k))
  top_k-Outnumbered s k y all small holds_all =
      let rows = row roaring s in
      let ids = exist roaring s in
      let size = value roaring s in
      let none_yet = (cardinality_zero create).1 contains-create in
      top_loop_rule k rows (λ i t. Left roaring k rows ids size all y i t)
        (λ t. Outnumbered roaring k rows ids size all y t)
        (λ t h. Left-Outnumbered roaring k rows ids size all y holds_all t h)
        (λ i t going h.
          let u = top_step roaring k (rows i) i t in
          let round = top_step-Round roaring k rows ids size i t in
          let one = λ (x : ℕ). top_step-One roaring k rows ids size i t x (h.one x) in
          let two = λ (x : ℕ). Round-Two roaring k rows ids size i t u x y round (h.two x) in
          (
            Round-Outnumbered roaring k rows ids size all y holds_all i t u round h going
                (λ x. (one x).taken) (λ x. (two x).0),
            λ on.
                Round-Left roaring k rows ids size all y holds_all i t u round h on
                  ((top_step-size roaring k rows (rows i) i t small h.total).1 on going) one
                  (λ x. (two x).1 on),
          ))
        s.bit_depth (start_of s k) refl
        (record {
          total = omega (arith, none_yet);
          one = λ x. One-start s k x;
          two = λ x. Two-start s k x y;
          apart = λ x. rw (contains-create x) refl;
          low_only = inl (λ x m. refl);
          passed = λ there away gone. cc (sym there ∙ gone);
        })

  -- For a `k` below 2 ^ 32 and an empty `out`, TopK returns at most k ids. They are ids of the
  -- index, with a value above 0, and no id that is left out has a larger value than one returned. An
  -- id with a value above 0 is left out only if more than k ids, it among them, have a value that is
  -- no smaller.
  pub top_k_largest :
      (s : BitSliceIndex roaring) (k : ℕ)
      → k < 2 ^ 32
      → let out = top_k roaring s k create in
        (cardinality out ≤ k)
        × ((x : ℕ)
            → contains out x ≡ true
            → (contains (exist roaring s) x ≡ true) × (0 < value roaring s x))
        × ((x y : ℕ)
            → contains out x ≡ true
            → contains (exist roaring s) y ≡ true
            → contains out y ≡ false
            → value roaring s y ≤ value roaring s x)
        × ((y : ℕ) (all : Bitmap)
            → ((x : ℕ)
                → contains (exist roaring s) x ≡ true
                → value roaring s y ≤ value roaring s x
                → contains all x ≡ true)
            → contains (exist roaring s) y ≡ true
            → contains out y ≡ false
            → 0 < value roaring s y
            → k < cardinality all)
  unfolding top_k
  top_k_largest s k small =
      let start = start_of s k in
      let rows = row roaring s in
      let ids = exist roaring s in
      let size = value roaring s in
      let none_yet = (cardinality_zero create).1 contains-create in
      (
        top_loop_rule k (row roaring s) (λ i t. cardinality t.out + t.rest_k ≡ k)
            (λ t. cardinality t.out ≤ k) (λ t h. omega arith)
            (λ i t going h.
              let (most, more) =
                top_step-size roaring k (row roaring s) (row roaring s i) i t small h in
              (λ _. most, λ on. more on going))
            s.bit_depth start refl (omega (arith, none_yet)),
        λ x.
            top_loop_rule k rows (λ i t. One roaring k rows ids size i t x)
              (λ t. contains t.out x ≡ true → (contains ids x ≡ true) × (0 < size x))
              (λ t h m. (h.taken m, h.positive m))
              (λ i t going h.
                let after = top_step-One roaring k rows ids size i t x h in
                (λ _ m. (after.taken m, after.positive m), λ _. after))
              s.bit_depth start refl (One-start s k x),
        λ x y.
            top_loop_rule k rows (λ i t. Two roaring k rows ids size i t x y)
              (λ t. Ordered roaring k rows ids size t x y)
              (λ t h. Two-Ordered roaring k rows ids size 0 t x y h)
              (λ i t going h.
                let (order, two) =
                  Round-Two roaring k rows ids size i t (top_step roaring k (rows i) i t) x y
                    (top_step-Round roaring k rows ids size i t) h in
                (λ _. order, two))
              s.bit_depth start refl (Two-start s k x y),
        λ y all holds_all. top_k-Outnumbered s k y all small holds_all,
      )
