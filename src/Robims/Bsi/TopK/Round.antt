-- ===== src/Robims/Bsi/TopK/Round.antt =====
-- One round of TopK (robims/robims_bsi.cpp): the invariants of its loop.
use myctk.Base.{
  ℕ, suc, ◌+◌, ◌^◌, ◌<◌, ◌≤◌, ◌≡◌, refl, sym, ap, ◌∙◌, true, false, not, ◌&&◌, ◌||◌, ltb, ◌==◌,
  arith, Bool-cases, inl, inr,
}
use myctk.Base.Bits.{low, low-suc, low-lt, pow_two-pos}
use myctk.Robims.Bitmap.{RoaringBitmap}
use myctk.Robims.Bsi.TopK.{Top, top_step}

module _ (roaring : RoaringBitmap) where
  open roaring use {
    Bitmap, contains, create, bitmap_and, bitmap_andnot, bitmap_or, cardinality, contains-create,
    contains-and, contains-andnot, contains-or, cardinality_zero, cardinality-or,
  }

  module _ (k : ℕ) (rows : ℕ → Bitmap) where
    -- the ids taken and the ids still wanted add up to k
    pub top_step-size :
        (r : Bitmap) (i : ℕ) (s : Top roaring)
        → k < 2 ^ 32
        → cardinality s.out + s.rest_k ≡ k
        → let t = top_step roaring k r i s in
          (cardinality t.out ≤ k)
          × (t.stop ≡ false → s.stop ≡ false → cardinality t.out + t.rest_k ≡ k)
    unfolding top_step
    top_step-size r i s small total =
        let n = cardinality (bitmap_and s.filter r) in
        ground (arith, cardinality-or s.out (bitmap_and s.filter r))

    module _ (ids : Bitmap) (size : ℕ → ℕ) where
      abbrev pub lows : ℕ → ℕ → ℕ
      lows x i = low (λ j. contains (rows j) x) i

      -- what holds of an id before the round i
      pub record One (i : ℕ) (s : Top roaring) (x : ℕ) : Type 0 where
        pub listed : contains s.filter x ≡ true → contains ids x ≡ true
        pub taken : contains s.out x ≡ true → contains ids x ≡ true
        pub covers : contains s.filter x ≡ true → lows x i ≤ size x
        pub positive : contains s.out x ≡ true → 0 < size x

      pub top_step-One :
          (i : ℕ) (s : Top roaring) (x : ℕ)
          → One (suc i) s x
          → One i (top_step roaring k (rows i) i s) x
      unfolding top_step
      top_step-One i s x h = ground (
        arith,
        pow_two-pos i,
        low-suc (λ j. contains (rows j) x) i,
        contains-and s.filter (rows i) x,
        contains-or s.out (bitmap_and s.filter (rows i)) x,
        contains-andnot s.filter (bitmap_or s.out (bitmap_and s.filter (rows i))) x,
      )

      -- and of two: ids taken, ids in question and ids passed over stand in this order, and those
      -- in question differ in their low bits only
      pub record Two (i : ℕ) (s : Top roaring) (x y : ℕ) : Type 0 where
        pub taken_open :
            contains s.out x ≡ true
            → contains s.filter y ≡ true
            → contains s.out y ≡ false
            → size y ≤ size x
        pub taken_passed :
            contains s.out x ≡ true
            → contains ids y ≡ true
            → contains s.out y ≡ false
            → contains s.filter y ≡ false
            → size y ≤ size x
        pub open_passed :
            contains s.filter x ≡ true
            → contains ids y ≡ true
            → contains s.out y ≡ false
            → contains s.filter y ≡ false
            → size y ≤ size x
        pub open_open :
            contains s.filter x ≡ true
            → contains s.filter y ≡ true
            → size x + lows y i ≡ size y + lows x i

      abbrev pub Ordered : Top roaring → ℕ → ℕ → Type 0
      Ordered s x y =
          contains s.out x ≡ true
          → contains ids y ≡ true
          → contains s.out y ≡ false
          → size y ≤ size x

      pub Two-Ordered : (i : ℕ) (s : Top roaring) (x y : ℕ) → Two i s x y → Ordered s x y
      Two-Ordered i s x y h p q r = ground arith

      -- what a round does, id by id
      pub data Round (i : ℕ) (s t : Top roaring) : Type 0 where
        narrow :
            ((z : ℕ) → contains t.filter z ≡ (contains s.filter z && contains (rows i) z))
            → ((z : ℕ) → contains t.out z ≡ contains s.out z)
            → t.rest_k < cardinality t.filter
            → t.stop ≡ s.stop
            → Round i s t
        keep :
            ((z : ℕ) → (contains s.filter z && contains (rows i) z) ≡ false) → t ≡ s → Round i s t
        take :
            ((z : ℕ) → contains t.filter z ≡ (contains s.filter z && not (contains t.out z)))
            → ((z : ℕ)
                → contains t.out z
                  ≡ (contains s.out z || contains s.filter z && contains (rows i) z))
            → t.stop ≡ s.stop
            → Round i s t
        finish :
            t.stop ≡ true
            → ((z : ℕ)
                → contains t.out z
                  ≡ (contains s.out z || contains s.filter z && contains (rows i) z))
            → s.rest_k ≡ cardinality (bitmap_and s.filter (rows i))
            → Round i s t

      pub top_step-Round : (i : ℕ) (s : Top roaring) → Round i s (top_step roaring k (rows i) i s)
      unfolding top_step
      top_step-Round i s =
          let meet = bitmap_and s.filter (rows i) in
          let n = cardinality meet in
          let inter = λ (z : ℕ). contains-and s.filter (rows i) z in
          let union = λ (z : ℕ). contains-or s.out meet z in
          let rest = λ (z : ℕ). contains-andnot s.filter (bitmap_or s.out meet) z in
          elim (Bool-cases (ltb s.rest_k n)) [
            | inl more ↦
                narrow (λ z. rw more (inter z)) (λ z. rw more) (rw more (ground arith))
                  (rw more refl)
            | inr enough ↦ elim (Bool-cases (ltb n s.rest_k)) [
              | inl fewer ↦ elim (Bool-cases (n == 0 && ltb 0 i)) [
                | inl nobody ↦
                    keep (λ z. sym (inter z) ∙ (cardinality_zero meet).0 (ground arith) z)
                      (rw (enough, fewer, nobody))
                | inr some_there ↦
                    take (λ z. rw (enough, fewer, some_there) (rest z))
                      (λ z.
                        rw (enough, fewer, some_there)
                          (union z ∙ ap (λ b. contains s.out z || b) (inter z)))
                      (rw (enough, fewer, some_there) refl)
              ]
              | inr equal ↦
                  finish (rw (enough, equal))
                    (λ z. rw (enough, equal) (union z ∙ ap (λ b. contains s.out z || b) (inter z)))
                    (ground arith)
            ]
          ]

      pub Round-Two :
          (i : ℕ) (s t : Top roaring) (x y : ℕ)
          → Round i s t
          → Two (suc i) s x y
          → Ordered t x y × (t.stop ≡ false → Two i t x y)
      Round-Two i s t x y (narrow f o more going_on) h =
          let two : Two i t x y = ground (
            arith,
            f x,
            f y,
            o x,
            o y,
            low-suc (λ j. contains (rows j) x) i,
            low-lt (λ j. contains (rows j) x) i,
            low-suc (λ j. contains (rows j) y) i,
            low-lt (λ j. contains (rows j) y) i,
          ) in
          (Two-Ordered i t x y two, λ _. two)
      Round-Two i s t x y (keep e same) h =
          let two : Two i t x y = ground (
            arith,
            e x,
            e y,
            same,
            low-suc (λ j. contains (rows j) x) i,
            low-suc (λ j. contains (rows j) y) i,
          ) in
          (Two-Ordered i t x y two, λ _. two)
      Round-Two i s t x y (take f o going_on) h =
          let two : Two i t x y = ground (
            arith,
            f x,
            f y,
            o x,
            o y,
            low-suc (λ j. contains (rows j) x) i,
            low-lt (λ j. contains (rows j) x) i,
            low-suc (λ j. contains (rows j) y) i,
            low-lt (λ j. contains (rows j) y) i,
          ) in
          (Two-Ordered i t x y two, λ _. two)
      Round-Two i s t x y (finish stopped o enough) h = (
        ground (
          arith,
          o x,
          o y,
          low-suc (λ j. contains (rows j) x) i,
          low-lt (λ j. contains (rows j) x) i,
          low-suc (λ j. contains (rows j) y) i,
          low-lt (λ j. contains (rows j) y) i,
        ),
        λ going. cc,
      )
