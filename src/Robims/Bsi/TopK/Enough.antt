-- ===== src/Robims/Bsi/TopK/Enough.antt =====
-- TopK (robims/robims_bsi.cpp): whom it leaves out.
use myctk.Base.{
  ℕ, suc, ◌+◌, ◌<◌, ◌≤◌, ◌≡◌, ◌⊎◌, ap, ◌∙◌, sym, true, false, ◌&&◌, ◌||◌, ◌==◌, arith, Bool-cases,
  inl, inr,
}
use myctk.Base.Bits.{low-suc, low-lt}
use myctk.Robims.Bitmap.{RoaringBitmap}
use myctk.Robims.Bsi.TopK.{Top}
use myctk.Robims.Bsi.TopK.Round.{lows, One, Two, Ordered, Round, narrow, keep, take, finish}

module _ (roaring : RoaringBitmap) where
  open roaring use {
    Bitmap, contains, create, bitmap_and, bitmap_andnot, bitmap_or, cardinality, contains-create,
    contains-and, contains-andnot, contains-or, cardinality_zero, cardinality_ext, cardinality-or,
  }

  cardinality-disjoint :
      (a b : Bitmap)
      → ((x : ℕ) → (contains a x && contains b x) ≡ false)
      → cardinality (bitmap_or a b) ≡ cardinality a + cardinality b
  cardinality-disjoint a b apart =
      let none_shared : cardinality (bitmap_and a b) ≡ 0 =
        (cardinality_zero (bitmap_and a b)).1 (λ x. contains-and a b x ∙ apart x) in
      omega (arith, cardinality-or a b)

  -- a part of a bitmap, and what is beside it
  cardinality-part :
      (a b : Bitmap)
      → ((x : ℕ) → contains a x ≡ true → contains b x ≡ true)
      → cardinality b ≡ cardinality a + cardinality (bitmap_andnot b a)
  cardinality-part a b inside =
      cardinality_ext b (bitmap_or a (bitmap_andnot b a))
        (λ x. ground (arith, contains-or a (bitmap_andnot b a) x, contains-andnot b a x, inside x))
      ∙ cardinality-disjoint a (bitmap_andnot b a) (λ x. ground (arith, contains-andnot b a x))

  pub cardinality-le :
      (a b : Bitmap)
      → ((x : ℕ) → contains a x ≡ true → contains b x ≡ true)
      → cardinality a ≤ cardinality b
  cardinality-le a b inside = omega (arith, cardinality-part a b inside)

  pub cardinality-lt :
      (a b : Bitmap) (y : ℕ)
      → ((x : ℕ) → contains a x ≡ true → contains b x ≡ true)
      → contains b y ≡ true
      → contains a y ≡ false
      → cardinality a < cardinality b
  cardinality-lt a b y inside there away =
      let rest = bitmap_andnot b a in
      let seen : contains rest y ≡ true = ground (arith, contains-andnot b a y) in
      elim (Bool-cases (cardinality rest == 0)) [
        | inl nobody ↦ absurd (ground (arith, (cardinality_zero rest).0 (ground arith) y))
        | inr somebody ↦ ground (arith, cardinality-part a b inside)
      ]

  pub cardinality-two :
      (a c b : Bitmap)
      → ((x : ℕ) → (contains a x && contains c x) ≡ false)
      → ((x : ℕ) → contains a x ≡ true → contains b x ≡ true)
      → ((x : ℕ) → contains c x ≡ true → contains b x ≡ true)
      → cardinality a + cardinality c ≤ cardinality b
  cardinality-two a c b apart in_a in_c =
      let all =
        cardinality-le (bitmap_or a c) b (λ x. ground (arith, contains-or a c x, in_a x, in_c x)) in
      omega (arith, cardinality-disjoint a c apart)

  module _ (k : ℕ) (rows : ℕ → Bitmap) (ids : Bitmap) (size : ℕ → ℕ) (all : Bitmap) (y : ℕ) where
    -- before the round i: ids taken and in question are apart, the ids in question have no high bit
    -- or are more than are wanted, and an id is passed over for more than k that are no smaller
    pub record Left (i : ℕ) (s : Top roaring) : Type 0 where
      pub total : cardinality s.out + s.rest_k ≡ k
      pub one : (x : ℕ) → One roaring k rows ids size i s x
      pub two : (x : ℕ) → Two roaring k rows ids size i s x y
      pub apart : (x : ℕ) → (contains s.out x && contains s.filter x) ≡ false
      pub low_only :
          ((x : ℕ) → contains s.filter x ≡ true → size x ≡ lows roaring k rows ids size x i)
          ⊎ (s.rest_k < cardinality s.filter)
      pub passed :
          contains ids y ≡ true
          → contains s.out y ≡ false
          → contains s.filter y ≡ false
          → k < cardinality all

    -- what TopK shows of an id that it leaves out
    abbrev pub Outnumbered : Top roaring → Type 0
    Outnumbered s =
        contains ids y ≡ true → contains s.out y ≡ false → 0 < size y → k < cardinality all

    module _
        (holds_all : (x : ℕ)
          → contains ids x ≡ true
          → size y ≤ size x
          → contains all x ≡ true) where
      pub Left-Outnumbered : (s : Top roaring) → Left 0 s → Outnumbered s
      Left-Outnumbered s h there away above = elim (Bool-cases (contains s.filter y)) [
        | inr gone ↦ h.passed there away gone
        | inl open_y ↦ elim h.low_only [
          | inl zero_only ↦
              absurd (omega (arith, zero_only y open_y, low-lt (λ j. contains (rows j) y) 0))
          | inr many ↦
              let sum =
                cardinality-two s.out s.filter all h.apart
                  (λ x m. holds_all x ((h.one x).taken m) ((h.two x).taken_open m open_y away))
                  (λ x m. holds_all x ((h.one x).listed m) (
                    omega (
                      arith,
                      (h.two x).open_open m open_y,
                      low-lt (λ j. contains (rows j) x) 0,
                      low-lt (λ j. contains (rows j) y) 0,
                    ))) in
              omega (arith, h.total)
        ]
      ]

      pub Round-Left :
          (i : ℕ) (s t : Top roaring)
          → Round roaring k rows ids size i s t
          → Left (suc i) s
          → t.stop ≡ false
          → cardinality t.out + t.rest_k ≡ k
          → ((x : ℕ) → One roaring k rows ids size i t x)
          → ((x : ℕ) → Two roaring k rows ids size i t x y)
          → Left i t
      Round-Left i s t (narrow f o more going_on) h going total one two = record {
        total = total;
        one = one;
        two = two;
        apart = λ x. ground (arith, f x, o x, h.apart x);
        low_only = inr more;
        passed = λ there away gone. elim (Bool-cases (contains s.filter y)) [
          | inr before ↦ h.passed there (sym (o y) ∙ away) before
          | inl open_y ↦
              let larger : (x : ℕ) → contains t.filter x ≡ true → size y ≤ size x = λ x m. ground (
                arith,
                f x,
                f y,
                (h.two x).open_open (ground (arith, f x)) open_y,
                low-suc (λ j. contains (rows j) x) i,
                low-suc (λ j. contains (rows j) y) i,
                low-lt (λ j. contains (rows j) y) i,
              ) in
              let sum =
                cardinality-two t.out t.filter all (λ x. ground (arith, f x, o x, h.apart x))
                  (λ x m.
                    holds_all x ((one x).taken m)
                      ((h.two x).taken_open (sym (o x) ∙ m) open_y (sym (o y) ∙ away)))
                  (λ x m. holds_all x ((one x).listed m) (larger x m)) in
              omega arith
        ];
      }
      Round-Left i s t (keep e same) h going total one two = record {
        total = total;
        one = one;
        two = two;
        apart = λ x. rw same (h.apart x);
        low_only = elim h.low_only [
          | inl zeros ↦ inl (λ x m.
              let m' : contains s.filter x ≡ true = ap (λ u. contains u.filter x) (sym same) ∙ m in
              ground (arith, e x, zeros x m', low-suc (λ j. contains (rows j) x) i))
          | inr many ↦ inr (rw same many)
        ];
        passed = rw same h.passed;
      }
      Round-Left i s t (take f o going_on) h going total one two = record {
        total = total;
        one = one;
        two = two;
        apart = λ x. ground (arith, f x);
        low_only = elim h.low_only [
          | inl zeros ↦
              inl (λ x m. ground (arith, f x, o x, zeros x, low-suc (λ j. contains (rows j) x) i))
          | inr many ↦
              let moved =
                sym (cardinality-disjoint t.out t.filter (λ x. ground (arith, f x)))
                ∙ cardinality_ext (bitmap_or t.out t.filter) (bitmap_or s.out s.filter) (λ x.
                  ground
                    (arith, f x, o x, contains-or t.out t.filter x, contains-or s.out s.filter x))
                ∙ cardinality-disjoint s.out s.filter h.apart in
              inr (omega (arith, h.total))
        ];
        passed = λ there away gone. h.passed there (ground (arith, o y)) (ground (arith, f y));
      }
      Round-Left i s t (finish stopped o enough) h going total one two =
          absurd (cc (sym stopped ∙ going))

      pub Round-Outnumbered :
          (i : ℕ) (s t : Top roaring)
          → Round roaring k rows ids size i s t
          → Left (suc i) s
          → s.stop ≡ false
          → ((x : ℕ) → contains t.out x ≡ true → contains ids x ≡ true)
          → ((x : ℕ) → Ordered roaring k rows ids size t x y)
          → t.stop ≡ true
          → Outnumbered t
      Round-Outnumbered i s t (narrow f o more same) h going listed order stopped =
          absurd (cc (sym stopped ∙ same ∙ going))
      Round-Outnumbered i s t (keep e same) h going listed order stopped =
          absurd (cc (sym stopped ∙ ap (λ u. u.stop) same ∙ going))
      Round-Outnumbered i s t (take f o same) h going listed order stopped =
          absurd (cc (sym stopped ∙ same ∙ going))
      Round-Outnumbered i s t (finish is_last o enough) h going listed order stopped =
          λ there away above.
            let meet = bitmap_and s.filter (rows i) in
            let inter = λ (x : ℕ). contains-and s.filter (rows i) x in
            let full =
              cardinality_ext t.out (bitmap_or s.out meet) (λ x.
                o x ∙ sym (contains-or s.out meet x ∙ ap (λ b. contains s.out x || b) (inter x)))
              ∙ cardinality-disjoint s.out meet (λ x. ground (arith, inter x, h.apart x)) in
            let fewer =
              cardinality-lt t.out all y (λ x m. holds_all x (listed x m) (order x m there away))
                (holds_all y there (omega arith)) away in
            omega (arith, h.total)
