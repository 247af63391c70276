-- ===== src/Robims/Bsi/Range/Eq.antt =====
-- DoRangeEQ and DoRangeBetween, id by id.
use myctk.Base.{ℕ, zero, suc, ◌≡◌, Bool, not, ◌&&◌, ◌||◌, ltb, leb, ◌==◌, arith}
use myctk.Base.Bits.{bit, low, low-zero, low-suc, low-lt}
use myctk.Robims.Bitmap.{RoaringBitmap}
use myctk.Robims.Bsi.Range.{eq_loop, BetweenState, between_min, between_max, between_loop}

module _ (roaring : RoaringBitmap) where
  open roaring use {
    Bitmap, contains, bitmap_and, bitmap_andnot, bitmap_or, contains-and, contains-andnot,
    contains-or,
  }

  pub eq_loop-contains :
      (row : ℕ → Bitmap) (e x i : ℕ) (out : Bitmap)
      → contains (eq_loop roaring row e i out) x
        ≡ (contains out x && low (λ j. contains (row j) x) i == low (bit e) i)
  unfolding eq_loop
  eq_loop-contains row e x zero out =
      ground (arith, low-zero (bit e), low-zero (λ j. contains (row j) x))
  eq_loop-contains row e x (suc i) out = ground (
    arith,
    eq_loop-contains row e x i (bitmap_and out (row i)),
    eq_loop-contains row e x i (bitmap_andnot out (row i)),
    contains-and out (row i) x,
    contains-andnot out (row i) x,
    low-suc (bit e) i,
    low-suc (λ j. contains (row j) x) i,
    low-lt (bit e) i,
    low-lt (λ j. contains (row j) x) i,
  )

  between_min-contains :
      (row : Bitmap) (bit1 : Bool) (i : ℕ) (s : BetweenState roaring) (x : ℕ)
      → let t = between_min roaring row bit1 i s in
        (contains t.filter x
          ≡ (contains s.filter x && (contains row x || contains s.keep1 x || not bit1)))
        × (contains t.keep1 x ≡ (
            contains s.keep1 x || (not bit1 && ltb 0 i) && (contains s.filter x && contains row x)))
        × (contains t.keep2 x ≡ contains s.keep2 x)
  unfolding between_min
  between_min-contains row bit1 i s x = ground (
    arith,
    contains-andnot s.filter row x,
    contains-andnot (bitmap_andnot s.filter row) s.keep1 x,
    contains-andnot s.filter (bitmap_andnot (bitmap_andnot s.filter row) s.keep1) x,
    contains-and s.filter row x,
    contains-or s.keep1 (bitmap_and s.filter row) x,
  )

  between_max-contains :
      (row : Bitmap) (bit2 : Bool) (i : ℕ) (s : BetweenState roaring) (x : ℕ)
      → let t = between_max roaring row bit2 i s in
        (contains t.filter x
          ≡ (contains s.filter x && (not (contains row x) || contains s.keep2 x || bit2)))
        × (contains t.keep2 x ≡ (
            contains s.keep2 x
            || (bit2 && ltb 0 i) && (contains s.filter x && not (contains row x))))
        × (contains t.keep1 x ≡ contains s.keep1 x)
  unfolding between_max
  between_max-contains row bit2 i s x = ground (
    arith,
    contains-andnot row s.keep2 x,
    contains-andnot s.filter (bitmap_andnot row s.keep2) x,
    contains-andnot s.filter row x,
    contains-or s.keep2 (bitmap_andnot s.filter row) x,
  )

  module _ (row : ℕ → Bitmap) (min max x : ℕ) where
    abbrev pub bits : ℕ → Bool
    bits i = contains (row i) x

    pub between_loop-contains :
        (i : ℕ) (s : BetweenState roaring)
        → contains (between_loop roaring row min max i s).filter x ≡ (
            contains s.filter x
            && ((contains s.keep1 x || leb (low (bit min) i) (low bits i))
                && (contains s.keep2 x || leb (low bits i) (low (bit max) i))))
    unfolding between_loop
    between_loop-contains zero s =
        ground (arith, low-zero (bit min), low-zero (bit max), low-zero bits)
    between_loop-contains (suc i) s =
        let t = between_min roaring (row i) (bit min i) i s in
        ground (
          arith,
          between_loop-contains i (between_max roaring (row i) (bit max i) i t),
          between_min-contains (row i) (bit min i) i s x,
          between_max-contains (row i) (bit max i) i t x,
          low-suc (bit min) i,
          low-suc (bit max) i,
          low-suc bits i,
          low-lt (bit min) i,
          low-lt (bit max) i,
          low-lt bits i,
          low-zero (bit min),
          low-zero bits,
          low-zero (bit max),
        )
