-- ===== src/Robims/Bsi/Range/Gt.antt =====
-- DoRangeGT, id by id.
use myctk.Base.{
  ℕ, zero, suc, ◌≡◌, Bool, true, false, not, ◌&&◌, ◌||◌, ltb, leb, ◌==◌, if◌then◌else◌, arith,
}
use myctk.Base.Bits.{bit, low, low-zero, low-suc, low-lt}
use myctk.Robims.Bitmap.{RoaringBitmap}
use myctk.Robims.Bsi.Range.{GtState, gt_step, gt_loop}

-- v > e or v >= e
abbrev pub above : Bool → ℕ → ℕ → Bool
above allow_eq e v = if allow_eq then leb e v else ltb e v

module _ (roaring : RoaringBitmap) where
  open roaring use {
    Bitmap, contains, create, bitmap_and, bitmap_andnot, bitmap_or, contains-create, contains-and,
    contains-andnot, contains-or,
  }

  gt_step-contains :
      (row : Bitmap) (set allow_eq : Bool) (i : ℕ) (s : GtState roaring) (x : ℕ)
      → let t = gt_step roaring row set allow_eq i s in
        (contains t.filter x ≡ (
          if set && (i == 0 && not allow_eq)
          then contains s.keep x
          else contains s.filter x
            && (contains row x || contains s.keep x || not set && not (i == 0 && not allow_eq))))
        × (contains t.keep x ≡ (
            contains s.keep x || (not set && ltb 0 i) && (contains s.filter x && contains row x)))
  unfolding gt_step
  gt_step-contains row true allow_eq i s x = ground (
    arith,
    contains-andnot s.filter row x,
    contains-andnot (bitmap_andnot s.filter row) s.keep x,
    contains-andnot s.filter (bitmap_andnot (bitmap_andnot s.filter row) s.keep) x,
  )
  gt_step-contains row false allow_eq i s x = ground (
    arith,
    contains-andnot s.filter row x,
    contains-andnot (bitmap_andnot s.filter row) s.keep x,
    contains-andnot s.filter (bitmap_andnot (bitmap_andnot s.filter row) s.keep) x,
    contains-and s.filter row x,
    contains-or s.keep (bitmap_and s.filter row) x,
  )

  -- the value of an id in the lowest bits
  module _ (row : ℕ → Bitmap) (e x : ℕ) where
    abbrev pub bits : ℕ → Bool
    bits i = contains (row i) x

    pub gt_loop-contains_eq :
        (i : ℕ) (s : GtState roaring)
        → contains (gt_loop roaring row e true i s).filter x
          ≡ (contains s.filter x && (contains s.keep x || leb (low (bit e) i) (low bits i)))
    unfolding gt_loop
    gt_loop-contains_eq zero s = ground (arith, low-zero (bit e), low-zero bits)
    gt_loop-contains_eq (suc i) s = ground (
      arith,
      gt_loop-contains_eq i (gt_step roaring (row i) (bit e i) true i s),
      gt_step-contains (row i) (bit e i) true i s x,
      low-suc (bit e) i,
      low-suc bits i,
      low-lt (bit e) i,
      low-lt bits i,
      low-zero (bit e),
      low-zero bits,
    )

    pub gt_loop-contains_strict :
        (i : ℕ) (s : GtState roaring)
        → (contains s.keep x ≡ true → contains s.filter x ≡ true)
        → contains (gt_loop roaring row e false (suc i) s).filter x ≡ (
            contains s.filter x
            && (contains s.keep x || ltb (low (bit e) (suc i)) (low bits (suc i))))
    unfolding gt_loop
    gt_loop-contains_strict zero s h = ground (
      arith,
      gt_step-contains (row 0) (bit e 0) false 0 s x,
      low-suc (bit e) 0,
      low-suc bits 0,
      low-zero (bit e),
      low-zero bits,
    )
    gt_loop-contains_strict (suc i) s h = ground (
      arith,
      gt_loop-contains_strict i (gt_step roaring (row (suc i)) (bit e (suc i)) false (suc i) s),
      gt_step-contains (row (suc i)) (bit e (suc i)) false (suc i) s x,
      low-suc (bit e) (suc i),
      low-suc bits (suc i),
      low-lt (bit e) (suc i),
      low-lt bits (suc i),
    )
