-- ===== src/Robims/Bsi/Range/Lt.antt =====
-- DoRangeLT, id by id.
use myctk.Base.{
  ℕ, zero, suc, ◌+◌, ◌%◌, ◌^◌, ◌≤◌, ◌≡◌, Bool, true, false, not, ◌&&◌, ◌||◌, ltb, leb, ◌==◌,
  if◌then◌else◌, arith,
}
use myctk.Base.Bits.{bit, low, low-zero, low-suc, low-lt, pow_two-suc}
use myctk.Robims.Bitmap.{RoaringBitmap}
use myctk.Robims.Bsi.Range.{LtState, lt_step, lt_loop}

-- the bits from 1 on
pub high : (ℕ → Bool) → ℕ → ℕ
high b zero = 0
high b (suc i) = high b i + (if b (suc i) then 2 ^ suc i else 0)

pub high-even : (b : ℕ → Bool) (i : ℕ) → high b i % 2 ≡ 0
unfolding high
high-even b zero = omega arith
high-even b (suc i) = ground (arith, high-even b i, pow_two-suc i)

pub low-high : (b : ℕ → Bool) (i : ℕ) → low b (suc i) ≡ high b i + (if b 0 then 1 else 0)
unfolding high
low-high b zero = ground (arith, low-suc b 0, low-zero b)
low-high b (suc i) = ground (arith, low-high b i, low-suc b (suc i))

high-lt : (b : ℕ → Bool) (i : ℕ) → high b i + 2 ≤ 2 ^ suc i
unfolding high
high-lt b zero = omega arith
high-lt b (suc i) = ground (arith, high-lt b i, pow_two-suc (suc i))

module _ (roaring : RoaringBitmap) where
  open roaring use {
    Bitmap, contains, bitmap_and, bitmap_andnot, bitmap_or, bitmap_xor, contains-xor,
    contains-andnot, contains-or,
  }

  lt_step-contains :
      (row : Bitmap) (set allow_eq : Bool) (i : ℕ) (s : LtState roaring) (x : ℕ)
      → let t = lt_step roaring row set allow_eq i s in
        let last = i == 0 && not allow_eq in
        let skip = s.leading_zero && not set in
        let r = contains row x in
        let f = contains s.filter x in
        let k = contains s.keep x in
        (contains t.filter x ≡ (
          if skip
          then f && not r
          else if last
          then (if set then f && not (k && not r) else k)
          else f && (set || not r || k)))
        × (contains t.keep x ≡ (
            if skip
            then k
            else if last
            then (if set then k && not r else k)
            else k || (set && ltb 0 i) && (f && not r)))
        × (t.leading_zero ≡ skip)
  unfolding lt_step
  lt_step-contains row set allow_eq i s x =
      let less = bitmap_andnot (bitmap_xor s.keep row) row in
      ground (
        arith,
        contains-xor s.keep row x,
        contains-andnot (bitmap_xor s.keep row) row x,
        contains-andnot s.filter less x,
        contains-andnot row s.keep x,
        contains-andnot s.filter (bitmap_andnot row s.keep) x,
        contains-andnot s.filter row x,
        contains-or s.keep (bitmap_andnot s.filter row) x,
      )

  module _ (row : ℕ → Bitmap) (e x : ℕ) where
    abbrev pub bits : ℕ → Bool
    bits i = contains (row i) x

    pub lt_loop-contains_eq :
        (i : ℕ) (s : LtState roaring)
        → (s.leading_zero ≡ true → contains s.keep x ≡ false)
        → contains (lt_loop roaring row e true i s).filter x
          ≡ (contains s.filter x && (contains s.keep x || leb (low bits i) (low (bit e) i)))
    unfolding lt_loop
    lt_loop-contains_eq zero s h = ground (arith, low-zero (bit e), low-zero bits)
    lt_loop-contains_eq (suc i) s h = ground (
      arith,
      lt_loop-contains_eq i (lt_step roaring (row i) (bit e i) true i s),
      lt_step-contains (row i) (bit e i) true i s x,
      low-suc (bit e) i,
      low-suc bits i,
      low-lt (bit e) i,
      low-lt bits i,
      low-zero (bit e),
      low-zero bits,
    )

    -- what the strict loop keeps, with e and v without their lowest bits
    abbrev pub strict : Bool → Bool → Bool → ℕ → Bool
    strict leading f k i =
        if leading && low (bit e) (suc i) == 0
        then f && low bits (suc i) == 0
        else if bit e 0
        then f
          && ((k || ltb (high bits i) (high (bit e) i)) && bits 0
              || not k && high bits i == high (bit e) i)
        else f && (k || ltb (high bits i) (high (bit e) i))

    pub lt_loop-contains_strict :
        (i : ℕ) (s : LtState roaring)
        → (s.leading_zero ≡ true → contains s.keep x ≡ false)
        → (contains s.keep x ≡ true → contains s.filter x ≡ true)
        → contains (lt_loop roaring row e false (suc i) s).filter x
          ≡ strict s.leading_zero (contains s.filter x) (contains s.keep x) i
    unfolding lt_loop high
    lt_loop-contains_strict zero s h g = ground (
      arith,
      lt_step-contains (row 0) (bit e 0) false 0 s x,
      low-suc (bit e) 0,
      low-suc bits 0,
      low-zero (bit e),
      low-zero bits,
    )
    lt_loop-contains_strict (suc i) s h g = ground (
      arith,
      lt_loop-contains_strict i (lt_step roaring (row (suc i)) (bit e (suc i)) false (suc i) s),
      lt_step-contains (row (suc i)) (bit e (suc i)) false (suc i) s x,
      low-high (bit e) i,
      low-high bits i,
      low-high (bit e) (suc i),
      low-high bits (suc i),
      high-lt (bit e) i,
      high-lt bits i,
    )
