-- ===== src/Robims/Bsi/Index/Queries.antt =====
-- The range queries of BitSliceIndex (robims/robims_bsi.cpp) against DoGet: which ids each returns.
use myctk.Base.{
  ℕ, zero, suc, ◌+◌, ◌*◌, ◌/◌, ◌%◌, ◌^◌, ◌<◌, ◌≡◌, Bool, true, false, not, ◌&&◌, ◌||◌, Option, none,
  some, ltb, leb, ◌==◌, if◌then◌else◌, arith,
}
use myctk.Base.Bits.{bit, low, low-bit}
use myctk.Robims.Bitmap.{RoaringBitmap}
use myctk.Robims.Bsi.Range.{
  restrict, do_range_lt, do_range_gt, do_range_eq, do_range_neq, do_range_between, LtState, GtState,
  BetweenState,
}
use myctk.Robims.Bsi.Range.Gt.{above, gt_loop-contains_eq, gt_loop-contains_strict}
use myctk.Robims.Bsi.Range.Eq.{eq_loop-contains, between_loop-contains}
use myctk.Robims.Bsi.Range.Lt.{
  high, high-even, low-high, lt_loop-contains_eq, lt_loop-contains_strict,
}
use myctk.Robims.Bsi.Index.{BitSliceIndex, exist, row, do_get}
use myctk.Robims.Bsi.Index.PutGet.{do_get-value}

-- a test on the value of an id, false if it has none
abbrev pub holds : (ℕ → Bool) → Option ℕ → Bool
holds p none = false
holds p (some v) = p v

-- what DoRangeLT tests without equality: it is `v < e` for an even e other than 0
abbrev pub below_strict : ℕ → ℕ → Bool
below_strict e v =
    if e == 0
    then v == 0
    else if e % 2 == 0
    then ltb v e
    else v / 2 == e / 2 || ltb (v / 2) (e / 2) && v % 2 == 1

abbrev pub below : Bool → ℕ → ℕ → Bool
below allow_eq e v = if allow_eq then leb v e else below_strict e v

halves :
    (b : ℕ → Bool) (i : ℕ)
    → (low b (suc i) / 2 * 2 ≡ high b i)
      × (low b (suc i) % 2 ≡ (if b 0 then 1 else 0))
      × (low b (suc i) ≡ high b i + (if b 0 then 1 else 0))
halves b i = ground (arith, low-high b i, high-even b i)

module _ (roaring : RoaringBitmap) where
  open roaring use {
    Bitmap, contains, create, is_empty, bitmap_and, bitmap_andnot, contains-create, contains-and,
    contains-andnot, is_empty_iff,
  }

  -- the ids that a query is restricted to: all, if `out` is empty
  abbrev pub selected : Bitmap → ℕ → Bool
  selected out x = is_empty out || contains out x

  restrict-contains :
      (ex out : Bitmap) (x : ℕ)
      → contains (restrict roaring ex out) x ≡ (selected out x && contains ex x)
  unfolding restrict
  restrict-contains ex out x = ground (arith, contains-and out ex x)

  gt_contains :
      (ex : Bitmap) (rows : ℕ → Bitmap) (depth e x : ℕ) (allow_eq : Bool) (out : Bitmap)
      → 0 < depth
      → contains (do_range_gt roaring ex rows depth e allow_eq out) x ≡ (
          contains (restrict roaring ex out) x
          && above allow_eq (low (bit e) depth) (low (λ i. contains (rows i) x) depth))
  unfolding do_range_gt
  gt_contains ex rows zero e x allow_eq out h = absurd (omega arith)
  gt_contains ex rows (suc i) e x true out h =
      let start : GtState roaring = record { filter = restrict roaring ex out; keep = create } in
      ground (arith, gt_loop-contains_eq roaring rows e x (suc i) start, contains-create x)
  gt_contains ex rows (suc i) e x false out h =
      let start : GtState roaring = record { filter = restrict roaring ex out; keep = create } in
      ground (arith, gt_loop-contains_strict roaring rows e x i start, contains-create x)

  lt_contains :
      (ex : Bitmap) (rows : ℕ → Bitmap) (depth e x : ℕ) (allow_eq : Bool) (out : Bitmap)
      → 0 < depth
      → contains (do_range_lt roaring ex rows depth e allow_eq out) x ≡ (
          contains (restrict roaring ex out) x
          && below allow_eq (low (bit e) depth) (low (λ i. contains (rows i) x) depth))
  unfolding do_range_lt
  lt_contains ex rows zero e x allow_eq out h = absurd (omega arith)
  lt_contains ex rows (suc i) e x true out h =
      let start : LtState roaring = record {
        filter = restrict roaring ex out;
        keep = create;
        leading_zero = true;
      } in
      ground (arith, lt_loop-contains_eq roaring rows e x (suc i) start, contains-create x)
  lt_contains ex rows (suc i) e x false out h =
      let start : LtState roaring = record {
        filter = restrict roaring ex out;
        keep = create;
        leading_zero = true;
      } in
      ground (
        arith,
        lt_loop-contains_strict roaring rows e x i start,
        contains-create x,
        halves (bit e) i,
        halves (λ j. contains (rows j) x) i,
      )

  module _ (s : BitSliceIndex roaring) (x : ℕ) where
    abbrev have : Option ℕ
    have = do_get roaring s x

    -- DoRangeGT returns, among the ids that it is restricted to, exactly those whose value is
    -- above the expected one, or equal to it where that is allowed; of the expected value only the
    -- bits below the bit depth count, which is not 0.
    pub do_range_gt_exact :
        (e : ℕ) (allow_eq : Bool) (out : Bitmap)
        → 0 < s.bit_depth
        → contains
            (do_range_gt roaring (exist roaring s) (row roaring s) s.bit_depth e allow_eq out)
            x
          ≡ (selected out x && holds (above allow_eq (e % 2 ^ s.bit_depth)) have)
    do_range_gt_exact e allow_eq out h = ground (
      arith,
      gt_contains (exist roaring s) (row roaring s) s.bit_depth e x allow_eq out h,
      restrict-contains (exist roaring s) out x,
      do_get-value roaring s x,
      low-bit e s.bit_depth,
    )

    -- DoRangeLT with equality returns, among the ids that it is restricted to, exactly those whose
    -- value is at most the expected one, whose bits below the bit depth count. Without equality it
    -- does so (below the expected value) if that value is even and not 0. For 0 it returns the ids
    -- of value 0, and for an odd value e those of value e - 1 and e, and of the smaller values only
    -- the odd ones. The bit depth is not 0.
    pub do_range_lt_exact :
        (e : ℕ) (allow_eq : Bool) (out : Bitmap)
        → 0 < s.bit_depth
        → contains
            (do_range_lt roaring (exist roaring s) (row roaring s) s.bit_depth e allow_eq out)
            x
          ≡ (selected out x && holds (below allow_eq (e % 2 ^ s.bit_depth)) have)
    do_range_lt_exact e allow_eq out h = ground (
      arith,
      lt_contains (exist roaring s) (row roaring s) s.bit_depth e x allow_eq out h,
      restrict-contains (exist roaring s) out x,
      do_get-value roaring s x,
      low-bit e s.bit_depth,
    )

    -- DoRangeEQ returns, among the ids that it is restricted to, exactly those with the expected
    -- value, whose bits below the bit depth count.
    pub do_range_eq_exact :
        (e : ℕ) (out : Bitmap)
        → contains (do_range_eq roaring (exist roaring s) (row roaring s) s.bit_depth e out) x
          ≡ (selected out x && holds (λ v. v == (e % 2 ^ s.bit_depth)) have)
    unfolding do_range_eq
    do_range_eq_exact e out = ground (
      arith,
      eq_loop-contains roaring (row roaring s) e x s.bit_depth
          (restrict roaring (exist roaring s) out),
      restrict-contains (exist roaring s) out x,
      do_get-value roaring s x,
      low-bit e s.bit_depth,
    )

    -- DoRangeNEQ returns exactly the ids with a value other than the expected one, whatever it was
    -- to be restricted to.
    pub do_range_neq_exact :
        (e : ℕ) (out : Bitmap)
        → contains (do_range_neq roaring (exist roaring s) (row roaring s) s.bit_depth e out) x
          ≡ holds (λ v. not (v == (e % 2 ^ s.bit_depth))) have
    unfolding do_range_neq
    do_range_neq_exact e out =
        let eq = do_range_eq roaring (exist roaring s) (row roaring s) s.bit_depth e create in
        ground (
          arith,
          do_range_eq_exact e create,
          contains-andnot (exist roaring s) eq x,
          (is_empty_iff create).1 contains-create,
          do_get-value roaring s x,
        )

    -- DoRangeBetween returns, among the ids that it is restricted to, exactly those whose value is
    -- at least the lower bound and at most the upper one, whose bits below the bit depth count.
    pub do_range_between_exact :
        (min max : ℕ) (out : Bitmap)
        → contains
            (do_range_between roaring (exist roaring s) (row roaring s) s.bit_depth min max out)
            x
          ≡ (selected out x
              && holds (λ v. leb (min % 2 ^ s.bit_depth) v && leb v (max % 2 ^ s.bit_depth)) have)
    unfolding do_range_between
    do_range_between_exact min max out =
        let start : BetweenState roaring = record {
          filter = restrict roaring (exist roaring s) out;
          keep1 = create;
          keep2 = create;
        } in
        ground (
          arith,
          between_loop-contains roaring (row roaring s) min max x s.bit_depth start,
          contains-create x,
          restrict-contains (exist roaring s) out x,
          do_get-value roaring s x,
          low-bit min s.bit_depth,
          low-bit max s.bit_depth,
        )
