-- ===== src/Robims/Bsi/Index/Minimum.antt =====
-- DoGetMin (robims/robims_bsi.cpp) against the values of the ids. Its loop clears the filter at the
-- first bit that all the smallest ids have, and then counts every lower bit as set.
use myctk.Base.{
  ℕ, zero, suc, ◌+◌, ◌*◌, ◌^◌, ◌<◌, ◌≤◌, ◌≡◌, ap, ◌∙◌, true, false, arith, Bool-cases, inl, inr,
  ◌⊎◌,
}
use myctk.Base.Int.{pos, negsuc}
use myctk.Base.Bits.{low, low-zero, low-suc, low-lt, pow_two-suc, pow_two-pos}
use myctk.Robims.Bitmap.{RoaringBitmap}
use myctk.Robims.Bsi.Range.{restrict}
use myctk.Robims.Bsi.Index.{BitSliceIndex, exist, row, Min, min_step, min_loop, do_get_min}
use myctk.Robims.Bsi.Index.PutGet.{value}
use myctk.Robims.Bsi.Index.Maximum.{pow_le, shl_int-lt, cardinality_pos}

module _ (roaring : RoaringBitmap) where
  open roaring use {Bitmap, contains, bitmap_andnot, cardinality, contains-andnot, cardinality_zero}

  min_step_cases :
      (r : Bitmap) (i : ℕ) (s : Min roaring)
      → i < 31
      → s.min_val + 2 ^ suc i ≤ 2 ^ 64
      → let t = min_step roaring r i s in
        (t.filter ≡ bitmap_andnot s.filter r)
        × (((0 < cardinality (bitmap_andnot s.filter r)) × (t.min_val ≡ s.min_val))
            ⊎ ((cardinality (bitmap_andnot s.filter r) ≡ 0) × (t.min_val ≡ s.min_val + 2 ^ i)))
  unfolding min_step
  min_step_cases r i s h fits = ground (arith, shl_int-lt i h, pow_two-suc i, pow_two-pos i)

  module _ (rows : ℕ → Bitmap) where
    abbrev lows : ℕ → ℕ → ℕ
    lows x i = low (λ j. contains (rows j) x) i

    -- with an empty filter every bit is counted
    min_loop-empty :
        (i : ℕ) (s : Min roaring)
        → i ≤ 31
        → s.min_val + 2 ^ i ≤ 2 ^ 64
        → ((x : ℕ) → contains s.filter x ≡ false)
        → (min_loop roaring rows i s).min_val + 1 ≡ s.min_val + 2 ^ i
    unfolding min_loop
    min_loop-empty zero s h fits e = omega arith
    min_loop-empty (suc i) s h fits e =
        let t = min_step roaring (rows i) i s in
        let gone = λ (x : ℕ). contains-andnot s.filter (rows i) x in
        let zero_count =
          (cardinality_zero (bitmap_andnot s.filter (rows i))).1
            (λ x. ground (arith, gone x, e x)) in
        let (kept, cases) = min_step_cases (rows i) i s (omega arith) fits in
        let value : t.min_val ≡ s.min_val + 2 ^ i = ground arith in
        let empty : (x : ℕ) → contains t.filter x ≡ false =
          λ x. ap (λ b. contains b x) kept ∙ ground (arith, gone x, e x) in
        let room : t.min_val + 2 ^ i ≤ 2 ^ 64 = omega (arith, pow_two-suc i) in
        let below : i ≤ 31 = omega arith in
        omega (arith, min_loop-empty i t below room empty, pow_two-suc i)

    -- `x` has the least value among the ids of the filter
    min_loop-rounds :
        (i x : ℕ) (s : Min roaring)
        → i ≤ 31
        → s.min_val + 2 ^ i ≤ 2 ^ 64
        → contains s.filter x ≡ true
        → ((y : ℕ) → contains s.filter y ≡ true → lows x i ≤ lows y i)
        → (k : ℕ) × ((min_loop roaring rows i s).min_val + 1 ≡ s.min_val + 2 ^ k)
          × (s.min_val + lows x i ≤ (min_loop roaring rows i s).min_val)
          × ((min_loop roaring rows i s).min_val ≤ s.min_val + lows x i + lows x i)
    unfolding min_loop
    min_loop-rounds zero x s h fits m least =
        (0, omega arith, omega (arith, low-zero (λ j. contains (rows j) x)), omega arith)
    min_loop-rounds (suc i) x s h fits m least =
        let t = min_step roaring (rows i) i s in
        let gone = λ (y : ℕ). contains-andnot s.filter (rows i) y in
        let step = λ (y : ℕ). low-suc (λ j. contains (rows j) y) i in
        let (kept, cases) = min_step_cases (rows i) i s (omega arith) fits in
        let now = λ (y : ℕ). ap (λ b. contains b y) kept in
        elim (Bool-cases (contains (rows i) x)) [
          | inl set ↦
              let high : 2 ^ i ≤ lows x (suc i) = ground (arith, step x) in
              let gone_all : (y : ℕ) → contains (bitmap_andnot s.filter (rows i)) y ≡ false =
                λ y. ground (arith, gone y, step y, low-lt (λ j. contains (rows j) y) i, least y) in
              let zero_count : cardinality (bitmap_andnot s.filter (rows i)) ≡ 0 =
                (cardinality_zero (bitmap_andnot s.filter (rows i))).1 gone_all in
              let value : t.min_val ≡ s.min_val + 2 ^ i = ground arith in
              let room : t.min_val + 2 ^ i ≤ 2 ^ 64 = omega (arith, pow_two-suc i) in
              let below : i ≤ 31 = omega arith in
              let end : (min_loop roaring rows i t).min_val + 1 ≡ t.min_val + 2 ^ i =
                min_loop-empty i t below room (λ y. now y ∙ gone_all y) in
              let bound = low-lt (λ j. contains (rows j) x) (suc i) in
              (
                suc i,
                omega (arith, pow_two-suc i),
                omega (arith, pow_two-suc i),
                omega (arith, pow_two-suc i),
              )
          | inr unset ↦
              let there : contains (bitmap_andnot s.filter (rows i)) x ≡ true =
                ground (arith, gone x) in
              let some_there = cardinality_pos roaring (bitmap_andnot s.filter (rows i)) x there in
              let value : t.min_val ≡ s.min_val = ground arith in
              let room : t.min_val + 2 ^ i ≤ 2 ^ 64 = omega (arith, pow_two-suc i) in
              let below : i ≤ 31 = omega arith in
              let (k, ones, lower, upper) =
                min_loop-rounds i x t below room (now x ∙ there)
                  (λ y my. ground (arith, now y, gone y, step x, step y, least y)) in
              (k, omega arith, ground (arith, step x), ground (arith, step x))
        ]

  -- For a bit depth up to 31, let `x` have the least value among the ids looked at. What DoGetMin
  -- gives is one less than a power of two, at least that value and at most twice it.
  pub do_get_min_rounds_up :
      (s : BitSliceIndex roaring) (input : Bitmap) (x : ℕ)
      → s.bit_depth ≤ 31
      → contains (restrict roaring (exist roaring s) input) x ≡ true
      → ((y : ℕ)
          → contains (restrict roaring (exist roaring s) input) y ≡ true
          → value roaring s x ≤ value roaring s y)
      → let min_val = (do_get_min roaring s input).0 in
        ((k : ℕ) × (min_val + 1 ≡ 2 ^ k))
        × (value roaring s x ≤ min_val)
        × (min_val ≤ 2 * value roaring s x)
  unfolding do_get_min
  do_get_min_rounds_up s input x shallow m least =
      let start : Min roaring = record {
        min_val = 0;
        count = pos 0;
        filter = restrict roaring (exist roaring s) input;
        last_non_zero = negsuc 0;
      } in
      let room : 0 + 2 ^ s.bit_depth ≤ 2 ^ 64 = omega (arith, pow_le s.bit_depth 31 shallow) in
      let (k, ones, lower, upper) =
        min_loop-rounds (row roaring s) s.bit_depth x start shallow room m least in
      ((k, omega arith), omega arith, omega arith)
