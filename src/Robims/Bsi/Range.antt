-- ===== src/Robims/Bsi/Range.antt =====
-- The range queries of BitSliceIndex (robims/robims_bsi.cpp): DoRangeLT, DoRangeGT, DoRangeEQ,
-- DoRangeNEQ and DoRangeBetween. `row i` is `_bitmaps[1 + i]`, `exist` is `_bitmaps[0]`. Each loop
-- counts i down from depth - 1, one step function for its body; the early returns stand at i = 0.
pub mod Gt
pub mod Eq
pub mod Lt
use myctk.Base.{ℕ, zero, suc, Bool, true, false, not, ◌&&◌, ltb, ◌==◌, if◌then◌else◌}
use myctk.Base.Bits.{bit}
use myctk.Robims.Bitmap.{RoaringBitmap}

module _ (roaring : RoaringBitmap) where
  open roaring use {Bitmap, create, is_empty, bitmap_and, bitmap_andnot, bitmap_or, bitmap_xor}

  -- An empty `out` means no restriction; any other one restricts the query to its ids.
  unfoldable pub restrict : Bitmap → Bitmap → Bitmap
  restrict exist out = if is_empty out then exist else bitmap_and out exist

  -- filter, keep and leading_zero
  pub record LtState : Type 0 where
    pub filter : Bitmap
    pub keep : Bitmap
    pub leading_zero : Bool

  unfoldable pub lt_step : Bitmap → Bool → Bool → ℕ → LtState → LtState
  lt_step row set allow_eq i s =
      if s.leading_zero && not set
      then record s { filter = bitmap_andnot s.filter row }
      else let t = record s { leading_zero = false } in
        let less = bitmap_andnot (bitmap_xor s.keep row) row in
        if i == 0 && not allow_eq
        then (if set
            then record t { filter = bitmap_andnot s.filter less; keep = less }
            else record t { filter = s.keep })
        else if not set
        then record t { filter = bitmap_andnot s.filter (bitmap_andnot row s.keep) }
        else if ltb 0 i
        then record t { keep = bitmap_or s.keep (bitmap_andnot s.filter row) }
        else t

  unfoldable pub lt_loop : (ℕ → Bitmap) → ℕ → Bool → ℕ → LtState → LtState
  lt_loop row expect allow_eq zero s = s
  lt_loop row expect allow_eq (suc i) s =
      lt_loop row expect allow_eq i (lt_step (row i) (bit expect i) allow_eq i s)

  unfoldable pub do_range_lt : Bitmap → (ℕ → Bitmap) → ℕ → ℕ → Bool → Bitmap → Bitmap
  do_range_lt exist row depth expect allow_eq out =
      (lt_loop row expect allow_eq depth
        (record { filter = restrict exist out; keep = create; leading_zero = true })).filter

  -- filter and keep
  pub record GtState : Type 0 where
    pub filter : Bitmap
    pub keep : Bitmap

  unfoldable pub gt_step : Bitmap → Bool → Bool → ℕ → GtState → GtState
  gt_step row set allow_eq i s =
      let unset = bitmap_andnot (bitmap_andnot s.filter row) s.keep in
      if i == 0 && not allow_eq
      then (if set
          then record s { filter = s.keep }
          else record s { filter = bitmap_andnot s.filter unset })
      else if set
      then record s { filter = bitmap_andnot s.filter unset }
      else if ltb 0 i
      then record s { keep = bitmap_or s.keep (bitmap_and s.filter row) }
      else s

  unfoldable pub gt_loop : (ℕ → Bitmap) → ℕ → Bool → ℕ → GtState → GtState
  gt_loop row expect allow_eq zero s = s
  gt_loop row expect allow_eq (suc i) s =
      gt_loop row expect allow_eq i (gt_step (row i) (bit expect i) allow_eq i s)

  unfoldable pub do_range_gt : Bitmap → (ℕ → Bitmap) → ℕ → ℕ → Bool → Bitmap → Bitmap
  do_range_gt exist row depth expect allow_eq out =
      (gt_loop row expect allow_eq depth
        (record { filter = restrict exist out; keep = create })).filter

  unfoldable pub eq_loop : (ℕ → Bitmap) → ℕ → ℕ → Bitmap → Bitmap
  eq_loop row expect zero out = out
  eq_loop row expect (suc i) out =
      eq_loop row expect i
        (if bit expect i then bitmap_and out (row i) else bitmap_andnot out (row i))

  unfoldable pub do_range_eq : Bitmap → (ℕ → Bitmap) → ℕ → ℕ → Bitmap → Bitmap
  do_range_eq exist row depth expect out = eq_loop row expect depth (restrict exist out)

  unfoldable pub do_range_neq : Bitmap → (ℕ → Bitmap) → ℕ → ℕ → Bitmap → Bitmap
  do_range_neq exist row depth expect out =
      bitmap_andnot exist (do_range_eq exist row depth expect create)

  -- filter, keep1 and keep2
  pub record BetweenState : Type 0 where
    pub filter : Bitmap
    pub keep1 : Bitmap
    pub keep2 : Bitmap

  -- the half of the body for expect_min, then the half for expect_max
  unfoldable pub between_min : Bitmap → Bool → ℕ → BetweenState → BetweenState
  between_min row bit1 i s =
      if bit1
      then record s {
        filter = bitmap_andnot s.filter (bitmap_andnot (bitmap_andnot s.filter row) s.keep1);
      }
      else if ltb 0 i
      then record s { keep1 = bitmap_or s.keep1 (bitmap_and s.filter row) }
      else s

  unfoldable pub between_max : Bitmap → Bool → ℕ → BetweenState → BetweenState
  between_max row bit2 i s =
      if not bit2
      then record s { filter = bitmap_andnot s.filter (bitmap_andnot row s.keep2) }
      else if ltb 0 i
      then record s { keep2 = bitmap_or s.keep2 (bitmap_andnot s.filter row) }
      else s

  unfoldable pub between_loop : (ℕ → Bitmap) → ℕ → ℕ → ℕ → BetweenState → BetweenState
  between_loop row min max zero s = s
  between_loop row min max (suc i) s =
      between_loop row min max i
        (between_max (row i) (bit max i) i (between_min (row i) (bit min i) i s))

  unfoldable pub do_range_between : Bitmap → (ℕ → Bitmap) → ℕ → ℕ → ℕ → Bitmap → Bitmap
  do_range_between exist row depth min max filter =
      (between_loop row min max depth
        (record { filter = restrict exist filter; keep1 = create; keep2 = create })).filter
