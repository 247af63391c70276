-- ===== src/Robims/Bsi/TopK.antt =====
-- TopK of BitSliceIndex (robims/robims_bsi.cpp).
pub mod Round
pub mod Enough
pub mod Largest
use myctk.Base.{ℕ, zero, suc, ◌+◌, ◌-◌, ◌^◌, ◌%◌, Bool, true, false, ◌&&◌, ltb, ◌==◌, if◌then◌else◌}
use myctk.Robims.Bitmap.{RoaringBitmap}
use myctk.Robims.Bsi.Index.{BitSliceIndex, exist, row}

module _ (roaring : RoaringBitmap) where
  open roaring use {Bitmap, bitmap_and, bitmap_andnot, bitmap_or, cardinality}

  -- filter, tmp, out and rest_k; `stop` is the break
  pub record Top : Type 0 where
    pub filter : Bitmap
    pub out : Bitmap
    pub rest_k : ℕ
    pub stop : Bool

  pub top_step : ℕ → Bitmap → ℕ → Top → Top
  top_step k r i s =
      let filter = bitmap_and s.filter r in
      let n = cardinality filter in
      let out = bitmap_or s.out filter in
      if ltb s.rest_k n
      then record s { filter = filter }
      else if ltb n s.rest_k
      then (if n == 0 && ltb 0 i then s else record s {
        filter = bitmap_andnot s.filter out;
        out = out;
        rest_k = (k + 2 ^ 32 - cardinality out) % 2 ^ 32;
      })
      else record s { filter = filter; out = out; stop = true }

  pub top_loop : ℕ → (ℕ → Bitmap) → ℕ → Top → Top
  unfolding top_step
  top_loop k rows zero s = s
  top_loop k rows (suc i) s = top_loop k rows i (if s.stop then s else top_step k (rows i) i s)

  pub top_k : BitSliceIndex roaring → ℕ → Bitmap → Bitmap
  unfolding top_loop
  top_k s k out =
      (top_loop k (row roaring s) s.bit_depth
        (record { filter = exist roaring s; out = out; rest_k = k; stop = false })).out
