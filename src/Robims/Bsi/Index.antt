-- ===== src/Robims/Bsi/Index.antt =====
-- BitSliceIndex (robims/robims_bsi.h, robims_bsi.cpp): its bitmaps, and Init, DoPut, DoGet,
-- DoRemove, DoGetMax, DoGetMin and DoRemoveMin. A read of `_bitmaps` out of range, which the
-- well-formedness of an index excludes, gives an empty bitmap.
pub mod PutGet
pub mod Stored
pub mod Queries
pub mod Maximum
pub mod Minimum
use myctk.Base.{
  ℕ, zero, suc, ◌+◌, ◌-◌, ◌^◌, ◌%◌, ◌<◌, ◌≡◌, Bool, true, false, not, ◌&&◌, ◌||◌, List, [], ◌∷◌,
  Option, none, some, length, get_or, set, replicate, ltb, leb, ◌==◌, if◌then◌else◌,
}
use myctk.Base.Bits.{bit, low}
use myctk.Base.Int.{ℤ, pos, negsuc}
use myctk.Robims.Bitmap.{RoaringBitmap}
use myctk.Robims.Bsi.Options.{CreateOptions, FieldMeta, init_options, bit_depth_of}
use myctk.Robims.Bsi.Range.{restrict, do_range_eq}

-- `1 << i` on int, converted to uint64_t: the shift count is taken modulo 32, and bit 31 is the
-- sign. (From i = 31 on the C++ standard leaves it undefined.)
unfoldable pub shl_int : ℕ → ℕ
shl_int i = if i % 32 == 31 then 2 ^ 64 - 2 ^ 31 else 2 ^ (i % 32)

-- DoPut's result: false where the id is new, true with the old value otherwise
pub data Put : Type 0 where
  inserted : Put
  replaced : ℕ → Put

module _ (roaring : RoaringBitmap) where
  open roaring use {
    Bitmap, contains, create, bitmap_and, bitmap_andnot, bitmap_or, add, remove, cardinality,
    to_uint32_array,
  }

  pub record BitSliceIndex : Type 0 where
    pub options : CreateOptions
    pub bitmaps : List Bitmap
    pub bit_depth : ℕ

  abbrev pub exist : BitSliceIndex → Bitmap
  exist s = get_or s.bitmaps 0 create

  abbrev pub row : BitSliceIndex → ℕ → Bitmap
  row s i = get_or s.bitmaps (suc i) create

  pub record IsWellFormed (s : BitSliceIndex) : Type 0 where
    pub sized : length s.bitmaps ≡ s.bit_depth + 1
    pub narrow : s.bit_depth < 64

  -- Init on a new object
  pub init : {D : Type 0} → (D → ℤ) → (D → ℕ) → FieldMeta D → BitSliceIndex
  init double_to_int64 double_to_float meta =
      let o = init_options double_to_int64 double_to_float meta in
      record {
        options = o;
        bitmaps = replicate (bit_depth_of o + 1) create;
        bit_depth = bit_depth_of o;
      }

  -- the rounds i < n of the loop in DoGet: the `val` that they add up
  unfoldable pub get_loop : (ℕ → Bitmap) → ℕ → ℕ → ℕ
  get_loop rows id zero = 0
  get_loop rows id (suc i) = get_loop rows id i + (if contains (rows i) id then 2 ^ i else 0)

  unfoldable pub do_get : BitSliceIndex → ℕ → Option ℕ
  unfolding get_loop
  do_get s id = if not (contains (exist s) id) then none else some (get_loop (row s) id s.bit_depth)

  -- a round of the loops in DoPut: `_bitmaps[i + 1]` gets or loses the id
  pub put_bit : ℕ → ℕ → ℕ → List Bitmap → List Bitmap
  put_bit id val i bitmaps =
      let b = get_or bitmaps (suc i) create in
      set bitmaps (suc i) (if bit val i then add b id else remove b id)

  -- the rounds i < n where the id is new
  pub put_loop : ℕ → ℕ → ℕ → List Bitmap → List Bitmap
  unfolding put_bit
  put_loop id val zero bitmaps = bitmaps
  put_loop id val (suc i) bitmaps = put_bit id val i (put_loop id val i bitmaps)

  -- and where it is there already: the old value is read bit by bit
  pub replace_loop : ℕ → ℕ → ℕ → List Bitmap × ℕ → List Bitmap × ℕ
  unfolding put_bit
  replace_loop id val zero s = s
  replace_loop id val (suc i) s =
      let (bitmaps, old) = replace_loop id val i s in
      (
        put_bit id val i bitmaps,
        if contains (get_or bitmaps (suc i) create) id then old + 2 ^ i else old,
      )

  pub remove_loop : ℕ → ℕ → ℕ → List Bitmap → List Bitmap
  remove_loop id val zero bitmaps = bitmaps
  remove_loop id val (suc i) bitmaps =
      let bs = remove_loop id val i bitmaps in
      if bit val i then set bs (suc i) (remove (get_or bs (suc i) create) id) else bs

  pub do_remove : BitSliceIndex → ℕ → ℕ → BitSliceIndex
  unfolding remove_loop
  do_remove s id val =
      let bs = set s.bitmaps 0 (remove (exist s) id) in
      record s { bitmaps = remove_loop id val s.bit_depth bs }

  -- max_val, count, filter and last_non_zero_filter_count
  pub record Max : Type 0 where
    pub max_val : ℕ
    pub count : ℕ
    pub filter : Bitmap
    pub last_non_zero : ℕ

  unfoldable pub max_step : Bitmap → ℕ → Max → Max
  max_step r i s =
      let tmp = bitmap_and s.filter r in
      let and_count = cardinality tmp in
      if ltb 0 and_count
      then record {
        max_val = (s.max_val + shl_int i) % 2 ^ 64;
        count = and_count;
        filter = tmp;
        last_non_zero = and_count;
      }
      else if i == 0
      then record s { count = s.last_non_zero }
      else s

  unfoldable pub max_loop : (ℕ → Bitmap) → ℕ → Max → Max
  max_loop rows zero s = s
  max_loop rows (suc i) s = max_loop rows i (max_step (rows i) i s)

  -- max_val and count; a null `input_filter` is an empty bitmap
  pub do_get_max : BitSliceIndex → Bitmap → ℕ × ℕ
  unfolding max_loop
  do_get_max s input_filter =
      let filter = restrict roaring (exist s) input_filter in
      let t =
        max_loop (row s) s.bit_depth (record {
          max_val = 0;
          count = 0;
          filter = filter;
          last_non_zero = cardinality filter;
        }) in
      (t.max_val, t.count)

  -- min_val, count, filter and last_non_zero_filter_count
  pub record Min : Type 0 where
    pub min_val : ℕ
    pub count : ℤ
    pub filter : Bitmap
    pub last_non_zero : ℤ

  unfoldable pub min_step : Bitmap → ℕ → Min → Min
  min_step r i s =
      let filter = bitmap_andnot s.filter r in
      let diff_count = cardinality filter in
      if ltb 0 diff_count
      then record s { count = pos diff_count; filter = filter; last_non_zero = pos diff_count }
      else record s {
        min_val = (s.min_val + shl_int i) % 2 ^ 64;
        count = if i == 0 then s.last_non_zero else s.count;
        filter = filter;
      }

  unfoldable pub min_loop : (ℕ → Bitmap) → ℕ → Min → Min
  min_loop rows zero s = s
  min_loop rows (suc i) s = min_loop rows i (min_step (rows i) i s)

  pub do_get_min : BitSliceIndex → Bitmap → ℕ × ℤ
  unfolding min_loop
  do_get_min s input_filter =
      let filter = restrict roaring (exist s) input_filter in
      let t =
        min_loop (row s) s.bit_depth
          (record { min_val = 0; count = pos 0; filter = filter; last_non_zero = negsuc 0 }) in
      (t.min_val, t.count)

  -- `ids[0]`, which is a fault where no id was found
  pub remove_first : BitSliceIndex → ℕ → List ℕ → Option (BitSliceIndex × ℕ)
  remove_first s val [] = none
  remove_first s val (id ∷ ids) = some (do_remove s id val, val)

  abbrev pub is_pos : ℤ → Bool
  is_pos (pos n) = ltb 0 n
  is_pos (negsuc n) = false

  -- the index and the removed value; `none` is the fault
  pub do_remove_min : BitSliceIndex → Option (BitSliceIndex × ℕ)
  unfolding remove_first
  do_remove_min s =
      let (min_val, min_count) = do_get_min s create in
      if is_pos min_count
      then remove_first s min_val
          (to_uint32_array (do_range_eq roaring (exist s) (row s) s.bit_depth min_val create))
      else some (s, 0)

  -- after the insertion, with topk_limit ids at most
  pub limit_top_k : BitSliceIndex → Option BitSliceIndex
  limit_top_k s =
      if ltb 0 s.options.limit_topk && ltb s.options.limit_topk (cardinality (exist s))
      then elim (do_remove_min s) [ none ↦ none | some (t, _) ↦ some t ]
      else some s

  pub do_put : BitSliceIndex → ℕ → ℕ → Option (BitSliceIndex × Put)
  unfolding put_loop replace_loop limit_top_k
  do_put s id val =
      let bs = set s.bitmaps 0 (add (exist s) id) in
      if not (contains (exist s) id)
      then elim (limit_top_k (record s { bitmaps = put_loop id val s.bit_depth bs })) [
        | none ↦ none
        | some t ↦ some (t, inserted)
      ]
      else let (cs, old) = replace_loop id val s.bit_depth (bs, 0) in
        some (record s { bitmaps = cs }, replaced old)
