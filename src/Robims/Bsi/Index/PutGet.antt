-- ===== src/Robims/Bsi/Index/PutGet.antt =====
-- What DoPut and DoRemove leave behind for DoGet.
use myctk.Base.{
  ℕ, zero, suc, ◌<◌, ◌≡◌, refl, sym, ap, ◌∙◌, Bool, false, ◌&&◌, List, none, some, length, get_or,
  get_or-set, get_or-set_ne, length-set, ltb, ◌==◌, if◌then◌else◌, arith,
}
use myctk.Base.Bits.{bit, low, low-zero, low-suc}
use myctk.Robims.Bitmap.{RoaringBitmap}
use myctk.Robims.Bsi.Index.{
  BitSliceIndex, exist, row, get_loop, do_get, put_bit, put_loop, replace_loop, remove_loop,
}

module _ (roaring : RoaringBitmap) where
  open roaring use {Bitmap, contains, create, add, remove, contains-add, contains-remove}

  -- the value of an id, as the rows below `depth` spell it
  abbrev pub value : BitSliceIndex roaring → ℕ → ℕ
  value s x = low (λ i. contains (row roaring s i) x) s.bit_depth

  get_loop-low :
      (rows : ℕ → Bitmap) (x n : ℕ) → get_loop roaring rows x n ≡ low (λ i. contains (rows i) x) n
  unfolding get_loop
  get_loop-low rows x zero = sym (low-zero _)
  get_loop-low rows x (suc n) =
      ground (arith, low-suc (λ i. contains (rows i) x) n, get_loop-low rows x n)

  pub do_get-value :
      (s : BitSliceIndex roaring) (x : ℕ)
      → do_get roaring s x ≡ (if contains (exist roaring s) x then some (value s x) else none)
  unfolding do_get
  do_get-value s x = ground (arith, get_loop-low (row roaring s) x s.bit_depth)

  abbrev pub at : List Bitmap → ℕ → ℕ → Bool
  at bs j x = contains (get_or bs j create) x

  put_bit-at :
      (id val i : ℕ) (bs : List Bitmap) (j x : ℕ)
      → suc i < length bs
      → at (put_bit roaring id val i bs) j x
        ≡ (if suc i == j && x == id then bit val i else at bs j x)
  unfolding put_bit
  put_bit-at id val i bs j x h =
      let b = get_or bs (suc i) create in
      ground (
        arith,
        get_or-set bs (suc i) j (if bit val i then add b id else remove b id) create,
        contains-add b id x,
        contains-remove b id x,
      )

  length-put_bit :
      (id val i : ℕ) (bs : List Bitmap) → length (put_bit roaring id val i bs) ≡ length bs
  unfolding put_bit
  length-put_bit id val i bs = length-set bs (suc i) _

  pub length-put_loop :
      (id val n : ℕ) (bs : List Bitmap) → length (put_loop roaring id val n bs) ≡ length bs
  unfolding put_loop
  length-put_loop id val zero bs = refl
  length-put_loop id val (suc n) bs =
      length-put_bit id val n (put_loop roaring id val n bs) ∙ length-put_loop id val n bs

  pub put_loop-at_zero :
      (id val n : ℕ) (bs : List Bitmap) (x : ℕ)
      → n < length bs
      → at (put_loop roaring id val n bs) 0 x ≡ at bs 0 x
  unfolding put_loop
  put_loop-at_zero id val zero bs x h = refl
  put_loop-at_zero id val (suc n) bs x h = ground (
    arith,
    put_bit-at id val n (put_loop roaring id val n bs) 0 x,
    length-put_loop id val n bs,
    put_loop-at_zero id val n bs x,
  )

  pub put_loop-at :
      (id val n : ℕ) (bs : List Bitmap) (j x : ℕ)
      → n < length bs
      → at (put_loop roaring id val n bs) (suc j) x
        ≡ (if ltb j n && x == id then bit val j else at bs (suc j) x)
  unfolding put_loop
  put_loop-at id val zero bs j x h = ground arith
  put_loop-at id val (suc n) bs j x h = ground (
    arith,
    put_bit-at id val n (put_loop roaring id val n bs) (suc j) x,
    length-put_loop id val n bs,
    put_loop-at id val n bs j x,
  )

  -- the loop of the second branch writes the same, and adds up the old value
  pub replace_loop-put :
      (id val n : ℕ) (bs : List Bitmap) (old : ℕ)
      → (replace_loop roaring id val n (bs, old)).0 ≡ put_loop roaring id val n bs
  unfolding replace_loop put_loop
  replace_loop-put id val zero bs old = refl
  replace_loop-put id val (suc n) bs old =
      ap (put_bit roaring id val n) (replace_loop-put id val n bs old)

  pub replace_loop-old :
      (id val n : ℕ) (bs : List Bitmap)
      → n < length bs
      → (replace_loop roaring id val n (bs, 0)).1 ≡ low (λ i. at bs (suc i) id) n
  unfolding replace_loop
  replace_loop-old id val zero bs h = sym (low-zero _)
  replace_loop-old id val (suc n) bs h = ground (
    arith,
    replace_loop-old id val n bs,
    low-suc (λ i. at bs (suc i) id) n,
    put_loop-at id val n bs n id,
    ap (λ cs. at cs (suc n) id) (replace_loop-put id val n bs 0),
  )

  pub length-remove_loop :
      (id val n : ℕ) (bs : List Bitmap) → length (remove_loop roaring id val n bs) ≡ length bs
  unfolding remove_loop
  length-remove_loop id val zero bs = refl
  length-remove_loop id val (suc n) bs =
      let cs = remove_loop roaring id val n bs in
      ground (
        arith,
        length-remove_loop id val n bs,
        length-set cs (suc n) (remove (get_or cs (suc n) create) id),
      )

  pub remove_loop-at_zero :
      (id val n : ℕ) (bs : List Bitmap) (x : ℕ)
      → at (remove_loop roaring id val n bs) 0 x ≡ at bs 0 x
  unfolding remove_loop
  remove_loop-at_zero id val zero bs x = refl
  remove_loop-at_zero id val (suc n) bs x =
      let cs = remove_loop roaring id val n bs in
      ground (
        arith,
        remove_loop-at_zero id val n bs x,
        get_or-set_ne cs (suc n) 0 (remove (get_or cs (suc n) create) id) create,
      )

  pub remove_loop-at :
      (id val n : ℕ) (bs : List Bitmap) (j x : ℕ)
      → n < length bs
      → at (remove_loop roaring id val n bs) (suc j) x
        ≡ (if ltb j n && (x == id && bit val j) then false else at bs (suc j) x)
  unfolding remove_loop
  remove_loop-at id val zero bs j x h = ground arith
  remove_loop-at id val (suc n) bs j x h =
      let cs = remove_loop roaring id val n bs in
      let b = get_or cs (suc n) create in
      ground (
        arith,
        remove_loop-at id val n bs j x,
        length-remove_loop id val n bs,
        get_or-set cs (suc n) (suc j) (remove b id) create,
        contains-remove b id x,
      )
