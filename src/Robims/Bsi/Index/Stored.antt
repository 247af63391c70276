-- ===== src/Robims/Bsi/Index/Stored.antt =====
-- DoPut, DoRemove and DoGet (robims/robims_bsi.cpp) as operations on a map from ids to values.
use myctk.Base.{
  ℕ, suc, ◌^◌, ◌%◌, ◌<◌, ◌≡◌, refl, ◌∙◌, false, ◌||◌, List, Option, none, some, length, set,
  get_or-set, length-set, ◌==◌, if◌then◌else◌, arith, Bool-cases, inl, inr,
}
use myctk.Base.Bits.{bit, low-bit, low_ext}
use myctk.Robims.Bitmap.{RoaringBitmap}
use myctk.Robims.Bsi.Index.{
  BitSliceIndex, IsWellFormed, exist, do_get, put_loop, do_remove, Put, inserted, replaced, do_put,
}
use myctk.Robims.Bsi.Index.PutGet.{
  value, do_get-value, at, put_loop-at_zero, put_loop-at, replace_loop-put, replace_loop-old,
  length-put_loop, length-remove_loop, remove_loop-at_zero, remove_loop-at,
}

-- DoPut's answer, from what DoGet gave before
abbrev pub put_answer : Option ℕ → Put
put_answer none = inserted
put_answer (some old) = replaced old

module _ (roaring : RoaringBitmap) where
  open roaring use {Bitmap, contains, create, add, remove, contains-add, contains-remove}

  abbrev base : BitSliceIndex roaring → ℕ → List Bitmap
  base s id = set s.bitmaps 0 (add (exist roaring s) id)

  abbrev put_index : BitSliceIndex roaring → ℕ → ℕ → BitSliceIndex roaring
  put_index s id val = record s { bitmaps = put_loop roaring id val s.bit_depth (base s id) }

  module _ (s : BitSliceIndex roaring) (id val : ℕ) (w : IsWellFormed roaring s) where
    sized : s.bit_depth < length (base s id)
    sized = omega (arith, w.sized, length-set s.bitmaps 0 (add (exist roaring s) id))

    put_index-IsWellFormed : IsWellFormed roaring (put_index s id val)
    put_index-IsWellFormed = record {
      sized = omega (
        arith,
        w.sized,
        length-put_loop roaring id val s.bit_depth (base s id),
        length-set s.bitmaps 0 (add (exist roaring s) id),
      );
      narrow = w.narrow;
    }

    base-at : (j x : ℕ) → at roaring (base s id) (suc j) x ≡ at roaring s.bitmaps (suc j) x
    base-at j x =
        ground (arith, get_or-set s.bitmaps 0 (suc j) (add (exist roaring s) id) create, w.sized)

    base-at_zero : (x : ℕ) → at roaring (base s id) 0 x ≡ (x == id || contains (exist roaring s) x)
    base-at_zero x = ground (
      arith,
      get_or-set s.bitmaps 0 0 (add (exist roaring s) id) create,
      w.sized,
      contains-add (exist roaring s) id x,
    )

    value-put_index :
        (x : ℕ)
        → value roaring (put_index s id val) x
          ≡ (if x == id then val % 2 ^ s.bit_depth else value roaring s x)
    value-put_index x = elim (Bool-cases (x == id)) [
      | inl same ↦ rw same (
          low_ext _ (bit val) s.bit_depth
            (λ j p. ground (arith, put_loop-at roaring id val s.bit_depth (base s id) j x, sized))
          ∙ low-bit val s.bit_depth)
      | inr other ↦ rw other (
          low_ext _ _ s.bit_depth (λ j p.
            ground
              (arith, put_loop-at roaring id val s.bit_depth (base s id) j x, sized, base-at j x)))
    ]

    do_get-put_index :
        (x : ℕ)
        → do_get roaring (put_index s id val) x
          ≡ (if x == id then some (val % 2 ^ s.bit_depth) else do_get roaring s x)
    do_get-put_index x = ground (
      arith,
      do_get-value roaring (put_index s id val) x,
      do_get-value roaring s x,
      value-put_index x,
      put_loop-at_zero roaring id val s.bit_depth (base s id) x,
      sized,
      base-at_zero x,
    )

    do_put_lem :
        s.options.limit_topk ≡ 0
        → do_put roaring s id val ≡ some (put_index s id val, put_answer (do_get roaring s id))
    unfolding do_put
    do_put_lem unlimited = ground (
      arith,
      do_get-value roaring s id,
      replace_loop-put roaring id val s.bit_depth (base s id) 0,
      replace_loop-old roaring id val s.bit_depth (base s id),
      sized,
      low_ext (λ j. at roaring (base s id) (suc j) id) (λ j. at roaring s.bitmaps (suc j) id)
          s.bit_depth (λ j p. base-at j id),
    )

  -- the rows of another id stay as they are
  value-do_remove :
      (s : BitSliceIndex roaring) (id val x : ℕ)
      → IsWellFormed roaring s
      → (x == id) ≡ false
      → value roaring (do_remove roaring s id val) x ≡ value roaring s x
  unfolding do_remove
  value-do_remove s id val x w other =
      let bs = set s.bitmaps 0 (remove (exist roaring s) id) in
      let size = length-set s.bitmaps 0 (remove (exist roaring s) id) in
      let fits : s.bit_depth < length bs = omega (arith, w.sized) in
      low_ext _ _ s.bit_depth (λ j p. ground (
        arith,
        remove_loop-at roaring id val s.bit_depth bs j x,
        fits,
        get_or-set s.bitmaps 0 (suc j) (remove (exist roaring s) id) create,
        w.sized,
      ))

  -- On a well-formed index with no limit on its ids DoPut succeeds, answers with the value that
  -- DoGet gave for the id before, and leaves a well-formed index of the same options in which the
  -- id has the value (as far as the bit depth holds it) and every other id has what it had.
  pub do_get-do_put :
      (s : BitSliceIndex roaring) (id val : ℕ)
      → IsWellFormed roaring s
      → s.options.limit_topk ≡ 0
      → (t : BitSliceIndex roaring) × (do_put roaring s id val
          ≡ some (t, put_answer (do_get roaring s id)))
        × IsWellFormed roaring t
        × (t.options ≡ s.options)
        × ((x : ℕ)
            → do_get roaring t x
              ≡ (if x == id then some (val % 2 ^ s.bit_depth) else do_get roaring s x))
  do_get-do_put s id val w unlimited = (
    put_index s id val,
    do_put_lem s id val w unlimited,
    put_index-IsWellFormed s id val w,
    refl,
    do_get-put_index s id val w,
  )

  pub options-do_remove :
      (s : BitSliceIndex roaring) (id val : ℕ) → (do_remove roaring s id val).options ≡ s.options
  unfolding do_remove
  options-do_remove s id val = refl

  -- On a well-formed index DoRemove, whatever value it is given, takes the id out, keeps the value
  -- of every other id, and leaves a well-formed index.
  pub do_get-do_remove :
      (s : BitSliceIndex roaring) (id val x : ℕ)
      → IsWellFormed roaring s
      → IsWellFormed roaring (do_remove roaring s id val)
        × (do_get roaring (do_remove roaring s id val) x
            ≡ (if x == id then none else do_get roaring s x))
  unfolding do_remove
  do_get-do_remove s id val x w =
      let bs = set s.bitmaps 0 (remove (exist roaring s) id) in
      let size = length-set s.bitmaps 0 (remove (exist roaring s) id) in
      let fits : s.bit_depth < length bs = omega (arith, w.sized) in
      (
        record {
          sized = omega (arith, w.sized, length-remove_loop roaring id val s.bit_depth bs);
          narrow = w.narrow;
        },
        ground (
          arith,
          do_get-value roaring (do_remove roaring s id val) x,
          do_get-value roaring s x,
          remove_loop-at_zero roaring id val s.bit_depth bs x,
          get_or-set s.bitmaps 0 0 (remove (exist roaring s) id) create,
          w.sized,
          contains-remove (exist roaring s) id x,
          value-do_remove s id val x w,
        ),
      )
