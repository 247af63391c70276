-- ===== src/Robims/Database/Pages.antt =====
-- The pages that RobimsDBImpl::Select gives out (robims/robims_db_impl.cpp).
use myctk.Base.{
  ℕ, zero, suc, ◌-◌, ◌<◌, ◌≡◌, refl, ap, sym, ◌∙◌, Bool, true, false, not, ◌||◌, List, [], ◌∷◌,
  ◌++◌, map, elem, take, drop, length, replicate, ltb, ◌==◌, arith,
}
use myctk.Base.Int.{ℤ, pos, negsuc, pos_part}
use myctk.Robims.Bitmap.{RoaringBitmap}
use myctk.Robims.IdMapping.{SimpleIdMapping}
use myctk.Robims.Database.Select.{
  Ascending, RangeArray, real_id, collect_ids, page_limit, filled, select_page,
}

-- no id is 0
AllPositive : List ℕ → Type 0
AllPositive [] = Unit {0}
AllPositive (x ∷ xs) = (0 < x) × AllPositive xs

AllPositive-tail : (x : ℕ) (xs : List ℕ) → Ascending (x ∷ xs) → AllPositive xs
unfolding AllPositive
AllPositive-tail x [] h = tt
AllPositive-tail x (y ∷ xs) (below, h) = (omega arith, AllPositive-tail y xs h)

AllPositive-drop : (n : ℕ) (xs : List ℕ) → AllPositive xs → AllPositive (drop n xs)
unfolding AllPositive
AllPositive-drop zero xs h = h
AllPositive-drop (suc n) [] h = h
AllPositive-drop (suc n) (x ∷ xs) (here, h) = AllPositive-drop n xs h

AllPositive-take : (n : ℕ) (xs : List ℕ) → AllPositive xs → AllPositive (take n xs)
unfolding AllPositive
AllPositive-take zero xs h = tt
AllPositive-take (suc n) [] h = h
AllPositive-take (suc n) (x ∷ xs) (here, h) = (here, AllPositive-take n xs h)

elem-zero : (xs : List ℕ) → AllPositive xs → elem 0 xs ≡ false
unfolding AllPositive
elem-zero [] h = refl
elem-zero (x ∷ xs) (here, h) = ground (arith, elem-zero xs h)

-- the zeros behind the ids that were found end the loop
collect_ids-zeros :
    (mapping : SimpleIdMapping) (holds_zero : Bool) (offset i n : ℕ)
    → (ltb 0 i || ltb 0 offset || not holds_zero) ≡ true
    → collect_ids mapping holds_zero offset i (replicate n 0) ≡ []
unfolding collect_ids
collect_ids-zeros mapping holds_zero offset i zero h = refl
collect_ids-zeros mapping holds_zero offset i (suc n) h = rw h refl

collect_ids-AllPositive :
    (mapping : SimpleIdMapping) (holds_zero : Bool) (offset i n : ℕ) (xs : List ℕ)
    → AllPositive xs
    → (ltb 0 i || ltb 0 offset || not holds_zero) ≡ true
    → collect_ids mapping holds_zero offset i (xs ++ replicate n 0) ≡ map (real_id mapping) xs
unfolding collect_ids AllPositive
collect_ids-AllPositive mapping holds_zero offset i n [] h stop =
    collect_ids-zeros mapping holds_zero offset i n stop
collect_ids-AllPositive mapping holds_zero offset i n (zero ∷ xs) (here, h) stop =
    absurd (omega arith)
collect_ids-AllPositive mapping holds_zero offset i n (suc x ∷ xs) (here, h) stop =
    let more : (suc x == 0) ≡ false = ground arith in
    rw more (
      ap (λ t. real_id mapping (suc x) ∷ t)
        (collect_ids-AllPositive mapping holds_zero offset (suc i) n xs h (ground arith)))

collect_ids-page :
    (mapping : SimpleIdMapping) (holds_zero : Bool) (offset n : ℕ) (ids : List ℕ)
    → Ascending ids
    → elem 0 ids ≡ holds_zero
    → collect_ids mapping holds_zero offset 0 (filled (suc n) (take (suc n) (drop offset ids)))
      ≡ map (real_id mapping) (take (suc n) (drop offset ids))
unfolding filled
collect_ids-page mapping holds_zero zero n [] h zeros =
    collect_ids-zeros mapping holds_zero 0 0 _ (rw (← zeros) refl)
collect_ids-page mapping holds_zero (suc offset) n [] h zeros =
    collect_ids-zeros mapping holds_zero (suc offset) 0 _ (ground arith)
collect_ids-page mapping holds_zero zero n (zero ∷ ids) h zeros =
    let behind =
      collect_ids-AllPositive mapping holds_zero 0 1 (suc n - length (take (suc n) (zero ∷ ids)))
        (take n ids) (AllPositive-take n ids (AllPositive-tail 0 ids h)) (ground arith) in
    unfold collect_ids in rw (← zeros) (ap (λ t. real_id mapping 0 ∷ t) behind)
collect_ids-page mapping holds_zero zero n (suc x ∷ ids) h zeros =
    let all : AllPositive (suc x ∷ ids) =
      unfold AllPositive in (omega arith, AllPositive-tail (suc x) ids h) in
    collect_ids-AllPositive mapping holds_zero 0 0 _ (take (suc n) (suc x ∷ ids))
      (AllPositive-take (suc n) (suc x ∷ ids) all)
      (let none_there : holds_zero ≡ false = sym zeros ∙ elem-zero (suc x ∷ ids) all in
        rw none_there refl)
collect_ids-page mapping holds_zero (suc offset) n (x ∷ ids) h zeros =
    collect_ids-AllPositive mapping holds_zero (suc offset) 0 _ (take (suc n) (drop offset ids))
      (AllPositive-take (suc n) (drop offset ids)
        (AllPositive-drop offset ids (AllPositive-tail x ids h)))
      (ground arith)

module _ (roaring : RoaringBitmap) (ranges : RangeArray roaring) where
  open roaring use {
    Bitmap, contains, cardinality, to_uint32_array, elem-to_uint32_array, length-to_uint32_array,
  }
  open ranges use {range_uint32_array_lem, ascending}

  collect_ids-range :
      (mapping : SimpleIdMapping) (b : Bitmap) (offset n : ℕ)
      → 0 < n
      → collect_ids mapping
          (contains b 0)
          offset
          0
          (filled n (ranges.range_uint32_array b offset n))
        ≡ map (real_id mapping) (take n (drop offset (to_uint32_array b)))
  collect_ids-range mapping b offset zero h = absurd (omega arith)
  collect_ids-range mapping b offset (suc n) h =
      ap (λ xs. collect_ids mapping (contains b 0) offset 0 (filled (suc n) xs))
        (range_uint32_array_lem b offset (suc n))
      ∙ collect_ids-page mapping (contains b 0) offset n (to_uint32_array b) (ascending b)
          (elem-to_uint32_array b 0)

  page_limit_pos : (limit : ℤ) → 0 < page_limit limit
  unfolding page_limit
  page_limit_pos (pos zero) = omega arith
  page_limit_pos (pos (suc n)) = omega arith
  page_limit_pos (negsuc n) = omega arith

  -- A page of a query's result has exactly the ids of the bitmap in order from the offset on (from 0
  -- on, if it is negative), each as the id that it stands for, as many as the limit (100, if it is
  -- not positive) or as there are, and the total is the number of all: the local id 0 is not lost
  -- among the zeros that fill the array, and none of those comes out as an id.
  pub select_page-exact :
      (mapping : SimpleIdMapping) (b : Bitmap) (offset limit : ℤ)
      → ((select_page roaring ranges mapping b offset limit).ids
          ≡ map
              (real_id mapping)
              (take (page_limit limit) (drop (pos_part offset) (to_uint32_array b))))
        × ((select_page roaring ranges mapping b offset limit).total ≡ length (to_uint32_array b))
  unfolding select_page
  select_page-exact mapping b offset limit = (
    collect_ids-range mapping b (pos_part offset) (page_limit limit) (page_limit_pos limit),
    sym (length-to_uint32_array b),
  )
