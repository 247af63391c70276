-- ===== src/Mraft/Storage/Cut.antt =====
-- TruncatePrefix and TruncateSuffix against the log that the storage stands for
-- (mraft/segment_log_storage.cpp).
use myctk.Base.{
  ℕ, zero, suc, ◌+◌, ◌-◌, ◌<◌, ◌≤◌, ◌≡◌, refl, ap, sym, subst, ◌∙◌, true, false, List, [], ◌∷◌,
  ◌++◌, length, take, ltb, leb, Bool-cases, inl, inr, Option, none, some, arith, length-append,
  append_assoc, append-nil, take-beyond, drop, drop-append, drop-within, length-drop,
}
use myctk.Base.Int.{pos}
use myctk.Mraft.Segment.{LogEntry, Segment, truncate}
use myctk.Mraft.Segment.Layout.{Stored}
use myctk.Mraft.Segment.Kept.{Holds}
use myctk.Mraft.Segment.Change.{all_succeed, truncate-Holds}
use myctk.Mraft.Storage.{SegmentLogStorage}
use myctk.Mraft.Storage.Truncate.{pop_front, pop_open, pop_segments, clear_front, truncate_prefix}
use myctk.Mraft.Storage.Chain.{Chain, Chain-open_first, Chain-last_index}
use myctk.Mraft.Storage.Entries.{Latest, Represents}

clear_front-endless :
    (fuel kept : ℕ) (e : LogEntry) (rest : List LogEntry)
    → kept ≤ e.index
    → clear_front fuel kept (e ∷ rest) ≡ none
unfolding clear_front
clear_front-endless zero kept e rest h = refl
clear_front-endless (suc fuel) kept e rest h =
    let stays : ltb e.index kept ≡ false = ground arith in
    rw stays (clear_front-endless fuel kept e rest h)

-- TruncatePrefix to an entry after first_log_index, where SaveMeta succeeds, does not return when the
-- first entry in the cache is one that is kept: however many rounds its last loop is given, it is not
-- over.
pub truncate_prefix-endless :
    (fuel : ℕ) (st : SegmentLogStorage) (kept : ℕ) (e : LogEntry) (rest : List LogEntry)
    → st.first_log_index < kept
    → st.latest_entries_cache ≡ e ∷ rest
    → kept ≤ e.index
    → truncate_prefix fuel true st kept ≡ none
unfolding truncate_prefix
truncate_prefix-endless fuel st kept e rest h cache stays =
    let some_to_do : leb kept st.first_log_index ≡ false = ground arith in
    rw (some_to_do, cache, clear_front-endless fuel kept e rest stays)

module _ (crc : List ℕ → ℕ) where
  -- what is left of a log after the segments in front are taken out
  Chain-pop_front :
      (ss : List Segment) (current : Option Segment) (first kept : ℕ) (es : List Stored)
      → Chain crc ss current first es
      → first ≤ kept
      → (ds : List Stored) × (ks : List Stored) × (es ≡ ds ++ ks)
        × Chain crc ((pop_front kept ss).1) current (first + length ds) ks
        × (first + length ds ≤ kept)
  unfolding Chain pop_front
  Chain-pop_front [] current first kept es h low =
      ([], es, refl, subst (λ n. Chain crc [] current n es) (omega arith) h, omega arith)
  Chain-pop_front (s ∷ ss) current first kept es (xs, ys, split, h, f, full, rest) low =
      elim (Bool-cases (ltb s.last_index kept)) [
        | inl out ↦
            let (ds, ks, cut, chain, from) =
              Chain-pop_front ss current (first + length xs) kept ys rest (ground (arith, h.3)) in
            rw out (
              xs ++ ds,
              ks,
              split ∙ ap (λ t. xs ++ t) cut ∙ sym (append_assoc xs ds ks),
              subst (λ n. Chain crc ((pop_front kept ss).1) current n ks)
                  (omega (arith, length-append xs ds)) chain,
              omega (arith, length-append xs ds),
            )
        | inr stays ↦ rw stays (
          [],
          es,
          refl,
          subst (λ n. Chain crc (s ∷ ss) current n es) (omega arith)
              (xs, ys, split, h, f, full, rest),
          omega arith,
        )
      ]

  -- the truncation of the open segment
  pub Chain-cut :
      (ss : List Segment) (s : Segment) (first kept : ℕ) (es : List Stored)
      → Chain crc ss (some s) first es
      → s.first_index ≤ kept
      → kept < s.last_index
      → ((truncate all_succeed s kept).0 ≡ pos 0)
        × Chain crc ss (some ((truncate all_succeed s kept).1)) first (take (kept + 1 - first) es)
  unfolding Chain
  Chain-cut [] s first kept es (h, o, f) low high =
      let (code, holds, o', f') = truncate-Holds crc s es [] kept h (omega arith) high in
      (
        code,
        (
          subst (λ n. Holds crc ((truncate all_succeed s kept).1) (take (kept + 1 - n) es) []) f
              holds,
          o',
          f' ∙ f,
        ),
      )
  Chain-cut (x ∷ ss) s first kept es (xs, ys, split, h, f, full, rest) low high =
      let (code, chain) = Chain-cut ss s (first + length xs) kept ys rest low high in
      (
        code,
        (
          xs,
          take (kept + 1 - (first + length xs)) ys,
          ap (take (kept + 1 - first)) split
              ∙ take-beyond (kept + 1 - first) xs ys
                  (omega (arith, Chain-open_first crc ss s (first + length xs) ys rest))
              ∙ ap (λ n. xs ++ take n ys) (omega arith),
          h,
          f,
          full,
          chain,
        ),
      )

  Chain-nothing : (first : ℕ) (es : List Stored) → Chain crc [] none first es → length es ≡ 0
  unfolding Chain
  Chain-nothing first es h = ap length h

  -- PopSegments leaves the rest alone when an entry is left
  pop_open-left :
      (kept : ℕ) (popped : List Segment) (st : SegmentLogStorage) (ss : List Segment)
      (current : Option Segment) (first : ℕ) (ks : List Stored)
      → Chain crc ss current first ks
      → kept < first + length ks
      → first ≤ kept
      → pop_open kept popped st ss current ≡ (popped, st)
  unfolding pop_open
  pop_open-left kept popped st (x ∷ xs) current first ks h left from = refl
  pop_open-left kept popped st [] none first ks h left from =
      absurd (omega (arith, Chain-nothing first ks h))
  pop_open-left kept popped st [] (some s) first ks h left from =
      let stays : ltb s.last_index kept ≡ false =
        ground (arith, Chain-last_index crc [] s first ks h) in
      rw stays

-- the last entry of a log is the last entry of what is left of it
Latest-left :
    (base kept first : ℕ) (le : Option LogEntry) (es ds ks : List Stored)
    → Latest base first le es
    → es ≡ ds ++ ks
    → kept < base + length es
    → base + length ds ≤ kept
    → Latest (base + length ds) kept le ks
unfolding Latest
Latest-left base kept first none es ds ks h cut left from = tt
Latest-left base kept first (some e) es ds ks (xs, r, split, _) cut left from =
    let size : length es ≡ length xs + 1 = ap length split ∙ length-append xs ((r, e) ∷ []) in
    (
      drop (length ds) xs,
      r,
      sym (drop-append ds ks)
          ∙ ap (drop (length ds)) (sym cut ∙ split)
          ∙ drop-within (length ds) xs ((r, e) ∷ []) (omega arith),
      omega (arith, length-drop (length ds) xs),
    )

module _ (crc : List ℕ → ℕ) where
  -- a closed segment that is left in front does not end before the entry that is kept
  pop_front-ends :
      (ss : List Segment) (kept : ℕ) (s : Segment) (rest : List Segment)
      → (pop_front kept ss).1 ≡ s ∷ rest
      → kept ≤ s.last_index
  unfolding pop_front
  pop_front-ends [] kept s rest e = absurd (cc e)
  pop_front-ends (x ∷ ss) kept s rest e = elim (Bool-cases (ltb x.last_index kept)) [
    | inl out ↦
        let e' : (pop_front kept ss).1 ≡ s ∷ rest = rw out at e in pop_front-ends ss kept s rest e'
    | inr stays ↦
        let e' : x ∷ ss ≡ s ∷ rest = rw stays at e in
        let same : x ≡ s = cc in
        let last : x.last_index ≡ s.last_index = ap (λ (u : Segment). u.last_index) same in
        ground arith
  ]

  -- TruncatePrefix to an entry of the log after first_log_index, with an empty cache and where
  -- SaveMeta succeeds, returns 0. It takes out a number of entries in front, all of them before the
  -- one that is kept, and the storage stands for the rest of the log: a closed segment that is still
  -- first does not end before the entry that is kept. The storage shows no entry before that.
  pub truncate_prefix-Represents :
      (fuel : ℕ) (st : SegmentLogStorage) (base : ℕ) (es : List Stored) (kept : ℕ)
      → Represents crc st base es
      → st.latest_entries_cache ≡ []
      → st.first_log_index < kept
      → kept ≤ st.last_log_index
      → (after : SegmentLogStorage) × (ds : List Stored) × (ks : List Stored) × (truncate_prefix
            (suc fuel)
            true
            st
            kept
          ≡ some (pos 0, after))
        × (es ≡ ds ++ ks)
        × Represents crc after (base + length ds) ks
        × (base + length ds ≤ kept)
        × ((s : Segment) (rest : List Segment) → after.segments ≡ s ∷ rest → kept ≤ s.last_index)
        × (after.first_log_index ≡ kept)
        × (after.last_log_index ≡ st.last_log_index)
  unfolding truncate_prefix pop_segments clear_front
  truncate_prefix-Represents fuel st base es kept (chain, size, one, low, high, cache, latest) empty
        some_out inside =
      let (ds, ks, cut, left, from) =
        Chain-pop_front crc st.segments st.open_segment base kept es chain (omega arith) in
      let to_do : leb kept st.first_log_index ≡ false = ground arith in
      let sizes : length es ≡ length ds + length ks = ap length cut ∙ length-append ds ks in
      let moved : SegmentLogStorage = record st {
        first_log_index = kept;
        segments = (pop_front kept st.segments).1;
      } in
      let pops =
        pop_open-left crc kept ((pop_front kept st.segments).0) moved
          ((pop_front kept st.segments).1) st.open_segment (base + length ds) ks left (omega arith)
          from in
      (
        record moved { log_meta = some kept; latest_entries_cache = [] },
        ds,
        ks,
        rw (to_do, pops, empty),
        cut,
        (
          left,
          omega arith,
          omega arith,
          from,
          omega arith,
          (ks, [], sym (append-nil ks), refl, omega arith),
          Latest-left base kept st.first_log_index st.latest_entry es ds ks latest cut (omega arith)
              from,
        ),
        from,
        pop_front-ends st.segments kept,
        refl,
        refl,
      )
