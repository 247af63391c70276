-- ===== src/Mraft/Storage/Tail.antt =====
-- TruncateSuffix to an entry of the open segment (mraft/segment_log_storage.cpp).
use myctk.Base.{
  ◌&&◌, ℕ, zero, suc, ◌+◌, ◌-◌, ◌<◌, ◌≤◌, ◌≡◌, refl, ap, sym, subst, ◌∙◌, Bool, true, false, List,
  [], ◌∷◌, ◌++◌, length, take, ltb, leb, ==_refl, none, some, arith, append-nil, length-take,
}
use myctk.Base.Int.{ℤ, pos}
use myctk.Mraft.Segment.{LogEntry, Segment, TruncateCalls, truncate}
use myctk.Mraft.Segment.Layout.{Stored}
use myctk.Mraft.Segment.Change.{all_succeed}
use myctk.Mraft.Storage.{SegmentLogStorage, is_ok, get_entry}
use myctk.Mraft.Storage.Truncate.{
  begins_by, pop_segments_from_back, truncate_last, write_back, drop_last, drop_suffix, clear_back,
  reverse_onto, drop_cache, truncate_suffix,
}
use myctk.Mraft.Storage.Append.{Chain-is_open}
use myctk.Mraft.Storage.Cut.{Chain-cut}
use myctk.Mraft.Storage.Chain.{Chain, Chain-last_index}
use myctk.Mraft.Storage.Entries.{Latest, Represents, latest-index}

-- the storage after the open segment has been cut
abbrev pub cut_open : TruncateCalls → SegmentLogStorage → Segment → ℕ → SegmentLogStorage
cut_open calls st s kept = record st {
  last_log_index = kept;
  open_segment = some ((truncate calls s kept).1);
}

and-false_and : (b c : Bool) → (b && false && c) ≡ false
and-false_and true c = refl
and-false_and false c = refl

drop_suffix-open :
    (unlinks : Segment → ℤ) (calls : TruncateCalls) (st : SegmentLogStorage) (s : Segment)
    (kept : ℕ)
    → st.open_segment ≡ some s
    → s.is_open ≡ true
    → s.first_index ≤ kept
    → st.first_log_index ≤ kept
    → drop_suffix unlinks calls st kept
      ≡ (true, (truncate calls s kept).0, cut_open calls st s kept)
unfolding drop_suffix drop_last pop_segments_from_back begins_by truncate_last write_back
drop_suffix-open unlinks calls st s kept here o low from =
    let begins : leb s.first_index kept ≡ true = ground arith in
    let some_left : leb st.first_log_index kept ≡ true = ground arith in
    rw (
      here,
      begins,
      some_left,
      o,
      and-false_and (is_ok ((truncate calls (record s { is_open = true }) kept).0))
          ((truncate calls (record s { is_open = true }) kept).1.is_open),
    )

-- the storage but for the entry in latest_entry_
abbrev pub forget_latest : SegmentLogStorage → SegmentLogStorage
forget_latest st = record st { latest_entry = none }

truncate_suffix-open :
    (fuel : ℕ) (unlinks : Segment → ℤ) (st : SegmentLogStorage) (s : Segment) (kept : ℕ)
    → st.open_segment ≡ some s
    → s.is_open ≡ true
    → s.first_index ≤ kept
    → st.first_log_index ≤ kept
    → st.latest_entries_cache ≡ []
    → truncate_suffix (suc fuel) unlinks all_succeed st kept
      ≡ some ((truncate all_succeed s kept).0, cut_open all_succeed st s kept)
unfolding truncate_suffix drop_cache clear_back
truncate_suffix-open fuel unlinks st s kept here o low from empty =
    ap (drop_cache (suc fuel) kept) (drop_suffix-open unlinks all_succeed st s kept here o low from)
    ∙ rw empty

clear_back-endless :
    (fuel kept : ℕ) (e : LogEntry) (back : List LogEntry)
    → e.index ≤ kept
    → clear_back fuel kept (e ∷ back) ≡ none
unfolding clear_back
clear_back-endless zero kept e back h = refl
clear_back-endless (suc fuel) kept e back h =
    let stays : ltb kept e.index ≡ false = ground arith in
    rw stays (clear_back-endless fuel kept e back h)

reverse_onto-snoc :
    (xs ys : List LogEntry) (e : LogEntry) → reverse_onto (xs ++ e ∷ []) ys ≡ e ∷ reverse_onto xs ys
reverse_onto-snoc [] ys e = refl
reverse_onto-snoc (x ∷ xs) ys e = reverse_onto-snoc xs (x ∷ ys) e

-- TruncateSuffix to an entry of the open segment, not before first_log_index, does not return when the
-- last entry in the cache is one that is kept.
pub truncate_suffix-endless :
    (fuel : ℕ) (unlinks : Segment → ℤ) (calls : TruncateCalls) (st : SegmentLogStorage)
    (s : Segment) (kept : ℕ) (cache : List LogEntry) (e : LogEntry)
    → st.open_segment ≡ some s
    → s.is_open ≡ true
    → s.first_index ≤ kept
    → st.first_log_index ≤ kept
    → st.latest_entries_cache ≡ cache ++ e ∷ []
    → e.index ≤ kept
    → truncate_suffix fuel unlinks calls st kept ≡ none
unfolding truncate_suffix drop_cache
truncate_suffix-endless fuel unlinks calls st s kept cache e here o low from eq stays =
    let back : reverse_onto st.latest_entries_cache [] ≡ e ∷ reverse_onto cache [] =
      ap (λ c. reverse_onto c []) eq ∙ reverse_onto-snoc cache [] e in
    let ends : clear_back fuel kept (reverse_onto st.latest_entries_cache []) ≡ none =
      ap (clear_back fuel kept) back
      ∙ clear_back-endless fuel kept e (reverse_onto cache []) stays in
    ap (drop_cache fuel kept) (drop_suffix-open unlinks calls st s kept here o low from)
    ∙ rw (ends, drop_cache)

module _ (crc : List ℕ → ℕ) where
  -- TruncateSuffix to an entry of the open segment before its last and not before first_log_index,
  -- with an empty cache and where all its system calls succeed, returns 0. But for latest_entry_,
  -- which stays as it was, the storage then stands for the log up to that entry.
  pub truncate_suffix-Represents :
      (fuel : ℕ) (unlinks : Segment → ℤ) (st : SegmentLogStorage) (s : Segment) (base : ℕ)
      (es : List Stored) (kept : ℕ)
      → Represents crc st base es
      → st.open_segment ≡ some s
      → s.first_index ≤ kept
      → st.first_log_index ≤ kept
      → kept < st.last_log_index
      → st.latest_entries_cache ≡ []
      → (after : SegmentLogStorage) × (truncate_suffix (suc fuel) unlinks all_succeed st kept
          ≡ some (pos 0, after))
        × Represents crc (forget_latest after) base (take (kept + 1 - base) es)
        × (after.latest_entry ≡ st.latest_entry)
  unfolding Latest
  truncate_suffix-Represents fuel unlinks st s base es kept
        (chain, size, one, first, high, cache, latest) here low from inside empty =
      let held = subst (λ o. Chain crc st.segments o base es) here chain in
      let last : s.last_index + 1 ≡ base + length es =
        Chain-last_index crc st.segments s base es held in
      let (code, left) = Chain-cut crc st.segments s base kept es held low (omega arith) in
      let size_left : kept + 1 ≡ base + length (take (kept + 1 - base) es) =
        ground (arith, length-take (kept + 1 - base) es) in
      (
        cut_open all_succeed st s kept,
        truncate_suffix-open fuel unlinks st s kept here
              (Chain-is_open crc st.segments s base es held) low from empty
            ∙ ap (λ c. some (c, cut_open all_succeed st s kept)) code,
        (
          left,
          size_left,
          one,
          first,
          omega arith,
          (
            take (kept + 1 - base) es,
            [],
            sym (append-nil (take (kept + 1 - base) es)),
            empty,
            omega arith,
          ),
          tt,
        ),
        refl,
      )

  -- After TruncateSuffix to an entry of the open segment before its last and not before
  -- first_log_index, with an empty cache, an entry in latest_entry_ and all its system calls
  -- succeeding, which returns 0, GetEntry still returns the entry in latest_entry_, though its index
  -- is beyond last_log_index.
  pub get_entry-truncate_suffix :
      (fuel : ℕ) (unlinks : Segment → ℤ) (st : SegmentLogStorage) (s : Segment) (base : ℕ)
      (es : List Stored) (kept : ℕ) (e : LogEntry)
      → Represents crc st base es
      → st.open_segment ≡ some s
      → s.first_index ≤ kept
      → st.first_log_index ≤ kept
      → kept < st.last_log_index
      → st.latest_entries_cache ≡ []
      → st.latest_entry ≡ some e
      → (after : SegmentLogStorage) × (truncate_suffix (suc fuel) unlinks all_succeed st kept
          ≡ some (pos 0, after))
        × (after.last_log_index < e.index)
        × (get_entry crc after e.index ≡ some e)
  unfolding get_entry Latest
  get_entry-truncate_suffix fuel unlinks st s base es kept e h here low from inside empty latest_e =
      let held = subst (λ o. Chain crc st.segments o base es) here h.0 in
      let last : s.last_index + 1 ≡ base + length es =
        Chain-last_index crc st.segments s base es held in
      let (code, _) = Chain-cut crc st.segments s base kept es held low (omega (arith, h.1)) in
      (
        cut_open all_succeed st s kept,
        truncate_suffix-open fuel unlinks st s kept here
              (Chain-is_open crc st.segments s base es held) low from empty
            ∙ ap (λ c. some (c, cut_open all_succeed st s kept)) code,
        omega (arith, latest-index crc st base es e h latest_e),
        rw (latest_e, get_entry, ==_refl e.index),
      )
