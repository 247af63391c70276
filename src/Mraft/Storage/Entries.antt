-- ===== src/Mraft/Storage/Entries.antt =====
-- The log that a storage stands for (mraft/segment_log_storage.cpp), and GetEntry against it.
use myctk.Base.{
  ℕ, zero, suc, ◌+◌, ◌-◌, ◌^◌, ◌<◌, ◌≤◌, ◌≡◌, refl, ap, sym, subst, ◌∙◌, false, ◌&&◌, ◌||◌, List,
  [], ◌∷◌, ◌++◌, length, ltb, leb, ◌==◌, ==_iff, Bool-cases, Option-cases, inl, inr, Option, none,
  some, if◌then◌else◌, arith, length-append, get_elem?,
}
use myctk.Mraft.Header.{Skipped}
use myctk.Mraft.Segment.{LogEntry}
use myctk.Mraft.Segment.Layout.{Stored}
use myctk.Mraft.Segment.Kept.{Numbered, Numbered-at}
use myctk.Mraft.Segment.Read.{entry_at, entry_at-append}
use myctk.Mraft.Storage.{
  SegmentLogStorage, lookup, get_segment, last_of, cached, stored_entry, get_entry,
}
use myctk.Mraft.Storage.Chain.{Chain, Chain-Numbered, entry_at-back, lookup-Chain}

abbrev pub entries_of : List Stored → List LogEntry
entries_of [] = []
entries_of ((r, e) ∷ es) = e ∷ entries_of es

-- the cache is the end of the log, from an index on that is not before the first one
abbrev pub Cached : ℕ → ℕ → List LogEntry → List Stored → Type 0
Cached base first cache es =
    (pre : List Stored) × (post : List Stored) × (es ≡ pre ++ post)
    × (cache ≡ entries_of post)
    × (first ≤ base + length pre)

-- the latest entry, if there is one, is the last of the log
unfoldable pub Latest : ℕ → ℕ → Option LogEntry → List Stored → Type 0
Latest base first none es = Unit {0}
Latest base first (some e) es =
    (xs : List Stored) × (r : Skipped) × (es ≡ xs ++ (r, e) ∷ []) × (first ≤ base + length xs)

-- the storage stands for the entries `es` with the indices from `base` on, of which those from
-- first_log_index on have not been discarded
abbrev pub Represents : (List ℕ → ℕ) → SegmentLogStorage → ℕ → List Stored → Type 0
Represents crc st base es =
    Chain crc st.segments st.open_segment base es
    × (st.last_log_index + 1 ≡ base + length es)
    × (1 ≤ base)
    × (base ≤ st.first_log_index)
    × (st.first_log_index ≤ st.last_log_index + 1)
    × Cached base st.first_log_index st.latest_entries_cache es
    × Latest base st.first_log_index st.latest_entry es

-- the entry of an index, if it lies between the first one and the last one
unfoldable pub visible : SegmentLogStorage → ℕ → List Stored → ℕ → Option LogEntry
visible st base es index =
    if ltb index st.first_log_index || ltb st.last_log_index index
    then none
    else entry_at es (index - base)

Numbered-back :
    (xs ys : List Stored) (first : ℕ) → Numbered first (xs ++ ys) → Numbered (first + length xs) ys
unfolding Numbered
Numbered-back [] ys first h = subst (λ n. Numbered n ys) (omega arith) h
Numbered-back ((r, e) ∷ xs) ys first (i, z, h) =
    subst (λ n. Numbered n ys) (omega arith) (Numbered-back xs ys (suc first) h)

last_of-index :
    (es : List Stored) (r : Skipped) (e : LogEntry) (first : ℕ)
    → Numbered first ((r, e) ∷ es)
    → (last_of e (entries_of es)).index ≡ first + length es
unfolding Numbered
last_of-index [] r e first (i, z, h) = omega arith
last_of-index ((q, x) ∷ es) r e first (i, z, h) = omega (arith, last_of-index es q x (suc first) h)

get_elem?-entries_of : (es : List Stored) (i : ℕ) → get_elem? (entries_of es) i ≡ entry_at es i
unfolding entry_at
get_elem?-entries_of [] i = refl
get_elem?-entries_of ((r, e) ∷ es) zero = refl
get_elem?-entries_of ((r, e) ∷ es) (suc i) = get_elem?-entries_of es i

cached-entry_at :
    (pre post : List Stored) (base index : ℕ) (e : LogEntry)
    → Numbered base (pre ++ post)
    → cached (entries_of post) index ≡ some e
    → (base + length pre ≤ index)
      × (index < base + length (pre ++ post))
      × (entry_at (pre ++ post) (index - base) ≡ some e)
unfolding cached
cached-entry_at pre [] base index e n h = cc h
cached-entry_at pre ((r, x) ∷ post) base index e n h =
    elim (Bool-cases (leb x.index index && leb index (last_of x (entries_of post)).index)) [
      | inr out ↦ cc (rw out at h)
      | inl in_cache ↦
          let (at, _) = Numbered-at pre post base r x n in
          let last : (last_of x (entries_of post)).index ≡ base + length pre + length post =
            last_of-index post r x (base + length pre) (Numbered-back pre ((r, x) ∷ post) base n) in
          let found : get_elem? (x ∷ entries_of post) (index - x.index) ≡ some e =
            rw in_cache at h in
          let place : length pre + (index - x.index) ≡ index - base = ground arith in
          (
            ground arith,
            ground (arith, length-append pre ((r, x) ∷ post)),
            ap (entry_at (pre ++ (r, x) ∷ post)) (sym place)
                ∙ entry_at-back pre ((r, x) ∷ post) (index - x.index)
                ∙ sym (get_elem?-entries_of ((r, x) ∷ post) (index - x.index))
                ∙ found,
          )
    ]

pub get_segment-range :
    (st : SegmentLogStorage) (index : ℕ)
    → st.first_log_index ≤ st.last_log_index + 1
    → get_segment st index ≡ (
        if ltb index st.first_log_index || ltb st.last_log_index index
        then none
        else lookup st.segments st.open_segment index)
unfolding get_segment
get_segment-range st index h =
    ground (
      arith,
      ==_iff st.first_log_index (st.last_log_index + 1),
      ==_iff index (st.last_log_index + 1),
    )

pub latest-index :
    (crc : List ℕ → ℕ) (st : SegmentLogStorage) (base : ℕ) (es : List Stored) (e : LogEntry)
    → Represents crc st base es
    → st.latest_entry ≡ some e
    → e.index ≡ st.last_log_index
unfolding Latest
latest-index crc st base es e (chain, size, one, low, high, cache, latest) h =
    let (xs, r, split, from) = subst (λ l. Latest base st.first_log_index l es) h latest in
    let (at, _) = Numbered-at xs [] base r e (
      subst (Numbered base) split (Chain-Numbered crc st.segments st.open_segment base es chain)) in
    omega (arith, ap length split, length-append xs ((r, e) ∷ []))

module _ (crc : List ℕ → ℕ) (crc_small : (bs : List ℕ) → crc bs < 2 ^ 32) where
  stored_entry-visible :
      (st : SegmentLogStorage) (base : ℕ) (es : List Stored) (index : ℕ)
      → Represents crc st base es
      → stored_entry crc st index ≡ visible st base es index
  unfolding stored_entry visible
  stored_entry-visible st base es index (chain, size, one, low, high, cache, latest) =
      elim (Bool-cases (ltb index st.first_log_index || ltb st.last_log_index index)) [
        | inl outside ↦
            let nowhere : get_segment st index ≡ none =
              get_segment-range st index high ∙ rw outside in
            rw (nowhere, stored_entry, outside)
        | inr inside ↦
            let (s, found, read) =
              lookup-Chain crc crc_small st.segments st.open_segment base index es chain
                (ground arith) (ground arith) in
            let here : get_segment st index ≡ some s =
              get_segment-range st index high ∙ rw inside found in
            rw (here, stored_entry, inside) read
      ]

  -- what is in the cache is what the log has
  cached-visible :
      (st : SegmentLogStorage) (base : ℕ) (es : List Stored) (index : ℕ) (e : LogEntry)
      → Represents crc st base es
      → cached st.latest_entries_cache index ≡ some e
      → visible st base es index ≡ some e
  unfolding visible
  cached-visible st base es index e
        (chain, size, one, low, high, (pre, post, split, eq, from), latest) h =
      let numbered =
        subst (Numbered base) split
          (Chain-Numbered crc st.segments st.open_segment base es chain) in
      let (above, below, found) =
        cached-entry_at pre post base index e numbered (ap (λ c. cached c index) (sym eq) ∙ h) in
      let inside : (ltb index st.first_log_index || ltb st.last_log_index index) ≡ false =
        ground (arith, ap length split) in
      rw (inside, split, found)

  latest-visible :
      (st : SegmentLogStorage) (base : ℕ) (es : List Stored) (e : LogEntry)
      → Represents crc st base es
      → st.latest_entry ≡ some e
      → visible st base es e.index ≡ some e
  unfolding visible Latest
  latest-visible st base es e (chain, size, one, low, high, cache, latest) h =
      let (xs, r, split, from) = subst (λ l. Latest base st.first_log_index l es) h latest in
      let numbered =
        subst (Numbered base) split
          (Chain-Numbered crc st.segments st.open_segment base es chain) in
      let (at, _) = Numbered-at xs [] base r e numbered in
      let inside : (ltb e.index st.first_log_index || ltb st.last_log_index e.index) ≡ false =
        ground (arith, ap length split, length-append xs ((r, e) ∷ [])) in
      let place : e.index - base ≡ length xs = omega arith in
      rw (inside, split, place, entry_at-append xs [] r e)

  found-visible :
      (st : SegmentLogStorage) (base : ℕ) (es : List Stored) (index : ℕ)
      → Represents crc st base es
      → (elim (cached st.latest_entries_cache index) as (λ x. Option LogEntry) [
        | none ↦ stored_entry crc st index
        | some e ↦ some e
      ])
        ≡ visible st base es index
  found-visible st base es index h = elim (Option-cases (cached st.latest_entries_cache index)) [
    | inl nothing ↦ rw nothing (stored_entry-visible st base es index h)
    | inr (e, here) ↦ rw here (sym (cached-visible st base es index e h here))
  ]

  -- Whenever the storage stands for a log, GetEntry returns the log's entry of every index from
  -- first_log_index to last_log_index, and nothing for any other, whether it comes from the memory
  -- or from a file.
  pub get_entry-visible :
      (st : SegmentLogStorage) (base : ℕ) (es : List Stored) (index : ℕ)
      → Represents crc st base es
      → get_entry crc st index ≡ visible st base es index
  unfolding get_entry visible
  get_entry-visible st base es index h = elim (Option-cases st.latest_entry) [
    | inl nothing ↦ rw (nothing, get_entry) (found-visible st base es index h)
    | inr (e, here) ↦ elim (Bool-cases (e.index == index)) [
      | inl same ↦
          rw (here, get_entry, same)
            (sym (latest-visible st base es e h here)
              ∙ ap (visible st base es) ((==_iff e.index index).0 same))
      | inr other ↦ rw (here, get_entry, other) (found-visible st base es index h)
    ]
  ]
