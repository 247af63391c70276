-- ===== src/Mraft/Storage/Terms.antt =====
-- GetTerm (mraft/segment_log_storage.cpp), which reads the term from a segment's table, against the
-- log that the storage stands for.
use myctk.Base.{
  ℕ, ◌+◌, ◌-◌, ◌^◌, ◌<◌, ◌≤◌, ◌≡◌, refl, ap, sym, ◌∙◌, true, ◌||◌, List, [], ◌∷◌, ◌++◌, length, ltb,
  leb, Bool-cases, inl, inr, Option, none, some, arith, length-append,
}
use myctk.Mraft.Segment.{LogEntry, Segment, get_term}
use myctk.Mraft.Segment.Layout.{Stored}
use myctk.Mraft.Segment.Kept.{Holds}
use myctk.Mraft.Segment.Read.{entry_at, get_term-entry_at}
use myctk.Mraft.Storage.{SegmentLogStorage, lookup, get_segment, term_of}
use myctk.Mraft.Storage.Chain.{
  Chain, lookup-here, lookup-later, entry_at-front, entry_at-back, entry_at-inside,
}
use myctk.Mraft.Storage.Entries.{Represents, visible, get_segment-range}

-- the term of an entry, and 0 if there is none
abbrev pub term_or_zero : Option LogEntry → ℕ
term_or_zero none = 0
term_or_zero (some e) = e.term

module _ (crc : List ℕ → ℕ) (crc_small : (bs : List ℕ) → crc bs < 2 ^ 32) where
  get_term-first :
      (s : Segment) (es : List Stored) (first index : ℕ) (e : LogEntry)
      → Holds crc s es []
      → s.first_index ≡ first
      → first ≤ index
      → index < first + length es
      → entry_at es (index - first) ≡ some e
      → get_term s index ≡ e.term
  get_term-first s es first index e h f from below here =
      get_term-entry_at crc crc_small s es [] index e h (omega arith) (omega arith)
        (ap (λ k. entry_at es (index - k)) f ∙ here)

  -- the segment that is looked up has the entry's term
  lookup-terms :
      (ss : List Segment) (current : Option Segment) (first index : ℕ) (es : List Stored)
      (e : LogEntry)
      → Chain crc ss current first es
      → first ≤ index
      → index < first + length es
      → entry_at es (index - first) ≡ some e
      → (s : Segment) × (lookup ss current index ≡ some s) × (get_term s index ≡ e.term)
  unfolding Chain
  lookup-terms [] none first index es e h from below here = absurd (omega (arith, ap length h))
  lookup-terms [] (some s) first index es e (h, o, f) from below here =
      let this : leb s.first_index index ≡ true = ground arith in
      (s, unfold lookup in rw this, get_term-first s es first index e h f from below here)
  lookup-terms (s ∷ ss) current first index es e (xs, ys, split, h, f, full, rest) from below here =
      let whole : entry_at (xs ++ ys) (index - first) ≡ some e =
        ap (λ t. entry_at t (index - first)) (sym split) ∙ here in
      elim (Bool-cases (ltb index (first + length xs))) [
        | inl inside ↦ (
          s,
          lookup-here crc ss s current (first + length xs) index ys rest (omega arith)
              (ground arith),
          get_term-first s xs first index e h f from (ground arith)
              (sym (entry_at-front xs ys (index - first) (ground arith)) ∙ whole),
        )
        | inr later ↦
            let sizes : length es ≡ length xs + length ys = ap length split ∙ length-append xs ys in
            let at : length xs + (index - (first + length xs)) ≡ index - first = ground arith in
            let (t, found, term) =
              lookup-terms ss current (first + length xs) index ys e rest (ground arith)
                (omega arith)
                (sym (entry_at-back xs ys (index - (first + length xs)))
                  ∙ ap (entry_at (xs ++ ys)) at
                  ∙ whole) in
            (t, lookup-later crc ss s t current index (omega arith) found, term)
      ]

  -- Whenever the storage stands for a log, GetTerm returns for every index from first_log_index to
  -- last_log_index the term of the log's entry, and 0 for any other: what the tables of the
  -- segments say of the terms agrees with the entries.
  pub term_of-visible :
      (st : SegmentLogStorage) (base : ℕ) (es : List Stored) (index : ℕ)
      → Represents crc st base es
      → term_of st index ≡ term_or_zero (visible st base es index)
  unfolding term_of visible
  term_of-visible st base es index (chain, size, one, low, high, cache, latest) =
      elim (Bool-cases (ltb index st.first_log_index || ltb st.last_log_index index)) [
        | inl outside ↦
            let nowhere : get_segment st index ≡ none =
              get_segment-range st index high ∙ rw outside refl in
            rw (nowhere, term_of, outside)
        | inr inside ↦
            let (e, here) = entry_at-inside es (index - base) (ground arith) in
            let (s, found, term) =
              lookup-terms st.segments st.open_segment base index es e chain (ground arith)
                (ground arith) here in
            let there : get_segment st index ≡ some s =
              get_segment-range st index high ∙ rw inside found in
            rw (there, term_of, inside, here) term
      ]
