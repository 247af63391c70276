-- ===== src/Mraft/Storage/Batch.antt =====
-- GetBatchEntries (mraft/segment_log_storage.cpp) and raftLogGetBatch (mraft/log_storage.cpp) against
-- the log that the storage stands for.
use myctk.Base.{
  ℕ, zero, suc, ◌+◌, ◌-◌, ◌^◌, ◌<◌, ◌≤◌, ◌≡◌, refl, ap, ◌∙◌, true, false, ◌||◌, ◌⊎◌, List, [], ◌∷◌,
  length, take, drop, ltb, Bool-cases, inl, inr, none, some, if◌then◌else◌, arith,
}
use myctk.Mraft.Segment.{LogEntry}
use myctk.Mraft.Segment.Layout.{Stored}
use myctk.Mraft.Segment.Read.{entry_at}
use myctk.Mraft.Storage.{SegmentLogStorage, get_entry, get_batch_entries}
use myctk.Mraft.Storage.Log.{raft_log_get_batch}
use myctk.Mraft.Storage.Entries.{entries_of, Represents, visible, get_entry-visible}

-- the entries from an index on, at most `n`, if the first of them has not been discarded
unfoldable pub visible_from : SegmentLogStorage → ℕ → List Stored → ℕ → ℕ → List LogEntry
visible_from st base es index n =
    if ltb index st.first_log_index then [] else take n (drop (index - base) (entries_of es))

drop-entry_at :
    (es : List Stored) (i : ℕ)
    → ((length es ≤ i) × (drop i (entries_of es) ≡ []))
      ⊎ ((i < length es)
          × (e : LogEntry) × (entry_at es i ≡ some e)
          × (drop i (entries_of es) ≡ e ∷ drop (suc i) (entries_of es)))
unfolding entry_at
drop-entry_at [] zero = inl (omega arith, refl)
drop-entry_at [] (suc i) = inl (omega arith, refl)
drop-entry_at ((r, e) ∷ es) zero = inr (omega arith, e, refl, refl)
drop-entry_at ((r, e) ∷ es) (suc i) = elim (drop-entry_at es i) [
  | inl (beyond, nothing) ↦ inl (omega arith, nothing)
  | inr (within, x, here, rest) ↦ inr (omega arith, x, here, rest)
]

module _ (crc : List ℕ → ℕ) (crc_small : (bs : List ℕ) → crc bs < 2 ^ 32) where
  get_batch_entries-from :
      (n : ℕ) (st : SegmentLogStorage) (base : ℕ) (es : List Stored) (index : ℕ)
      → Represents crc st base es
      → st.first_log_index ≤ index
      → get_batch_entries crc st index n ≡ take n (drop (index - base) (entries_of es))
  unfolding get_batch_entries visible
  get_batch_entries-from zero st base es index h low = refl
  get_batch_entries-from (suc n) st base es index h low =
      let (chain, size, one, from, high, cache, latest) = h in
      elim (drop-entry_at es (index - base)) [
        | inl (beyond, nothing) ↦
            let outside : (ltb index st.first_log_index || ltb st.last_log_index index) ≡ true =
              ground arith in
            let missing : get_entry crc st index ≡ none =
              get_entry-visible crc crc_small st base es index h ∙ rw outside refl in
            rw (missing, get_batch_entries, nothing)
        | inr (within, e, here, rest) ↦
            let inside : (ltb index st.first_log_index || ltb st.last_log_index index) ≡ false =
              ground arith in
            let found : get_entry crc st index ≡ some e =
              get_entry-visible crc crc_small st base es index h ∙ rw inside here in
            let next : index + 1 - base ≡ suc (index - base) = omega arith in
            rw (found, get_batch_entries, rest)
              (ap (λ t. e ∷ t)
                (get_batch_entries-from n st base es (index + 1) h (omega arith)
                  ∙ ap (λ k. take n (drop k (entries_of es))) next))
      ]

  get_batch_entries-before :
      (n : ℕ) (st : SegmentLogStorage) (base : ℕ) (es : List Stored) (index : ℕ)
      → Represents crc st base es
      → index < st.first_log_index
      → get_batch_entries crc st index n ≡ []
  unfolding get_batch_entries visible
  get_batch_entries-before zero st base es index h low = refl
  get_batch_entries-before (suc n) st base es index h low =
      let outside : (ltb index st.first_log_index || ltb st.last_log_index index) ≡ true =
        ground arith in
      let missing : get_entry crc st index ≡ none =
        get_entry-visible crc crc_small st base es index h ∙ rw outside refl in
      rw (missing, get_batch_entries)

  -- Whenever the storage stands for a log, a batch read from an index that has not been discarded gives exactly the entries of the log from
  -- that index on, as many as asked for or as there are, with their number; a batch read from an
  -- index that has been discarded is empty, even if entries that are kept come within its length.
  pub raft_log_get_batch-visible_from :
      (st : SegmentLogStorage) (base : ℕ) (es : List Stored) (index n : ℕ)
      → Represents crc st base es
      → raft_log_get_batch crc st index n
        ≡ (length (visible_from st base es index n), visible_from st base es index n)
  unfolding raft_log_get_batch visible_from
  raft_log_get_batch-visible_from st base es index n h =
      elim (Bool-cases (ltb index st.first_log_index)) [
        | inl before ↦ rw before (
            ap (λ all. (length all, all))
              (get_batch_entries-before n st base es index h (ground arith)))
        | inr kept ↦ rw kept (
            ap (λ all. (length all, all))
              (get_batch_entries-from n st base es index h (ground arith)))
      ]
