-- ===== src/Mraft/Storage/Restart.antt =====
-- The log after a restart (mraft/segment_log_storage.cpp): LoadSegments on the files that a storage
-- left, the last write to the open one cut short.
use myctk.Base.{
  ℕ, ◌+◌, ◌^◌, ◌<◌, ◌≤◌, ◌≡◌, refl, ap, sym, subst, ◌∙◌, true, false, List, [], ◌∷◌, ◌++◌, length,
  ltb, ◌==◌, ==_iff, none, some, arith, append-nil,
}
use myctk.Base.Int.{pos}
use myctk.Mraft.Header.{Skipped, header_length}
use myctk.Mraft.Segment.{LogEntry, Segment, in_progress, load}
use myctk.Mraft.Segment.Layout.{Stored, SizedEntry, encode_all}
use myctk.Mraft.Segment.Kept.{Holds}
use myctk.Mraft.Segment.Recovery.{load-Holds}
use myctk.Mraft.Segment.Loop.{torn}
use myctk.Mraft.Storage.{SegmentLogStorage}
use myctk.Mraft.Storage.Startup.{closed_segment, load_closed, load_segments, settle_last}
use myctk.Mraft.Storage.Chain.{Chain, Chain-last_index}
use myctk.Mraft.Storage.Entries.{Latest, Represents}

-- a closed segment as ListSegments makes it from its file and the file's name
unfoldable pub reopened : Segment → Segment
reopened s = closed_segment s.first_index s.last_index s.file

unfoldable pub reopened_all : List Segment → List Segment
reopened_all [] = []
reopened_all (s ∷ ss) = reopened s ∷ reopened_all ss

-- the open one, with the bytes of a write that was cut short
unfoldable pub reopened_open : List ℕ → Segment → Segment
reopened_open tail s = record (in_progress s.first_index) { file = s.file ++ tail }

-- the storage before LoadSegments, after a crash
unfoldable pub crashed : List ℕ → SegmentLogStorage → SegmentLogStorage
crashed tail st = record {
  segments = reopened_all st.segments;
  open_segment = elim st.open_segment [ none ↦ none | some s ↦ some (reopened_open tail s) ];
  last_log_index = 1;
  first_log_index = st.first_log_index;
  latest_entries_cache = [];
  latest_entry = none;
  log_meta = st.log_meta;
}

abbrev no_entry : Stored
no_entry = (
  record { first = 0; second = 0; third = 0 },
  record { index = 0; term = 0; type = 0; payload = [] },
)

module _ (crc : List ℕ → ℕ) (crc_small : (bs : List ℕ) → crc bs < 2 ^ 32) where
  load-reopened :
      (s : Segment) (es : List Stored)
      → Holds crc s es []
      → ((load crc true (reopened s)).0 ≡ pos 0)
        × Holds crc ((load crc true (reopened s)).1) es []
        × ((load crc true (reopened s)).1.first_index ≡ s.first_index)
        × ((load crc true (reopened s)).1.last_index ≡ s.last_index)
  unfolding reopened closed_segment
  load-reopened s es (f, t, b, l, one, n) =
      let (code, holds, o, first) =
        load-Holds crc crc_small (reopened s) es 0 no_entry.0 no_entry.1
          (f, refl, one, λ c. l, n, (omega arith, omega arith, omega arith), omega arith) in
      (code, holds, first, omega (arith, holds.3))

  load-reopened_open :
      (s : Segment) (es : List Stored) (k : ℕ) (r : Skipped) (e : LogEntry)
      → Holds crc s es []
      → SizedEntry e
      → k < header_length + length e.payload
      → ((load crc true (reopened_open (torn crc k (r, e)) s)).0 ≡ pos 0)
        × Holds crc ((load crc true (reopened_open (torn crc k (r, e)) s)).1) es []
        × ((load crc true (reopened_open (torn crc k (r, e)) s)).1.is_open ≡ true)
        × ((load crc true (reopened_open (torn crc k (r, e)) s)).1.first_index ≡ s.first_index)
  unfolding reopened_open in_progress
  load-reopened_open s es k r e (f, t, b, l, one, n) z short =
      load-Holds crc crc_small (reopened_open (torn crc k (r, e)) s) es k r e (
        ap (λ t. t ++ torn crc k (r, e)) (f ∙ append-nil (encode_all crc es)),
        refl,
        one,
        λ c. absurd (cc c),
        n,
        z,
        short,
      )

  -- the closed segments hold after LoadSegments what they held, and so does the open one
  load_closed-Chain :
      (ss : List Segment) (s : Segment) (first last : ℕ) (es : List Stored) (k : ℕ) (r : Skipped)
      (e : LogEntry)
      → Chain crc ss (some s) first es
      → SizedEntry e
      → k < header_length + length e.payload
      → ((load_closed crc true (reopened_all ss) last).0 ≡ pos 0)
        × Chain crc
            ((load_closed crc true (reopened_all ss) last).1)
            (some ((load crc true (reopened_open (torn crc k (r, e)) s)).1))
            first
            es
        × ((load crc true (reopened_open (torn crc k (r, e)) s)).0 ≡ pos 0)
  unfolding Chain reopened_all load_closed
  load_closed-Chain [] s first last es k r e (h, o, f) z short =
      let (code, holds, o', f') = load-reopened_open s es k r e h z short in
      (refl, (holds, o', f' ∙ f), code)
  load_closed-Chain (x ∷ ss) s first last es k r e (xs, ys, split, h, f, full, rest) z short =
      let (code, holds, f', l') = load-reopened x xs h in
      let (code_rest, chain, code_open) =
        load_closed-Chain ss s (first + length xs) ((load crc true (reopened x)).1.last_index) ys k
          r e rest z short in
      rw code (code_rest, (xs, ys, split, holds, f' ∙ f, full, chain), code_open)

  -- In a storage that stands for a log, has an open segment and shows an entry (first_log_index is at
  -- most last_log_index): after a crash that cuts the write of an entry, whose numbers fit its header,
  -- into the open segment short, LoadSegments returns 0 if its ftruncate succeeds, and the storage
  -- stands for the log from before that write.
  pub load_segments-Represents :
      (st : SegmentLogStorage) (s : Segment) (base : ℕ) (es : List Stored) (k : ℕ) (r : Skipped)
      (e : LogEntry)
      → Represents crc st base es
      → st.open_segment ≡ some s
      → st.first_log_index ≤ st.last_log_index
      → SizedEntry e
      → k < header_length + length e.payload
      → ((load_segments crc true (crashed (torn crc k (r, e)) st)).0 ≡ pos 0)
        × Represents crc ((load_segments crc true (crashed (torn crc k (r, e)) st)).1) base es
  unfolding load_segments crashed settle_last Latest
  load_segments-Represents st s base es k r e (chain, size, one, low, high, cache, latest) here
        some_left z short =
      let held = subst (λ o. Chain crc st.segments o base es) here chain in
      let (code, loaded, code_open) =
        load_closed-Chain st.segments s base 1 es k r e held z short in
      let s1 : Segment = (load crc true (reopened_open (torn crc k (r, e)) s)).1 in
      let last : s1.last_index + 1 ≡ base + length es = Chain-last_index crc _ s1 base es loaded in
      let not_discarded : ltb s1.last_index st.first_log_index ≡ false = ground arith in
      let not_zero : (s1.last_index == 0) ≡ false = ground (arith, ==_iff s1.last_index 0) in
      rw (here, code, code_open, not_discarded, not_zero)
        (
          refl,
          (
            loaded,
            last,
            one,
            low,
            omega arith,
            (es, [], sym (append-nil es), refl, omega arith),
            tt,
          ),
        )
