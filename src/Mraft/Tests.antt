-- ===== src/Mraft/Tests.antt =====
-- The segment log storage on a log of three entries, one in a closed segment and two in the open one
-- (mraft/segment_log_storage.cpp).
use myctk.Base.{
  ℕ, ◌+◌, ◌%◌, ◌^◌, ◌<◌, ◌≤◌, ◌≡◌, refl, Bool, true, false, List, [], ◌∷◌, ◌++◌, length, Option,
  none, some, arith, replicate, take, if◌then◌else◌, ltb, ◌-◌,
}
use myctk.Base.Int.{ℤ, pos}
use myctk.Base.Name.{Name}
use myctk.Mraft.LocalInt.{read_int}
use myctk.Mraft.Header.{Skipped, header_length}
use myctk.Mraft.Segment.{LogEntry, Segment, Written, load_from, get}
use myctk.Mraft.Segment.Layout.{Stored, encode_all, table}
use myctk.Mraft.Segment.Kept.{Holds, Numbered}
use myctk.Mraft.Segment.Read.{entry_at, get-entry_at}
use myctk.Mraft.Segment.Change.{all_succeed}
use myctk.Mraft.Segment.Loop.{torn}
use myctk.Mraft.Segment.Loop.{load_from-enough}
use myctk.Mraft.Storage.{SegmentLogStorage, get_entry, append_entry, term_of}
use myctk.Mraft.Storage.Truncate.{truncate_prefix, truncate_suffix}
use myctk.Mraft.Storage.Startup.{load_segments, init, new_storage}
use myctk.Mraft.Storage.Log.{raft_log_append, raft_log_get_batch}
use myctk.Mraft.Storage.Chain.{Chain}
use myctk.Mraft.Storage.Entries.{Latest, Represents, visible, get_entry-visible}
use myctk.Mraft.Storage.Append.{calls_succeed, append_entry-Represents}
use myctk.Mraft.Storage.Cut.{truncate_prefix-endless, truncate_prefix-Represents}
use myctk.Mraft.Storage.Tail.{forget_latest, truncate_suffix-Represents, get_entry-truncate_suffix}
use myctk.Mraft.Storage.Restart.{crashed, load_segments-Represents}
use myctk.Mraft.Storage.Batch.{visible_from, raft_log_get_batch-visible_from}
use myctk.Mraft.Storage.Terms.{term_of-visible}
use myctk.Mraft.Storage.Fresh.{init-emptied}

-- a checksum
abbrev crc : List ℕ → ℕ
crc bs = read_int bs % 2 ^ 32

crc_small : (bs : List ℕ) → crc bs < 2 ^ 32
crc_small bs = omega arith

abbrev skipped : Skipped
skipped = record { first = 0; second = 0; third = 0 }

abbrev entry : ℕ → List ℕ → LogEntry
entry index payload = record { index = index; term = 7; type = 1; payload = payload }

abbrev closed_entries : List Stored
closed_entries = (skipped, entry 1 (5 ∷ [])) ∷ []

abbrev open_entries : List Stored
open_entries = (skipped, entry 2 []) ∷ (skipped, entry 3 (8 ∷ 9 ∷ [])) ∷ []

abbrev entries : List Stored
entries = closed_entries ++ open_entries

abbrev segment_of : Bool → ℕ → ℕ → List Stored → Segment
segment_of is_open first last es = record {
  file = encode_all crc es ++ [];
  bytes = length (encode_all crc es);
  is_open = is_open;
  first_index = first;
  last_index = last;
  offset_and_term = table 0 es;
}

abbrev open_part : Segment
open_part = segment_of true 2 3 open_entries

abbrev closed_part : Segment
closed_part = segment_of false 1 1 closed_entries

abbrev uncached : SegmentLogStorage
uncached = record {
  segments = closed_part ∷ [];
  open_segment = some open_part;
  last_log_index = 3;
  first_log_index = 1;
  latest_entries_cache = [];
  latest_entry = some (entry 3 (8 ∷ 9 ∷ []));
  log_meta = some 1;
}

abbrev with_last_cached : SegmentLogStorage
with_last_cached = record uncached { latest_entries_cache = entry 3 (8 ∷ 9 ∷ []) ∷ [] }

abbrev whole_write : LogEntry → Written
whole_write e = record { count = header_length + length e.payload; errno = 0 }

open_part-Holds : Holds crc open_part open_entries []
unfolding Numbered
open_part-Holds = (
  refl,
  refl,
  refl,
  refl,
  omega arith,
  (
    refl,
    (omega arith, omega arith, omega arith),
    (refl, (omega arith, omega arith, omega arith), tt),
  ),
)

closed_part-Holds : Holds crc closed_part closed_entries []
unfolding Numbered
closed_part-Holds =
    (refl, refl, refl, refl, omega arith, (refl, (omega arith, omega arith, omega arith), tt))

uncached-Represents : Represents crc uncached 1 entries
unfolding Chain Latest
uncached-Represents = (
  (
    closed_entries,
    open_entries,
    refl,
    closed_part-Holds,
    refl,
    omega arith,
    (open_part-Holds, refl, refl),
  ),
  refl,
  omega arith,
  omega arith,
  omega arith,
  (entries, [], refl, refl, omega arith),
  (closed_entries ++ (skipped, entry 2 []) ∷ [], skipped, refl, omega arith),
)

with_last_cached-Represents : Represents crc with_last_cached 1 entries
with_last_cached-Represents =
    let (chain, size, one, low, high, cache, latest) = uncached-Represents in
    (
      chain,
      size,
      one,
      low,
      high,
      (
        closed_entries ++ (skipped, entry 2 []) ∷ [],
        (skipped, entry 3 (8 ∷ 9 ∷ [])) ∷ [],
        refl,
        refl,
        omega arith,
      ),
      latest,
    )

load_from-enough_example : load_from crc 24 (replicate 24 0) 0 ≡ load_from crc 30 (replicate 24 0) 0
load_from-enough_example = load_from-enough crc 24 30 (replicate 24 0) 0 (omega arith) (omega arith)

get_entry-visible_example : get_entry crc with_last_cached 1 ≡ visible with_last_cached 1 entries 1
get_entry-visible_example =
    get_entry-visible crc crc_small with_last_cached 1 entries 1 with_last_cached-Represents

raft_log_get_batch-visible_from_example :
    raft_log_get_batch crc with_last_cached 2 5 ≡ (2, entry 2 [] ∷ entry 3 (8 ∷ 9 ∷ []) ∷ [])
unfolding visible_from
raft_log_get_batch-visible_from_example =
    raft_log_get_batch-visible_from crc crc_small with_last_cached 1 entries 2 5
      with_last_cached-Represents

term_of-visible_example : term_of with_last_cached 1 ≡ 7
unfolding visible entry_at
term_of-visible_example =
    term_of-visible crc crc_small with_last_cached 1 entries 1 with_last_cached-Represents

-- the open segment is over the maximal size, so that it is closed
append_entry-Represents_example :
    ((append_entry crc 0 calls_succeed skipped
        (whole_write (entry 4 []))
        with_last_cached
        (entry 4 [])).0
      ≡ 0)
    × Represents crc
        ((append_entry crc 0 calls_succeed skipped
          (whole_write (entry 4 []))
          with_last_cached
          (entry 4 [])).1)
        1
        (entries ++ (skipped, entry 4 []) ∷ [])
append_entry-Represents_example =
    append_entry-Represents crc 0 with_last_cached 1 entries skipped (whole_write (entry 4 []))
      (entry 4 []) with_last_cached-Represents refl (omega arith, omega arith, omega arith) refl

load_segments-Represents_example :
    ((load_segments crc true (crashed (torn crc 5 (skipped, entry 4 [])) with_last_cached)).0
      ≡ pos 0)
    × Represents crc
        ((load_segments crc true (crashed (torn crc 5 (skipped, entry 4 [])) with_last_cached)).1)
        1
        entries
load_segments-Represents_example =
    load_segments-Represents crc crc_small with_last_cached open_part 1 entries 5 skipped
      (entry 4 []) with_last_cached-Represents refl (omega arith)
      (omega arith, omega arith, omega arith) (omega arith)

truncate_prefix-Represents_example :
    (after : SegmentLogStorage) × (ds : List Stored) × (ks : List Stored) × (truncate_prefix 9 true
        uncached 2
      ≡ some (pos 0, after))
    × (entries ≡ ds ++ ks)
    × Represents crc after (1 + length ds) ks
    × (1 + length ds ≤ 2)
    × ((s : Segment) (rest : List Segment) → after.segments ≡ s ∷ rest → 2 ≤ s.last_index)
    × (after.first_log_index ≡ 2)
    × (after.last_log_index ≡ 3)
truncate_prefix-Represents_example =
    truncate_prefix-Represents crc 8 uncached 1 entries 2 uncached-Represents refl (omega arith)
      (omega arith)

truncate_prefix-endless_example : truncate_prefix 9 true with_last_cached 2 ≡ none
truncate_prefix-endless_example =
    truncate_prefix-endless 9 with_last_cached 2 (entry 3 (8 ∷ 9 ∷ [])) [] (omega arith) refl
      (omega arith)

abbrev unlinked : Segment → ℤ
unlinked s = pos 0

truncate_suffix-Represents_example :
    (after : SegmentLogStorage) × (truncate_suffix 9 unlinked all_succeed uncached 2
      ≡ some (pos 0, after))
    × Represents crc (forget_latest after) 1 (take 2 entries)
    × (after.latest_entry ≡ some (entry 3 (8 ∷ 9 ∷ [])))
truncate_suffix-Represents_example =
    truncate_suffix-Represents crc 8 unlinked uncached open_part 1 entries 2 uncached-Represents
      refl (omega arith) (omega arith) (omega arith) refl

get_entry-truncate_suffix_example :
    (after : SegmentLogStorage) × (truncate_suffix 9 unlinked all_succeed uncached 2
      ≡ some (pos 0, after))
    × (after.last_log_index < 3)
    × (get_entry crc after 3 ≡ some (entry 3 (8 ∷ 9 ∷ [])))
get_entry-truncate_suffix_example =
    get_entry-truncate_suffix crc 8 unlinked uncached open_part 1 entries 2 (entry 3 (8 ∷ 9 ∷ []))
      uncached-Represents refl (omega arith) (omega arith) (omega arith) refl refl

abbrev no_number : Name → Option ℕ
no_number name = none

abbrev whole_name : ℕ → Name → List Name
whole_name c name = name ∷ []

init-emptied_example :
    (after : SegmentLogStorage) × ((init crc no_number whole_name true true []
        (new_storage (some 100))).0
      ≡ pos 0)
    × ((init crc no_number whole_name true true [] (new_storage (some 100))).1.storage ≡ after)
    × (after.first_log_index ≡ 100)
    × (after.last_log_index ≡ 1)
    × ((raft_log_append crc 50 calls_succeed skipped
          (whole_write (entry 0 []))
          after
          (entry 0 [])).0
        ≡ 0)
    × ((raft_log_append crc 50 calls_succeed skipped
          (whole_write (entry 0 []))
          after
          (entry 0 [])).1.latest_entry
        ≡ some (entry 2 []))
init-emptied_example =
    init-emptied no_number whole_name crc true true 100 50 skipped (whole_write (entry 0 []))
      (entry 0 []) (omega arith, omega arith, omega arith) refl

get-entry_at_example : get crc open_part 3 ≡ (
    if ltb 3 open_part.first_index then none else entry_at open_entries (3 - open_part.first_index))
get-entry_at_example = get-entry_at crc crc_small open_part open_entries [] 3 open_part-Holds
