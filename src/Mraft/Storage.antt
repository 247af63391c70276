-- ===== src/Mraft/Storage.antt =====
-- SegmentLogStorage (mraft/segment_log_storage.cpp, mraft/segment_log_storage.h): the segments of a
-- log and the entries kept in memory, with the calls of mraft/log_storage.cpp. `segments` is the
-- map from first index to segment, in the order of its keys, and `log_meta` is the first index in
-- the file of that name, if it is there. The segment that GetOpenSegment
-- returns is the one in open_segment_, and a call that changes it changes it there. A write that
-- synchronises has no result that fails.
use myctk.Base.{
  ℕ, zero, suc, ◌+◌, ◌-◌, ◌≡◌, Bool, true, false, not, ◌&&◌, ◌||◌, List, [], ◌∷◌, ◌++◌, length,
  get_elem?, ltb, leb, ◌==◌, if◌then◌else◌, Option, none, some,
}
use myctk.Base.Int.{ℤ, pos, negsuc}
use myctk.Mraft.Header.{Skipped}
use myctk.Mraft.Segment.{LogEntry, Segment, Written, in_progress, get_term, get, append, close}
pub mod Truncate
pub mod Startup
pub mod Log
pub mod Chain
pub mod Entries
pub mod Append
pub mod Cut
pub mod Tail
pub mod Fresh
pub mod Restart
pub mod Batch
pub mod Terms

pub record SegmentLogStorage : Type 0 where
  pub segments : List Segment
  pub open_segment : Option Segment
  pub last_log_index : ℕ
  pub first_log_index : ℕ
  pub latest_entries_cache : List LogEntry
  pub latest_entry : Option LogEntry
  pub log_meta : Option ℕ

-- the map's operator[] = and erase
unfoldable pub put_segment : Segment → List Segment → List Segment
put_segment s [] = s ∷ []
put_segment s (x ∷ xs) =
    if ltb s.first_index x.first_index
    then s ∷ x ∷ xs
    else if s.first_index == x.first_index
    then s ∷ xs
    else x ∷ put_segment s xs

unfoldable pub erase_segment : ℕ → List Segment → List Segment
erase_segment k [] = []
erase_segment k (x ∷ xs) = if k == x.first_index then xs else x ∷ erase_segment k xs

-- what the calls of GetOpenSegment return: whether the new file is created, and the rename's result
pub record OpenCalls : Type 0 where
  pub creates : Bool
  pub renamed : ℤ

-- a new segment, unless its file cannot be created
unfoldable pub create_segment : Bool → ℕ → Option Segment
create_segment creates first = if creates then some (in_progress first) else none

abbrev pub is_ok : ℤ → Bool
is_ok (pos n) = n == 0
is_ok (negsuc n) = false

-- whether a segment is returned, which is then the one in open_segment
unfoldable pub returned : SegmentLogStorage → Bool × SegmentLogStorage
returned st = elim st.open_segment [ none ↦ (false, st) | some s ↦ (true, st) ]

unfoldable pub get_open_segment : ℕ → OpenCalls → SegmentLogStorage → Bool × SegmentLogStorage
get_open_segment max_size calls st =
    let fresh = create_segment calls.creates (st.last_log_index + 1) in
    elim st.open_segment [
      | none ↦ returned (record st { open_segment = fresh })
      | some s ↦
          let (rc, closed) = close calls.renamed s in
          if ltb max_size s.bytes
          then if is_ok rc
            then returned
                (record st { segments = put_segment closed st.segments; open_segment = fresh })
            else (
              false,
              record st {
                segments = erase_segment s.first_index (put_segment closed st.segments);
                open_segment = some closed;
              },
            )
          else (true, st)
    ]

abbrev pub eio : ℕ
eio = 5

-- AppendEntry after GetOpenSegment
unfoldable pub append_to_open :
    (List ℕ → ℕ)
    → Skipped
    → Written
    → LogEntry
    → Bool
    → SegmentLogStorage
    → Option Segment
    → ℕ × SegmentLogStorage
append_to_open crc r w entry true st (some s) =
    let (ret, s1) = append crc r w s entry in
    let written : SegmentLogStorage = record st { open_segment = some s1 } in
    if not (ret == 0) then (ret, written) else (
      0,
      record written {
        latest_entries_cache = st.latest_entries_cache ++ entry ∷ [];
        latest_entry = some entry;
        last_log_index = st.last_log_index + 1;
      },
    )
append_to_open crc r w entry found st current = (eio, st)

unfoldable pub append_entry :
    (List ℕ → ℕ)
    → ℕ
    → OpenCalls
    → Skipped
    → Written
    → SegmentLogStorage
    → LogEntry
    → ℕ × SegmentLogStorage
append_entry crc max_size calls r w st entry =
    let (found, opened) = get_open_segment max_size calls st in
    append_to_open crc r w entry found opened opened.open_segment

-- the last segment that begins at or before an index; --it at the beginning of the map, which has
-- no meaning, is none
unfoldable pub segment_before : List Segment → ℕ → Option Segment
segment_before [] index = none
segment_before (x ∷ xs) index =
    if leb x.first_index index
    then elim (segment_before xs index) [ none ↦ some x | some s ↦ some s ]
    else none

unfoldable pub lookup : List Segment → Option Segment → ℕ → Option Segment
lookup segments none index = segment_before segments index
lookup segments (some s) index =
    if leb s.first_index index then some s else segment_before segments index

unfoldable pub get_segment : SegmentLogStorage → ℕ → Option Segment
get_segment st index =
    if st.first_log_index == st.last_log_index + 1
    then none
    else if ltb index st.first_log_index || ltb (st.last_log_index + 1) index
    then none
    else if index == st.last_log_index + 1
    then none
    else lookup st.segments st.open_segment index

abbrev pub last_of : LogEntry → List LogEntry → LogEntry
last_of e [] = e
last_of e (x ∷ xs) = last_of x xs

-- the cached entry of an index that lies between the first one's and the last one's, by its place;
-- beyond the cache's end, which has no meaning, none
unfoldable pub cached : List LogEntry → ℕ → Option LogEntry
cached [] index = none
cached (x ∷ xs) index =
    if leb x.index index && leb index (last_of x xs).index
    then get_elem? (x ∷ xs) (index - x.index)
    else none

unfoldable pub stored_entry : (List ℕ → ℕ) → SegmentLogStorage → ℕ → Option LogEntry
stored_entry crc st index = elim (get_segment st index) [ none ↦ none | some s ↦ get crc s index ]

unfoldable pub get_entry : (List ℕ → ℕ) → SegmentLogStorage → ℕ → Option LogEntry
get_entry crc st index =
    let found : Option LogEntry = elim (cached st.latest_entries_cache index) [
      | none ↦ stored_entry crc st index
      | some e ↦ some e
    ] in
    elim st.latest_entry [ none ↦ found | some e ↦ if e.index == index then some e else found ]

unfoldable pub get_batch_entries : (List ℕ → ℕ) → SegmentLogStorage → ℕ → ℕ → List LogEntry
get_batch_entries crc st index zero = []
get_batch_entries crc st index (suc n) = elim (get_entry crc st index) [
  | none ↦ []
  | some e ↦ e ∷ get_batch_entries crc st (index + 1) n
]

unfoldable pub term_of : SegmentLogStorage → ℕ → ℕ
term_of st index = elim (get_segment st index) [ none ↦ 0 | some s ↦ get_term s index ]

unfoldable pub clear_cache_entry : SegmentLogStorage → ℕ → ℤ × SegmentLogStorage
clear_cache_entry st index = elim st.latest_entries_cache [
  | [] ↦ (negsuc 0, st)
  | e ∷ rest ↦
      if e.index == index
      then (pos 0, record st { latest_entries_cache = rest })
      else (negsuc 0, st)
]
