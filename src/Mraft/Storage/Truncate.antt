-- ===== src/Mraft/Storage/Truncate.antt =====
-- SegmentLogStorage::TruncatePrefix and TruncateSuffix with the two functions that take segments
-- out of the map (mraft/segment_log_storage.cpp). What the system calls return comes in as
-- arguments. The loops over the cache run on fuel, `none` being that they are not over yet; so
-- does each of the two operations.
use myctk.Base.{
  ℕ, zero, suc, ◌+◌, ◌-◌, Bool, true, false, not, ◌&&◌, ◌||◌, List, [], ◌∷◌, ◌++◌, ltb, leb,
  if◌then◌else◌, Option, none, some,
}
use myctk.Base.Int.{ℤ, pos, negsuc}
use myctk.Mraft.Segment.{LogEntry, Segment, TruncateCalls, truncate}
use myctk.Mraft.Storage.{SegmentLogStorage, put_segment, erase_segment, is_ok}

abbrev pub is_empty : List Segment → Bool
is_empty [] = true
is_empty (s ∷ ss) = false

-- the segments that end before an index, and the others
unfoldable pub pop_front : ℕ → List Segment → List Segment × List Segment
pop_front first_index_kept [] = ([], [])
pop_front first_index_kept (s ∷ ss) =
    let (popped, kept) = pop_front first_index_kept ss in
    if ltb s.last_index first_index_kept then (s ∷ popped, kept) else ([], s ∷ ss)

-- PopSegments after its loop over the map
unfoldable pub pop_open :
    ℕ
    → List Segment
    → SegmentLogStorage
    → List Segment
    → Option Segment
    → List Segment × SegmentLogStorage
pop_open first_index_kept popped st (x ∷ xs) current = (popped, st)
pop_open first_index_kept popped st [] none =
    (popped, record st { last_log_index = first_index_kept - 1 })
pop_open first_index_kept popped st [] (some s) =
    if ltb s.last_index first_index_kept
    then (
      popped ++ s ∷ [],
      record st { open_segment = none; last_log_index = first_index_kept - 1 },
    )
    else (popped, st)

-- PopSegments: the segments taken out
unfoldable pub pop_segments : ℕ → SegmentLogStorage → List Segment × SegmentLogStorage
pop_segments first_index_kept st =
    let (popped, kept) = pop_front first_index_kept st.segments in
    let moved : SegmentLogStorage = record st {
      first_log_index = first_index_kept;
      segments = kept;
    } in
    pop_open first_index_kept popped moved kept st.open_segment

-- the loop at the end of TruncatePrefix
unfoldable pub clear_front : ℕ → ℕ → List LogEntry → Option (List LogEntry)
clear_front zero first_index_kept cache = none
clear_front (suc fuel) first_index_kept [] = some []
clear_front (suc fuel) first_index_kept (e ∷ es) =
    clear_front fuel first_index_kept (if ltb e.index first_index_kept then es else e ∷ es)

abbrev pub with_cache :
    ℤ → SegmentLogStorage → Option (List LogEntry) → Option (ℤ × SegmentLogStorage)
with_cache rc st none = none
with_cache rc st (some cache) = some (rc, record st { latest_entries_cache = cache })

-- whether SaveMeta succeeds is `saved`; the results of the unlinks are not used
unfoldable pub truncate_prefix : ℕ → Bool → SegmentLogStorage → ℕ → Option (ℤ × SegmentLogStorage)
truncate_prefix fuel saved st first_index_kept =
    let (popped, after) = pop_segments first_index_kept st in
    if leb first_index_kept st.first_log_index
    then some (pos 0, st)
    else if not saved
    then some (negsuc 0, st)
    else with_cache (pos 0) (record after { log_meta = some first_index_kept })
        (clear_front fuel first_index_kept st.latest_entries_cache)

-- the segments that begin after an index, from the last one on, and the others
unfoldable pub pop_back : ℕ → List Segment → List Segment × List Segment
pop_back last_index_kept [] = ([], [])
pop_back last_index_kept (s ∷ ss) =
    let (popped, kept) = pop_back last_index_kept ss in
    if is_empty kept && not (leb s.first_index last_index_kept)
    then (popped ++ s ∷ [], [])
    else (popped, s ∷ kept)

abbrev pub last_segment : List Segment → Option Segment
last_segment [] = none
last_segment (s ∷ []) = some s
last_segment (s ∷ t ∷ ss) = last_segment (t ∷ ss)

abbrev pub listed : Option Segment → List Segment
listed none = []
listed (some s) = s ∷ []

unfoldable pub begins_by : Option Segment → ℕ → Bool
begins_by none index = false
begins_by (some s) index = leb s.first_index index

-- PopSegmentsFromBack: the segments taken out, the one that is last now, and the storage
unfoldable pub pop_segments_from_back :
    ℕ → SegmentLogStorage → List Segment × Option Segment × SegmentLogStorage
pop_segments_from_back last_index_kept st =
    let (popped, kept) = pop_back last_index_kept st.segments in
    let moved : SegmentLogStorage = record st { last_log_index = last_index_kept } in
    let without : SegmentLogStorage = record moved { open_segment = none; segments = kept } in
    let out = listed st.open_segment ++ popped in
    if begins_by st.open_segment last_index_kept
    then ([], st.open_segment, moved)
    else if is_empty kept
    then (out, none, record without { first_log_index = last_index_kept + 1 })
    else (out, last_segment kept, without)

-- the unlinks of the popped segments up to the first that fails; -1 when there are none
unfoldable pub unlink_all : (Segment → ℤ) → ℤ → List Segment → ℤ
unlink_all unlinks ret [] = ret
unlink_all unlinks ret (s ∷ ss) =
    let rest = unlink_all unlinks (unlinks s) ss in if is_ok (unlinks s) then rest else unlinks s

-- the loop at the end of TruncateSuffix, over the cache from its end
unfoldable pub clear_back : ℕ → ℕ → List LogEntry → Option (List LogEntry)
clear_back zero last_index_kept back = none
clear_back (suc fuel) last_index_kept [] = some []
clear_back (suc fuel) last_index_kept (e ∷ es) =
    clear_back fuel last_index_kept (if ltb last_index_kept e.index then es else e ∷ es)

abbrev pub reverse_onto : List LogEntry → List LogEntry → List LogEntry
reverse_onto [] ys = ys
reverse_onto (x ∷ xs) ys = reverse_onto xs (x ∷ ys)

-- a segment that an operation has changed, put back where it is held
unfoldable pub write_back : Segment → SegmentLogStorage → Option Segment → SegmentLogStorage
write_back s st none = record st { segments = put_segment s st.segments }
write_back s st (some _) = record st { open_segment = some s }

-- the truncation of the last segment, which opens it again if it was closed
unfoldable pub truncate_last :
    TruncateCalls → SegmentLogStorage → Segment → ℕ → ℤ × SegmentLogStorage
truncate_last calls st s last_index_kept =
    let (ret, s1) = truncate calls s last_index_kept in
    if is_ok ret && not s.is_open && s1.is_open
    then (
      ret,
      record st { segments = erase_segment s.first_index st.segments; open_segment = some s1 },
    )
    else (ret, write_back s1 st st.open_segment)

-- TruncateSuffix between PopSegmentsFromBack and its loop over the cache: whether it goes on to it,
-- what it returns, and the storage
unfoldable pub drop_last :
    (Segment → ℤ)
    → TruncateCalls
    → ℕ
    → List Segment
    → SegmentLogStorage
    → Option Segment
    → Bool × ℤ × SegmentLogStorage
drop_last unlinks calls last_index_kept popped moved none =
    let ret = unlink_all unlinks (negsuc 0) popped in (is_empty popped || is_ok ret, ret, moved)
drop_last unlinks calls last_index_kept popped moved (some s) =
    let ret = unlink_all unlinks (negsuc 0) popped in
    let all_out : SegmentLogStorage = record moved {
      segments = erase_segment s.first_index moved.segments;
      open_segment = none;
    } in
    let ret_all = unlink_all unlinks (negsuc 0) (popped ++ s ∷ []) in
    let (ret_cut, cut) = truncate_last calls moved s last_index_kept in
    if leb moved.first_log_index moved.last_log_index
    then if is_empty popped || is_ok ret then (true, ret_cut, cut) else (false, ret, moved)
    else (is_ok ret_all, ret_all, all_out)

unfoldable pub drop_suffix :
    (Segment → ℤ) → TruncateCalls → SegmentLogStorage → ℕ → Bool × ℤ × SegmentLogStorage
drop_suffix unlinks calls st last_index_kept =
    let (popped, last, moved) = pop_segments_from_back last_index_kept st in
    drop_last unlinks calls last_index_kept popped moved last

-- the end of TruncateSuffix
unfoldable pub drop_cache : ℕ → ℕ → Bool × ℤ × SegmentLogStorage → Option (ℤ × SegmentLogStorage)
drop_cache fuel last_index_kept (false, ret, st) = some (ret, st)
drop_cache fuel last_index_kept (true, ret, st) =
    elim (clear_back fuel last_index_kept (reverse_onto st.latest_entries_cache [])) [
      | none ↦ none
      | some back ↦ some (ret, record st { latest_entries_cache = reverse_onto back [] })
    ]

unfoldable pub truncate_suffix :
    ℕ → (Segment → ℤ) → TruncateCalls → SegmentLogStorage → ℕ → Option (ℤ × SegmentLogStorage)
truncate_suffix fuel unlinks calls st last_index_kept =
    drop_cache fuel last_index_kept (drop_suffix unlinks calls st last_index_kept)
