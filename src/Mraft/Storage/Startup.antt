-- ===== src/Mraft/Storage/Startup.antt =====
-- SegmentLogStorage::Init with LoadMeta, ListSegments and LoadSegments
-- (mraft/segment_log_storage.cpp), and the tests on file names (mraft/utils.cpp). The directory
-- comes in as its files; folly::to<int64_t> is the parameter `to_int64`, none being that it throws,
-- and folly::split is the parameter `split`.
use myctk.Base.{
  ℕ, ◌-◌, Bool, true, false, not, ◌&&◌, ◌||◌, List, [], ◌∷◌, ◌++◌, length, drop, ltb, leb, ◌==◌,
  if◌then◌else◌, Option, none, some,
}
use myctk.Base.Int.{ℤ, pos, negsuc}
use myctk.Base.Name.{Name, ◌=s◌}
use myctk.Mraft.Segment.{Segment, in_progress, load}
use myctk.Mraft.Storage.{SegmentLogStorage, put_segment, is_ok}

unfoldable pub has_prefix : Name → Name → Bool
has_prefix str [] = true
has_prefix [] (p ∷ ps) = false
has_prefix (c ∷ str) (p ∷ ps) = c == p && has_prefix str ps

unfoldable pub has_suffix : Name → Name → Bool
has_suffix str ending =
    leb (length ending) (length str) && drop (length str - length ending) str =s ending

-- "log_inprogress_", "log_" and "log_meta"
abbrev pub segment_open_prefix : Name
segment_open_prefix =
    108 ∷ 111 ∷ 103 ∷ 95 ∷ 105 ∷ 110 ∷ 112 ∷ 114 ∷ 111 ∷ 103 ∷ 114 ∷ 101 ∷ 115 ∷ 115 ∷ 95 ∷ []

abbrev pub segment_close_prefix : Name
segment_close_prefix = 108 ∷ 111 ∷ 103 ∷ 95 ∷ []

abbrev pub segment_log_meta : Name
segment_log_meta = 108 ∷ 111 ∷ 103 ∷ 95 ∷ 109 ∷ 101 ∷ 116 ∷ 97 ∷ []

-- ".tmp"
abbrev pub tmp_ending : Name
tmp_ending = 46 ∷ 116 ∷ 109 ∷ 112 ∷ []

pub record DirEntry : Type 0 where
  pub name : Name
  pub content : List ℕ

-- the storage while the directory is read, with the files that were unlinked
pub record Listing : Type 0 where
  pub storage : SegmentLogStorage
  pub unlinked : List Name

-- the second constructor, on a file
unfoldable pub closed_segment : ℕ → ℕ → List ℕ → Segment
closed_segment first last content = record {
  file = content;
  bytes = 0;
  is_open = false;
  first_index = first;
  last_index = last;
  offset_and_term = [];
}

unfoldable pub found_open : Option ℕ → List ℕ → Listing → Option Listing
found_open none content l = some l
found_open (some first) content l = elim l.storage.open_segment [
  | some _ ↦ none
  | none ↦ some (record l {
    storage = record l.storage {
      open_segment = some (record (in_progress first) { file = content });
    };
  })
]

unfoldable pub found_closed : (Name → Option ℕ) → List Name → List ℕ → Listing → Listing
found_closed to_int64 (a ∷ b ∷ []) content l = elim (to_int64 a) [
  | none ↦ l
  | some first ↦ elim (to_int64 b) [
    | none ↦ l
    | some last ↦ record l {
      storage = record l.storage {
        segments = put_segment (closed_segment first last content) l.storage.segments;
      };
    }
  ]
]
found_closed to_int64 parts content l = l

module _ (to_int64 : Name → Option ℕ) (split : ℕ → Name → List Name) where
  -- one round of the loop over the directory; none when there are two open segments
  unfoldable pub list_file : Bool → DirEntry → Listing → Option Listing
  list_file is_empty d l =
      let after_open = drop (length segment_open_prefix) d.name in
      let after_close = drop (length segment_close_prefix) d.name in
      if d.name =s segment_log_meta || (d.name =s (46 ∷ []) || d.name =s (46 ∷ 46 ∷ []))
      then some l
      else if is_empty && has_prefix d.name segment_close_prefix || has_suffix d.name tmp_ending
      then some (record l { unlinked = l.unlinked ++ d.name ∷ [] })
      else if has_prefix d.name segment_open_prefix
      then found_open (to_int64 after_open) d.content l
      else if has_prefix d.name segment_close_prefix
      then some (found_closed to_int64 (split 95 after_close) d.content l)
      else some l

  unfoldable pub list_segments : Bool → List DirEntry → Listing → ℤ × Listing
  list_segments is_empty [] l = (pos 0, l)
  list_segments is_empty (d ∷ ds) l = elim (list_file is_empty d l) [
    | none ↦ (negsuc 0, l)
    | some l1 ↦ list_segments is_empty ds l1
  ]

-- the loop of LoadSegments over the closed segments, with the last index that it leaves
unfoldable pub load_closed : (List ℕ → ℕ) → Bool → List Segment → ℕ → ℤ × List Segment × ℕ
load_closed crc truncates [] last = (pos 0, [], last)
load_closed crc truncates (s ∷ ss) last =
    let (rc, s1) = load crc truncates s in
    let (rc_rest, rest, last_rest) = load_closed crc truncates ss s1.last_index in
    if is_ok rc then (rc_rest, s1 ∷ rest, last_rest) else (rc, s1 ∷ ss, last)

-- the last lines of LoadSegments
unfoldable pub settle_last : SegmentLogStorage → SegmentLogStorage
settle_last st =
    if st.last_log_index == 0 then record st { last_log_index = st.first_log_index - 1 } else st

unfoldable pub load_segments : (List ℕ → ℕ) → Bool → SegmentLogStorage → ℤ × SegmentLogStorage
load_segments crc truncates st =
    let (rc, closed, last) = load_closed crc truncates st.segments st.last_log_index in
    let st1 : SegmentLogStorage = record st { segments = closed; last_log_index = last } in
    if not (is_ok rc) then (rc, st1) else elim st.open_segment [
      | none ↦ (pos 0, settle_last st1)
      | some s ↦
          let (rc_open, s1) = load crc truncates s in
          if not (is_ok rc_open)
          then (rc_open, record st1 { open_segment = some s1 })
          else if ltb s1.last_index st.first_log_index
          then (pos 0, settle_last (record st1 { open_segment = none }))
          else (
            pos 0,
            settle_last (record st1 { open_segment = some s1; last_log_index = s1.last_index }),
          )
    ]

-- the constructor, on a directory whose log_meta holds the given first index
unfoldable pub new_storage : Option ℕ → SegmentLogStorage
new_storage log_meta = record {
  segments = [];
  open_segment = none;
  last_log_index = 1;
  first_log_index = 0;
  latest_entries_cache = [];
  latest_entry = none;
  log_meta = log_meta;
}

-- LoadMeta of a file that can be read: whether there is none, and the storage
unfoldable pub load_meta : SegmentLogStorage → Bool × SegmentLogStorage
load_meta st = elim st.log_meta [
  | none ↦ (true, st)
  | some first ↦ (false, record st { first_log_index = first })
]

-- Init with a maximal segment size that is not negative; `saves` is whether SaveMeta succeeds
unfoldable pub init :
    (List ℕ → ℕ)
    → (Name → Option ℕ)
    → (ℕ → Name → List Name)
    → Bool
    → Bool
    → List DirEntry
    → SegmentLogStorage
    → ℤ × Listing
init crc to_int64 split saves truncates dir st =
    let (is_empty, st1) = load_meta st in
    let (listed, l) =
      list_segments to_int64 split is_empty dir (record { storage = st1; unlinked = [] }) in
    let blank : SegmentLogStorage = record l.storage { first_log_index = 1; last_log_index = 0 } in
    let (rc, st2) = load_segments crc truncates l.storage in
    if not (is_ok listed)
    then (negsuc 0, l)
    else if is_empty
    then if saves
      then (pos 0, record l { storage = record blank { log_meta = some 1 } })
      else (negsuc 0, record l { storage = blank })
    else (if is_ok rc then pos 0 else negsuc 0, record l { storage = st2 })
