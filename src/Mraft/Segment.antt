-- ===== src/Mraft/Segment.antt =====
-- Segment (mraft/segment_log_storage.cpp): one file of log entries and the table of their offsets
-- and terms. A Segment carries its file's bytes; the file position is the end of them. Indices
-- are natural numbers and first_index is at least 1, so that `last_index + 1 = first_index` in an
-- empty segment. What the system calls return comes in as arguments; reads of an open file do not
-- fail.
use myctk.Base.{
  ℕ, zero, suc, ◌+◌, ◌-◌, ◌%◌, ◌^◌, ◌≡◌, Bool, true, false, not, ◌&&◌, ◌||◌, List, [], ◌∷◌, ◌++◌,
  length, take, drop, get_or, ltb, leb, ◌==◌, if◌then◌else◌, Option, none, some,
}
use myctk.Base.Int.{ℤ, pos, negsuc}
use myctk.Mraft.Header.{
  EntryHeader, Skipped, header_length, decode_header, encode_header, verify_checksum,
}
pub mod Layout
pub mod Kept
pub mod Read
pub mod Change
pub mod Loop
pub mod Recovery

pub record LogEntry : Type 0 where
  pub index : ℕ
  pub term : ℕ
  pub type : ℕ
  pub payload : List ℕ

pub record LogMeta : Type 0 where
  pub offset : ℕ
  pub extent : ℕ
  pub term : ℕ

pub record Segment : Type 0 where
  pub file : List ℕ
  pub bytes : ℕ
  pub is_open : Bool
  pub first_index : ℕ
  pub last_index : ℕ
  pub offset_and_term : List (ℕ × ℕ)

-- the first constructor
unfoldable pub in_progress : ℕ → Segment
in_progress first_index = record {
  file = [];
  bytes = 0;
  is_open = true;
  first_index = first_index;
  last_index = first_index - 1;
  offset_and_term = [];
}

-- LoadEntry's 0, 1 and -1
pub data Loaded (A : Type 0) : Type 0 where
  loaded : A → Loaded A
  unfinished : Loaded A
  corrupted : Loaded A

-- what a write put into the file, and errno after it
pub record Written : Type 0 where
  pub count : ℕ
  pub errno : ℕ

abbrev pub einval : ℕ
einval = 22

abbrev pub erange : ℕ
erange = 34

module _ (crc : List ℕ → ℕ) where
  -- LoadEntry without data
  unfoldable pub load_header : List ℕ → ℕ → Loaded EntryHeader
  load_header file offset =
      let buf = take header_length (drop offset file) in
      let head = decode_header buf in
      if length buf == header_length
      then if verify_checksum crc (take 20 buf) head.header_checksum then loaded head else corrupted
      else unfinished

  unfoldable pub load_data : List ℕ → ℕ → ℕ → EntryHeader → Loaded LogEntry
  load_data file index offset head =
      let found = take head.data_len (drop (offset + header_length) file) in
      let entry : LogEntry = record {
        index = index;
        term = head.term;
        type = head.type;
        payload = found;
      } in
      if ltb 0 head.data_len
      then if length found == head.data_len
        then if verify_checksum crc found head.data_checksum then loaded entry else corrupted
        else unfinished
      else loaded (record entry { payload = [] })

  -- LoadEntry with data
  unfoldable pub load_entry : List ℕ → ℕ → ℕ → Loaded LogEntry
  load_entry file index offset = elim (load_header file offset) [
    | loaded head ↦ load_data file index offset head
    | unfinished ↦ unfinished
    | corrupted ↦ corrupted
  ]

  -- the header that Append fills in, and the bytes that it writes
  unfoldable pub header_of : LogEntry → EntryHeader
  header_of entry = record {
    term = entry.term;
    type = entry.type;
    data_len = length entry.payload % 2 ^ 32;
    data_checksum = if ltb 0 (length entry.payload) then crc entry.payload else 0;
    header_checksum = 0;
  }

  unfoldable pub encode_entry : Skipped → LogEntry → List ℕ
  encode_entry r entry = encode_header crc r (header_of entry) ++ entry.payload

unfoldable pub get_meta : Segment → ℕ → Option LogMeta
get_meta s index =
    let i = index - s.first_index in
    let (offset, term) = get_or s.offset_and_term i (0, 0) in
    let (next, _) = get_or s.offset_and_term (i + 1) (0, 0) in
    let next_cursor = if ltb index s.last_index then next else s.bytes in
    if ltb s.last_index index || ltb index s.first_index
    then none
    else if s.last_index + 1 == s.first_index
    then none
    else some (record { offset = offset; extent = next_cursor - offset; term = term })

unfoldable pub get_term : Segment → ℕ → ℕ
get_term s index = elim (get_meta s index) [ none ↦ 0 | some meta ↦ meta.term ]

module _ (crc : List ℕ → ℕ) where
  unfoldable pub get : Segment → ℕ → Option LogEntry
  get s index = elim (get_meta s index) [
    | none ↦ none
    | some meta ↦ elim (load_entry crc s.file index meta.offset) [
      | loaded entry ↦ some entry
      | unfinished ↦ none
      | corrupted ↦ none
    ]
  ]

  unfoldable pub append : Skipped → Written → Segment → LogEntry → ℕ × Segment
  append r w s entry =
      let to_write = header_length + (header_of crc entry).data_len in
      let after : Segment = record s { file = s.file ++ take w.count (encode_entry crc r entry) } in
      if not s.is_open
      then (einval, s)
      else if not (entry.index == s.last_index + 1)
      then (erange, s)
      else if not (w.count == to_write)
      then (w.errno, after)
      else (
        0,
        record after {
          offset_and_term = s.offset_and_term ++ (s.bytes, entry.term) ∷ [];
          last_index = s.last_index + 1;
          bytes = s.bytes + to_write;
        },
      )

-- the rename's result is returned; the synchronisation has none that fails
unfoldable pub close : ℤ → Segment → ℤ × Segment
close renamed s = if not s.is_open then (pos 0, s) else (renamed, record s { is_open = false })

-- whether the calls of Truncate succeed
pub record TruncateCalls : Type 0 where
  pub renames : Bool
  pub truncates : Bool
  pub seeks : Bool

unfoldable pub truncate : TruncateCalls → Segment → ℕ → ℤ × Segment
truncate calls s last_index_kept =
    let kept = last_index_kept + 1 - s.first_index in
    let (size, _) = get_or s.offset_and_term kept (0, 0) in
    let opened : Segment = record s { is_open = true } in
    let cut : Segment = record opened { file = take size s.file } in
    if leb s.last_index last_index_kept
    then (pos 0, s)
    else if not s.is_open && not calls.renames
    then (negsuc 0, s)
    else if not calls.truncates
    then (negsuc 0, opened)
    else if not calls.seeks
    then (negsuc 0, cut)
    else (
      pos 0,
      record cut {
        offset_and_term = take kept s.offset_and_term;
        last_index = last_index_kept;
        bytes = size;
      },
    )

module _ (crc : List ℕ → ℕ) where
  -- the loop of Load: whether no entry was corrupted, the offsets and terms found, and where it
  -- stopped
  unfoldable pub load_from : ℕ → List ℕ → ℕ → Bool × List (ℕ × ℕ) × ℕ
  load_from zero file offset = (true, [], offset)
  load_from (suc fuel) file offset =
      if ltb offset (length file)
      then elim (load_header crc file offset) [
        | unfinished ↦ (true, [], offset)
        | corrupted ↦ (false, [], offset)
        | loaded head ↦
            let next = offset + (header_length + head.data_len) in
            let (ok, found, end) = load_from fuel file next in
            if ltb (length file) next
            then (true, [], offset)
            else (ok, (offset, head.term) ∷ found, end)
      ]
      else (true, [], offset)

  -- Load of a file that can be opened; every entry takes at least a byte, so that the file's
  -- length bounds the rounds
  unfoldable pub load : Bool → Segment → ℤ × Segment
  load truncates s =
      let (ok, found, end) = load_from (length s.file) s.file 0 in
      let indexed : Segment = record s { offset_and_term = s.offset_and_term ++ found } in
      let placed : Segment = record indexed {
        last_index = if s.is_open then s.first_index + length found - 1 else s.last_index;
      } in
      if not ok
      then (negsuc 0, indexed)
      else if end == length s.file
      then (pos 0, record placed { bytes = end })
      else if truncates
      then (pos 0, record placed { bytes = end; file = take end s.file })
      else (negsuc 0, record placed { bytes = end })
