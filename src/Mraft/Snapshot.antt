-- ===== src/Mraft/Snapshot.antt =====
-- Snapshot (mraft/snapshot.cpp, mraft/snapshot.h): the files of a snapshot, read and written as one
-- sequence of bytes in chunks, with the node's two calls of it (mraft/mraft.cpp). The directory is a
-- table of its regular files by name, and an open file is known by its name. What writing the meta
-- file and a chunk returns comes in as arguments; a regular file can be opened, mapped and measured.
use myctk.Base.{
  ℕ, suc, ◌+◌, ◌-◌, ◌≡◌, Bool, true, false, not, ◌&&◌, ◌||◌, List, [], ◌∷◌, ◌++◌, length, take,
  drop, get_or, replicate, ltb, ◌==◌, if◌then◌else◌, Option, none, some,
}
use myctk.Base.Int.{ℤ, pos, negsuc}
use myctk.Base.Name.{Name, ◌=s◌, find, assign}
use myctk.Mraft.Segment.{Written}
use myctk.Mraft.Storage.{is_ok}
pub mod Opened
mod Tests

-- SnapshotFileMeta
abbrev pub FileMeta : Type 0
FileMeta = Name × ℕ

pub record Snapshot : Type 0 where
  pub meta : List FileMeta
  pub files : List (Option Name)
  pub disk : List (Name × List ℕ)
  pub meta_file : Option (List FileMeta)

-- SyncMeta
unfoldable pub sync_meta : ℤ → Snapshot → ℤ × Snapshot
sync_meta rc s = if is_ok rc then (rc, record s { meta_file = some s.meta }) else (rc, s)

-- one file of Open: a regular file is created anew, and any other is opened as it is, which fails
unfoldable pub open_file : Name → List (Name × List ℕ) → Option Name × List (Name × List ℕ)
open_file name disk = elim (find name disk) [
  | some content ↦ (some name, assign name [] disk)
  | none ↦ (none, disk)
]

unfoldable pub open_files :
    List FileMeta → List (Name × List ℕ) → List (Option Name) × List (Name × List ℕ)
open_files [] disk = ([], disk)
open_files ((name, n) ∷ metas) disk =
    let (file, disk1) = open_file name disk in
    let (rest, disk2) = open_files metas disk1 in (file ∷ rest, disk2)

-- the part of Open behind the meta
unfoldable pub open_all : Snapshot → ℤ × Snapshot
open_all s =
    let (opened, disk1) = open_files s.meta s.disk in
    let after : Snapshot = record s { files = s.files ++ opened; disk = disk1 } in
    elim s.meta [ [] ↦ (negsuc 0, s) | m ∷ ms ↦ (pos 0, after) ]

-- Open with a meta, and with the one on disk if there is one
unfoldable pub open_with : ℤ → List FileMeta → Snapshot → ℤ × Snapshot
open_with synced meta s =
    let (rc, s1) = sync_meta synced (record s { meta = meta }) in
    if is_ok rc then open_all s1 else (rc, s1)

unfoldable pub open_own : Snapshot → ℤ × Snapshot
open_own s = elim s.meta_file [
  | none ↦ open_all s
  | some meta ↦ open_all (record s { meta = meta })
]

unfoldable pub size : List FileMeta → ℕ
size [] = 0
size ((name, n) ∷ metas) = n + size metas

unfoldable pub exists : List FileMeta → Name → Bool
exists [] name = false
exists ((m, n) ∷ metas) name = m =s name || exists metas name

-- Add, when the file of a writable file is closed
unfoldable pub add_file : ℤ → Name → Snapshot → ℤ × Snapshot
add_file synced name s = elim (find name s.disk) [
  | none ↦ (negsuc 0, s)
  | some content ↦ sync_meta synced (record s { meta = s.meta ++ (name, length content) ∷ [] })
]

-- GetWritableFile
unfoldable pub get_writable_file : Name → Snapshot → Snapshot
get_writable_file name s = record s { disk = assign name [] s.disk }

-- the loop of GetFileByOffset: the file's place and where it begins
unfoldable pub file_from : List FileMeta → ℕ → ℕ → ℕ → Option (ℕ × ℕ)
file_from [] i total offset = none
file_from ((name, n) ∷ metas) i total offset =
    let rest = file_from metas (suc i) (total + n) offset in
    if ltb offset (total + n) then some (i, total) else rest

abbrev pub get_file_by_offset : Snapshot → ℕ → Option (ℕ × ℕ)
get_file_by_offset s offset = file_from s.meta 0 0 offset

-- a write into a file, which fills a gap behind its end with zeros
unfoldable pub pwrite : List ℕ → ℕ → List ℕ → List ℕ
pwrite content at [] = content
pwrite content at (b ∷ bytes) =
    take at (content ++ replicate (at - length content) 0)
    ++ (b ∷ bytes ++ drop (at + suc (length bytes)) content)

unfoldable pub write_opened : Written → List ℕ → ℕ → Option Name → Snapshot → ℤ × Snapshot
write_opened w bytes at none s = (negsuc 0, s)
write_opened w bytes at (some name) s = elim (find name s.disk) [
  | none ↦ (negsuc 0, s)
  | some content ↦
      let after : Snapshot = record s {
        disk = assign name (pwrite content at (take w.count bytes)) s.disk;
      } in
      if w.count == length bytes then (pos 0, after) else (pos w.errno, after)
]

unfoldable pub write_chunk : Written → Snapshot → ℕ → List ℕ → ℤ × Snapshot
write_chunk w s offset bytes = elim (get_file_by_offset s offset) [
  | none ↦ (negsuc 0, s)
  | some (i, start) ↦ write_opened w bytes (offset - start) (get_or s.files i none) s
]

abbrev pub max_chunk_size : ℕ
max_chunk_size = 32768

abbrev pub least : ℕ → ℕ → ℕ
least a b = if ltb b a then b else a

-- Read: the chunk and whether it is the last
unfoldable pub read_mapped : Snapshot → ℕ → ℕ → ℕ → Option (List ℕ) → Option (List ℕ × Bool)
read_mapped s offset i start none = none
read_mapped s offset i start (some content) =
    let (_, n) = get_or s.meta i ([], 0) in
    let count = least max_chunk_size (n - (offset - start)) in
    some (
      take count (drop (offset - start) content),
      i + 1 == length s.files && offset + count == size s.meta,
    )

unfoldable pub read_chunk : Snapshot → ℕ → Option (List ℕ × Bool)
read_chunk s offset = elim (get_file_by_offset s offset) [
  | none ↦ none
  | some (i, start) ↦
      let (name, _) = get_or s.meta i ([], 0) in read_mapped s offset i start (find name s.disk)
]

-- Raft::StoreSnapshotChunk: the incoming snapshot with its index
unfoldable pub store_snapshot_chunk :
    Written → Option (ℕ × Snapshot) → ℕ → ℕ → List ℕ → Bool → ℤ × Option (ℕ × Snapshot)
store_snapshot_chunk w none snapshot_index offset bytes last = (negsuc 0, none)
store_snapshot_chunk w (some (index, s)) snapshot_index offset bytes last =
    let (rc, s1) = write_chunk w s offset bytes in
    if not (index == snapshot_index)
    then (negsuc 0, some (index, s))
    else if not (is_ok rc)
    then (rc, none)
    else (rc, if last then none else some (index, s1))

-- Raft::GetSnapshotChunk: the chunk, whether it is the last, and its offset
unfoldable pub get_snapshot_chunk : Option Snapshot → ℕ → Option (List ℕ × Bool × ℕ)
get_snapshot_chunk none offset = none
get_snapshot_chunk (some s) offset = elim (read_chunk s offset) [
  | none ↦ none
  | some (chunk, last) ↦ some (chunk, last, offset)
]
