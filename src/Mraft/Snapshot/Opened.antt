-- ===== src/Mraft/Snapshot/Opened.antt =====
-- Snapshot::Open (mraft/snapshot.cpp): what becomes of the files that it opens.
use myctk.Base.{
  ℕ, zero, suc, ◌<◌, ◌≡◌, refl, ap, ◌∙◌, Bool, List, [], ◌∷◌, ◌++◌, length, get_or, ==_refl,
  Bool-cases, Option-cases, inl, inr, none, some, if◌then◌else◌, arith,
}
use myctk.Base.Int.{pos, negsuc}
use myctk.Base.Name.{Name, ◌=s◌, find, assign, find-assign, =s_iff}
use myctk.Mraft.Segment.{Written}
use myctk.Mraft.Snapshot.{
  FileMeta, Snapshot, sync_meta, open_file, open_files, open_all, open_with, open_own, file_from,
  write_opened, write_chunk, store_snapshot_chunk,
}

-- none of the files is on disk
unfoldable pub AllMissing : List FileMeta → List (Name × List ℕ) → Type 0
AllMissing [] disk = Unit {0}
AllMissing ((name, n) ∷ metas) disk = (find name disk ≡ none) × AllMissing metas disk

-- every one of the files is on disk
unfoldable pub AllPresent : List FileMeta → List (Name × List ℕ) → Type 0
AllPresent [] disk = Unit {0}
AllPresent ((name, n) ∷ metas) disk =
    ((c : List ℕ) × (find name disk ≡ some c)) × AllPresent metas disk

open_file-missing :
    (name : Name) (disk : List (Name × List ℕ))
    → find name disk ≡ none
    → open_file name disk ≡ (none, disk)
unfolding open_file
open_file-missing name disk h = rw (h, open_file)

open_files-AllMissing :
    (metas : List FileMeta) (disk : List (Name × List ℕ)) (i : ℕ)
    → AllMissing metas disk
    → get_or (open_files metas disk).0 i none ≡ none
unfolding AllMissing open_files
open_files-AllMissing [] disk i h = refl
open_files-AllMissing ((name, n) ∷ metas) disk zero (missing, h) =
    ap (λ p. p.0) (open_file-missing name disk missing)
open_files-AllMissing ((name, n) ∷ metas) disk (suc i) (missing, h) =
    ap (λ p. get_or (open_files metas p.1).0 i none) (open_file-missing name disk missing)
    ∙ open_files-AllMissing metas disk i h

-- a write to a file that is not open
write_chunk-closed :
    (w : Written) (s : Snapshot) (offset : ℕ) (bytes : List ℕ)
    → ((i : ℕ) → get_or s.files i none ≡ none)
    → write_chunk w s offset bytes ≡ (negsuc 0, s)
unfolding write_chunk write_opened
write_chunk-closed w s offset bytes closed = elim (Option-cases (file_from s.meta 0 0 offset)) [
  | inl beyond ↦ rw (beyond, write_chunk)
  | inr ((i, start), found) ↦ rw (found, write_chunk, closed i)
]

store_snapshot_chunk-closed :
    (w : Written) (s : Snapshot) (index offset : ℕ) (bytes : List ℕ) (last : Bool)
    → ((i : ℕ) → get_or s.files i none ≡ none)
    → store_snapshot_chunk w (some (index, s)) index offset bytes last ≡ (negsuc 0, none)
unfolding store_snapshot_chunk
store_snapshot_chunk-closed w s index offset bytes last closed =
    rw (==_refl index, write_chunk-closed w s offset bytes closed)

-- A chunk for a snapshot that was opened with a meta where none of its files is on disk is refused,
-- whatever it is, and the incoming snapshot is given up, though the opening succeeds.
pub store_snapshot_chunk-open_with :
    (m : FileMeta) (metas : List FileMeta) (s : Snapshot) (w : Written) (index offset : ℕ)
    (bytes : List ℕ) (last : Bool)
    → AllMissing (m ∷ metas) s.disk
    → s.files ≡ []
    → ((open_with (pos 0) (m ∷ metas) s).0 ≡ pos 0)
      × (store_snapshot_chunk w
            (some (index, (open_with (pos 0) (m ∷ metas) s).1))
            index
            offset
            bytes
            last
          ≡ (negsuc 0, none))
unfolding open_with open_all sync_meta
store_snapshot_chunk-open_with m metas s w index offset bytes last h fresh = (
  refl,
  store_snapshot_chunk-closed w ((open_with (pos 0) (m ∷ metas) s).1) index offset bytes last (λ i.
      ap (λ fs. get_or (fs ++ (open_files (m ∷ metas) s.disk).0) i none) fresh
      ∙ open_files-AllMissing (m ∷ metas) s.disk i h),
)

open_file-present :
    (name : Name) (disk : List (Name × List ℕ)) (c : List ℕ)
    → find name disk ≡ some c
    → open_file name disk ≡ (some name, assign name [] disk)
unfolding open_file
open_file-present name disk c h = rw (h, open_file)

find-open_file :
    (k name : Name) (disk : List (Name × List ℕ)) (c : List ℕ)
    → find name disk ≡ some c
    → find k (open_file name disk).1 ≡ (if k =s name then some [] else find k disk)
find-open_file k name disk c here =
    ap (λ p. find k p.1) (open_file-present name disk c here) ∙ find-assign name k [] disk

-- a file that is empty stays so
find-open_file_empty :
    (k name : Name) (disk : List (Name × List ℕ))
    → find k disk ≡ some []
    → find k (open_file name disk).1 ≡ some []
find-open_file_empty k name disk h = elim (Option-cases (find name disk)) [
  | inl missing ↦ ap (λ p. find k p.1) (open_file-missing name disk missing) ∙ h
  | inr (c, here) ↦
      find-open_file k name disk c here
      ∙ elim (Bool-cases (k =s name)) [ inl same ↦ rw same | inr other ↦ rw (other, h) ]
]

AllPresent-open_file :
    (metas : List FileMeta) (name : Name) (disk : List (Name × List ℕ)) (c : List ℕ)
    → find name disk ≡ some c
    → AllPresent metas disk
    → AllPresent metas (open_file name disk).1
unfolding AllPresent
AllPresent-open_file [] name disk c here h = tt
AllPresent-open_file ((k, n) ∷ metas) name disk c here ((d, there), h) = (
  elim (Bool-cases (k =s name)) [
    | inl same ↦ ([], find-open_file k name disk c here ∙ rw same)
    | inr other ↦ (d, find-open_file k name disk c here ∙ rw (other, there))
  ],
  AllPresent-open_file metas name disk c here h,
)

find-open_files :
    (metas : List FileMeta) (disk : List (Name × List ℕ)) (k : Name)
    → find k disk ≡ some []
    → find k (open_files metas disk).1 ≡ some []
unfolding open_files
find-open_files [] disk k h = h
find-open_files ((name, n) ∷ metas) disk k h =
    find-open_files metas (open_file name disk).1 k (find-open_file_empty k name disk h)

open_files-emptied :
    (metas : List FileMeta) (disk : List (Name × List ℕ)) (j : ℕ)
    → AllPresent metas disk
    → j < length metas
    → find (get_or metas j ([], 0)).0 (open_files metas disk).1 ≡ some []
unfolding AllPresent open_files
open_files-emptied [] disk j h below = absurd (omega arith)
open_files-emptied ((name, n) ∷ metas) disk zero ((c, here), h) below =
    find-open_files metas (open_file name disk).1 name
      (find-open_file name name disk c here ∙ rw ((=s_iff name name).1 refl))
open_files-emptied ((name, n) ∷ metas) disk (suc j) ((c, here), h) below =
    open_files-emptied metas (open_file name disk).1 j
      (AllPresent-open_file metas name disk c here h) (omega arith)

-- Open without a meta of a snapshot whose files are all on disk empties every one of them.
pub open_own-emptied :
    (s : Snapshot) (metas : List FileMeta) (j : ℕ)
    → s.meta_file ≡ some metas
    → AllPresent metas s.disk
    → j < length metas
    → ((open_own s).0 ≡ pos 0) × (find (get_or metas j ([], 0)).0 (open_own s).1.disk ≡ some [])
unfolding open_own open_all
open_own-emptied s [] j saved h below = absurd (omega arith)
open_own-emptied s (m ∷ metas) j saved h below =
    rw (saved, open_own) (refl, open_files-emptied (m ∷ metas) s.disk j h below)
