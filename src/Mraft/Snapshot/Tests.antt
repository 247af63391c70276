-- ===== src/Mraft/Snapshot/Tests.antt =====
-- A snapshot of two files (mraft/snapshot.cpp).
use myctk.Base.{◌≡◌, refl, true, false, List, [], ◌∷◌, none, some, arith}
use myctk.Base.Int.{pos, negsuc}
use myctk.Base.Name.{find, ◌=s◌}
use myctk.Mraft.Segment.{Written}
use myctk.Mraft.Snapshot.{
  FileMeta, Snapshot, read_chunk, open_with, open_own, store_snapshot_chunk, file_from, read_mapped,
  size,
}
use myctk.Mraft.Snapshot.Opened.{
  AllMissing, AllPresent, store_snapshot_chunk-open_with, open_own-emptied,
}

abbrev metas : List FileMeta
metas = (b'a' ∷ [], 2) ∷ (b'b' ∷ [], 3) ∷ []

abbrev two_files : Snapshot
two_files = record {
  meta = metas;
  files = some (b'a' ∷ []) ∷ some (b'b' ∷ []) ∷ [];
  disk = (b'a' ∷ [], 1 ∷ 2 ∷ []) ∷ (b'b' ∷ [], 3 ∷ 4 ∷ 5 ∷ []) ∷ [];
  meta_file = some metas;
}

-- a chunk does not go beyond the end of a file
second_chunk : read_chunk two_files 1 ≡ some (2 ∷ [], false)
unfolding read_chunk read_mapped file_from find size ◌=s◌
second_chunk = refl

last_chunk : read_chunk two_files 2 ≡ some (3 ∷ 4 ∷ 5 ∷ [], true)
unfolding read_chunk read_mapped file_from find size ◌=s◌
last_chunk = refl

abbrev incoming : Snapshot
incoming = record { meta = []; files = []; disk = []; meta_file = none }

abbrev whole : Written
whole = record { count = 2; errno = 0 }

store_snapshot_chunk-open_with_example :
    ((open_with (pos 0) metas incoming).0 ≡ pos 0)
    × (store_snapshot_chunk whole
          (some (7, (open_with (pos 0) metas incoming).1))
          7
          0
          (1 ∷ 2 ∷ [])
          false
        ≡ (negsuc 0, none))
store_snapshot_chunk-open_with_example =
    store_snapshot_chunk-open_with (b'a' ∷ [], 2) ((b'b' ∷ [], 3) ∷ []) incoming whole 7 0
      (1 ∷ 2 ∷ []) false (unfold AllMissing find in (refl, (refl, tt))) refl

open_own-emptied_example :
    ((open_own two_files).0 ≡ pos 0) × (find (b'b' ∷ []) (open_own two_files).1.disk ≡ some [])
open_own-emptied_example =
    open_own-emptied two_files metas 1 refl
      (unfold AllPresent find ◌=s◌ in ((1 ∷ 2 ∷ [], refl), ((3 ∷ 4 ∷ 5 ∷ [], refl), tt)))
      (omega arith)
