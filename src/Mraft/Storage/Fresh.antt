-- ===== src/Mraft/Storage/Fresh.antt =====
-- Init on a directory without a log_meta file, and on one whose log has been emptied
-- (mraft/segment_log_storage.cpp).
use myctk.Base.{
  ℕ, ◌+◌, ◌≡◌, refl, ◌∙◌, Bool, true, ◌||◌, List, [], ◌∷◌, ◌++◌, length, ◌==◌, Bool-cases, inl, inr,
  Option, none, some, arith,
}
use myctk.Base.Int.{pos}
use myctk.Base.Name.{Name, ◌=s◌}
use myctk.Mraft.Header.{Skipped, header_length}
use myctk.Mraft.Segment.{LogEntry, Written}
use myctk.Mraft.Segment.Layout.{SizedEntry}
use myctk.Mraft.Storage.{SegmentLogStorage}
use myctk.Mraft.Storage.Startup.{
  has_prefix, has_suffix, segment_open_prefix, segment_close_prefix, segment_log_meta, tmp_ending,
  DirEntry, Listing, list_file, list_segments, new_storage, load_meta, load_segments, load_closed,
  settle_last, init,
}
use myctk.Mraft.Segment.{in_progress}
use myctk.Mraft.Segment.Change.{append-Holds, in_progress-Holds}
use myctk.Mraft.Storage.{append_entry, append_to_open, get_open_segment, returned, create_segment}
use myctk.Mraft.Storage.Append.{calls_succeed}
use myctk.Mraft.Storage.Log.{raft_log_append}
use myctk.Mraft.Storage.Chain.{Chain}
use myctk.Mraft.Storage.Entries.{Latest, Represents}

has_prefix-append : (str p q : Name) → has_prefix str (p ++ q) ≡ true → has_prefix str p ≡ true
unfolding has_prefix
has_prefix-append str [] q h = refl
has_prefix-append [] (c ∷ p) q h = h
has_prefix-append (a ∷ str) (c ∷ p) q h = elim (Bool-cases (a == c)) [
  | inl same ↦ rw same (has_prefix-append str p q (rw same at h))
  | inr other ↦ cc (rw other at h)
]

-- "inprogress_"
abbrev after_log : Name
after_log = 105 ∷ 110 ∷ 112 ∷ 114 ∷ 111 ∷ 103 ∷ 114 ∷ 101 ∷ 115 ∷ 115 ∷ 95 ∷ []

module _ (to_int64 : Name → Option ℕ) (split : ℕ → Name → List Name) where
  -- without log_meta, no file is a segment
  list_file-no_meta :
      (d : DirEntry) (l : Listing)
      → (l1 : Listing) × (list_file to_int64 split true d l ≡ some l1) × (l1.storage ≡ l.storage)
  unfolding list_file
  list_file-no_meta d l =
      elim (Bool-cases
        (d.name =s segment_log_meta || (d.name =s (46 ∷ []) || d.name =s (46 ∷ 46 ∷ [])))) [
          | inl skipped ↦ rw skipped (l, refl, refl)
          | inr listed ↦
              elim (Bool-cases
                (has_prefix d.name segment_close_prefix || has_suffix d.name tmp_ending)) [
                  | inl dropped ↦ rw (listed, dropped) (_, refl, refl)
                  | inr kept ↦ elim (Bool-cases (has_prefix d.name segment_close_prefix)) [
                    | inl closes ↦ cc (rw closes at kept)
                    | inr not_close ↦ elim (Bool-cases (has_prefix d.name segment_open_prefix)) [
                      | inl opens ↦
                          let closes : has_prefix d.name segment_close_prefix ≡ true =
                            has_prefix-append d.name segment_close_prefix after_log opens in
                          cc (rw closes at not_close)
                      | inr not_open ↦ rw (listed, kept, not_open, not_close) (l, refl, refl)
                    ]
                  ]
                ]
        ]

  list_segments-no_meta :
      (dir : List DirEntry) (l : Listing)
      → ((list_segments to_int64 split true dir l).0 ≡ pos 0)
        × ((list_segments to_int64 split true dir l).1.storage ≡ l.storage)
  unfolding list_segments
  list_segments-no_meta [] l = (refl, refl)
  list_segments-no_meta (d ∷ dir) l =
      let (l1, found, same) = list_file-no_meta d l in
      let (code, kept) = list_segments-no_meta dir l1 in
      rw (found, list_segments) (code, kept ∙ same)

  -- Init of a directory without log_meta, whatever files are in it, returns 0, and the storage stands
  -- for the empty log that begins at index 1.
  pub init-Represents :
      (crc : List ℕ → ℕ) (truncates : Bool) (dir : List DirEntry)
      → ((init crc to_int64 split true truncates dir (new_storage none)).0 ≡ pos 0)
        × Represents crc
            ((init crc to_int64 split true truncates dir (new_storage none)).1.storage)
            1
            []
  unfolding init load_meta new_storage Chain Latest
  init-Represents crc truncates dir =
      let start : Listing = record { storage = new_storage none; unlinked = [] } in
      let (code, same) = list_segments-no_meta dir start in
      rw (code, same)
        (
          refl,
          (
            refl,
            omega arith,
            omega arith,
            omega arith,
            omega arith,
            ([], [], refl, refl, omega arith),
            tt,
          ),
        )

  -- Init of a directory that holds only log_meta, the files of the log having been unlinked, leaves
  -- last_log_index at 1 whatever the first index is, and the entry that the raft library appends next
  -- gets the index 2.
  pub init-emptied :
      (crc : List ℕ → ℕ) (saves truncates : Bool) (first max_size : ℕ) (r : Skipped) (w : Written)
      (e : LogEntry)
      → SizedEntry e
      → w.count ≡ header_length + length e.payload
      → (after : SegmentLogStorage) × ((init crc to_int64 split saves truncates []
            (new_storage (some first))).0
          ≡ pos 0)
        × ((init crc to_int64 split saves truncates [] (new_storage (some first))).1.storage
            ≡ after)
        × (after.first_log_index ≡ first)
        × (after.last_log_index ≡ 1)
        × ((raft_log_append crc max_size calls_succeed r w after e).0 ≡ 0)
        × ((raft_log_append crc max_size calls_succeed r w after e).1.latest_entry
            ≡ some (record e { index = 2 }))
  unfolding init load_meta new_storage list_segments load_segments load_closed settle_last
      raft_log_append append_entry append_to_open get_open_segment returned create_segment
  init-emptied crc saves truncates first max_size r w e z c =
      let (code, _, _, _) =
        append-Holds crc (in_progress 2) [] r w (record e { index = 2 })
          (in_progress-Holds crc 2 (omega arith)) (unfold in_progress in refl)
          (unfold in_progress in refl) z c in
      (
        record (new_storage (some first)) { first_log_index = first },
        refl,
        refl,
        refl,
        refl,
        rw code,
        rw code,
      )
