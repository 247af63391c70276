-- ===== src/Mraft/Storage/Log.antt =====
-- The calls that the raft library makes of a log (mraft/log_storage.cpp).
use myctk.Base.{ℕ, ◌+◌, ◌-◌, Bool, List, length, Option}
use myctk.Base.Int.{ℤ, sub_ℕ}
use myctk.Mraft.Header.{Skipped}
use myctk.Mraft.Segment.{LogEntry, Segment, Written, TruncateCalls}
use myctk.Mraft.Storage.{SegmentLogStorage, OpenCalls, append_entry, get_batch_entries}
use myctk.Mraft.Storage.Truncate.{truncate_prefix, truncate_suffix}

unfoldable pub raft_log_append :
    (List ℕ → ℕ)
    → ℕ
    → OpenCalls
    → Skipped
    → Written
    → SegmentLogStorage
    → LogEntry
    → ℕ × SegmentLogStorage
raft_log_append crc max_size calls r w st entry =
    append_entry crc max_size calls r w st (record entry { index = st.last_log_index + 1 })

unfoldable pub raft_log_poll : ℕ → Bool → SegmentLogStorage → ℕ → Option (ℤ × SegmentLogStorage)
raft_log_poll fuel saved st first_idx = truncate_prefix fuel saved st first_idx

-- from_idx is at least 1
unfoldable pub raft_log_pop :
    ℕ → (Segment → ℤ) → TruncateCalls → SegmentLogStorage → ℕ → Option (ℤ × SegmentLogStorage)
raft_log_pop fuel unlinks calls st from_idx = truncate_suffix fuel unlinks calls st (from_idx - 1)

unfoldable pub raft_log_get_batch : (List ℕ → ℕ) → SegmentLogStorage → ℕ → ℕ → ℕ × List LogEntry
raft_log_get_batch crc st idx entries_n =
    let all = get_batch_entries crc st idx entries_n in (length all, all)

unfoldable pub raft_log_count : SegmentLogStorage → ℤ
raft_log_count st = sub_ℕ (st.last_log_index + 1) st.first_log_index
