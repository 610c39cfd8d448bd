-- ===== src/Wal/Log/Unsynced.antt =====
-- An append whose sync fails.
use dattaniddhi.Prelude.{ℕ, ◌≡◌, true, false, List, arith, ok, err}
use dattaniddhi.Wal.Format.{failed_to_sync}
use dattaniddhi.Wal.Log.{
  Wal, Answers, sync_always, rotate_segment, write_record, next_lsn, record_bytes, append_record,
}

-- The same answers, but with a sync that succeeds.
abbrev pub synced : Answers → Answers
synced os = record os { sync_ok = true }

rotate_segment-sync_policy :
    (os : Answers) (w : Wal) → (rotate_segment os w).0.sync_policy ≡ w.sync_policy
unfolding rotate_segment
rotate_segment-sync_policy os w = ground arith

write_record_unsynced :
    (os : Answers) (w : Wal) (lsn n : ℕ) (bytes : List ℕ)
    → w.sync_policy ≡ sync_always
    → os.sync_ok ≡ false
    → (write_record (synced os) w lsn bytes).1 ≡ ok n
    → write_record os w lsn bytes ≡ ((write_record (synced os) w lsn bytes).0, err failed_to_sync)
unfolding write_record
write_record_unsynced os w lsn n bytes always failed h = ground arith

-- Under SyncAlways an append whose sync fails returns an error, and does all else that it does when
-- the sync succeeds.
pub append_record_unsynced :
    (os : Answers) (w : Wal) (op n : ℕ) (payload_bytes : List ℕ)
    → w.sync_policy ≡ sync_always
    → os.sync_ok ≡ false
    → (append_record (synced os) w op payload_bytes).1 ≡ ok n
    → append_record os w op payload_bytes
      ≡ ((append_record (synced os) w op payload_bytes).0, err failed_to_sync)
unfolding append_record rotate_segment
append_record_unsynced os w op n payload_bytes always failed h =
    let numbered = record w { lsn = next_lsn w } in
    let bytes = record_bytes (next_lsn w) op payload_bytes in
    ground (
      arith,
      rotate_segment-sync_policy os numbered,
      write_record_unsynced os numbered (next_lsn w) n bytes,
      write_record_unsynced os (rotate_segment os numbered).0 (next_lsn w) n bytes,
    )
