-- ===== src/Wal/Log/Bounds.antt =====
-- How large segments grow.
use dattaniddhi.Prelude.{ℕ, ◌+◌, ◌%◌, ◌^◌, ◌≤◌, ◌≡◌, List, [], ◌∷◌, All, arith, length, ok}
use dattaniddhi.Wal.Format.{max_segment_file_size, wal_version}
use dattaniddhi.Wal.Header.{new_record_header, new_segment_header}
use dattaniddhi.Wal.Header.RoundTrip.{length-encode_segment_header}
use dattaniddhi.Wal.Record.{new_record_wrapper}
use dattaniddhi.Wal.Record.Layout.{length-encode_record}
use dattaniddhi.Wal.Log.{
  Wal, Answers, rotate_segment, write_record, next_lsn, record_bytes, append_record,
}

pub length-record_bytes :
    (lsn op : ℕ) (payload_bytes : List ℕ)
    → length (record_bytes lsn op payload_bytes) ≡ length payload_bytes + 36
unfolding new_record_wrapper new_record_header
length-record_bytes lsn op payload_bytes = omega (
  arith,
  length-encode_record (new_record_wrapper (new_record_header wal_version lsn op) payload_bytes),
)

-- The size that is counted for the active segment is at most a header above the limit.
abbrev pub IsBounded : Wal → Type 0
IsBounded w = w.active_segment.current_size ≤ max_segment_file_size + 16

write_record-IsBounded :
    (os : Answers) (w : Wal) (lsn : ℕ) (bytes : List ℕ)
    → w.active_segment.current_size + length bytes ≤ max_segment_file_size + 16
    → IsBounded (write_record os w lsn bytes).0
unfolding write_record
write_record-IsBounded os w lsn bytes h = ground arith

-- A rotation that succeeds leaves a segment that is its header; one that fails, the old segment.
rotate_segment_size :
    (os : Answers) (w : Wal) (done : Unit {0})
    → (rotate_segment os w).1 ≡ ok done
    → (rotate_segment os w).0.active_segment.current_size ≡ 16
unfolding rotate_segment
rotate_segment_size os w done h =
    ground (
      arith,
      length-encode_segment_header (new_segment_header wal_version ((w.seg_id + 1) % 2 ^ 64)),
    )

rotate_segment-IsBounded :
    (os : Answers) (w : Wal) → IsBounded w → IsBounded (rotate_segment os w).0
unfolding rotate_segment
rotate_segment-IsBounded os w h =
    ground (
      arith,
      length-encode_segment_header (new_segment_header wal_version ((w.seg_id + 1) % 2 ^ 64)),
    )

-- An append with a payload that a segment can hold keeps the bound, whatever the calls answer.
append_record-IsBounded :
    (os : Answers) (w : Wal) (op : ℕ) (payload_bytes : List ℕ)
    → length payload_bytes + 36 ≤ max_segment_file_size
    → IsBounded w
    → IsBounded (append_record os w op payload_bytes).0
unfolding append_record
append_record-IsBounded os w op payload_bytes fits h =
    let numbered = record w { lsn = next_lsn w } in
    let bytes = record_bytes (next_lsn w) op payload_bytes in
    let turned = (rotate_segment os numbered).0 in
    ground (
      arith,
      length-record_bytes (next_lsn w) op payload_bytes,
      rotate_segment_size os numbered tt,
      rotate_segment-IsBounded os numbered,
      write_record-IsBounded os numbered (next_lsn w) bytes,
      write_record-IsBounded os turned (next_lsn w) bytes,
    )

-- One append: what is asked for, and what the operating system answers.
pub record Attempt : Type 0 where
  pub answers : Answers
  pub op : ℕ
  pub payload_bytes : List ℕ

-- The WAL behind a sequence of appends.
unfoldable pub attempt_all : List Attempt → Wal → Wal
attempt_all [] w = w
attempt_all (a ∷ as') w = attempt_all as' (append_record a.answers w a.op a.payload_bytes).0

-- Whatever is appended and whatever fails, the size that is counted for the active segment stays
-- within the limit and one segment header, if each record by itself is within the limit.
pub attempt_all-IsBounded :
    (attempts : List Attempt) (w : Wal)
    → All (λ a. length a.payload_bytes + 36 ≤ max_segment_file_size) attempts
    → IsBounded w
    → IsBounded (attempt_all attempts w)
unfolding attempt_all
attempt_all-IsBounded [] w fits h = h
attempt_all-IsBounded (a ∷ attempts) w fits h =
    attempt_all-IsBounded attempts (append_record a.answers w a.op a.payload_bytes).0 fits.1
      (append_record-IsBounded a.answers w a.op a.payload_bytes fits.0 h)
