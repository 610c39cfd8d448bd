-- ===== src/Wal/History/Oversized.antt =====
-- An append of a record that is larger than a segment may be.
use dattaniddhi.Prelude.{
  ℕ, ◌+◌, ◌%◌, ◌^◌, ◌<◌, ◌≤◌, ◌≡◌, ◌≢◌, ap, ◌∙◌, sym, subst, List, [], ◌∷◌, ◌++◌, arith, length,
  take, take-append, lt→ltb, Result, ok, err, inl, inr, Result-cases,
}
use dattaniddhi.Wal.Bytes.{IsU64}
use dattaniddhi.Wal.Format.{Error, max_segment_file_size, wal_version}
use dattaniddhi.Wal.Header.{
  RecordHeader, new_record_header, encode_record_header, decode_record_header,
}
use dattaniddhi.Wal.Header.RoundTrip.{length-encode_record_header, decode_record_header_large}
use dattaniddhi.Wal.Log.{
  Wal, Segment, Answers, next_lsn, record_bytes, rotate_segment, write_record, append_record,
}
use dattaniddhi.Wal.Disk.{append_file}
use dattaniddhi.Wal.Names.{segment_file_name}
use dattaniddhi.Wal.Log.Steps.{
  NothingFails, numbered, size_with, write_record_written, append_record_rotated,
}
use dattaniddhi.Wal.Log.Bounds.{length-record_bytes}
use dattaniddhi.Wal.Open.{recover}
use dattaniddhi.Wal.Record.{new_record_wrapper}
use dattaniddhi.Wal.Record.Layout.{encode_record-layout}
use dattaniddhi.Wal.Scanner.{DecodedRecord}
use dattaniddhi.Wal.History.{SegmentLog, files}
use dattaniddhi.Wal.History.Appends.{Holds, opened_file}
use dattaniddhi.Wal.History.Leftovers.{left, dir-left, append_file-left, recover-left}
use dattaniddhi.Wal.History.Rotates.{fresh_segment, rotate_segment-Holds, Holds-lsn}

abbrev pub header_with : ℕ → ℕ → ℕ → RecordHeader
header_with lsn op size = record {
  version = wal_version;
  record_length = size;
  lsn = lsn;
  op_type = op;
}

pub record_bytes-layout :
    (lsn op : ℕ) (payload_bytes : List ℕ)
    → (tail : List ℕ) × (record_bytes lsn op payload_bytes
        ≡ encode_record_header (header_with lsn op ((32 + length payload_bytes + 4) % 2 ^ 32))
          ++ tail)
unfolding new_record_header new_record_wrapper
record_bytes-layout lsn op payload_bytes = (_, encode_record-layout _)

-- The header of such a record is refused.
record_bytes_refused :
    (lsn op : ℕ) (payload_bytes : List ℕ)
    → max_segment_file_size < length payload_bytes + 36
    → length payload_bytes + 36 < 2 ^ 32
    → (x : Error) × (decode_record_header (take 32 (record_bytes lsn op payload_bytes)) ≡ err x)
record_bytes_refused lsn op payload_bytes large fits =
    let h = header_with lsn op ((32 + length payload_bytes + 4) % 2 ^ 32) in
    let (tail, layout) = record_bytes-layout lsn op payload_bytes in
    let front : take 32 (record_bytes lsn op payload_bytes) ≡ encode_record_header h =
      ap (take 32) layout
      ∙ subst (λ k. take k (encode_record_header h ++ tail) ≡ encode_record_header h)
          (length-encode_record_header h) (take-append (encode_record_header h) tail) in
    elim (Result-cases (decode_record_header (encode_record_header h))) [
      | inr (x, refused) ↦ (x, ap decode_record_header front ∙ refused)
      | inl (h', accepted) ↦
          absurd (decode_record_header_large h (omega arith) (omega arith) h' accepted)
    ]

-- A write, and the result, of an append whose log cannot be read any more.
pub record Unreadable (lsn : ℕ) (r : Wal × Result Error ℕ) : Type 0 where
  pub accepted : r.1 ≡ ok lsn
  pub unreadable : (rs : List DecodedRecord) → recover r.0.dir ≢ ok rs

-- Bytes with a header that is refused, written behind the last entry.
pub write_record-Unreadable :
    (os : Answers) (w : Wal) (old : List SegmentLog) (current : SegmentLog) (lsn : ℕ)
    (bytes : List ℕ) {x : Error}
    → NothingFails os
    → Holds w old current
    → 32 ≤ length bytes
    → decode_record_header (take 32 bytes) ≡ err x
    → Unreadable lsn (write_record os w lsn bytes)
write_record-Unreadable os w old current lsn bytes good h room refused =
    let step = write_record_written os w lsn bytes good (opened_file os w old current good h) in
    let name = ap (λ (s : Segment). segment_file_name s.seg_id) h.active_is in
    let dir : (write_record os w lsn bytes).0.dir ≡ files (old ++ (left current bytes ∷ [])) =
      ap (λ r. r.0.dir) step
      ∙ ap (λ n. append_file n bytes w.dir) name
      ∙ ap (append_file (segment_file_name current.id) bytes) (dir-left h)
      ∙ append_file-left h [] bytes in
    record {
      accepted = ap (λ r. r.1) step;
      unreadable = λ rs readable.
          let fails = ap recover dir ∙ recover-left h bytes room refused in
          let clash = sym fails ∙ readable in cc;
    }

-- An append of a record larger than a segment file may be, and below 4 GiB, is accepted, when no
-- call fails; but Recover fails on the directory that it leaves.
pub append_record-Unreadable :
    (os : Answers) (w : Wal) (old : List SegmentLog) (current : SegmentLog) (op : ℕ)
    (payload_bytes : List ℕ)
    → NothingFails os
    → Holds w old current
    → IsU64 (current.id + 1)
    → max_segment_file_size < length payload_bytes + 36
    → length payload_bytes + 36 < 2 ^ 32
    → Unreadable (next_lsn w) (append_record os w op payload_bytes)
append_record-Unreadable os w old current op payload_bytes good h id_fits large fits =
    let bytes = record_bytes (next_lsn w) op payload_bytes in
    let size = length-record_bytes (next_lsn w) op payload_bytes in
    let full : max_segment_file_size < size_with w op payload_bytes =
      omega (arith, size, ap (λ (s : Segment). s.current_size) h.active_is, h.bounded) in
    let (fresh, started, kept) =
      rotate_segment-Holds os (numbered w) old current good (Holds-lsn (next_lsn w) h) id_fits in
    let (x, refused) = record_bytes_refused (next_lsn w) op payload_bytes large fits in
    subst (Unreadable (next_lsn w))
      (sym (append_record_rotated os w op payload_bytes (lt→ltb _ _ full) started))
      (write_record-Unreadable os (rotate_segment os (numbered w)).0 (old ++ (current ∷ []))
        (fresh_segment (current.id + 1)) (next_lsn w) bytes good fresh (omega (arith, size))
        refused)
