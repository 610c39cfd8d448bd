-- ===== src/Wal/Scanner.antt =====
-- internal/store/wal/scanner.go: a segment file is read record by record.
-- The file is the list of its bytes; Stat, Seek and reads of bytes that are there do not fail.
pub mod Entry
pub mod Rounds
pub mod Total
pub mod Verified
pub mod Recovery
pub mod Crash
pub mod Fails
pub mod Altered
pub mod Genuine
mod Examples
use dattaniddhi.Prelude.{
  ℕ, zero, suc, ◌+◌, ◌-◌, not, List, [], ◌∷◌, ◌++◌, true, false, length, take, drop, slice, ltb,
  leb, ◌==◌, if◌then◌else◌, Result, ok, err, ◌>>=◌, ◌>>◌, require,
}
use dattaniddhi.Wal.Bytes.{uint}
use dattaniddhi.Wal.Crc.{checksum_ieee}
use dattaniddhi.Wal.Format.{
  Error, failed_to_read, record_too_small, invalid_checksum, invalid_operation_type, out_of_fuel,
  segment_header_byte_size, record_header_byte_size, op_insert, op_delete,
}
use dattaniddhi.Wal.Header.{RecordHeader, decode_segment_header, decode_record_header}
use dattaniddhi.Wal.Payload.{decode_insert_payload, decode_delete_payload}

-- DecodedRecords
pub record DecodedRecord : Type 0 where
  pub lsn : ℕ
  pub op_type : ℕ
  pub ext_id : List ℕ
  pub int_id : ℕ
  pub vector : List ℕ
  pub meta_data : List ℕ

-- io.ReadFull of `n` bytes at the cursor.
pub read_full : List ℕ → ℕ → ℕ → Result Error (List ℕ)
read_full file cursor n =
    if leb (cursor + n) (length file)
    then ok (slice file cursor (cursor + n))
    else err failed_to_read

-- `switch decodedRecordHeader.opType`
pub decode_payload : RecordHeader → List ℕ → Result Error DecodedRecord
decode_payload rh payload_bytes =
    if rh.op_type == op_insert
    then (do
      pl ← decode_insert_payload payload_bytes
      ok (record {
        lsn = rh.lsn;
        op_type = rh.op_type;
        ext_id = pl.external_id;
        int_id = pl.internal_id;
        vector = pl.vector_data;
        meta_data = pl.meta_data;
      }))
    else if rh.op_type == op_delete
    then (do
      pl ← decode_delete_payload payload_bytes
      ok (record {
        lsn = rh.lsn;
        op_type = rh.op_type;
        ext_id = pl.external_id;
        int_id = pl.internal_id;
        vector = [];
        meta_data = [];
      }))
    else err invalid_operation_type

-- One round of the scanner loop: it breaks at a torn write, or goes on behind a record.
pub data Step : Type 0 where
  torn : Step
  next : DecodedRecord → ℕ → Step

-- The part of a round behind the record header.
pub scan_body : List ℕ → ℕ → List ℕ → RecordHeader → Result Error Step
scan_body file offset header_bytes rh =
    if ltb (length file) (offset + rh.record_length) then ok torn else do
      require (not (ltb rh.record_length (record_header_byte_size + 4))) record_too_small
      record_bytes ← read_full file (offset + 32) (rh.record_length - record_header_byte_size)
      let payload_bytes = take (length record_bytes - 4) record_bytes
      let stored_crc32 = uint (drop (length record_bytes - 4) record_bytes)
      let computed_crc32 = checksum_ieee (header_bytes ++ payload_bytes)
      require (stored_crc32 == computed_crc32) invalid_checksum
      single_record ← decode_payload rh payload_bytes
      ok (next single_record (offset + rh.record_length))

pub scan_record : List ℕ → ℕ → Result Error Step
scan_record file offset = if ltb (length file) (offset + 32) then ok torn else do
  header_bytes ← read_full file offset record_header_byte_size
  rh ← decode_record_header header_bytes
  scan_body file offset header_bytes rh

pub scan_loop : ℕ → List ℕ → ℕ → List DecodedRecord → Result Error (List DecodedRecord)
scan_loop zero file offset records = err out_of_fuel
scan_loop (suc fuel) file offset records = elim (ltb offset (length file)) [
  | false ↦ ok records
  | true ↦ elim (scan_record file offset) [
    | err e ↦ err e
    | ok torn ↦ ok records
    | ok (next r end) ↦ scan_loop fuel file end (records ++ (r ∷ []))
  ]
]

-- A round takes 36 bytes at least, so a round for each byte and one more are enough.
pub scan_segment_file : List ℕ → Result Error (List DecodedRecord)
scan_segment_file file = do
  header ← read_full file 0 segment_header_byte_size
  decoded ← decode_segment_header header
  scan_loop (suc (length file)) file segment_header_byte_size []
