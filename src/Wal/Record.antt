-- ===== src/Wal/Record.antt =====
-- internal/store/wal/record.go: the record wrapper.
pub mod Layout
use dattaniddhi.Prelude.{ℕ, ◌+◌, ◌%◌, ◌^◌, List, length, take, replicate}
use dattaniddhi.Wal.Bytes.{put_uint, write}
use dattaniddhi.Wal.Crc.{checksum_ieee}
use dattaniddhi.Wal.Format.{op_insert, op_delete, wal_version}
use dattaniddhi.Wal.Header.{RecordHeader, new_record_header, encode_record_header}
use dattaniddhi.Wal.Payload.{InsertPayload, DeletePayload, encode_insert, encode_delete}

-- The field checksumCRC32 is written by `encode` and never read, so it is left out.
pub record RecordWrapper : Type 0 where
  pub rec_header : RecordHeader
  pub payload : List ℕ

unfoldable pub new_record_wrapper : RecordHeader → List ℕ → RecordWrapper
new_record_wrapper rh pl = record {
  rec_header = record rh { record_length = (32 + length pl + 4) % 2 ^ 32 };
  payload = pl;
}

-- (rw *recordWrapper) encode
pub encode_record : RecordWrapper → List ℕ
encode_record rw' =
    let pl_size = length rw'.payload in
    let buf = replicate (32 + pl_size + 4) 0 in
    let buf = write 0 (encode_record_header rw'.rec_header) buf in
    let buf = write 32 rw'.payload buf in
    let offset = 32 + pl_size in
    let checksum = checksum_ieee (take offset buf) in write offset (put_uint 4 checksum) buf
