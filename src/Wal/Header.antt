-- ===== src/Wal/Header.antt =====
-- The segment and record headers: segment.go, record.go and decoder.go of internal/store/wal.
pub mod RoundTrip
pub mod Torn
pub mod Total
use dattaniddhi.Prelude.{
  ℕ, ◌+◌, ◌%◌, ◌^◌, Bool, not, ◌||◌, List, [], ◌∷◌, length, replicate, slice, get_or, bytes_equal,
  ltb, ◌==◌, Result, ok, ◌>>=◌, ◌>>◌, require,
}
use dattaniddhi.Wal.Bytes.{put_uint, uint, write}
use dattaniddhi.Wal.Format.{
  Error, incomplete_segment_header, invalid_segment_magic, invalid_segment_version,
  invalid_record_header_size, invalid_record_magic, unsupported_version, invalid_operation_type,
  record_too_small, record_too_large, incomplete_checksum, magic_bytes, segment_header_byte_size,
  record_header_byte_size, op_insert, op_delete, op_update, wal_version, max_segment_file_size,
  min_record_length,
}

pub record SegmentHeader : Type 0 where
  pub version : ℕ
  pub segment_id : ℕ

unfoldable pub new_segment_header : ℕ → ℕ → SegmentHeader
new_segment_header v seg_id = record { version = v; segment_id = seg_id }

pub encode_segment_header : SegmentHeader → List ℕ
encode_segment_header seg_header =
    let buf = replicate segment_header_byte_size 0 in
    let buf = write 0 magic_bytes buf in
    let buf = write 7 (seg_header.version ∷ []) buf in
    write 8 (put_uint 8 seg_header.segment_id) buf

pub decode_segment_header : List ℕ → Result Error SegmentHeader
decode_segment_header sh_bytes = do
  require (length sh_bytes == segment_header_byte_size) incomplete_segment_header
  require (bytes_equal (slice sh_bytes 0 7) magic_bytes) invalid_segment_magic
  let version = get_or sh_bytes 7 0
  require (version == wal_version) invalid_segment_version
  let seg_id = uint (slice sh_bytes 8 16)
  ok (record { version = version; segment_id = seg_id })

pub record RecordHeader : Type 0 where
  pub version : ℕ
  pub record_length : ℕ
  pub lsn : ℕ
  pub op_type : ℕ

unfoldable pub new_record_header : ℕ → ℕ → ℕ → RecordHeader
new_record_header v lsn op = record { version = v; record_length = 0; lsn = lsn; op_type = op }

unfoldable pub encode_record_header : RecordHeader → List ℕ
encode_record_header rec_header =
    let buf = replicate record_header_byte_size 0 in
    let buf = write 0 magic_bytes buf in
    let buf = write 7 (rec_header.version ∷ []) buf in
    let buf = write 8 (put_uint 4 rec_header.record_length) buf in
    let buf = write 16 (put_uint 8 rec_header.lsn) buf in write 24 (rec_header.op_type ∷ []) buf

unfoldable pub is_valid_optype : ℕ → Bool
is_valid_optype op = (op == op_insert) || ((op == op_delete) || (op == op_update))

pub decode_record_header : List ℕ → Result Error RecordHeader
unfolding is_valid_optype
decode_record_header rh_bytes = do
  require (length rh_bytes == record_header_byte_size) invalid_record_header_size
  require (bytes_equal (slice rh_bytes 0 7) magic_bytes) invalid_record_magic
  let version = get_or rh_bytes 7 0
  let record_length = uint (slice rh_bytes 8 12)
  let lsn = uint (slice rh_bytes 16 24)
  let op_type = get_or rh_bytes 24 0
  require (version == wal_version) unsupported_version
  require (is_valid_optype op_type) invalid_operation_type
  require (not (ltb record_length min_record_length)) record_too_small
  require (not (ltb max_segment_file_size record_length)) record_too_large
  ok (record { version = version; record_length = record_length; lsn = lsn; op_type = op_type })

-- decodeCheckSumCrc32
pub decode_check_sum_crc32 : List ℕ → Result Error ℕ
decode_check_sum_crc32 ch_bytes = do
  require (length ch_bytes == 4) incomplete_checksum
  ok (uint ch_bytes)
