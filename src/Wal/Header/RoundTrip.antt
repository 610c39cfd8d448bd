-- ===== src/Wal/Header/RoundTrip.antt =====
-- The header decoders accept exactly what they should and read back what the encoders wrote.
use dattaniddhi.Prelude.{
  ℕ, ◌^◌, ◌<◌, ◌≢◌, subst, All, slice, length-slice, ◌≤◌, ◌≡◌, refl, true, List, ◌∷◌, ◌++◌, arith,
  length, bytes_equal, ok, replicate,
}
use dattaniddhi.Wal.Bytes.Pieces.{put_uint-uint, slice-IsByte}
use dattaniddhi.Wal.Bytes.{IsByte, IsU32, IsU64, put_uint, uint, uint-put_uint}
use dattaniddhi.Wal.Format.{magic_bytes, wal_version, max_segment_file_size, min_record_length}
use dattaniddhi.Wal.Header.{
  SegmentHeader, encode_segment_header, decode_segment_header, RecordHeader, encode_record_header,
  decode_record_header, is_valid_optype,
}

pub record SegmentHeaderFits (h : SegmentHeader) : Type 0 where
  pub version_is : h.version ≡ wal_version
  pub segment_id_fits : IsU64 h.segment_id

-- What a record header of this version may hold.
pub record HeaderFits (h : RecordHeader) : Type 0 where
  pub version_is : h.version ≡ wal_version
  pub long_enough : min_record_length ≤ h.record_length
  pub short_enough : h.record_length ≤ max_segment_file_size
  pub lsn_fits : IsU64 h.lsn
  pub op_type_is : is_valid_optype h.op_type ≡ true

-- The bytes of the two headers.
pub encode_segment_header-layout :
    (h : SegmentHeader)
    → encode_segment_header h ≡ magic_bytes ++ (h.version ∷ put_uint 8 h.segment_id)
unfolding encode_segment_header
encode_segment_header-layout h = refl

pub encode_record_header-layout :
    (h : RecordHeader)
    → encode_record_header h
      ≡ magic_bytes
        ++ (h.version ∷ put_uint 4 h.record_length
            ++ (replicate 4 0 ++ (put_uint 8 h.lsn ++ (h.op_type ∷ replicate 7 0))))
unfolding encode_record_header
encode_record_header-layout h = refl

pub length-encode_record_header : (h : RecordHeader) → length (encode_record_header h) ≡ 32
unfolding encode_record_header
length-encode_record_header h = refl

pub length-encode_segment_header : (h : SegmentHeader) → length (encode_segment_header h) ≡ 16
unfolding encode_segment_header
length-encode_segment_header h = refl

-- decodeSegmentHeader reads back what encodeSegmentHeader wrote.
pub decode_segment_header-encode_segment_header :
    (h : SegmentHeader)
    → SegmentHeaderFits h
    → decode_segment_header (encode_segment_header h) ≡ ok h
unfolding encode_segment_header decode_segment_header bytes_equal
decode_segment_header-encode_segment_header h fits =
    ground (arith, fits.version_is, uint-put_uint 8 h.segment_id fits.segment_id_fits)

-- decodeRecordHeader reads back what encodeRecordHeader wrote.
pub decode_record_header-encode_record_header :
    (h : RecordHeader) → HeaderFits h → decode_record_header (encode_record_header h) ≡ ok h
unfolding encode_record_header decode_record_header bytes_equal
decode_record_header-encode_record_header h fits =
    let len : uint (put_uint 4 h.record_length) ≡ h.record_length =
      uint-put_uint 4 h.record_length (omega (arith, fits.short_enough)) in
    ground (arith, len, uint-put_uint 8 h.lsn fits.lsn_fits)

-- What decodeRecordHeader accepts has a supported version and operation, and a length in range.
pub decode_record_header-HeaderFits :
    (rh_bytes : List ℕ) (h : RecordHeader)
    → decode_record_header rh_bytes ≡ ok h
    → (h.version ≡ wal_version)
      × (is_valid_optype h.op_type ≡ true)
      × (min_record_length ≤ h.record_length)
      × (h.record_length ≤ max_segment_file_size)
      × (length rh_bytes ≡ 32)
unfolding decode_record_header
decode_record_header-HeaderFits rh_bytes h e = ground arith

-- The log sequence number of a header that was read from bytes.
pub decode_record_header_lsn :
    (bytes : List ℕ) (h : RecordHeader)
    → All IsByte bytes
    → decode_record_header bytes ≡ ok h
    → IsU64 h.lsn
unfolding decode_record_header
decode_record_header_lsn bytes h small e =
    let field = slice bytes 16 24 in
    let read : uint field ≡ h.lsn = ground arith in
    let long : length bytes ≡ 32 = ground arith in
    let width : length field ≡ 8 = length-slice bytes 16 24 (omega arith) in
    let bound =
      subst (λ w. uint field < 256 ^ w) width
        (put_uint-uint field (slice-IsByte 16 24 bytes small)).0 in
    omega (arith, read, bound)

-- A length above the size of a segment file is refused.
pub decode_record_header_large :
    (h : RecordHeader)
    → IsU32 h.record_length
    → max_segment_file_size < h.record_length
    → (h' : RecordHeader) → decode_record_header (encode_record_header h) ≢ ok h'
unfolding encode_record_header decode_record_header
decode_record_header_large h fits large h' =
    let len : uint (put_uint 4 h.record_length) ≡ h.record_length =
      uint-put_uint 4 h.record_length fits in
    ground (arith, len)
