-- ===== src/Wal/Record/Layout.antt =====
-- What a record wrapper's `encode` writes: header, payload, and the checksum of both.
use dattaniddhi.Prelude.{
  ℕ, ◌+◌, ◌≡◌, refl, ◌∙◌, ap, List, ◌++◌, append_assoc, arith, length, take, replicate,
  length-append,
}
use dattaniddhi.Wal.Bytes.{put_uint, write}
use dattaniddhi.Wal.Bytes.Cursor.{Written-start, Written-write, Written-done, take-Written}
use dattaniddhi.Wal.Crc.{checksum_ieee}
use dattaniddhi.Wal.Header.{encode_record_header}
use dattaniddhi.Wal.Header.RoundTrip.{length-encode_record_header}
use dattaniddhi.Wal.Record.{RecordWrapper, encode_record}

-- The bytes that the checksum covers.
abbrev pub checked : RecordWrapper → List ℕ
checked r = encode_record_header r.rec_header ++ r.payload

pub encode_record-layout :
    (r : RecordWrapper)
    → encode_record r
      ≡ encode_record_header r.rec_header ++ (r.payload ++ put_uint 4 (checksum_ieee (checked r)))
unfolding encode_record
encode_record-layout r =
    let n = length r.payload in
    let head : length (encode_record_header r.rec_header) ≡ 32 =
      length-encode_record_header r.rec_header in
    let w = Written-start (32 + n + 4) in
    let w =
      Written-write (encode_record_header r.rec_header) 32 (n + 4) w (omega arith) (omega arith) in
    let w = Written-write r.payload (32 + n) 4 w refl (omega arith) in
    let h = encode_record_header r.rec_header in
    let buf = write 32 r.payload (write 0 h (replicate (32 + n + 4) 0)) in
    let check = put_uint 4 (checksum_ieee (take (32 + n) buf)) in
    let sealed = Written-write check (32 + n + 4) 0 w (omega arith) (omega arith) in
    Written-done sealed
    ∙ append_assoc h r.payload check
    ∙ ap (λ c. h ++ (r.payload ++ put_uint 4 (checksum_ieee c))) (take-Written w)

pub length-encode_record :
    (r : RecordWrapper) → length (encode_record r) ≡ 32 + length r.payload + 4
length-encode_record r =
    rw encode_record-layout
      (omega (arith, length-append {0}, length-encode_record_header r.rec_header))
