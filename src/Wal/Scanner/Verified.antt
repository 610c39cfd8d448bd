-- ===== src/Wal/Scanner/Verified.antt =====
-- Every record that scanSegmentFile returns was checked: no byte of it is trusted unread.
use dattaniddhi.Prelude.{
  ℕ, zero, suc, ◌+◌, ◌-◌, ◌≤◌, ◌≡◌, ap, ◌∙◌, List, [], ◌∷◌, ◌++◌, arith, length, slice, take, drop,
  length-slice, take-slice, drop-slice, slice-append-slice, All, All-append, ok, subst, inl, inr,
  Bool-cases, ltb, bind_succeeded, ◌>>=◌,
}
use dattaniddhi.Wal.Bytes.{uint}
use dattaniddhi.Wal.Crc.{checksum_ieee}
use dattaniddhi.Wal.Format.{min_record_length}
use dattaniddhi.Wal.Header.{RecordHeader, decode_record_header, decode_segment_header}
use dattaniddhi.Wal.Scanner.{
  DecodedRecord, torn, next, read_full, decode_payload, scan_body, scan_record, scan_loop,
  scan_segment_file,
}
use dattaniddhi.Wal.Scanner.Total.{fails, stops, goes_on, scan_record_ends}

-- The record `r` stands in the file at some offset: a valid header, all of the record's bytes within
-- the file, the CRC of header and payload in its last four bytes, and a payload that decodes to `r`.
pub record Verified (file : List ℕ) (r : DecodedRecord) : Type 0 where
  pub offset : ℕ
  pub header : RecordHeader
  pub header_decodes : decode_record_header (slice file offset (offset + 32)) ≡ ok header
  pub long_enough : min_record_length ≤ header.record_length
  pub within : offset + header.record_length ≤ length file
  pub checksum_matches :
      uint (slice file (offset + header.record_length - 4) (offset + header.record_length))
      ≡ checksum_ieee (slice file offset (offset + header.record_length - 4))
  pub payload_decodes :
      decode_payload header (slice file (offset + 32) (offset + header.record_length - 4)) ≡ ok r

-- The pieces that a round reads, as slices of the file.
record_pieces :
    (file : List ℕ) (o l : ℕ)
    → 36 ≤ l
    → o + l ≤ length file
    → let body = slice file (o + 32) (o + 32 + (l - 32)) in
      (take (length body - 4) body ≡ slice file (o + 32) (o + l - 4))
      × (drop (length body - 4) body ≡ slice file (o + l - 4) (o + l))
      × (slice file o (o + 32) ++ slice file (o + 32) (o + l - 4) ≡ slice file o (o + l - 4))
record_pieces file o l long room =
    let size = length-slice file (o + 32) (o + 32 + (l - 32)) (omega arith) in
    let keep : length (slice file (o + 32) (o + 32 + (l - 32))) - 4 ≡ l - 36 = omega arith in
    let end : o + 32 + (l - 32) ≡ o + l = omega arith in
    (
      rw keep (
          take-slice file (o + 32) (o + 32 + (l - 32)) (l - 36) (o + l - 4) (omega arith)
            (omega arith)),
      rw keep (
          drop-slice file (o + 32) (o + 32 + (l - 32)) (l - 36) (o + l - 4) (omega arith)
            (omega arith)
          ∙ ap (slice file (o + l - 4)) end),
      slice-append-slice file o (o + 32) (o + l - 4) (omega arith) (omega arith),
    )

scan_body-Verified :
    (file : List ℕ) (o : ℕ) (h : RecordHeader) {r : DecodedRecord} {end : ℕ}
    → decode_record_header (slice file o (o + 32)) ≡ ok h
    → scan_body file o (slice file o (o + 32)) h ≡ ok (next r end)
    → Verified file r
unfolding scan_body read_full
scan_body-Verified file o h {r} {end} dec e =
    let l = h.record_length in
    let body = slice file (o + 32) (o + 32 + (l - 32)) in
    let long : 36 ≤ l = ground arith in
    let room : o + l ≤ length file = ground arith in
    let (front, back, joined) = record_pieces file o l long room in
    let crc : uint (drop (length body - 4) body)
        ≡ checksum_ieee (slice file o (o + 32) ++ take (length body - 4) body) =
      ground arith in
    let payload : decode_payload h (take (length body - 4) body) ≡ ok r = ground arith in
    record {
      offset = o;
      header = h;
      header_decodes = dec;
      long_enough = long;
      within = room;
      checksum_matches = rw (← back, ← joined, ← front) crc;
      payload_decodes = rw (← front) payload;
    }

scan_record-Verified :
    (file : List ℕ) (o : ℕ) {r : DecodedRecord} {end : ℕ}
    → scan_record file o ≡ ok (next r end)
    → Verified file r
unfolding scan_record
scan_record-Verified file o {r} {end} e = elim (Bool-cases (ltb (length file) (o + 32))) [
  | inl short ↦ let e' : ok torn ≡ ok (next r end) = rw short at e in cc
  | inr long ↦
      let e' : (read_full file o 32 >>= λ bytes.
      decode_record_header bytes >>= scan_body file o bytes)
          ≡ ok (next r end) =
        rw long at e in
      let (bytes, read, rest) = bind_succeeded _ (read_full file o 32) e' in
      let (h, dec, body) =
        bind_succeeded (scan_body file o bytes) (decode_record_header bytes) rest in
      let same : bytes ≡ slice file o (o + 32) = unfold read_full in ground arith in
      scan_body-Verified file o h (rw same at dec) (rw same at body)
]

scan_loop-Verified :
    (fuel : ℕ) (file : List ℕ) (o : ℕ) (records : List DecodedRecord) {rs : List DecodedRecord}
    → All (Verified file) records
    → scan_loop fuel file o records ≡ ok rs
    → All (Verified file) rs
unfolding scan_loop
scan_loop-Verified zero file o records all e = cc
scan_loop-Verified (suc fuel) file o records {rs} all e = elim (scan_record_ends file o) [
  | fails x p ↦ keep (ground arith)
  | stops p ↦ keep (ground arith)
  | goes_on r end p ↦ elim (Bool-cases (ltb o (length file))) [
    | inl more ↦
        scan_loop-Verified fuel file end (records ++ (r ∷ []))
          (All-append (Verified file) records (r ∷ []) all (scan_record-Verified file o p, tt))
          (ground arith)
    | inr done ↦ keep (ground arith)
  ]
]
  where
    keep : records ≡ rs → All (Verified file) rs
    keep same = subst (All (Verified file)) same all

-- Every record that scanSegmentFile returns stands in the file, whole, with a header of this version
-- and with a checksum that matches: whatever the file holds, nothing else is ever returned.
pub scan_segment_file-Verified :
    (file : List ℕ) {rs : List DecodedRecord}
    → scan_segment_file file ≡ ok rs
    → All (Verified file) rs
unfolding scan_segment_file
scan_segment_file-Verified file {rs} e =
    let (bytes, read, rest) = bind_succeeded _ (read_full file 0 16) e in
    let (h, dec, loop) = bind_succeeded _ (decode_segment_header bytes) rest in
    scan_loop-Verified (suc (length file)) file 16 [] tt loop
