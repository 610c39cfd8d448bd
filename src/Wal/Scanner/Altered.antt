-- ===== src/Wal/Scanner/Altered.antt =====
-- scanSegmentFile on a record with a byte that is not the one that was written.
use dattaniddhi.Prelude.{
  ℕ, zero, suc, ◌+◌, ◌-◌, ◌≤◌, ◌<◌, ◌≡◌, ◌≢◌, refl, sym, ap, subst, ◌∙◌, List, ◌∷◌, ◌++◌,
  append_assoc, arith, false, length, length-append, All, All-append, All-split, take-append,
  drop-append, ltb, ltb_of_le, ◌==◌, ne→==, ok, err, replicate,
}
use dattaniddhi.Wal.Bytes.{IsU64, IsByte, put_uint, put_uint-IsByte, uint, uint-put_uint}
use dattaniddhi.Wal.Bytes.Cursor.{At, At-skip}
use dattaniddhi.Wal.Crc.{checksum_ieee, checksum_ieee-IsU32}
use dattaniddhi.Wal.Crc.Detects.{checksum_ieee_altered}
use dattaniddhi.Wal.Format.{invalid_checksum, magic_bytes}
use dattaniddhi.Wal.Header.RoundTrip.{
  length-encode_record_header, encode_record_header-layout,
  decode_record_header-encode_record_header,
}
use dattaniddhi.Wal.Scanner.{read_full, scan_body, scan_record, scan_segment_file}
use dattaniddhi.Wal.Scanner.Entry.{
  Entry, insert, delete, payload_of, op_of, entries_bytes, EntryFits,
}
use dattaniddhi.Wal.Scanner.Fails.{scan_segment_file_fails}
use dattaniddhi.Wal.Scanner.Recovery.{segment_bytes}
use dattaniddhi.Wal.Scanner.Rounds.{
  read_full-At, header_of, header_bytes, crc_bytes, record_length-header_of, header_of-HeaderFits,
}

op_of-IsByte : (e : Entry) → IsByte (op_of e)
op_of-IsByte (insert lsn ip) = omega arith
op_of-IsByte (delete lsn dp) = omega arith

zeros-IsByte : (n : ℕ) → All IsByte (replicate n 0)
zeros-IsByte zero = tt
zeros-IsByte (suc n) = (omega arith, zeros-IsByte n)

pub magic_bytes-IsByte : All IsByte magic_bytes
magic_bytes-IsByte = grind arith

pub header_bytes-IsByte : (e : Entry) → All IsByte (header_bytes e)
header_bytes-IsByte e =
    let h = header_of e in
    let numbers =
      All-append IsByte (put_uint 8 h.lsn) (op_of e ∷ replicate 7 0) (put_uint-IsByte 8 h.lsn)
        (op_of-IsByte e, zeros-IsByte 7) in
    let reserved =
      All-append IsByte (replicate 4 0) (put_uint 8 h.lsn ++ (op_of e ∷ replicate 7 0))
        (zeros-IsByte 4) numbers in
    let lengths =
      All-append IsByte (put_uint 4 h.record_length)
        (replicate 4 0 ++ (put_uint 8 h.lsn ++ (op_of e ∷ replicate 7 0)))
        (put_uint-IsByte 4 h.record_length) reserved in
    subst (All IsByte) (sym (encode_record_header-layout h)) (
      All-append IsByte magic_bytes
        (h.version ∷ put_uint 4 h.record_length
          ++ (replicate 4 0 ++ (put_uint 8 h.lsn ++ (op_of e ∷ replicate 7 0))))
        magic_bytes-IsByte (omega arith, lengths))

-- The checksum of the record with one byte altered.
altered_checksum :
    (e : Entry) (pre post : List ℕ) (b b' : ℕ)
    → All IsByte (payload_of e)
    → payload_of e ≡ pre ++ (b ∷ post)
    → IsByte b'
    → b ≢ b'
    → checksum_ieee (header_bytes e ++ payload_of e)
      ≢ checksum_ieee (header_bytes e ++ (pre ++ (b' ∷ post)))
altered_checksum e pre post b b' small split small' other same =
    let (front, back) = All-split IsByte pre (b ∷ post) (subst (All IsByte) split small) in
    let head = header_bytes e in
    checksum_ieee_altered (head ++ pre) post b b'
      (All-append IsByte head pre (header_bytes-IsByte e) front) back.1 back.0 small' other
      (ap checksum_ieee (append_assoc head pre (b ∷ post))
        ∙ ap (λ pl. checksum_ieee (head ++ pl)) (sym split)
        ∙ same
        ∙ ap checksum_ieee (sym (append_assoc head pre (b' ∷ post))))

-- Behind an intact header, an altered payload does not have the checksum that was stored.
scan_body_altered :
    (e : Entry) {file : List ℕ} {offset : ℕ} (pre post : List ℕ) (b b' : ℕ) (rest : List ℕ)
    → EntryFits e
    → All IsByte (payload_of e)
    → payload_of e ≡ pre ++ (b ∷ post)
    → IsByte b'
    → b ≢ b'
    → At file offset (header_bytes e ++ (((pre ++ (b' ∷ post)) ++ crc_bytes e) ++ rest))
    → scan_body file offset (header_bytes e) (header_of e) ≡ err invalid_checksum
unfolding scan_body
scan_body_altered e {file} {offset} pre post b b' rest fits small split small' other at =
    let n = length (payload_of e) in
    let bad = pre ++ (b' ∷ post) in
    let same_size : length bad ≡ n =
      omega (arith, ap length split, length-append pre (b ∷ post), length-append pre (b' ∷ post)) in
    let len : (header_of e).record_length ≡ 32 + n + 4 = record_length-header_of e fits in
    let body = bad ++ crc_bytes e in
    let size : length body ≡ n + 4 = omega (arith, length-append bad (crc_bytes e), same_size) in
    let at' : At file (offset + 32) (body ++ rest) =
      At-skip (header_bytes e) (body ++ rest) at (offset + 32)
        (omega (arith, length-encode_record_header (header_of e))) in
    let room : offset + (32 + n + 4) ≤ length file =
      omega (arith, at'.size, length-append body rest) in
    let l = (header_of e).record_length in
    let in_file : ltb (length file) (offset + l) ≡ false =
      ltb_of_le (length file) (offset + l) (omega (arith, len)) in
    let long : ltb l 36 ≡ false = ltb_of_le l 36 (omega (arith, len)) in
    let width : l - 32 ≡ length body = omega arith in
    let tail : length body - 4 ≡ length bad = omega arith in
    let got : read_full file (offset + 32) (length body) ≡ ok body =
      read_full-At body rest (length body) at' refl in
    let crc : uint (crc_bytes e) ≡ checksum_ieee (header_bytes e ++ payload_of e) =
      uint-put_uint 4 _ (checksum_ieee-IsU32 (header_bytes e ++ payload_of e)) in
    let differs : (checksum_ieee (header_bytes e ++ payload_of e)
          == checksum_ieee (header_bytes e ++ bad))
        ≡ false =
      ne→== _ _ (altered_checksum e pre post b b' small split small' other) in
    rw (in_file, long, width, got, tail, take-append, drop-append, crc, differs)

-- The bytes of an entry's record with another byte in the payload.
abbrev pub altered_bytes : Entry → List ℕ → List ℕ → ℕ → List ℕ
altered_bytes e pre post b' = header_bytes e ++ ((pre ++ (b' ∷ post)) ++ crc_bytes e)

-- One byte of the payload is not what was written.
pub record Altered (e : Entry) (pre post : List ℕ) (b b' : ℕ) : Type 0 where
  pub fits : EntryFits e
  pub bytes : All IsByte (payload_of e)
  pub split : payload_of e ≡ pre ++ (b ∷ post)
  pub byte : IsByte b'
  pub other : b ≢ b'

scan_record-Altered :
    (e : Entry) (pre post : List ℕ) (b b' : ℕ) {file : List ℕ} {offset : ℕ} (rest : List ℕ)
    → Altered e pre post b b'
    → At file offset (altered_bytes e pre post b' ++ rest)
    → scan_record file offset ≡ err invalid_checksum
unfolding scan_record
scan_record-Altered e pre post b b' {file} {offset} rest a at =
    let body = ((pre ++ (b' ∷ post)) ++ crc_bytes e) ++ rest in
    let at' : At file offset (header_bytes e ++ body) =
      subst (At file offset)
        (append_assoc (header_bytes e) ((pre ++ (b' ∷ post)) ++ crc_bytes e) rest) at in
    let hdr = length-encode_record_header (header_of e) in
    let room : offset + 32 ≤ length file =
      omega (arith, at'.size, length-append (header_bytes e) body) in
    let small : ltb (length file) (offset + 32) ≡ false = ground arith in
    let got : read_full file offset 32 ≡ ok (header_bytes e) =
      read_full-At (header_bytes e) body 32 at' (sym hdr) in
    rw (
      small,
      got,
      decode_record_header-encode_record_header (header_of e) (header_of-HeaderFits e a.fits),
      scan_body_altered e pre post b b' rest a.fits a.bytes a.split a.byte a.other at',
    )

-- A segment file in which one byte of a record's payload was replaced by another is refused for its
-- checksum, whatever stands behind the record.
pub scan_segment_file-Altered :
    (seg_id : ℕ) (es : List Entry) (e : Entry) (pre post : List ℕ) (b b' : ℕ) (rest : List ℕ)
    → IsU64 seg_id
    → All EntryFits es
    → Altered e pre post b b'
    → scan_segment_file
        (segment_bytes seg_id (entries_bytes es ++ (altered_bytes e pre post b' ++ rest)))
      ≡ err invalid_checksum
scan_segment_file-Altered seg_id es e pre post b b' rest id_fits fits a =
    let tail = altered_bytes e pre post b' ++ rest in
    let some' : 0 < length tail = omega (
      arith,
      length-append (altered_bytes e pre post b') rest,
      length-append (header_bytes e) ((pre ++ (b' ∷ post)) ++ crc_bytes e),
      length-encode_record_header (header_of e),
    ) in
    scan_segment_file_fails seg_id es tail id_fits fits some'
      (λ file end at. scan_record-Altered e pre post b b' rest a at)
