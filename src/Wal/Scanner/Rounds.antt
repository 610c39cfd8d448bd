-- ===== src/Wal/Scanner/Rounds.antt =====
-- One round of the scanner: on a whole record, and on a record that was torn.
use dattaniddhi.Prelude.{
  ℕ, ◌+◌, ◌-◌, ◌%◌, ◌^◌, ◌≤◌, ◌<◌, ◌≡◌, refl, sym, ap, subst, ◌∙◌, List, ◌++◌, append_assoc, arith,
  true, false, length, length-append, take, drop, take-append, drop-append, take-append_le,
  take-append-drop, lt→ltb, ltb_of_le, Bool-cases, inl, inr, ltb, le→leb, ==_refl, ok,
}
use dattaniddhi.Wal.Bytes.{put_uint, uint, uint-put_uint}
use dattaniddhi.Wal.Bytes.Cursor.{At, At-skip, slice-At}
use dattaniddhi.Wal.Crc.{checksum_ieee, checksum_ieee-IsU32}
use dattaniddhi.Wal.Format.{wal_version}
use dattaniddhi.Wal.Header.{RecordHeader, encode_record_header, is_valid_optype, new_record_header}
use dattaniddhi.Wal.Header.RoundTrip.{
  HeaderFits, length-encode_record_header, decode_record_header-encode_record_header,
}
use dattaniddhi.Wal.Payload.RoundTrip.{
  decode_insert_payload-encode_insert, decode_delete_payload-encode_delete,
}
use dattaniddhi.Wal.Record.{new_record_wrapper}
use dattaniddhi.Wal.Record.Layout.{encode_record-layout, length-encode_record}
use dattaniddhi.Wal.Scanner.{read_full, decode_payload, torn, next, scan_body, scan_record}
use dattaniddhi.Wal.Scanner.Entry.{
  Entry, insert, delete, lsn_of, op_of, payload_of, entry_bytes, decoded, EntryFits,
}

-- A read that ends within the file.
pub read_full-At :
    {file : List ℕ} {cursor : ℕ} (a r : List ℕ) (n : ℕ)
    → At file cursor (a ++ r)
    → n ≡ length a
    → read_full file cursor n ≡ ok a
unfolding read_full
read_full-At {file} {cursor} a r n at e = rw (
  le→leb (cursor + n) (length file) (omega (arith, at.size, length-append a r)),
  slice-At a r at (cursor + n) (omega arith),
)

-- The header of an entry's record, with the length filled in.
abbrev pub header_of : Entry → RecordHeader
header_of e = record {
  version = wal_version;
  record_length = (32 + length (payload_of e) + 4) % 2 ^ 32;
  lsn = lsn_of e;
  op_type = op_of e;
}

op_of_valid : (e : Entry) → is_valid_optype (op_of e) ≡ true
unfolding is_valid_optype
op_of_valid (insert lsn ip) = refl
op_of_valid (delete lsn dp) = refl

module _ (e : Entry) where
  abbrev pub header_bytes : List ℕ
  header_bytes = encode_record_header (header_of e)

  abbrev pub crc_bytes : List ℕ
  crc_bytes = put_uint 4 (checksum_ieee (header_bytes ++ payload_of e))

  pub entry_bytes-layout : entry_bytes e ≡ header_bytes ++ (payload_of e ++ crc_bytes)
  unfolding new_record_header new_record_wrapper
  entry_bytes-layout = encode_record-layout _

  pub length-entry_bytes : length (entry_bytes e) ≡ 32 + length (payload_of e) + 4
  unfolding new_record_header new_record_wrapper
  length-entry_bytes = length-encode_record _

  module _ (fits : EntryFits e) where
    pub record_length-header_of : (header_of e).record_length ≡ 32 + length (payload_of e) + 4
    record_length-header_of = omega (arith, fits.record_fits, length-entry_bytes)

    pub header_of-HeaderFits : HeaderFits (header_of e)
    header_of-HeaderFits = record {
      version_is = refl;
      long_enough = omega (arith, record_length-header_of);
      short_enough = omega (arith, record_length-header_of, length-entry_bytes, fits.record_fits);
      lsn_fits = fits.lsn_fits;
      op_type_is = op_of_valid e;
    }

decode_payload-entry :
    (e : Entry) → EntryFits e → decode_payload (header_of e) (payload_of e) ≡ ok (decoded e)
unfolding decode_payload
decode_payload-entry (insert lsn ip) fits =
    rw (decode_insert_payload-encode_insert ip fits.payload_fits)
decode_payload-entry (delete lsn dp) fits =
    rw (decode_delete_payload-encode_delete dp fits.payload_fits)

-- Behind an intact header the body checks the checksum, and decodes the payload.
scan_body-entry :
    (e : Entry) {file : List ℕ} {offset : ℕ} (rest : List ℕ)
    → EntryFits e
    → At file offset (header_bytes e ++ ((payload_of e ++ crc_bytes e) ++ rest))
    → scan_body file offset (header_bytes e) (header_of e)
      ≡ ok (next (decoded e) (offset + (header_of e).record_length))
unfolding scan_body
scan_body-entry e {file} {offset} rest fits at =
    let n = length (payload_of e) in
    let len : (header_of e).record_length ≡ 32 + n + 4 = record_length-header_of e fits in
    let body = payload_of e ++ crc_bytes e in
    let size : length body ≡ n + 4 = length-append (payload_of e) (crc_bytes e) in
    let at' : At file (offset + 32) (body ++ rest) =
      At-skip (header_bytes e) (body ++ rest) at (offset + 32)
        (omega (arith, length-encode_record_header (header_of e))) in
    let room : offset + (32 + n + 4) ≤ length file =
      omega (arith, at'.size, length-append body rest) in
    let l = (header_of e).record_length in
    let small : ltb (length file) (offset + l) ≡ false =
      ltb_of_le (length file) (offset + l) (omega (arith, len)) in
    let long : ltb l 36 ≡ false = ltb_of_le l 36 (omega (arith, len)) in
    let width : l - 32 ≡ length body = omega arith in
    let tail : length body - 4 ≡ n = omega arith in
    let got : read_full file (offset + 32) (length body) ≡ ok body =
      read_full-At body rest (length body) at' refl in
    let crc : uint (crc_bytes e) ≡ checksum_ieee (header_bytes e ++ payload_of e) =
      uint-put_uint 4 _ (checksum_ieee-IsU32 (header_bytes e ++ payload_of e)) in
    rw (
      small,
      long,
      width,
      got,
      tail,
      take-append,
      drop-append,
      crc,
      ==_refl,
      decode_payload-entry e fits,
    )

-- A round on a whole record returns it, and goes on behind it.
pub scan_record-entry :
    (e : Entry) {file : List ℕ} {offset : ℕ} (rest : List ℕ)
    → EntryFits e
    → At file offset (entry_bytes e ++ rest)
    → scan_record file offset ≡ ok (next (decoded e) (offset + length (entry_bytes e)))
unfolding scan_record
scan_record-entry e {file} {offset} rest fits at =
    let body = (payload_of e ++ crc_bytes e) ++ rest in
    let split : entry_bytes e ++ rest ≡ header_bytes e ++ body =
      rw entry_bytes-layout (append_assoc (header_bytes e) (payload_of e ++ crc_bytes e) rest) in
    let at' : At file offset (header_bytes e ++ body) = subst (At file offset) split at in
    let hdr = length-encode_record_header (header_of e) in
    let room : offset + 32 ≤ length file =
      omega (arith, at'.size, length-append (header_bytes e) body) in
    let small : ltb (length file) (offset + 32) ≡ false = ground arith in
    let got : read_full file offset 32 ≡ ok (header_bytes e) =
      read_full-At (header_bytes e) body 32 at' (sym hdr) in
    rw
      (
        small,
        got,
        decode_record_header-encode_record_header (header_of e) (header_of-HeaderFits e fits),
        scan_body-entry e rest fits at',
      )
      (ap (λ l. ok (next (decoded e) (offset + l)))
        (omega (arith, record_length-header_of e fits, length-entry_bytes e)))

-- A proper prefix of an entry's record: what a torn write leaves.
pub record Torn (tail : List ℕ) : Type 0 where
  pub entry : Entry
  pub fits : EntryFits entry
  pub lost : List ℕ
  pub whole : entry_bytes entry ≡ tail ++ lost
  pub proper : length tail < length (entry_bytes entry)

scan_body-torn :
    (e : Entry) (file : List ℕ) (offset : ℕ)
    → EntryFits e
    → length file < offset + length (entry_bytes e)
    → scan_body file offset (header_bytes e) (header_of e) ≡ ok torn
unfolding scan_body
scan_body-torn e file offset fits short =
    let over : length file < offset + (header_of e).record_length =
      omega (arith, record_length-header_of e fits, length-entry_bytes e) in
    rw (lt→ltb _ _ over)

-- A round at a torn record ends the scan.
pub scan_record-torn :
    {file : List ℕ} {offset : ℕ} (tail : List ℕ)
    → Torn tail
    → At file offset tail
    → scan_record file offset ≡ ok torn
unfolding scan_record
scan_record-torn {file} {offset} tail t at = elim (Bool-cases (ltb (length file) (offset + 32))) [
  | inl short ↦ rw short
  | inr long ↦
      let e = t.entry in
      let hdr = length-encode_record_header (header_of e) in
      let room : 32 ≤ length tail = ground (arith, at.size) in
      let front : take 32 tail ≡ header_bytes e =
        sym (take-append_le 32 tail t.lost room)
        ∙ ap (take 32) (sym t.whole ∙ entry_bytes-layout e)
        ∙ subst (λ k. take k (header_bytes e ++ (payload_of e ++ crc_bytes e)) ≡ header_bytes e) hdr
            (take-append (header_bytes e) (payload_of e ++ crc_bytes e)) in
      let at' : At file offset (header_bytes e ++ drop 32 tail) =
        subst (At file offset) (sym (take-append-drop 32 tail) ∙ ap (λ h. h ++ drop 32 tail) front)
          at in
      let got : read_full file offset 32 ≡ ok (header_bytes e) =
        read_full-At (header_bytes e) (drop 32 tail) 32 at' (sym hdr) in
      rw
        (
          long,
          got,
          decode_record_header-encode_record_header (header_of e) (header_of-HeaderFits e t.fits),
        )
        (scan_body-torn e file offset t.fits (omega (arith, at.size, t.proper)))
]
