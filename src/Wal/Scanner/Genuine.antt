-- ===== src/Wal/Scanner/Genuine.antt =====
-- Every record that scanSegmentFile returns is an entry that the log can hold.
use dattaniddhi.Prelude.{
  ℕ, ◌+◌, ◌-◌, ◌≡◌, refl, sym, ap, ◌∙◌, subst, List, [], ◌∷◌, ◌++◌, arith, length, length-append,
  slice, length-slice, All, ◌==◌, ==→eq, ok, inl, inr, Result-cases, Bool-cases,
}
use dattaniddhi.Wal.Bytes.{IsByte, IsU64}
use dattaniddhi.Wal.Bytes.Pieces.{slice-IsByte}
use dattaniddhi.Wal.Format.{op_insert, op_delete}
use dattaniddhi.Wal.Header.{RecordHeader}
use dattaniddhi.Wal.Header.RoundTrip.{decode_record_header-HeaderFits, decode_record_header_lsn}
use dattaniddhi.Wal.Payload.{decode_insert_payload, decode_delete_payload}
use dattaniddhi.Wal.Payload.Sound.{decode_insert_payload-Decoded, decode_delete_payload-Decoded}
use dattaniddhi.Wal.Scanner.{DecodedRecord, decode_payload, scan_segment_file}
use dattaniddhi.Wal.Scanner.Entry.{
  Entry, insert, delete, lsn_of, payload_of, decoded, PayloadFits, EntryFits,
}
use dattaniddhi.Wal.Scanner.Rounds.{length-entry_bytes}
use dattaniddhi.Wal.Scanner.Verified.{Verified, scan_segment_file-Verified}

-- The entry that a payload decodes to, with the number of its header.
record Payload (lsn : ℕ) (pl : List ℕ) (r : DecodedRecord) : Type 0 where
  pub entry : Entry
  pub fits : PayloadFits entry
  pub lsn_is : lsn_of entry ≡ lsn
  pub decoded_is : decoded entry ≡ r
  pub left : List ℕ
  pub splits : pl ≡ payload_of entry ++ left

decode_payload-Payload :
    (h : RecordHeader) (pl : List ℕ) (r : DecodedRecord)
    → All IsByte pl
    → decode_payload h pl ≡ ok r
    → Payload h.lsn pl r
unfolding decode_payload
decode_payload-Payload h pl r small e = elim (Bool-cases (h.op_type == op_insert)) [
  | inl inserts ↦ elim (Result-cases (decode_insert_payload pl)) [
    | inr (x, failed) ↦ absurd (ground arith)
    | inl (ip, got) ↦
        let d = decode_insert_payload-Decoded pl ip small got in
        record {
          entry = insert h.lsn ip;
          fits = d.fits;
          lsn_is = refl;
          decoded_is = ground (arith, ==→eq h.op_type op_insert inserts);
          left = d.left;
          splits = d.splits;
        }
  ]
  | inr other ↦ elim (Bool-cases (h.op_type == op_delete)) [
    | inr neither ↦ absurd (ground arith)
    | inl deletes ↦ elim (Result-cases (decode_delete_payload pl)) [
      | inr (x, failed) ↦ absurd (ground arith)
      | inl (dp, got) ↦
          let d = decode_delete_payload-Decoded pl dp small got in
          record {
            entry = delete h.lsn dp;
            fits = d.fits;
            lsn_is = refl;
            decoded_is = ground (arith, ==→eq h.op_type op_delete deletes);
            left = d.left;
            splits = d.splits;
          }
    ]
  ]
]

-- The record is what an entry is decoded to, and the entry's fields stand in the file behind a record
-- header.
pub record Genuine (file : List ℕ) (r : DecodedRecord) : Type 0 where
  pub entry : Entry
  pub fits : EntryFits entry
  pub decoded_is : decoded entry ≡ r
  pub offset : ℕ
  pub end : ℕ
  pub left : List ℕ
  pub stands : slice file (offset + 32) end ≡ payload_of entry ++ left

Verified-Genuine :
    (file : List ℕ) (r : DecodedRecord) → All IsByte file → Verified file r → Genuine file r
Verified-Genuine file r small v =
    let o = v.offset in
    let l = v.header.record_length in
    let end = o + l - 4 in
    let (version, valid, long, short, size) =
      decode_record_header-HeaderFits (slice file o (o + 32)) v.header v.header_decodes in
    let p =
      decode_payload-Payload v.header (slice file (o + 32) end) r
        (slice-IsByte (o + 32) end file small) v.payload_decodes in
    let width = length-slice file (o + 32) end (omega (arith, v.within)) in
    let taken = ap length p.splits ∙ length-append (payload_of p.entry) p.left in
    record {
      entry = p.entry;
      fits = record {
        payload_fits = p.fits;
        lsn_fits = subst IsU64 (sym p.lsn_is) (
            decode_record_header_lsn (slice file o (o + 32)) v.header
              (slice-IsByte o (o + 32) file small) v.header_decodes);
        record_fits =
            omega (arith, length-entry_bytes p.entry, width, taken, short, long, v.within);
      };
      decoded_is = p.decoded_is;
      offset = o;
      end = end;
      left = p.left;
      stands = p.splits;
    }

All-Genuine :
    (file : List ℕ) (rs : List DecodedRecord)
    → All IsByte file
    → All (Verified file) rs
    → All (Genuine file) rs
All-Genuine file [] small h = tt
All-Genuine file (r ∷ rs) small h =
    (Verified-Genuine file r small h.0, All-Genuine file rs small h.1)

-- Whatever bytes a file holds, every record that scanSegmentFile returns is an entry that an append
-- could have written: its fields fit their widths, its record fits a segment, and the encoding of its
-- payload stands in the file.
pub scan_segment_file-Genuine :
    (file : List ℕ) {rs : List DecodedRecord}
    → All IsByte file
    → scan_segment_file file ≡ ok rs
    → All (Genuine file) rs
scan_segment_file-Genuine file {rs} small e =
    All-Genuine file rs small (scan_segment_file-Verified file e)
