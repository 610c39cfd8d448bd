-- ===== src/Wal/Scanner/Fails.antt =====
-- Segment files that scanSegmentFile refuses, behind records that are whole.
use dattaniddhi.Prelude.{
  ℕ, zero, suc, ◌+◌, ◌≤◌, ◌<◌, ◌≡◌, refl, sym, subst, ◌∙◌, List, [], ◌∷◌, ◌++◌, append_assoc, arith,
  false, length, length-append, All, take, drop, take-append-drop, length-take, ltb, lt→ltb, ok,
  err,
}
use dattaniddhi.Wal.Bytes.{IsU64}
use dattaniddhi.Wal.Bytes.Cursor.{At, At-start, At-skip}
use dattaniddhi.Wal.Format.{failed_to_read, Error, wal_version}
use dattaniddhi.Wal.Header.{decode_record_header, new_segment_header, encode_segment_header}
use dattaniddhi.Wal.Header.RoundTrip.{
  length-encode_segment_header, decode_segment_header-encode_segment_header,
}
use dattaniddhi.Wal.Scanner.{DecodedRecord, read_full, scan_record, scan_loop, scan_segment_file}
use dattaniddhi.Wal.Scanner.Entry.{Entry, entry_bytes, entries_bytes, decoded, EntryFits}
use dattaniddhi.Wal.Scanner.Recovery.{scan_loop_step, entry_bytes_longer, segment_bytes}
use dattaniddhi.Wal.Scanner.Rounds.{read_full-At, scan_record-entry, length-entry_bytes}

-- Behind whole records the loop comes to the one that fails.
scan_loop_fails :
    (es : List Entry) (fuel : ℕ) {file : List ℕ} {offset : ℕ} (records : List DecodedRecord)
    (tail : List ℕ) {x : Error}
    → At file offset (entries_bytes es ++ tail)
    → All EntryFits es
    → 0 < length tail
    → ((end : ℕ) → At file end tail → scan_record file end ≡ err x)
    → length es < fuel
    → scan_loop fuel file offset records ≡ err x
unfolding scan_loop
scan_loop_fails es zero records tail at fits some' fails h = absurd (omega arith)
scan_loop_fails [] (suc fuel) {file} {offset} records tail at fits some' fails h =
    rw (lt→ltb offset (length file) (omega (arith, at.size)), fails offset at, scan_loop)
scan_loop_fails (e ∷ es) (suc fuel) {file} {offset} records tail at fits some' fails h =
    let rest = entries_bytes es ++ tail in
    let at' : At file offset (entry_bytes e ++ rest) =
      subst (At file offset) (append_assoc (entry_bytes e) (entries_bytes es) tail) at in
    let more : offset < length file =
      omega (arith, at'.size, length-append (entry_bytes e) rest, length-entry_bytes e) in
    scan_loop_step fuel file offset records (lt→ltb offset (length file) more)
      (scan_record-entry e rest fits.0 at')
    ∙ scan_loop_fails es fuel (records ++ (decoded e ∷ [])) tail
        (At-skip (entry_bytes e) rest at' (offset + length (entry_bytes e)) refl) fits.1 some' fails
        (omega arith)

-- A segment file in which, behind whole records, a round fails.
pub scan_segment_file_fails :
    (seg_id : ℕ) (es : List Entry) (tail : List ℕ) {x : Error}
    → IsU64 seg_id
    → All EntryFits es
    → 0 < length tail
    → ((file : List ℕ) (end : ℕ) → At file end tail → scan_record file end ≡ err x)
    → scan_segment_file (segment_bytes seg_id (entries_bytes es ++ tail)) ≡ err x
unfolding scan_segment_file new_segment_header
scan_segment_file_fails seg_id es tail id_fits fits some' fails =
    let h = new_segment_header wal_version seg_id in
    let body = entries_bytes es ++ tail in
    let file = segment_bytes seg_id body in
    let size = length-encode_segment_header h in
    let at = At-start file in
    let at' : At file 16 body =
      At-skip (encode_segment_header h) body at 16 (omega (arith, size)) in
    rw (
      read_full-At (encode_segment_header h) body 16 at (sym size),
      decode_segment_header-encode_segment_header h
          (record { version_is = refl; segment_id_fits = id_fits }),
      scan_loop_fails es (suc (length file)) [] tail at' fits some' (λ end. fails file end)
          (omega (arith, entry_bytes_longer es, at'.size, length-append (entries_bytes es) tail)),
    )

-- A record header that is refused.
scan_record_refused :
    (tail : List ℕ) {x : Error} (file : List ℕ) (end : ℕ)
    → 32 ≤ length tail
    → decode_record_header (take 32 tail) ≡ err x
    → At file end tail
    → scan_record file end ≡ err x
unfolding scan_record
scan_record_refused tail file end room refused at =
    let at' : At file end (take 32 tail ++ drop 32 tail) =
      subst (At file end) (sym (take-append-drop 32 tail)) at in
    let small : ltb (length file) (end + 32) ≡ false = ground (arith, at.size) in
    let got : read_full file end 32 ≡ ok (take 32 tail) =
      read_full-At (take 32 tail) (drop 32 tail) 32 at' (omega (arith, length-take 32 tail)) in
    rw (small, got, refused)

-- A segment file in which, behind whole records, a record header is refused.
pub scan_segment_file_refused :
    (seg_id : ℕ) (es : List Entry) (tail : List ℕ) {x : Error}
    → IsU64 seg_id
    → All EntryFits es
    → 32 ≤ length tail
    → decode_record_header (take 32 tail) ≡ err x
    → scan_segment_file (segment_bytes seg_id (entries_bytes es ++ tail)) ≡ err x
scan_segment_file_refused seg_id es tail id_fits fits room refused =
    scan_segment_file_fails seg_id es tail id_fits fits (omega arith)
      (λ file end. scan_record_refused tail file end room refused)

-- A file without a whole segment header.
pub scan_segment_file_headless :
    (bytes : List ℕ) → length bytes < 16 → scan_segment_file bytes ≡ err failed_to_read
unfolding scan_segment_file read_full
scan_segment_file_headless bytes short' = ground arith
