-- ===== src/Wal/Scanner/Recovery.antt =====
-- scanSegmentFile on what the log writes: it returns the entries, whole or up to a crash.
use mathlib.Core.List.{map}
use dattaniddhi.Prelude.{
  ℕ, zero, suc, ◌+◌, ◌≤◌, ◌<◌, ◌≡◌, refl, sym, ap, subst, ◌∙◌, ◌⊎◌, inl, inr, List, [], ◌∷◌, ◌++◌,
  append_assoc, append-nil, arith, true, length, length-append, All, ltb, lt→ltb, ltb_of_le,
  Bool-cases, ok,
}
use dattaniddhi.Wal.Bytes.{IsU64}
use dattaniddhi.Wal.Bytes.Cursor.{At, At-start, At-skip}
use dattaniddhi.Wal.Format.{wal_version}
use dattaniddhi.Wal.Header.{new_segment_header, encode_segment_header}
use dattaniddhi.Wal.Header.RoundTrip.{
  length-encode_segment_header, decode_segment_header-encode_segment_header,
}
use dattaniddhi.Wal.Scanner.{DecodedRecord, next, scan_record, scan_loop, scan_segment_file}
use dattaniddhi.Wal.Scanner.Entry.{Entry, entry_bytes, entries_bytes, decoded, EntryFits}
use dattaniddhi.Wal.Scanner.Rounds.{
  Torn, read_full-At, scan_record-entry, scan_record-torn, length-entry_bytes,
}

-- Nothing, or a torn record.
abbrev pub CleanTail : List ℕ → Type 0
CleanTail t = (t ≡ []) ⊎ Torn t

-- At the tail the loop ends with the records that it has.
scan_loop-tail :
    (fuel : ℕ) {file : List ℕ} {offset : ℕ} (records : List DecodedRecord) (tail : List ℕ)
    → At file offset tail
    → CleanTail tail
    → scan_loop (suc fuel) file offset records ≡ ok records
unfolding scan_loop
scan_loop-tail fuel {file} {offset} records tail at (inl e) =
    rw (ltb_of_le offset (length file) (omega (arith, at.size, ap length e)), scan_loop)
scan_loop-tail fuel {file} {offset} records tail at (inr t) =
    elim (Bool-cases (ltb offset (length file))) [
      | inl more ↦ rw (more, scan_record-torn tail t at, scan_loop)
      | inr done ↦ rw (done, scan_loop)
    ]

-- A round that returns a record goes on behind it.
pub scan_loop_step :
    (fuel : ℕ) (file : List ℕ) (offset : ℕ) (records : List DecodedRecord) {r : DecodedRecord}
    {end : ℕ}
    → ltb offset (length file) ≡ true
    → scan_record file offset ≡ ok (next r end)
    → scan_loop (suc fuel) file offset records ≡ scan_loop fuel file end (records ++ (r ∷ []))
unfolding scan_loop
scan_loop_step fuel file offset records {r} {end} more e = rw (more, scan_loop) (rw e)

scan_loop-entries :
    (es : List Entry) (fuel : ℕ) {file : List ℕ} {offset : ℕ} (records : List DecodedRecord)
    (tail : List ℕ)
    → At file offset (entries_bytes es ++ tail)
    → All EntryFits es
    → CleanTail tail
    → length es < fuel
    → scan_loop fuel file offset records ≡ ok (records ++ map decoded es)
scan_loop-entries es zero records tail at fits clean h = absurd (omega arith)
scan_loop-entries [] (suc fuel) records tail at fits clean h =
    rw append-nil (scan_loop-tail fuel records tail at clean)
scan_loop-entries (e ∷ es) (suc fuel) {file} {offset} records tail at fits clean h =
    let rest = entries_bytes es ++ tail in
    let at' : At file offset (entry_bytes e ++ rest) =
      subst (At file offset) (append_assoc (entry_bytes e) (entries_bytes es) tail) at in
    let more : offset < length file =
      omega (arith, at'.size, length-append (entry_bytes e) rest, length-entry_bytes e) in
    let end = offset + length (entry_bytes e) in
    let later =
      scan_loop-entries es fuel (records ++ (decoded e ∷ [])) tail
        (At-skip (entry_bytes e) rest at' end refl) fits.1 clean (omega arith) in
    scan_loop_step fuel file offset records (lt→ltb offset (length file) more)
      (scan_record-entry e rest fits.0 at')
    ∙ later
    ∙ ap ok (append_assoc records (decoded e ∷ []) (map decoded es))

pub entry_bytes_longer : (es : List Entry) → length es ≤ length (entries_bytes es)
entry_bytes_longer [] = omega arith
entry_bytes_longer (e ∷ es) = omega (
  arith,
  entry_bytes_longer es,
  length-append (entry_bytes e) (entries_bytes es),
  length-entry_bytes e,
)

-- The bytes of a segment file that holds the entries, and what is behind them.
abbrev pub segment_bytes : ℕ → List ℕ → List ℕ
segment_bytes seg_id body = encode_segment_header (new_segment_header wal_version seg_id) ++ body

-- scanSegmentFile returns the entries of a segment, in order; a torn record at its end is dropped.
pub scan_segment_file-entries :
    (seg_id : ℕ) (es : List Entry) (tail : List ℕ)
    → IsU64 seg_id
    → All EntryFits es
    → CleanTail tail
    → scan_segment_file (segment_bytes seg_id (entries_bytes es ++ tail)) ≡ ok (map decoded es)
unfolding scan_segment_file new_segment_header
scan_segment_file-entries seg_id es tail id_fits fits clean =
    let h = new_segment_header wal_version seg_id in
    let body = entries_bytes es ++ tail in
    let file = segment_bytes seg_id body in
    let size = length-encode_segment_header h in
    let at = At-start file in
    let at' : At file 16 body =
      At-skip (encode_segment_header h) body at 16 (omega (arith, size)) in
    rw (
      read_full-At (encode_segment_header h) body 16 at (sym size),
      decode_segment_header-encode_segment_header h
          (record { version_is = refl; segment_id_fits = id_fits }),
      scan_loop-entries es (suc (length file)) [] tail at' fits clean
          (omega (arith, entry_bytes_longer es, at'.size, length-append (entries_bytes es) tail)),
    )
