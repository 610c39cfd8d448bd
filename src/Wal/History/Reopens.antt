-- ===== src/Wal/History/Reopens.antt =====
-- NewWAL on a directory that holds a history.
use dattaniddhi.Prelude.{
  ℕ, zero, suc, ◌+◌, ◌-◌, ◌≤◌, ◌<◌, ◌≡◌, refl, ap, ◌∙◌, sym, subst, List, [], ◌∷◌, ◌++◌, append-nil,
  append_assoc, arith, All, length, length-append, replicate, slice, some, none, Option, ok, ltb,
  ltb_of_le, lt→ltb, false,
}
use dattaniddhi.Wal.Bytes.{put_uint, uint}
use dattaniddhi.Wal.Bytes.Cursor.{At, At-start, At-skip, At-skip_uint, uint-At}
use dattaniddhi.Wal.Disk.{read_file}
use dattaniddhi.Wal.Disk.Files.{read_file_last}
use dattaniddhi.Wal.Format.{magic_bytes, wal_version}
use dattaniddhi.Wal.Header.{encode_record_header, encode_segment_header, new_segment_header}
use dattaniddhi.Wal.Header.RoundTrip.{length-encode_segment_header}
use dattaniddhi.Wal.Log.{Wal, Answers, opened}
use dattaniddhi.Wal.Names.{segment_file_name}
use dattaniddhi.Wal.Names.RoundTrip.{has_suffix-segment_file_name, parse_uint-segment_file_name}
use dattaniddhi.Wal.Open.{
  latest, latest_loop, get_latest_segment_id, latest_lsn_loop, get_latest_lsn, open_existing,
  new_wal,
}
use dattaniddhi.Wal.Scanner.Entry.{
  Entry, lsn_of, op_of, payload_of, entry_bytes, entries_bytes, EntryFits,
}
use dattaniddhi.Wal.Scanner.Rounds.{
  header_of, header_bytes, crc_bytes, entry_bytes-layout, length-entry_bytes,
  record_length-header_of,
}
use dattaniddhi.Wal.Scanner.Recovery.{segment_bytes}
use dattaniddhi.Wal.History.{SegmentLog, content_of, file_of, files, IsSegment}
use dattaniddhi.Wal.History.Appends.{Holds, Absent-files}
use dattaniddhi.Wal.History.Rotates.{files-append}

-- The number of the last entry, or `acc` where there is none.
abbrev pub last_lsn : List Entry → ℕ → ℕ
last_lsn [] acc = acc
last_lsn (e ∷ es) acc = last_lsn es (lsn_of e)

module _ (e : Entry) (fits : EntryFits e) {file : List ℕ} {offset : ℕ} (rest : List ℕ)
    (at : At file offset (entry_bytes e ++ rest)) where
  behind : List ℕ
  behind = (op_of e ∷ replicate 7 0) ++ ((payload_of e ++ crc_bytes e) ++ rest)

  At-length : At file (offset + 8) (
      put_uint 4 (header_of e).record_length
      ++ (replicate 4 0 ++ (put_uint 8 (lsn_of e) ++ behind)))
  unfolding encode_record_header behind
  At-length =
      let split : entry_bytes e ++ rest
          ≡ header_bytes e ++ ((payload_of e ++ crc_bytes e) ++ rest) =
        rw entry_bytes-layout (append_assoc (header_bytes e) (payload_of e ++ crc_bytes e) rest) in
      At-skip (magic_bytes ++ (wal_version ∷ [])) _ (subst (At file offset) split at) (offset + 8)
        refl

  read_length : uint (slice file (offset + 8) (offset + 12)) ≡ length (entry_bytes e)
  read_length =
      uint-At 4 (header_of e).record_length (offset + 12)
        (replicate 4 0 ++ (put_uint 8 (lsn_of e) ++ behind)) At-length (omega arith) (omega arith)
      ∙ record_length-header_of e fits
      ∙ sym (length-entry_bytes e)

  read_lsn : uint (slice file (offset + 16) (offset + 24)) ≡ lsn_of e
  read_lsn =
      let at12 =
        At-skip_uint 4 (header_of e).record_length (offset + 12)
          (replicate 4 0 ++ (put_uint 8 (lsn_of e) ++ behind)) At-length (omega arith) in
      let at16 =
        At-skip (replicate 4 0) (put_uint 8 (lsn_of e) ++ behind) at12 (offset + 16)
          (omega arith) in
      uint-At 8 (lsn_of e) (offset + 24) behind at16 (omega (arith, fits.lsn_fits)) (omega arith)

  latest_lsn_round :
      (fuel acc : ℕ)
      → latest_lsn_loop (suc fuel) file offset acc
        ≡ latest_lsn_loop fuel file (offset + length (entry_bytes e)) (lsn_of e)
  unfolding latest_lsn_loop
  latest_lsn_round fuel acc =
      let size = length-entry_bytes e in
      let room : ltb (length file) (offset + 32) ≡ false =
        ltb_of_le (length file) (offset + 32)
          (omega (arith, at.size, length-append (entry_bytes e) rest)) in
      let long : ltb (length (entry_bytes e)) 36 ≡ false =
        ltb_of_le (length (entry_bytes e)) 36 (omega arith) in
      let step : offset + 32 + (length (entry_bytes e) - 32) ≡ offset + length (entry_bytes e) =
        omega arith in
      rw (read_length, read_lsn, room, long, step)

latest_lsn_loop-entries :
    (es : List Entry) (fuel : ℕ) {file : List ℕ} {offset : ℕ} (acc : ℕ)
    → All EntryFits es
    → At file offset (entries_bytes es)
    → length (entries_bytes es) < fuel
    → latest_lsn_loop fuel file offset acc ≡ ok (last_lsn es acc)
unfolding latest_lsn_loop
latest_lsn_loop-entries [] (suc fuel) {file} {offset} acc fits at enough =
    rw (lt→ltb (length file) (offset + 32) (omega (arith, at.size)))
latest_lsn_loop-entries (e ∷ es) (suc fuel) {file} {offset} acc fits at enough =
    latest_lsn_round e fits.0 (entries_bytes es) at fuel acc
    ∙ latest_lsn_loop-entries es fuel (lsn_of e) fits.1
        (At-skip (entry_bytes e) (entries_bytes es) at (offset + length (entry_bytes e)) refl)
        (omega (arith, length-append (entry_bytes e) (entries_bytes es), length-entry_bytes e))
latest_lsn_loop-entries [] zero acc fits at enough = absurd (omega arith)
latest_lsn_loop-entries (e ∷ es) zero acc fits at enough = absurd (omega arith)

get_latest_lsn-content_of :
    (s : SegmentLog)
    → IsSegment s
    → s.tail ≡ []
    → get_latest_lsn (content_of s) ≡ ok (last_lsn s.entries 0)
unfolding get_latest_lsn
get_latest_lsn-content_of s fit untorn =
    let es = entries_bytes s.entries in
    let whole : content_of s ≡ segment_bytes s.id es =
      ap (λ t. segment_bytes s.id (es ++ t)) untorn ∙ ap (segment_bytes s.id) (append-nil es) in
    let header = encode_segment_header (new_segment_header wal_version s.id) in
    let size = length-encode_segment_header (new_segment_header wal_version s.id) in
    let file = segment_bytes s.id es in
    let at : At file 16 es = At-skip header es (At-start file) 16 (omega (arith, size)) in
    subst (λ f. get_latest_lsn f ≡ ok (last_lsn s.entries 0)) (sym whole)
      (latest_lsn_loop-entries s.entries (suc (length file)) 0 fit.entries_fit at
        (omega (arith, length-append header es)))

latest-latest :
    (found : Option ℕ) (a b : ℕ) → a < b → latest found b ≡ b → latest (some (latest found a)) b ≡ b
latest-latest none a b h newest = ground arith
latest-latest (some f) a b h newest = ground arith

latest_loop-files :
    (ss : List SegmentLog) (t : SegmentLog) (found : Option ℕ)
    → All IsSegment ss
    → IsSegment t
    → All (λ s. s.id < t.id) ss
    → latest found t.id ≡ t.id
    → latest_loop (files (ss ++ (t ∷ []))) found ≡ ok (some t.id)
unfolding latest_loop
latest_loop-files [] t found fit last below newest =
    rw (has_suffix-segment_file_name t.id, parse_uint-segment_file_name t.id last.id_fits, newest)
latest_loop-files (s ∷ ss) t found fit last below newest =
    rw (has_suffix-segment_file_name s.id, parse_uint-segment_file_name s.id fit.0.id_fits)
      (latest_loop-files ss t (some (latest found s.id)) fit.1 last below.1
        (latest-latest found s.id t.id below.0 newest))

-- The WAL that is opened: the directory and the history are as before, and the next number is behind
-- the last one of the last segment.
pub record Reopened (w : Wal) (old : List SegmentLog) (current : SegmentLog) (sp : ℕ) (v : Wal)
    : Type 0 where
  pub dir_is : v.dir ≡ w.dir
  pub holds : Holds v old current
  pub lsn_is : v.lsn ≡ last_lsn current.entries 0
  pub sync_policy_is : v.sync_policy ≡ sp
  pub not_done : v.done ≡ false

module _ (w : Wal) (old : List SegmentLog) (current : SegmentLog) (h : Holds w old current)
    (sp : ℕ) where
  abbrev pub reopened : Wal
  reopened = record {
    dir = w.dir;
    active_segment = record {
      seg_id = current.id;
      file = opened;
      current_size = length (content_of current);
    };
    lsn = last_lsn current.entries 0;
    seg_id = current.id;
    sync_policy = sp;
    done = false;
  }

  reopened-Reopened : Reopened w old current sp reopened
  reopened-Reopened = record {
    dir_is = refl;
    holds = record {
      dir_is = h.dir_is;
      old_fit = h.old_fit;
      current_fits = h.current_fits;
      ascending = h.ascending;
      older = h.older;
      untorn = h.untorn;
      active_is = refl;
      seg_id_is = refl;
      bounded = h.bounded;
    };
    lsn_is = refl;
    sync_policy_is = refl;
    not_done = refl;
  }

  open_existing-Holds : open_existing w.dir sp current.id ≡ ok reopened
  unfolding open_existing
  open_existing-Holds =
      let name = segment_file_name current.id in
      let there : read_file name w.dir ≡ some (content_of current) =
        ap (read_file name) h.dir_is
        ∙ read_file_last name (files old) (file_of current)
            (Absent-files old current.id h.old_fit h.current_fits.id_fits h.older) refl in
      rw (open_existing, there, get_latest_lsn-content_of current h.current_fits h.untorn)

  -- NewWAL, on the directory of a WAL that holds a history with nothing torn at its end, changes
  -- nothing in the directory and returns a WAL that holds the same history; its log sequence number
  -- is the one of the last entry of the last segment, and 0 where that segment has no entry.
  pub new_wal-Reopened :
      (os : Answers)
      → 1 ≤ sp
      → sp ≤ 3
      → (v : Wal) × (new_wal os w.dir sp ≡ (ok v, w.dir)) × Reopened w old current sp v
  unfolding new_wal get_latest_segment_id
  new_wal-Reopened os low high =
      let found : latest_loop w.dir none ≡ ok (some current.id) =
        ap (λ d. latest_loop d none) (h.dir_is ∙ sym (files-append old (current ∷ [])))
        ∙ latest_loop-files old current none h.old_fit h.current_fits h.older refl in
      let low' : ltb sp 1 ≡ false = ltb_of_le sp 1 low in
      let high' : ltb 3 sp ≡ false = ltb_of_le 3 sp high in
      (reopened, rw (new_wal, low', high', found, open_existing-Holds), reopened-Reopened)
