-- ===== src/Wal/History/Failures.antt =====
-- Appends that fail: a write cut short, a sync that fails, and a WAL whose file is not open.
use mathlib.Core.List.{map}
use dattaniddhi.Prelude.{
  ℕ, ◌<◌, ◌≡◌, ◌≢◌, refl, ap, ◌∙◌, sym, List, [], ◌∷◌, ◌++◌, append-nil, append_assoc, arith,
  All-append, length, take, drop, length-take, take-append-drop, inr, ok, err,
}
use dattaniddhi.Wal.Disk.{short, append_file}
use dattaniddhi.Wal.Disk.Files.{append_file_last}
use dattaniddhi.Wal.Format.{failed_to_write}
use dattaniddhi.Wal.Log.{
  Wal, Segment, opened, Answers, rotate_segment, write_record, append_record, close,
}
use dattaniddhi.Wal.Names.{segment_file_name}
use dattaniddhi.Wal.Open.{recover}
use dattaniddhi.Wal.Scanner.Entry.{Entry, lsn_of, entry_bytes, decoded, EntryFits}
use dattaniddhi.Wal.History.{SegmentLog, content_of, file_of, files, all_entries, IsSegment}
use dattaniddhi.Wal.History.Appends.{Holds, Absent-files}
use dattaniddhi.Wal.History.Recovers.{recover-files}
use dattaniddhi.Wal.History.Rotates.{files-append, all_entries-append, Ascending-append}
use dattaniddhi.Wal.History.Durable.{recover-Holds}

-- A WAL whose file is not open, be it closed by Close or by a rotation that failed, appends nothing
-- and leaves the directory as it is, whatever the operating system answers.
pub append_record_unopened :
    (os : Answers) (w : Wal) (op : ℕ) (payload_bytes : List ℕ)
    → w.active_segment.file ≢ opened
    → (n : ℕ)
    → ((append_record os w op payload_bytes).1 ≢ ok n)
      × ((append_record os w op payload_bytes).0.dir ≡ w.dir)
      × ((append_record os w op payload_bytes).0.active_segment.file ≢ opened)
unfolding append_record rotate_segment write_record
append_record_unopened os w op payload_bytes h n = grind arith

-- Close is idempotent: the second call changes nothing and reports no error.
pub close-close : (os os' : Answers) (w : Wal) → close os' (close os w).0 ≡ ((close os w).0, ok tt)
unfolding close
close-close os os' w = ground arith

-- A write that the operating system cuts short behind `n` bytes.
pub write_record_short :
    (os : Answers) (w : Wal) (lsn n : ℕ) (bytes : List ℕ)
    → os.record_write ≡ short n
    → w.active_segment.file ≡ opened
    → write_record os w lsn bytes ≡ (
      record w {
        dir = append_file (segment_file_name w.active_segment.seg_id) (take n bytes) w.dir;
      },
      err failed_to_write,
    )
unfolding write_record
write_record_short os w lsn n bytes cut open' = ground arith

-- The segment with a torn record at its end.
abbrev torn_segment : SegmentLog → ℕ → Entry → SegmentLog
torn_segment s n e = record s { tail = take n (entry_bytes e) }

torn_segment-IsSegment :
    (s : SegmentLog) (n : ℕ) (e : Entry)
    → IsSegment s
    → EntryFits e
    → n < length (entry_bytes e)
    → IsSegment (torn_segment s n e)
torn_segment-IsSegment s n e h fits cut = record {
  id_fits = h.id_fits;
  entries_fit = h.entries_fit;
  tail_clean = inr (record {
    entry = e;
    fits = fits;
    lost = drop n (entry_bytes e);
    whole = sym (take-append-drop n (entry_bytes e));
    proper = omega (arith, length-take n (entry_bytes e));
  });
}

content_of-torn_segment :
    (s : SegmentLog) (n : ℕ) (e : Entry)
    → s.tail ≡ []
    → content_of (torn_segment s n e) ≡ content_of s ++ take n (entry_bytes e)
content_of-torn_segment s n e untorn = simp (untorn, append_assoc, append-nil)

-- A write that is cut short returns an error and loses nothing: Recover still returns every entry
-- that was in the log, and no part of the entry that was cut.
pub write_record_short-recover :
    (os : Answers) (w : Wal) (old : List SegmentLog) (current : SegmentLog) (e : Entry) (n : ℕ)
    → Holds w old current
    → EntryFits e
    → os.record_write ≡ short n
    → n < length (entry_bytes e)
    → ((write_record os w (lsn_of e) (entry_bytes e)).1 ≡ err failed_to_write)
      × (recover (write_record os w (lsn_of e) (entry_bytes e)).0.dir ≡ recover w.dir)
write_record_short-recover os w old current e n h fits cut short' =
    let name = segment_file_name current.id in
    let torn = torn_segment current n e in
    let absent = Absent-files old current.id h.old_fit h.current_fits.id_fits h.older in
    let dir : append_file name (take n (entry_bytes e)) (files old ++ (file_of current ∷ []))
        ≡ files (old ++ (torn ∷ [])) =
      append_file_last name (take n (entry_bytes e)) (files old) (file_of current) absent refl
      ∙ ap (λ c. files old ++ (record (file_of current) { content = c } ∷ []))
          (sym (content_of-torn_segment current n e h.untorn))
      ∙ sym (files-append old (torn ∷ [])) in
    let after : recover (files (old ++ (torn ∷ [])))
        ≡ ok (map decoded (all_entries (old ++ (torn ∷ [])))) =
      recover-files (old ++ (torn ∷ []))
        (All-append IsSegment old (torn ∷ []) h.old_fit
          (torn_segment-IsSegment current n e h.current_fits fits short', tt))
        (Ascending-append old torn h.ascending h.older) in
    rw
      (write_record_short os w (lsn_of e) n (entry_bytes e) cut
        (ap (λ (s : Segment). s.file) h.active_is))
      (
        refl,
        rw h.active_is (ap (λ d. recover (append_file name (take n (entry_bytes e)) d)) h.dir_is)
            ∙ ap recover dir
            ∙ after
            ∙ ap (λ es. ok (map decoded es))
                (all_entries-append old (torn ∷ []) ∙ sym (all_entries-append old (current ∷ [])))
            ∙ sym (recover-Holds w old current h),
      )
