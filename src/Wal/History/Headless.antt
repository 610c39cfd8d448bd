-- ===== src/Wal/History/Headless.antt =====
-- A rotation whose header is cut short.
use dattaniddhi.Prelude.{
  ℕ, ◌+◌, ◌<◌, ◌≡◌, ◌≢◌, refl, ap, ◌∙◌, sym, true, List, [], ◌∷◌, ◌++◌, arith, length-take, take,
  ltb, Result, ok, err, All-append,
}
use dattaniddhi.Wal.Bytes.{IsU64}
use dattaniddhi.Wal.Disk.{short, append_file, open_create}
use dattaniddhi.Wal.Disk.Files.{Absent, append_file_last, open_create-Absent}
use dattaniddhi.Wal.Format.{Error, failed_to_write, failed_to_read, max_segment_file_size}
use dattaniddhi.Wal.Log.{Wal, Segment, opened, closed, Answers, rotate_segment, append_record}
use dattaniddhi.Wal.Log.Bounds.{Attempt, attempt_all}
use dattaniddhi.Wal.Log.Steps.{
  next_seg_id, header_bytes, numbered, size_with, append_record_unrotated,
}
use dattaniddhi.Wal.Names.{segment_file_name}
use dattaniddhi.Wal.Open.{recover}
use dattaniddhi.Wal.Scanner.{DecodedRecord}
use dattaniddhi.Wal.Scanner.Fails.{scan_segment_file_headless}
use dattaniddhi.Wal.History.{SegmentLog, files, IsSegment}
use dattaniddhi.Wal.History.Appends.{Holds, Absent-files}
use dattaniddhi.Wal.History.Failures.{append_record_unopened}
use dattaniddhi.Wal.History.Recovers.{file_with, recover-last}
use dattaniddhi.Wal.History.Rotates.{files-append, Ascending-append, older_still}

-- The old segment is closed and the new one is created, but its header is cut short.
rotate_segment_headless :
    (os : Answers) (w : Wal) (n : ℕ)
    → os.close_ok ≡ true
    → os.create_ok ≡ true
    → os.header_write ≡ short n
    → w.active_segment.file ≡ opened
    → rotate_segment os w ≡ (
      record w {
        dir =
            append_file
              (segment_file_name (next_seg_id w))
              (take n (header_bytes (next_seg_id w)))
              (open_create (segment_file_name (next_seg_id w)) w.dir);
        active_segment = record w.active_segment { file = closed };
        seg_id = next_seg_id w;
      },
      err failed_to_write,
    )
unfolding rotate_segment
rotate_segment_headless os w n closes creates cut open' = ground arith

-- With the active file not open, appends leave the directory as it is, and the file not open.
attempt_all_unopened :
    (attempts : List Attempt) (w : Wal)
    → w.active_segment.file ≢ opened
    → ((attempt_all attempts w).dir ≡ w.dir)
      × ((attempt_all attempts w).active_segment.file ≢ opened)
unfolding attempt_all
attempt_all_unopened [] w shut = (refl, shut)
attempt_all_unopened (a ∷ attempts) w shut =
    let (fails, same, still) = append_record_unopened a.answers w a.op a.payload_bytes shut 0 in
    let (rest, last) =
      attempt_all_unopened attempts (append_record a.answers w a.op a.payload_bytes).0 still in
    (rest ∙ same, last)

-- The append failed. Behind any further appends, none succeeds and Recover fails.
pub record Lost (r : Wal × Result Error ℕ) : Type 0 where
  pub failed : r.1 ≡ err failed_to_write
  pub unreadable :
      (attempts : List Attempt) (rs : List DecodedRecord)
      → recover (attempt_all attempts r.0).dir ≢ ok rs
  pub stuck :
      (attempts : List Attempt) (os : Answers) (op : ℕ) (pl : List ℕ) (n : ℕ)
      → (append_record os (attempt_all attempts r.0) op pl).1 ≢ ok n

-- A rotation in which the write of the segment header is cut short makes the append fail; whatever
-- is appended from then on, no append succeeds, and Recover fails on the directory.
pub append_record-Lost :
    (os : Answers) (w : Wal) (old : List SegmentLog) (current : SegmentLog) (op n : ℕ) (pl : List ℕ)
    → Holds w old current
    → os.close_ok ≡ true
    → os.create_ok ≡ true
    → os.header_write ≡ short n
    → n < 16
    → IsU64 (current.id + 1)
    → ltb max_segment_file_size (size_with w op pl) ≡ true
    → Lost (append_record os w op pl)
append_record-Lost os w old current op n pl h closes creates cut few id_fits large =
    let id = current.id + 1 in
    let head = take n (header_bytes id) in
    let next : next_seg_id (numbered w) ≡ id = omega (arith, h.seg_id_is) in
    let before = old ++ (current ∷ []) in
    let fit = All-append IsSegment old (current ∷ []) h.old_fit (h.current_fits, tt) in
    let older = older_still old current id h.older (omega arith) in
    let absent : Absent (segment_file_name id) (files before) =
      Absent-files before id fit id_fits older in
    let turned =
      rotate_segment_headless os (numbered w) n closes creates cut
        (ap (λ (s : Segment). s.file) h.active_is) in
    let step =
      append_record_unrotated os w op pl failed_to_write large (ap (λ r. r.1) turned)
      ∙ ap (λ (r : Wal × Result Error (Unit {0})). (r.0, err failed_to_write)) turned in
    let dir : (append_record os w op pl).0.dir ≡ files before ++ (file_with id head ∷ []) =
      ap (λ r. r.0.dir) step
      ∙ ap
          (λ k.
            append_file (segment_file_name k) (take n (header_bytes k))
              (open_create (segment_file_name k) w.dir))
          next
      ∙ ap (λ d. append_file (segment_file_name id) head (open_create (segment_file_name id) d))
          (h.dir_is ∙ sym (files-append old (current ∷ [])))
      ∙ ap (append_file (segment_file_name id) head)
          (open_create-Absent (segment_file_name id) (files before) absent)
      ∙ append_file_last (segment_file_name id) head (files before) (file_with id []) absent refl in
    let fails : recover (append_record os w op pl).0.dir ≡ err failed_to_read =
      ap recover dir
      ∙ recover-last id head id_fits before fit (Ascending-append old current h.ascending h.older)
          older
          (scan_segment_file_headless head (omega (arith, length-take n (header_bytes id)))) in
    let shut : (append_record os w op pl).0.active_segment.file ≢ opened =
      λ o. let clash = sym (ap (λ r. r.0.active_segment.file) step) ∙ o in cc in
    record {
      failed = ap (λ r. r.1) step;
      unreadable = λ attempts rs readable.
          let (same, last) = attempt_all_unopened attempts (append_record os w op pl).0 shut in
          let clash = sym (ap recover same ∙ fails) ∙ readable in cc;
      stuck = λ attempts os' op' pl' m.
          let (same, last) = attempt_all_unopened attempts (append_record os w op pl).0 shut in
          (append_record_unopened os' (attempt_all attempts (append_record os w op pl).0) op' pl'
            last m).0;
    }
