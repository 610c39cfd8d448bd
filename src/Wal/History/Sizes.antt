-- ===== src/Wal/History/Sizes.antt =====
-- How large the files of a log grow.
use dattaniddhi.Prelude.{
  ℕ, ◌+◌, ◌≤◌, ◌≡◌, refl, ap, ◌∙◌, sym, subst, List, [], ◌∷◌, some, All, All-append, arith, length,
  ok_injective, Result,
}
use dattaniddhi.Wal.Disk.{DirEntry, read_file}
use dattaniddhi.Wal.Disk.Files.{read_file_last}
use dattaniddhi.Wal.Format.{Error, max_segment_file_size}
use dattaniddhi.Wal.Log.{Wal, Segment, append_insert, append_delete, next_lsn}
use dattaniddhi.Wal.Names.{segment_file_name}
use dattaniddhi.Wal.Scanner.Entry.{Entry, insert, delete}
use dattaniddhi.Wal.History.{SegmentLog, content_of, file_of, files}
use dattaniddhi.Wal.History.Appends.{Holds, Absent-files}
use dattaniddhi.Wal.History.Creates.{first_wal, first_wal-Holds}
use dattaniddhi.Wal.History.Numbers.{Call, Calls}
use dattaniddhi.Wal.History.Reopens.{new_wal-Reopened}
use dattaniddhi.Wal.History.Rotates.{IsSmall, Appended, append_record-Appended, fresh_segment}

-- A WAL that holds a history of which no segment is too large.
record Sized (w : Wal) : Type 0 where
  old : List SegmentLog
  current : SegmentLog
  holds : Holds w old current
  small : All IsSmall old

Appended-Sized :
    {w : Wal} (s : Sized w) (e : Entry) {r : Wal × Result Error ℕ}
    → Appended w s.old s.current e r
    → Sized r.0
Appended-Sized s e a = record {
  old = a.old';
  current = a.current';
  holds = a.holds;
  small = a.old_small s.small;
}

Call-Sized : {w v : Wal} → Call w v → Sized w → Sized v
unfolding append_insert append_delete
Call-Sized {w} (Call.inserts os ip good seg room fits) s =
    Appended-Sized s (insert (next_lsn w) ip) (
      append_record-Appended os w s.old s.current (insert (next_lsn w) ip) good s.holds fits refl
        (omega (arith, s.holds.seg_id_is)))
Call-Sized {w} (Call.deletes os dp good seg room fits) s =
    Appended-Sized s (delete (next_lsn w) dp) (
      append_record-Appended os w s.old s.current (delete (next_lsn w) dp) good s.holds fits refl
        (omega (arith, s.holds.seg_id_is)))
Call-Sized {w} (Call.reopens os sp v low high opened found) s =
    let (u, is, o) = new_wal-Reopened w s.old s.current s.holds sp os low high in
    let same : u ≡ v = ok_injective (sym (ap (λ t. t.0) is) ∙ opened) in
    subst Sized same (record { old = s.old; current = s.current; holds = o.holds; small = s.small })

Calls-Sized : {w v : Wal} → Sized w → Calls w v → Sized v
Calls-Sized s Calls.here = s
Calls-Sized s (Calls.later calls call) = Call-Sized call (Calls-Sized s calls)

IsSmall-files :
    (ss : List SegmentLog)
    → All IsSmall ss
    → All (λ (f : DirEntry). length f.content ≤ max_segment_file_size + 16) (files ss)
IsSmall-files [] h = tt
IsSmall-files (s ∷ ss) h = (h.0, IsSmall-files ss h.1)

-- No file of the directory is more than a segment header longer than the limit, and the size that
-- is counted for the active segment is the length of its file.
pub record WithinLimit (w : Wal) : Type 0 where
  pub files_small : All (λ (f : DirEntry). length f.content ≤ max_segment_file_size + 16) w.dir
  pub active : List ℕ
  pub active_is : read_file (segment_file_name w.seg_id) w.dir ≡ some active
  pub counted : w.active_segment.current_size ≡ length active

-- Behind any sequence of appends in which no call fails, every record fits its fields and a segment,
-- and numbers are left, and of reopenings that find a number in the last segment, from the WAL of an
-- empty directory on: no file is more than a segment header longer than the limit, and the size that is counted for the
-- active segment is the length of its file.
pub Calls-WithinLimit : (sp : ℕ) {w : Wal} → Calls (first_wal sp) w → WithinLimit w
Calls-WithinLimit sp {w} calls =
    let start : Sized (first_wal sp) = record {
      old = [];
      current = fresh_segment 1;
      holds = first_wal-Holds sp;
      small = tt;
    } in
    let s = Calls-Sized start calls in
    let h = s.holds in
    let name = segment_file_name s.current.id in
    record {
      files_small =
          subst (All (λ (f : DirEntry). length f.content ≤ max_segment_file_size + 16))
            (sym h.dir_is)
            (All-append (λ (f : DirEntry). length f.content ≤ max_segment_file_size + 16)
              (files s.old) (file_of s.current ∷ []) (IsSmall-files s.old s.small) (h.bounded, tt));
      active = content_of s.current;
      active_is =
          ap (λ n. read_file (segment_file_name n) w.dir) h.seg_id_is
          ∙ ap (read_file name) h.dir_is
          ∙ read_file_last name (files s.old) (file_of s.current)
              (Absent-files s.old s.current.id h.old_fit h.current_fits.id_fits h.older) refl;
      counted = ap (λ (t : Segment). t.current_size) h.active_is;
    }
