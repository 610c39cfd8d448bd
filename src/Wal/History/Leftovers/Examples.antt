-- ===== src/Wal/History/Leftovers/Examples.antt =====
-- Appends that leave a log in disorder, at concrete inputs.
use dattaniddhi.Prelude.{
  ℕ, ◌≡◌, refl, true, List, [], arith, length, replicate, length-replicate, ltb, lt→ltb, err,
}
use dattaniddhi.Wal.Disk.{short}
use dattaniddhi.Wal.Examples.{good, good-NothingFails, wal, wal-Holds, first_segment}
use dattaniddhi.Wal.Format.{op_insert, failed_to_write, max_segment_file_size}
use dattaniddhi.Wal.Log.{Answers, sync_os, next_lsn, append_record}
use dattaniddhi.Wal.Log.Bounds.{length-record_bytes}
use dattaniddhi.Wal.Log.Steps.{size_with}
use dattaniddhi.Wal.Scanner.Crash.{length-segment_bytes}
use dattaniddhi.Wal.History.Headless.{Lost, append_record-Lost}
use dattaniddhi.Wal.History.Oversized.{Unreadable, append_record-Unreadable}
use dattaniddhi.Wal.History.Restarts.{Restarted, append_record-Restarted}
use dattaniddhi.Wal.History.Torn.{append_record-append_record_torn}

filled : (n : ℕ) → (bytes : List ℕ) × (length bytes ≡ n)
filled n = (replicate n 0, length-replicate {0} {A = ℕ} n 0)

-- As many bytes as a segment file may have.
abbrev filling : List ℕ
filling = (filled 67108864).0

length-filling : length filling ≡ 67108864
length-filling = (filled 67108864).1

append_record-Unreadable_example : Unreadable 1 (append_record good wal op_insert filling)
append_record-Unreadable_example =
    append_record-Unreadable good wal [] first_segment op_insert filling good-NothingFails wal-Holds
      (omega arith) (omega (arith, length-filling)) (omega (arith, length-filling))

abbrev cut_at_once : Answers
cut_at_once = record good { record_write = short 3 }

append_record-append_record_torn_example :
    ((append_record cut_at_once wal op_insert []).1 ≡ err failed_to_write)
    × Unreadable
        (next_lsn (append_record cut_at_once wal op_insert []).0)
        (append_record good (append_record cut_at_once wal op_insert []).0 op_insert [])
append_record-append_record_torn_example =
    append_record-append_record_torn cut_at_once good wal [] first_segment op_insert op_insert 3 []
      [] wal-Holds refl (omega arith) (omega arith) good-NothingFails
      (omega (arith, length-segment_bytes 1 [])) (omega (arith, length-segment_bytes 1 []))

abbrev full_disk : Answers
full_disk = record good { record_write = short 0 }

turns : ltb max_segment_file_size (size_with wal op_insert filling) ≡ true
turns = lt→ltb _ _ (
    omega (
      arith,
      length-record_bytes (next_lsn wal) op_insert filling,
      length-filling,
      length-segment_bytes 1 [],
    ))

append_record-Restarted_example :
    Restarted good sync_os [] (append_record full_disk wal op_insert filling)
append_record-Restarted_example =
    append_record-Restarted full_disk wal [] first_segment op_insert filling wal-Holds
      good-NothingFails refl (omega arith) turns good sync_os (omega arith) (omega arith)

abbrev half_header : Answers
half_header = record good { header_write = short 8 }

append_record-Lost_example : Lost (append_record half_header wal op_insert filling)
append_record-Lost_example =
    append_record-Lost half_header wal [] first_segment op_insert 8 filling wal-Holds refl refl refl
      (omega arith) (omega arith) turns
