-- ===== src/Wal/History/Examples.antt =====
-- Sequences of appends at concrete inputs.
use dattaniddhi.Prelude.{ℕ, ◌+◌, ◌≤◌, ◌≡◌, List, arith, ok}
use dattaniddhi.Wal.Bytes.{IsU64}
use dattaniddhi.Wal.Log.{
  Wal, Answers, sync_os, next_lsn, append_insert, append_record, rotate_segment, write_record,
}
use dattaniddhi.Wal.Open.{recover}
use dattaniddhi.Wal.Payload.{InsertPayload}
use dattaniddhi.Wal.Payload.Layout.{length-encode_insert}
use dattaniddhi.Wal.Scanner.{DecodedRecord}
use dattaniddhi.Wal.Scanner.Entry.{insert, EntryFits}
use dattaniddhi.Wal.Scanner.Rounds.{length-entry_bytes}
use dattaniddhi.Wal.Examples.{point, good, good-NothingFails, entry_one_fits}
use dattaniddhi.Wal.History.Creates.{first_wal}
use dattaniddhi.Wal.History.Sizes.{WithinLimit, Calls-WithinLimit}
use dattaniddhi.Wal.History.Numbers.{Rising, last_number, Call, Calls, Calls-Rising}

pub point_fits_at : (n : ℕ) → IsU64 n → EntryFits (insert n point)
point_fits_at n h = record {
  payload_fits = entry_one_fits.payload_fits;
  lsn_fits = h;
  record_fits = omega (arith, length-entry_bytes (insert n point), length-encode_insert point);
}

pub append_insert-seg_id :
    (os : Answers) (w : Wal) (ip : InsertPayload) → (append_insert os w ip).0.seg_id ≤ w.seg_id + 1
unfolding append_insert append_record rotate_segment write_record
append_insert-seg_id os w ip = ground arith

pub append_insert-lsn :
    (os : Answers) (w : Wal) (ip : InsertPayload) → (append_insert os w ip).0.lsn ≡ next_lsn w
unfolding append_insert append_record rotate_segment write_record
append_insert-lsn os w ip = ground arith

abbrev one_insert : Wal
one_insert = (append_insert good (first_wal sync_os) point).0

abbrev two_inserts : Wal
two_inserts = (append_insert good one_insert point).0

two_inserts-Calls : Calls (first_wal sync_os) two_inserts
two_inserts-Calls =
    let seg = append_insert-seg_id good (first_wal sync_os) point in
    let lsn = append_insert-lsn good (first_wal sync_os) point in
    Calls.later
      (Calls.later Calls.here
        (Call.inserts good point good-NothingFails (omega arith) (omega arith) entry_one_fits))
      (Call.inserts good point good-NothingFails (omega (arith, seg)) (omega (arith, lsn))
        (point_fits_at _ (omega arith)))

Calls-Rising_example :
    (rs : List DecodedRecord) × (recover two_inserts.dir ≡ ok rs)
    × Rising 0 rs
    × (last_number 0 rs ≡ two_inserts.lsn)
Calls-Rising_example = Calls-Rising sync_os two_inserts-Calls

Calls-WithinLimit_example : WithinLimit two_inserts
Calls-WithinLimit_example = Calls-WithinLimit sync_os two_inserts-Calls
