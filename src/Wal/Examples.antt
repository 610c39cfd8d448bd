-- ===== src/Wal/Examples.antt =====
-- Runs of the write-ahead log on small inputs, and its theorems at concrete inputs.
use mathlib.Core.List.{Permᴰ}
use dattaniddhi.Prelude.{◌≡◌, ◌≢◌, refl, true, false, [], ◌∷◌, arith, length, inl, ok, err}
use dattaniddhi.Wal.Disk.{written, short}
use dattaniddhi.Wal.Format.{op_insert, failed_to_write, out_of_fuel}
use dattaniddhi.Wal.Log.{
  Wal, opened, closed, Answers, sync_os, append_insert, append_delete, append_record, write_record,
}
use dattaniddhi.Wal.Log.Steps.{NothingFails}
use dattaniddhi.Wal.Open.{recover, new_wal}
use dattaniddhi.Wal.Open.Total.{recover-new_wal-ne-out_of_fuel}
use dattaniddhi.Wal.Payload.{InsertPayload, DeletePayload, encode_insert, decode_insert_payload}
use dattaniddhi.Wal.Payload.Layout.{length-encode_insert, length-encode_delete}
use dattaniddhi.Wal.Payload.RoundTrip.{InsertFits, DeleteFits, decode_insert_payload-encode_insert}
use dattaniddhi.Wal.Scanner.Crash.{length-segment_bytes}
use dattaniddhi.Wal.Scanner.Entry.{Entry, insert, delete, entry_bytes, EntryFits, decoded}
use dattaniddhi.Wal.Scanner.Rounds.{length-entry_bytes}
use dattaniddhi.Wal.History.{SegmentLog, content_of, file_of, files}
use dattaniddhi.Wal.History.Appends.{Holds}
use dattaniddhi.Wal.History.Durable.{Durable, append_insert-Durable, append_delete-Durable}
use dattaniddhi.Wal.History.Failures.{append_record_unopened, write_record_short-recover}
use dattaniddhi.Wal.History.Listing.{recover-files_listed}
use dattaniddhi.Wal.History.Rotates.{fresh_segment}

abbrev pub point : InsertPayload
point = record {
  external_id = b'a' ∷ [];
  internal_id = 1;
  vector_data = 0x3f800000 ∷ [];
  meta_data = b'7' ∷ [];
}

abbrev pub gone_point : DeletePayload
gone_point = record { external_id = b'a' ∷ []; internal_id = 1 }

point_fits : InsertFits point
point_fits = omega arith

gone_point_fits : DeleteFits gone_point
gone_point_fits = omega arith

decode_insert_payload-encode_insert_example : decode_insert_payload (encode_insert point) ≡ ok point
decode_insert_payload-encode_insert_example = decode_insert_payload-encode_insert point point_fits

abbrev pub entry_one : Entry
entry_one = insert 1 point

abbrev pub entry_two : Entry
entry_two = delete 2 gone_point

pub entry_one_fits : EntryFits entry_one
entry_one_fits = record {
  payload_fits = point_fits;
  lsn_fits = omega arith;
  record_fits = omega (arith, length-entry_bytes entry_one, length-encode_insert point);
}

pub entry_two_fits : EntryFits entry_two
entry_two_fits = record {
  payload_fits = gone_point_fits;
  lsn_fits = omega arith;
  record_fits = omega (arith, length-entry_bytes entry_two, length-encode_delete gone_point);
}

abbrev pub good : Answers
good = record {
  close_ok = true;
  create_ok = true;
  header_write = written;
  record_write = written;
  sync_ok = true;
}

pub good-NothingFails : NothingFails good
good-NothingFails = record {
  closes = refl;
  creates = refl;
  writes_header = refl;
  writes_record = refl;
  syncs = refl;
}

abbrev pub first_segment : SegmentLog
first_segment = fresh_segment 1

abbrev pub wal : Wal
wal = record {
  dir = file_of first_segment ∷ [];
  active_segment = record {
    seg_id = 1;
    file = opened;
    current_size = length (content_of first_segment);
  };
  lsn = 0;
  seg_id = 1;
  sync_policy = sync_os;
  done = false;
}

pub wal-Holds : Holds wal [] first_segment
wal-Holds = record {
  dir_is = refl;
  old_fit = tt;
  current_fits = record { id_fits = omega arith; entries_fit = tt; tail_clean = inl refl };
  ascending = tt;
  older = tt;
  untorn = refl;
  active_is = refl;
  seg_id_is = refl;
  bounded = omega (arith, length-segment_bytes 1 []);
}

append_insert-Durable_example : Durable [] (insert 1 point) (append_insert good wal point)
append_insert-Durable_example =
    append_insert-Durable good wal [] first_segment good-NothingFails wal-Holds (omega arith) point
      entry_one_fits

append_delete-Durable_example : Durable [] (delete 1 gone_point) (append_delete good wal gone_point)
append_delete-Durable_example =
    append_delete-Durable good wal [] first_segment good-NothingFails wal-Holds (omega arith)
      gone_point
      (record {
        payload_fits = gone_point_fits;
        lsn_fits = omega arith;
        record_fits =
            omega
              (arith, length-entry_bytes (delete 1 gone_point), length-encode_delete gone_point);
      })

-- A directory of two segments with an entry each, read from the later one on.
abbrev earlier_segment : SegmentLog
earlier_segment = record { id = 1; entries = entry_one ∷ []; tail = [] }

abbrev later_segment : SegmentLog
later_segment = record { id = 2; entries = entry_two ∷ []; tail = [] }

recover-files_listed_example :
    recover (files (later_segment ∷ (earlier_segment ∷ [])))
    ≡ ok (decoded entry_one ∷ (decoded entry_two ∷ []))
recover-files_listed_example =
    recover-files_listed (earlier_segment ∷ (later_segment ∷ []))
      (later_segment ∷ (earlier_segment ∷ []))
      (
        record { id_fits = omega arith; entries_fit = (entry_one_fits, tt); tail_clean = inl refl },
        (
          record {
            id_fits = omega arith;
            entries_fit = (entry_two_fits, tt);
            tail_clean = inl refl;
          },
          tt,
        ),
      )
      ((omega arith, tt), (tt, tt)) (Permᴰ.swap refl refl)

abbrev cut_short : Answers
cut_short = record good { record_write = short 40 }

write_record_short-recover_example :
    ((write_record cut_short wal 1 (entry_bytes entry_one)).1 ≡ err failed_to_write)
    × (recover (write_record cut_short wal 1 (entry_bytes entry_one)).0.dir ≡ recover wal.dir)
write_record_short-recover_example =
    write_record_short-recover cut_short wal [] first_segment entry_one 40 wal-Holds entry_one_fits
      refl (omega (arith, length-entry_bytes entry_one, length-encode_insert point))

abbrev closed_wal : Wal
closed_wal = record wal { active_segment = record { seg_id = 1; file = closed; current_size = 16 } }

append_record_unopened_example :
    ((append_record good closed_wal op_insert []).1 ≢ ok 1)
    × ((append_record good closed_wal op_insert []).0.dir ≡ closed_wal.dir)
    × ((append_record good closed_wal op_insert []).0.active_segment.file ≢ opened)
append_record_unopened_example = append_record_unopened good closed_wal op_insert [] (λ e. cc) 1

recover-new_wal-ne-out_of_fuel_example :
    (recover closed_wal.dir ≢ err out_of_fuel)
    × ((new_wal good closed_wal.dir sync_os).0 ≢ err out_of_fuel)
recover-new_wal-ne-out_of_fuel_example = recover-new_wal-ne-out_of_fuel good closed_wal.dir sync_os
