-- ===== src/Wal/Open/Total.antt =====
-- Recover and NewWAL end by themselves.
use dattaniddhi.Prelude.{
  ℕ, zero, suc, ◌+◌, ◌-◌, ◌<◌, ◌≢◌, List, [], ◌∷◌, Option, none, arith, length, slice, err,
}
use dattaniddhi.Wal.Bytes.{uint}
use dattaniddhi.Wal.Disk.{DirEntry}
use dattaniddhi.Wal.Format.{out_of_fuel}
use dattaniddhi.Wal.Log.{Answers, create_segment, append_segment}
use dattaniddhi.Wal.Scanner.Total.{scan_segment_file-ne-out_of_fuel}
use dattaniddhi.Wal.Open.{
  Found, latest_loop, get_latest_segment_id, latest_lsn_loop, get_latest_lsn, open_existing,
  open_new, new_wal, list_segments, get_all_segment, scan_segments, recover,
}

latest_lsn_loop-ne-out_of_fuel :
    (fuel : ℕ) (file : List ℕ) (cursor lsn : ℕ)
    → length file - cursor < fuel
    → latest_lsn_loop fuel file cursor lsn ≢ err out_of_fuel
unfolding latest_lsn_loop
latest_lsn_loop-ne-out_of_fuel zero file cursor lsn h = absurd (omega arith)
latest_lsn_loop-ne-out_of_fuel (suc fuel) file cursor lsn h =
    let record_length = uint (slice file (cursor + 8) (cursor + 12)) in
    ground (
      arith,
      latest_lsn_loop-ne-out_of_fuel fuel file (cursor + 32 + (record_length - 32))
          (uint (slice file (cursor + 16) (cursor + 24))),
    )

latest_loop-ne-out_of_fuel :
    (entries : List DirEntry) (found : Option ℕ) → latest_loop entries found ≢ err out_of_fuel
unfolding latest_loop
latest_loop-ne-out_of_fuel [] found = grind arith
latest_loop-ne-out_of_fuel (entry ∷ entries) found =
    grind (arith, latest_loop-ne-out_of_fuel entries)

list_segments-ne-out_of_fuel : (entries : List DirEntry) → list_segments entries ≢ err out_of_fuel
unfolding list_segments
list_segments-ne-out_of_fuel [] = grind arith
list_segments-ne-out_of_fuel (entry ∷ entries) = grind (arith, list_segments-ne-out_of_fuel entries)

scan_segments-ne-out_of_fuel : (ss : List Found) → scan_segments ss ≢ err out_of_fuel
unfolding scan_segments
scan_segments-ne-out_of_fuel [] = grind arith
scan_segments-ne-out_of_fuel (s ∷ ss) =
    grind (arith, scan_segment_file-ne-out_of_fuel s.file, scan_segments-ne-out_of_fuel ss)

get_latest_lsn-ne-out_of_fuel : (file : List ℕ) → get_latest_lsn file ≢ err out_of_fuel
unfolding get_latest_lsn
get_latest_lsn-ne-out_of_fuel file =
    latest_lsn_loop-ne-out_of_fuel (suc (length file)) file 16 0 (omega arith)

open_existing-ne-out_of_fuel :
    (dir : List DirEntry) (sp seg_id : ℕ) → open_existing dir sp seg_id ≢ err out_of_fuel
unfolding open_existing
open_existing-ne-out_of_fuel dir sp seg_id = grind (arith, get_latest_lsn-ne-out_of_fuel)

open_new-ne-out_of_fuel :
    (os : Answers) (dir : List DirEntry) (sp : ℕ) → (open_new os dir sp).0 ≢ err out_of_fuel
unfolding open_new create_segment append_segment
open_new-ne-out_of_fuel os dir sp = grind arith

recover-ne-out_of_fuel : (dir : List DirEntry) → recover dir ≢ err out_of_fuel
unfolding recover get_all_segment
recover-ne-out_of_fuel dir =
    grind (arith, list_segments-ne-out_of_fuel dir, scan_segments-ne-out_of_fuel)

new_wal-ne-out_of_fuel :
    (os : Answers) (dir : List DirEntry) (sp : ℕ) → (new_wal os dir sp).0 ≢ err out_of_fuel
unfolding new_wal get_latest_segment_id
new_wal-ne-out_of_fuel os dir sp = grind (
  arith,
  latest_loop-ne-out_of_fuel dir none,
  open_existing-ne-out_of_fuel dir sp,
  open_new-ne-out_of_fuel os dir sp,
)

-- Recover and NewWAL give a Go result on every directory, whatever its files hold and whatever the
-- operating system answers: the rounds that the model allows for each file are enough.
pub recover-new_wal-ne-out_of_fuel :
    (os : Answers) (dir : List DirEntry) (sp : ℕ)
    → (recover dir ≢ err out_of_fuel) × ((new_wal os dir sp).0 ≢ err out_of_fuel)
recover-new_wal-ne-out_of_fuel os dir sp =
    (recover-ne-out_of_fuel dir, new_wal-ne-out_of_fuel os dir sp)
