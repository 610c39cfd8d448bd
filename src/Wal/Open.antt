-- ===== src/Wal/Open.antt =====
-- NewWAL with its scans of the directory (wal.go), and getAllSegment and Recover (recovery.go).
pub mod Total
use dattaniddhi.Prelude.{
  ℕ, zero, suc, ◌+◌, ◌-◌, false, ◌&&◌, ◌||◌, not, List, [], ◌∷◌, ◌++◌, Option, none, some, length,
  slice, ltb, leb, if◌then◌else◌, Result, ok, err, ◌>>=◌,
}
use dattaniddhi.Wal.Bytes.{uint}
use dattaniddhi.Wal.Disk.{DirEntry, read_file}
use dattaniddhi.Wal.Format.{
  Error, failed_to_open, failed_to_parse_segment_id, invalid_sync_policy, out_of_fuel,
  segment_header_byte_size, record_header_byte_size, wal_version,
}
use dattaniddhi.Wal.Header.{new_segment_header, encode_segment_header}
use dattaniddhi.Wal.Log.{Wal, Segment, opened, Answers, append_segment, create_segment}
use dattaniddhi.Wal.Names.{segment_file_name, has_suffix, trim_suffix, parse_uint}
use dattaniddhi.Wal.Scanner.{DecodedRecord, scan_segment_file}

-- `if !found || id > segId { segId = id }; found = true`
abbrev pub latest : Option ℕ → ℕ → ℕ
latest none id = id
latest (some seg_id) id = if ltb seg_id id then id else seg_id

unfoldable pub latest_loop : List DirEntry → Option ℕ → Result Error (Option ℕ)
latest_loop [] found = ok found
latest_loop (entry ∷ entries) found =
    let skipped = latest_loop entries found in
    let counted = λ (id : ℕ). latest_loop entries (some (latest found id)) in
    if not entry.is_dir && has_suffix entry.name
    then elim (parse_uint (trim_suffix entry.name)) [
      | none ↦ err failed_to_parse_segment_id
      | some id ↦ counted id
    ]
    else skipped

-- getLatestSegmentID: `none` where no segment file is found.
unfoldable pub get_latest_segment_id : List DirEntry → Result Error (Option ℕ)
unfolding latest_loop
get_latest_segment_id dir = latest_loop dir none

-- The loop of getLatestLSN; it stops at the end of the file, at a torn header and at a length that
-- no record has. The cursor may be moved past the end, where the next read meets the end of file.
unfoldable pub latest_lsn_loop : ℕ → List ℕ → ℕ → ℕ → Result Error ℕ
latest_lsn_loop zero file cursor latest_lsn = err out_of_fuel
latest_lsn_loop (suc fuel) file cursor latest_lsn =
    let record_length = uint (slice file (cursor + 8) (cursor + 12)) in
    let rest =
      latest_lsn_loop fuel file (cursor + 32 + (record_length - 32))
        (uint (slice file (cursor + 16) (cursor + 24))) in
    if ltb (length file) (cursor + record_header_byte_size)
    then ok latest_lsn
    else if ltb record_length 36
    then ok latest_lsn
    else rest

-- A round takes 36 bytes at least.
unfoldable pub get_latest_lsn : List ℕ → Result Error ℕ
unfolding latest_lsn_loop
get_latest_lsn file = latest_lsn_loop (suc (length file)) file segment_header_byte_size 0

-- openExistingSegment and getLatestLSN on the segment that was found; a file that is there can be
-- opened and its size be read.
unfoldable pub open_existing : List DirEntry → ℕ → ℕ → Result Error Wal
unfolding get_latest_lsn
open_existing dir sp seg_id = elim (read_file (segment_file_name seg_id) dir) [
  | none ↦ err failed_to_open
  | some file ↦ do
    lsn ← get_latest_lsn file
    ok (record {
      dir = dir;
      active_segment = record { seg_id = seg_id; file = opened; current_size = length file };
      lsn = lsn;
      seg_id = seg_id;
      sync_policy = sp;
      done = false;
    })
]

-- createSegment and the segment header, where no segment is found.
unfoldable pub open_new : Answers → List DirEntry → ℕ → Result Error Wal × List DirEntry
unfolding create_segment append_segment
open_new os dir sp =
    let header = encode_segment_header (new_segment_header wal_version 1) in
    let (created, dir') = create_segment os.create_ok 1 dir in
    let (headed, dir'') = elim created as (λ _. Result Error Segment × List DirEntry) [
      | ok s ↦ append_segment os.header_write s header dir'
      | err e ↦ (err e, dir')
    ] in
    let opening : Segment → Wal = λ s. record {
      dir = dir'';
      active_segment = s;
      lsn = 0;
      seg_id = 1;
      sync_policy = sp;
      done = false;
    } in
    (elim headed [ ok s ↦ ok (opening s) | err e ↦ err e ], dir'')

-- NewWAL: the WAL, or an error and what the directory holds then. MkdirAll succeeds here: a directory
-- that could not be made is no state of the model.
unfoldable pub new_wal : Answers → List DirEntry → ℕ → Result Error Wal × List DirEntry
unfolding get_latest_segment_id open_existing open_new
new_wal os dir sp =
    if ltb sp 1 || ltb 3 sp
    then (err invalid_sync_policy, dir)
    else elim (get_latest_segment_id dir) [
      | err e ↦ (err e, dir)
      | ok none ↦ open_new os dir sp
      | ok (some seg_id) ↦ (open_existing dir sp seg_id, dir)
    ]

-- getAllSegment's segments, with the bytes of each.
pub record Found : Type 0 where
  pub seg_id : ℕ
  pub file : List ℕ

-- slices.SortFunc by segID.
unfoldable pub insert_sorted : Found → List Found → List Found
insert_sorted s [] = s ∷ []
insert_sorted s (t ∷ ts) = if leb s.seg_id t.seg_id then s ∷ (t ∷ ts) else t ∷ insert_sorted s ts

unfoldable pub sort_segments : List Found → List Found
unfolding insert_sorted
sort_segments [] = []
sort_segments (s ∷ ss) = insert_sorted s (sort_segments ss)

unfoldable pub list_segments : List DirEntry → Result Error (List Found)
list_segments [] = ok []
list_segments (entry ∷ entries) =
    let rest = list_segments entries in
    if not entry.is_dir && has_suffix entry.name
    then elim (parse_uint (trim_suffix entry.name)) [
      | none ↦ err failed_to_parse_segment_id
      | some id ↦ rest >>= λ found. ok (record { seg_id = id; file = entry.content } ∷ found)
    ]
    else rest

unfoldable pub get_all_segment : List DirEntry → Result Error (List Found)
unfolding list_segments sort_segments
get_all_segment dir = do found ← list_segments dir; ok (sort_segments found)

unfoldable pub scan_segments : List Found → Result Error (List DecodedRecord)
scan_segments [] = ok []
scan_segments (s ∷ ss) = do
  segment_record ← scan_segment_file s.file
  records ← scan_segments ss
  ok (segment_record ++ records)

-- (w *WAL) Recover; every segment file that is listed can be opened.
unfoldable pub recover : List DirEntry → Result Error (List DecodedRecord)
unfolding get_all_segment scan_segments
recover dir = do segments ← get_all_segment dir; scan_segments segments
