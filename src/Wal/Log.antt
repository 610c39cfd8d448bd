-- ===== src/Wal/Log.antt =====
-- internal/store/wal/wal.go and segment.go: the state of a WAL, appends, rotation and Close.
-- An operation takes the directory and returns it with the WAL, beside its result. The mutex makes
-- each operation one step. File names, the handle and the counters are as in the source.
pub mod Bounds
pub mod Unsynced
pub mod Steps
use dattaniddhi.Prelude.{
  ℕ, ◌+◌, ◌%◌, ◌^◌, Bool, true, false, List, ◌++◌, length, ltb, ◌==◌, if◌then◌else◌, Result, ok,
  err, not,
}
use dattaniddhi.Wal.Disk.{DirEntry, WriteOutcome, written, short, landed, open_create, append_file}
use dattaniddhi.Wal.Format.{
  Error, failed_to_create, failed_to_write, failed_to_sync, failed_to_close, op_insert, op_delete,
  wal_version, max_segment_file_size,
}
use dattaniddhi.Wal.Header.{new_record_header, new_segment_header, encode_segment_header}
use dattaniddhi.Wal.Names.{segment_file_name}
use dattaniddhi.Wal.Payload.{InsertPayload, DeletePayload, encode_insert, encode_delete}
use dattaniddhi.Wal.Record.{new_record_wrapper, encode_record}

-- The *os.File of a segment: open, closed, or nil.
pub data Handle : Type 0 where
  opened closed gone : Handle

pub record Segment : Type 0 where
  pub seg_id : ℕ
  pub file : Handle
  pub current_size : ℕ

-- `SyncPolicy`: SyncEverySec, SyncAlways, SyncOS.
abbrev pub sync_every_sec : ℕ
sync_every_sec = 1

abbrev pub sync_always : ℕ
sync_always = 2

abbrev pub sync_os : ℕ
sync_os = 3

-- `dir` is what the directory holds; `done` tells whether closeOnce has run.
pub record Wal : Type 0 where
  pub dir : List DirEntry
  pub active_segment : Segment
  pub lsn : ℕ
  pub seg_id : ℕ
  pub sync_policy : ℕ
  pub done : Bool

-- What the operating system answers to the calls of one append.
pub record Answers : Type 0 where
  pub close_ok : Bool
  pub create_ok : Bool
  pub header_write : WriteOutcome
  pub record_write : WriteOutcome
  pub sync_ok : Bool

-- (s *segment) append. The size grows only by a write that has no error.
unfoldable pub append_segment :
    WriteOutcome → Segment → List ℕ → List DirEntry → Result Error Segment × List DirEntry
append_segment outcome s bytes dir = elim s.file [
  | opened ↦ elim outcome [
    | written ↦ (
      ok (record s { current_size = (s.current_size + length bytes) % 2 ^ 64 }),
      append_file (segment_file_name s.seg_id) bytes dir,
    )
    | short n ↦
        (err failed_to_write, append_file (segment_file_name s.seg_id) (landed (short n) bytes) dir)
  ]
  | _ ↦ (err failed_to_write, dir)
]

-- createSegment, with the directory there.
unfoldable pub create_segment : Bool → ℕ → List DirEntry → Result Error Segment × List DirEntry
create_segment true id dir = (
  ok (record { seg_id = id; file = opened; current_size = 0 }),
  open_create (segment_file_name id) dir,
)
create_segment false id dir = (err failed_to_create, dir)

-- `wal.activeSegment.file.Close()`
abbrev pub close_file : Bool → Handle → Bool
close_file answer opened = answer
close_file answer closed = false
close_file answer gone = false

abbrev pub after_close : Handle → Handle
after_close opened = closed
after_close closed = closed
after_close gone = gone

-- The end of rotateSegment: the new segment gets its header, and becomes the active one.
start_segment : Answers → Wal → Segment → Wal × Result Error (Unit {0})
start_segment os w segment =
    let header = encode_segment_header (new_segment_header wal_version w.seg_id) in
    let (appended, dir) = append_segment os.header_write segment header w.dir in
    elim appended [
      | ok s ↦ (record w { dir = dir; active_segment = s }, ok tt)
      | err e ↦ (record w { dir = dir }, err e)
    ]

-- rotateSegment. Files have no permissions here, so its Chmod of the old segment changes nothing.
unfoldable pub rotate_segment : Answers → Wal → Wal × Result Error (Unit {0})
unfolding start_segment create_segment append_segment
rotate_segment os w =
    let old = w.active_segment in
    let shut = record w { active_segment = record old { file = after_close old.file } } in
    let next = record shut { seg_id = (w.seg_id + 1) % 2 ^ 64 } in
    let (created, dir) = create_segment os.create_ok next.seg_id w.dir in
    let started = elim created as (λ _. Wal × Result Error (Unit {0})) [
      | ok s ↦ start_segment os (record next { dir = dir }) s
      | err e ↦ (next, err e)
    ] in
    if close_file os.close_ok old.file then started else (shut, err failed_to_close)

-- Behind the rotation test: the write, and the sync that the policy asks for.
unfoldable pub write_record : Answers → Wal → ℕ → List ℕ → Wal × Result Error ℕ
unfolding append_segment
write_record os w current_lsn bytes =
    let (appended, dir) = append_segment os.record_write w.active_segment bytes w.dir in
    elim appended [
      | err e ↦ (record w { dir = dir }, err e)
      | ok s ↦
          let w' = record w { dir = dir; active_segment = s } in
          if w.sync_policy == sync_always
          then (if os.sync_ok then (w', ok current_lsn) else (w', err failed_to_sync))
          else (w', ok current_lsn)
    ]

-- The record of the next append.
abbrev pub next_lsn : Wal → ℕ
next_lsn w = (w.lsn + 1) % 2 ^ 64

abbrev pub record_bytes : ℕ → ℕ → List ℕ → List ℕ
record_bytes lsn op payload_bytes =
    encode_record (new_record_wrapper (new_record_header wal_version lsn op) payload_bytes)

-- What AppendInsert and AppendDelete do under the lock, for the operation `op`.
unfoldable pub append_record : Answers → Wal → ℕ → List ℕ → Wal × Result Error ℕ
append_record os w op payload_bytes =
    let current_lsn = next_lsn w in
    let numbered = record w { lsn = current_lsn } in
    let bytes = record_bytes current_lsn op payload_bytes in
    let segment_file_size = (length bytes + w.active_segment.current_size) % 2 ^ 64 in
    let (w', rotated) =
      if ltb max_segment_file_size segment_file_size
      then rotate_segment os numbered
      else (numbered, ok tt) in
    elim rotated [ err e ↦ (w', err e) | ok done ↦ write_record os w' current_lsn bytes ]

unfoldable pub append_insert : Answers → Wal → InsertPayload → Wal × Result Error ℕ
append_insert os w pl = append_record os w op_insert (encode_insert pl)

unfoldable pub append_delete : Answers → Wal → DeletePayload → Wal × Result Error ℕ
append_delete os w pl = append_record os w op_delete (encode_delete pl)

-- (wal *WAL) Close
unfoldable pub close : Answers → Wal → Wal × Result Error (Unit {0})
close os w =
    let w' = record w { done = true; active_segment = record w.active_segment { file = gone } } in
    if w.done then (w, ok tt) else elim w.active_segment.file [
      | gone ↦ (record w { done = true }, ok tt)
      | closed ↦ (w', err failed_to_sync)
      | opened ↦
          if os.sync_ok
          then (if os.close_ok then (w', ok tt) else (w', err failed_to_close))
          else (w', err failed_to_sync)
    ]
