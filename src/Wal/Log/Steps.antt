-- ===== src/Wal/Log/Steps.antt =====
-- The steps of an append when the operating system refuses nothing, as equations.
use dattaniddhi.Prelude.{ℕ, ◌+◌, ◌%◌, ◌^◌, ◌≡◌, true, false, List, length, ltb, ok, err, arith}
use dattaniddhi.Wal.Disk.{written, open_create, append_file}
use dattaniddhi.Wal.Format.{Error, wal_version, max_segment_file_size}
use dattaniddhi.Wal.Header.{new_segment_header, encode_segment_header}
use dattaniddhi.Wal.Log.{
  Wal, Segment, opened, Answers, rotate_segment, write_record, next_lsn, record_bytes,
  append_record,
}
use dattaniddhi.Wal.Names.{segment_file_name}

-- Every call succeeds.
pub record NothingFails (os : Answers) : Type 0 where
  pub closes : os.close_ok ≡ true
  pub creates : os.create_ok ≡ true
  pub writes_header : os.header_write ≡ written
  pub writes_record : os.record_write ≡ written
  pub syncs : os.sync_ok ≡ true

abbrev pub grown : Segment → ℕ → Segment
grown s n = record s { current_size = (s.current_size + n) % 2 ^ 64 }

pub write_record_written :
    (os : Answers) (w : Wal) (lsn : ℕ) (bytes : List ℕ)
    → NothingFails os
    → w.active_segment.file ≡ opened
    → write_record os w lsn bytes ≡ (
      record w {
        dir = append_file (segment_file_name w.active_segment.seg_id) bytes w.dir;
        active_segment = grown w.active_segment (length bytes);
      },
      ok lsn,
    )
unfolding write_record
write_record_written os w lsn bytes good open' = ground arith

abbrev pub next_seg_id : Wal → ℕ
next_seg_id w = (w.seg_id + 1) % 2 ^ 64

abbrev pub header_bytes : ℕ → List ℕ
header_bytes id = encode_segment_header (new_segment_header wal_version id)

pub rotate_segment_started :
    (os : Answers) (w : Wal)
    → NothingFails os
    → w.active_segment.file ≡ opened
    → rotate_segment os w ≡ (
      record w {
        dir =
            append_file
              (segment_file_name (next_seg_id w))
              (header_bytes (next_seg_id w))
              (open_create (segment_file_name (next_seg_id w)) w.dir);
        active_segment =
            grown
              (record { seg_id = next_seg_id w; file = opened; current_size = 0 })
              (length (header_bytes (next_seg_id w)));
        seg_id = next_seg_id w;
      },
      ok tt,
    )
unfolding rotate_segment
rotate_segment_started os w good open' = ground arith

-- The size that the active segment would have with the next record.
abbrev pub size_with : Wal → ℕ → List ℕ → ℕ
size_with w op payload_bytes =
    (length (record_bytes (next_lsn w) op payload_bytes) + w.active_segment.current_size) % 2 ^ 64

abbrev pub numbered : Wal → Wal
numbered w = record w { lsn = next_lsn w }

module _ (os : Answers) (w : Wal) (op : ℕ) (payload_bytes : List ℕ) where
  pub append_record_fitting :
      ltb max_segment_file_size (size_with w op payload_bytes) ≡ false
      → append_record os w op payload_bytes
        ≡ write_record os (numbered w) (next_lsn w) (record_bytes (next_lsn w) op payload_bytes)
  unfolding append_record
  append_record_fitting small = ground arith

  pub append_record_rotated :
      ltb max_segment_file_size (size_with w op payload_bytes) ≡ true
      → (rotate_segment os (numbered w)).1 ≡ ok tt
      → append_record os w op payload_bytes
        ≡ write_record os
            (rotate_segment os (numbered w)).0
            (next_lsn w)
            (record_bytes (next_lsn w) op payload_bytes)
  unfolding append_record
  append_record_rotated large started = ground arith

  pub append_record_unrotated :
      (e : Error)
      → ltb max_segment_file_size (size_with w op payload_bytes) ≡ true
      → (rotate_segment os (numbered w)).1 ≡ err e
      → append_record os w op payload_bytes ≡ ((rotate_segment os (numbered w)).0, err e)
  unfolding append_record
  append_record_unrotated e large failed = ground arith
