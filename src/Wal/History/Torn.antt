-- ===== src/Wal/History/Torn.antt =====
-- An append behind a record of which a write left only the first bytes.
use dattaniddhi.Prelude.{
  ℕ, ◌+◌, ◌<◌, ◌≤◌, ◌≡◌, refl, ap, ap₂, ◌∙◌, sym, subst, false, List, [], ◌∷◌, ◌++◌, arith, length,
  length-append, take, ltb, ltb_of_le, err, inl, inr, Result-cases,
}
use dattaniddhi.Wal.Disk.{short, append_file}
use dattaniddhi.Wal.Format.{Error, failed_to_write, max_segment_file_size}
use dattaniddhi.Wal.Header.{decode_record_header}
use dattaniddhi.Wal.Header.Torn.{decode_record_header_torn}
use dattaniddhi.Wal.Log.{Wal, Segment, Answers, next_lsn, record_bytes, append_record}
use dattaniddhi.Wal.Log.Bounds.{length-record_bytes}
use dattaniddhi.Wal.Log.Steps.{
  NothingFails, numbered, size_with, write_record_written, append_record_fitting,
}
use dattaniddhi.Wal.Names.{segment_file_name}
use dattaniddhi.Wal.Open.{recover}
use dattaniddhi.Wal.History.{SegmentLog, content_of, files}
use dattaniddhi.Wal.History.Appends.{Holds}
use dattaniddhi.Wal.History.Failures.{write_record_short}
use dattaniddhi.Wal.History.Leftovers.{left, dir-left, append_file-left, recover-left}
use dattaniddhi.Wal.History.Oversized.{record_bytes-layout, Unreadable}

-- The header that the scanner meets there.
torn_refused :
    (lsn lsn' op op' n : ℕ) (pl pl' : List ℕ)
    → 0 < n
    → n < 12
    → (x : Error) × (decode_record_header
          (take 32 (take n (record_bytes lsn op pl) ++ record_bytes lsn' op' pl'))
        ≡ err x)
torn_refused lsn lsn' op op' n pl pl' low high =
    let (t, layout) = record_bytes-layout lsn op pl in
    let (t', layout') = record_bytes-layout lsn' op' pl' in
    let meets = take 32 (take n (record_bytes lsn op pl) ++ record_bytes lsn' op' pl') in
    elim (Result-cases (decode_record_header meets)) [
      | inr (x, refused) ↦ (x, refused)
      | inl (h, accepted) ↦ absurd (
          decode_record_header_torn _ _ t t' n low high h (
            ap (λ b. decode_record_header (take 32 b))
              (sym (ap₂ (λ b b'. take n b ++ b') layout layout'))
            ∙ accepted))
    ]

module _ (os os' : Answers) (w : Wal) (old : List SegmentLog) (current : SegmentLog) (op op' n : ℕ)
    (pl pl' : List ℕ) (h : Holds w old current) where
  abbrev first_bytes : List ℕ
  first_bytes = record_bytes (next_lsn w) op pl

  -- The WAL behind the append that is cut short.
  abbrev cut_wal : Wal
  cut_wal = record (numbered w) {
    dir = append_file (segment_file_name w.active_segment.seg_id) (take n first_bytes) w.dir;
  }

  abbrev second_bytes : List ℕ
  second_bytes = record_bytes (next_lsn cut_wal) op' pl'

  fits_in :
      (v : Wal) (o : ℕ) (p : List ℕ)
      → v.active_segment ≡ w.active_segment
      → length (content_of current) + (length p + 36) ≤ max_segment_file_size
      → ltb max_segment_file_size (size_with v o p) ≡ false
  fits_in v o p same room = ltb_of_le max_segment_file_size (size_with v o p) (
      omega (
        arith,
        length-record_bytes (next_lsn v) o p,
        ap (λ (s : Segment). s.current_size) (same ∙ h.active_is),
      ))

  append_record_cut :
      os.record_write ≡ short n
      → length (content_of current) + (length pl + 36) ≤ max_segment_file_size
      → append_record os w op pl ≡ (cut_wal, err failed_to_write)
  append_record_cut cut room =
      append_record_fitting os w op pl (fits_in w op pl refl room)
      ∙ write_record_short os (numbered w) (next_lsn w) n first_bytes cut
          (ap (λ (s : Segment). s.file) h.active_is)

  cut_dir : cut_wal.dir ≡ files (old ++ (left current (take n first_bytes) ∷ []))
  cut_dir =
      ap (λ (s : Segment). append_file (segment_file_name s.seg_id) (take n first_bytes) w.dir)
        h.active_is
      ∙ ap (append_file (segment_file_name current.id) (take n first_bytes)) (dir-left h)
      ∙ append_file-left h [] (take n first_bytes)

  append_record_behind :
      NothingFails os'
      → 0 < n
      → n < 12
      → length (content_of current) + (length pl' + 36) ≤ max_segment_file_size
      → Unreadable (next_lsn cut_wal) (append_record os' cut_wal op' pl')
  append_record_behind good low high room =
      let step =
        append_record_fitting os' cut_wal op' pl' (fits_in cut_wal op' pl' refl room)
        ∙ write_record_written os' (numbered cut_wal) (next_lsn cut_wal) second_bytes good
            (ap (λ (s : Segment). s.file) h.active_is) in
      let dir : (append_record os' cut_wal op' pl').0.dir
          ≡ files (old ++ (left current (take n first_bytes ++ second_bytes) ∷ [])) =
        ap (λ r. r.0.dir) step
        ∙ ap (λ (s : Segment). append_file (segment_file_name s.seg_id) second_bytes cut_wal.dir)
            h.active_is
        ∙ ap (append_file (segment_file_name current.id) second_bytes) cut_dir
        ∙ append_file-left h (take n first_bytes) second_bytes in
      let (x, refused) = torn_refused (next_lsn w) (next_lsn cut_wal) op op' n pl pl' low high in
      let room' : 32 ≤ length (take n first_bytes ++ second_bytes) = omega (
        arith,
        length-append (take n first_bytes) second_bytes,
        length-record_bytes (next_lsn cut_wal) op' pl',
      ) in
      record {
        accepted = ap (λ r. r.1) step;
        unreadable = λ rs readable.
            let fails =
              ap recover dir ∙ recover-left h (take n first_bytes ++ second_bytes) room' refused in
            let clash = sym fails ∙ readable in cc;
      }

  -- A write that the operating system cuts short within the first twelve bytes of a record makes the
  -- append fail; but the next append to the same segment, no call failing, is accepted, and Recover
  -- fails on the directory that it leaves.
  pub append_record-append_record_torn :
      os.record_write ≡ short n
      → 0 < n
      → n < 12
      → NothingFails os'
      → length (content_of current) + (length pl + 36) ≤ max_segment_file_size
      → length (content_of current) + (length pl' + 36) ≤ max_segment_file_size
      → ((append_record os w op pl).1 ≡ err failed_to_write)
        × Unreadable
            (next_lsn (append_record os w op pl).0)
            (append_record os' (append_record os w op pl).0 op' pl')
  append_record-append_record_torn cut low high good room room' =
      let first = append_record_cut cut room in
      (
        ap (λ r. r.1) first,
        subst (λ v. Unreadable (next_lsn v) (append_record os' v op' pl'))
            (sym (ap (λ r. r.0) first)) (append_record_behind good low high room'),
      )
