-- ===== src/Wal/History/Restarts.antt =====
-- A rotation behind which no record was written, and the log sequence numbers after the next opening.
use mathlib.Core.List.{map}
use dattaniddhi.Prelude.{
  ℕ, ◌+◌, ◌≤◌, ◌≡◌, refl, ap, ◌∙◌, sym, subst, true, List, [], ◌∷◌, ◌++◌, arith, take, ltb, Result,
  ok, err, append-nil,
}
use dattaniddhi.Wal.Bytes.{IsU64}
use dattaniddhi.Wal.Disk.{WriteOutcome, written, short, append_file}
use dattaniddhi.Wal.Format.{Error, failed_to_write, max_segment_file_size}
use dattaniddhi.Wal.Log.{
  Wal, Segment, Answers, next_lsn, record_bytes, rotate_segment, append_record, append_insert,
}
use dattaniddhi.Wal.Log.Steps.{NothingFails, numbered, size_with, append_record_rotated}
use dattaniddhi.Wal.Names.{segment_file_name}
use dattaniddhi.Wal.Open.{recover, new_wal}
use dattaniddhi.Wal.Payload.{InsertPayload}
use dattaniddhi.Wal.Scanner.{DecodedRecord}
use dattaniddhi.Wal.Scanner.Entry.{insert, decoded, EntryFits}
use dattaniddhi.Wal.History.{SegmentLog, all_entries}
use dattaniddhi.Wal.History.Appends.{Holds}
use dattaniddhi.Wal.History.Durable.{append_insert-Durable, recover-Holds}
use dattaniddhi.Wal.History.Failures.{write_record_short}
use dattaniddhi.Wal.History.Leftovers.{dir-left, append_file-left}
use dattaniddhi.Wal.History.Reopens.{new_wal-Reopened}
use dattaniddhi.Wal.History.Rotates.{
  fresh_segment, rotate_segment-Holds, Holds-lsn, all_entries_last,
}

-- A rotation does not look at the answer to the write of the record.
rotate_segment_any :
    (os : Answers) (o : WriteOutcome) (w : Wal)
    → rotate_segment (record os { record_write = o }) w ≡ rotate_segment os w
unfolding rotate_segment
rotate_segment_any os o w = refl

append_file_nothing :
    {w : Wal} {old : List SegmentLog} {current : SegmentLog}
    → Holds w old current
    → append_file (segment_file_name current.id) [] w.dir ≡ w.dir
append_file_nothing {current = current} h =
    ap (append_file (segment_file_name current.id) []) (dir-left h)
    ∙ append_file-left h [] []
    ∙ sym (dir-left h)

-- The log behind an append that fails, opened again.
pub record Restarted (os' : Answers) (sp : ℕ) (before : List DecodedRecord)
    (r : Wal × Result Error ℕ) : Type 0 where
  pub failed : r.1 ≡ err failed_to_write
  pub kept : recover r.0.dir ≡ ok before
  pub opened_wal : Wal
  pub opens : new_wal os' r.0.dir sp ≡ (ok opened_wal, r.0.dir)
  pub restarts : next_lsn opened_wal ≡ 1
  pub again :
      (os : Answers) (ip : InsertPayload)
      → NothingFails os
      → IsU64 (opened_wal.seg_id + 1)
      → EntryFits (insert 1 ip)
      → ((append_insert os opened_wal ip).1 ≡ ok 1)
        × (recover (append_insert os opened_wal ip).0.dir
            ≡ ok (before ++ (decoded (insert 1 ip) ∷ [])))

module _ (os : Answers) (w : Wal) (old : List SegmentLog) (current : SegmentLog) (op : ℕ)
    (pl : List ℕ) (h : Holds w old current)
    (good : NothingFails (record os { record_write = written }))
    (nothing : os.record_write ≡ short 0) (id_fits : IsU64 (current.id + 1))
    (large : ltb max_segment_file_size (size_with w op pl) ≡ true) where
  -- The WAL behind the rotation.
  abbrev turned : Wal
  turned = (rotate_segment os (numbered w)).0

  turned-Holds :
      Holds turned (old ++ (current ∷ [])) (fresh_segment (current.id + 1))
      × ((rotate_segment os (numbered w)).1 ≡ ok tt)
  turned-Holds =
      let (holds, started, kept) =
        rotate_segment-Holds (record os { record_write = written }) (numbered w) old current good
          (Holds-lsn (next_lsn w) h) id_fits in
      let same = rotate_segment_any os written (numbered w) in
      (
        subst (λ r. Holds r.0 (old ++ (current ∷ [])) (fresh_segment (current.id + 1))) same holds,
        subst (λ r. r.1 ≡ ok tt) same started,
      )

  append_record_nothing : append_record os w op pl ≡ (
    record turned {
      dir =
          append_file
            (segment_file_name turned.active_segment.seg_id)
            (take 0 (record_bytes (next_lsn w) op pl))
            turned.dir;
    },
    err failed_to_write,
  )
  append_record_nothing =
      append_record_rotated os w op pl large turned-Holds.1
      ∙ write_record_short os turned (next_lsn w) 0 (record_bytes (next_lsn w) op pl) nothing
          (ap (λ (s : Segment). s.file) turned-Holds.0.active_is)

  nothing_dir : (append_record os w op pl).0.dir ≡ turned.dir
  nothing_dir =
      ap (λ r. r.0.dir) append_record_nothing
      ∙ ap (λ (s : Segment). append_file (segment_file_name s.seg_id) [] turned.dir)
          turned-Holds.0.active_is
      ∙ append_file_nothing turned-Holds.0

  same_records :
      map decoded (all_entries ((old ++ (current ∷ [])) ++ (fresh_segment (current.id + 1) ∷ [])))
      ≡ map decoded (all_entries (old ++ (current ∷ [])))
  same_records = ap (map decoded) (
      all_entries_last (old ++ (current ∷ [])) (fresh_segment (current.id + 1))
      ∙ append-nil (all_entries (old ++ (current ∷ []))))

  -- An append that rotates and then cannot write anything, every other call succeeding, loses
  -- nothing; but when the log is opened again, the next record gets the log sequence number 1, and
  -- stands behind the records that were there.
  pub append_record-Restarted :
      (os' : Answers) (sp : ℕ)
      → 1 ≤ sp
      → sp ≤ 3
      → Restarted os' sp
          (map decoded (all_entries (old ++ (current ∷ []))))
          (append_record os w op pl)
  append_record-Restarted os' sp low high =
      let (v, opens, o) =
        new_wal-Reopened turned (old ++ (current ∷ [])) (fresh_segment (current.id + 1))
          turned-Holds.0 sp os' low high in
      let first : next_lsn v ≡ 1 = omega (arith, o.lsn_is) in
      record {
        failed = ap (λ r. r.1) append_record_nothing;
        kept =
            ap recover nothing_dir
            ∙ recover-Holds turned (old ++ (current ∷ [])) (fresh_segment (current.id + 1))
                turned-Holds.0
            ∙ ap ok same_records;
        opened_wal = v;
        opens = subst (λ d. new_wal os' d sp ≡ (ok v, d)) (sym nothing_dir) opens;
        restarts = first;
        again = λ os'' ip good' seg fits.
            let d =
              append_insert-Durable os'' v (old ++ (current ∷ [])) (fresh_segment (current.id + 1))
                good' o.holds (omega (arith, o.holds.seg_id_is)) ip
                (subst (λ n. EntryFits (insert n ip)) (sym first) fits) in
            (
              d.result_is ∙ ap ok first,
              d.recovered
                  ∙ ap
                      (λ n. ok (
                        map decoded (
                          all_entries
                            ((old ++ (current ∷ [])) ++ (fresh_segment (current.id + 1) ∷ [])))
                        ++ (decoded (insert n ip) ∷ [])))
                      first
                  ∙ ap (λ rs. ok (rs ++ (decoded (insert 1 ip) ∷ []))) same_records,
            );
      }
