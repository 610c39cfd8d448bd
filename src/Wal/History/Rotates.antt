-- ===== src/Wal/History/Rotates.antt =====
-- A rotation starts an empty segment behind the history, and an append, with a rotation or without,
-- adds its entry at the end of the history.
use dattaniddhi.Prelude.{
  ℕ, ◌+◌, ◌<◌, ◌≤◌, ◌≡◌, refl, ap, ◌∙◌, sym, subst, ap₂, List, [], ◌∷◌, ◌++◌, append-nil,
  append_assoc, arith, All, All-append, length, false, inl, inr, Result, ok, ltb, Bool-cases,
}
use dattaniddhi.Wal.Bytes.{IsU64}
use dattaniddhi.Wal.Disk.Files.{Absent, append_file_last, open_create-Absent}
use dattaniddhi.Wal.Format.{Error, max_segment_file_size}
use dattaniddhi.Wal.Log.{
  Wal, Segment, opened, Answers, next_lsn, record_bytes, rotate_segment, write_record,
  append_record,
}
use dattaniddhi.Wal.Log.Steps.{
  NothingFails, next_seg_id, header_bytes, rotate_segment_started, size_with, numbered,
  append_record_fitting, append_record_rotated,
}
use dattaniddhi.Wal.Names.{segment_file_name}
use dattaniddhi.Wal.Scanner.Entry.{Entry, lsn_of, op_of, payload_of, entry_bytes, EntryFits}
use dattaniddhi.Wal.Scanner.Recovery.{segment_bytes}
use dattaniddhi.Wal.Scanner.Crash.{length-segment_bytes}
use dattaniddhi.Wal.History.{
  SegmentLog, content_of, file_of, files, all_entries, IsSegment, Ascending,
}
use dattaniddhi.Wal.History.Appends.{
  Holds, Absent-files, with_entry, opened_file, write_record-Holds,
}

pub files-append : (ss ts : List SegmentLog) → files (ss ++ ts) ≡ files ss ++ files ts
files-append [] ts = refl
files-append (s ∷ ss) ts = ap (λ t. file_of s ∷ t) (files-append ss ts)

pub all_entries-append :
    (ss ts : List SegmentLog) → all_entries (ss ++ ts) ≡ all_entries ss ++ all_entries ts
all_entries-append [] ts = refl
all_entries-append (s ∷ ss) ts =
    ap (λ t. s.entries ++ t) (all_entries-append ss ts)
    ∙ sym (append_assoc s.entries (all_entries ss) (all_entries ts))

pub Ascending-append :
    (ss : List SegmentLog) (t : SegmentLog)
    → Ascending ss
    → All (λ s. s.id < t.id) ss
    → Ascending (ss ++ (t ∷ []))
Ascending-append [] t h below = (tt, tt)
Ascending-append (s ∷ ss) t h below =
    (All-append (λ u. s.id < u.id) ss (t ∷ []) h.0 (below.0, tt), Ascending-append ss t h.1 below.1)

pub older_still :
    (ss : List SegmentLog) (t : SegmentLog) (n : ℕ)
    → All (λ s. s.id < t.id) ss
    → t.id < n
    → All (λ s. s.id < n) (ss ++ (t ∷ []))
older_still [] t n below h = (h, tt)
older_still (s ∷ ss) t n below h = (omega (arith, below.0), older_still ss t n below.1 h)

abbrev pub fresh_segment : ℕ → SegmentLog
fresh_segment id = record { id = id; entries = []; tail = [] }

module _ (os : Answers) (w : Wal) (old : List SegmentLog) (current : SegmentLog)
    (good : NothingFails os) (h : Holds w old current) where
  -- The active segment is closed as it is, and a segment with the next number is started.
  pub rotate_segment-Holds :
      IsU64 (current.id + 1)
      → Holds (rotate_segment os w).0 (old ++ (current ∷ [])) (fresh_segment (current.id + 1))
        × ((rotate_segment os w).1 ≡ ok tt)
        × ((rotate_segment os w).0.lsn ≡ w.lsn)
  rotate_segment-Holds id_fits =
      let id = current.id + 1 in
      let next : next_seg_id w ≡ id = omega (arith, h.seg_id_is) in
      let older = older_still old current id h.older (omega arith) in
      let fit = All-append IsSegment old (current ∷ []) h.old_fit (h.current_fits, tt) in
      let dir : w.dir ≡ files (old ++ (current ∷ [])) =
        h.dir_is ∙ sym (files-append old (current ∷ [])) in
      let size = length-segment_bytes id [] in
      let bare : length (segment_bytes id []) ≡ length (header_bytes id) =
        ap length (append-nil (header_bytes id)) in
      let absent : Absent (segment_file_name id) (files (old ++ (current ∷ []))) =
        Absent-files (old ++ (current ∷ [])) id fit id_fits older in
      rw (rotate_segment_started os w good (opened_file os w old current good h)) (
        record {
          dir_is =
              rw
                (
                  next,
                  dir,
                  open_create-Absent (segment_file_name id) (files (old ++ (current ∷ []))) absent,
                )
                (append_file_last (segment_file_name id) (header_bytes id)
                    (files (old ++ (current ∷ [])))
                    (record { name = segment_file_name id; is_dir = false; content = [] }) absent
                    refl
                  ∙ ap
                      (λ c.
                        files (old ++ (current ∷ []))
                        ++ (record (file_of (fresh_segment id)) { content = c } ∷ []))
                      (sym (append-nil (header_bytes id))));
          old_fit = fit;
          current_fits = record { id_fits = id_fits; entries_fit = tt; tail_clean = inl refl };
          ascending = Ascending-append old current h.ascending h.older;
          older = older;
          untorn = refl;
          active_is =
              rw next
                (ap (λ n. record { seg_id = id; file = opened; current_size = n }) (omega arith));
          seg_id_is = next;
          bounded = omega (arith, size);
        },
        refl,
        refl,
      )

-- A segment's file is at most a header longer than the limit.
abbrev pub IsSmall : SegmentLog → Type 0
IsSmall s = length (content_of s) ≤ max_segment_file_size + 16

-- The result of an append: the history with one entry more at its end.
pub record Appended (w : Wal) (old : List SegmentLog) (current : SegmentLog) (e : Entry)
    (r : Wal × Result Error ℕ) : Type 0 where
  pub old' : List SegmentLog
  pub current' : SegmentLog
  pub holds : Holds r.0 old' current'
  pub old_small : All IsSmall old → All IsSmall old'
  pub entries_are :
      all_entries (old' ++ (current' ∷ [])) ≡ all_entries (old ++ (current ∷ [])) ++ (e ∷ [])
  pub result_is : r.1 ≡ ok (lsn_of e)
  pub lsn_is : r.0.lsn ≡ lsn_of e

pub Holds-lsn :
    {w : Wal} {old : List SegmentLog} {current : SegmentLog} (n : ℕ)
    → Holds w old current
    → Holds (record w { lsn = n }) old current
Holds-lsn n h = record {
  dir_is = h.dir_is;
  old_fit = h.old_fit;
  current_fits = h.current_fits;
  ascending = h.ascending;
  older = h.older;
  untorn = h.untorn;
  active_is = h.active_is;
  seg_id_is = h.seg_id_is;
  bounded = h.bounded;
}

pub all_entries_last :
    (ss : List SegmentLog) (s : SegmentLog)
    → all_entries (ss ++ (s ∷ [])) ≡ all_entries ss ++ s.entries
all_entries_last ss s =
    all_entries-append ss (s ∷ []) ∙ ap (λ t. all_entries ss ++ t) (append-nil s.entries)

-- The write behind the rotation test.
write-Appended :
    (os : Answers) (w : Wal) (old : List SegmentLog) (current : SegmentLog) (e : Entry)
    → NothingFails os
    → Holds w old current
    → EntryFits e
    → w.lsn ≡ lsn_of e
    → length (content_of current) + length (entry_bytes e) ≤ max_segment_file_size + 16
    → Appended w old current e (write_record os w (lsn_of e) (entry_bytes e))
write-Appended os w old current e good h fits lsn_is room =
    let (holds, result, kept) = write_record-Holds os w old current good h e fits room in
    record {
      old' = old;
      current' = with_entry current e;
      holds = holds;
      old_small = λ small. small;
      entries_are =
          all_entries_last old (with_entry current e)
          ∙ sym (append_assoc (all_entries old) current.entries (e ∷ []))
          ∙ ap (λ t. t ++ (e ∷ [])) (sym (all_entries_last old current));
      result_is = result;
      lsn_is = kept ∙ lsn_is;
    }

-- An append that no call of the operating system fails adds its entry at the end of the history,
-- and returns the entry's log sequence number; the segment is rotated where the record would not fit.
pub append_record-Appended :
    (os : Answers) (w : Wal) (old : List SegmentLog) (current : SegmentLog) (e : Entry)
    → NothingFails os
    → Holds w old current
    → EntryFits e
    → lsn_of e ≡ next_lsn w
    → IsU64 (current.id + 1)
    → Appended w old current e (append_record os w (op_of e) (payload_of e))
unfolding append_record
append_record-Appended os w old current e good h fits lsn_is id_fits =
    let held = Holds-lsn (next_lsn w) h in
    let same : record_bytes (next_lsn w) (op_of e) (payload_of e) ≡ entry_bytes e =
      ap (λ n. record_bytes n (op_of e) (payload_of e)) (sym lsn_is) in
    let size : size_with w (op_of e) (payload_of e)
        ≡ length (content_of current) + length (entry_bytes e) =
      omega (
        arith,
        ap length same,
        ap (λ (s : Segment). s.current_size) h.active_is,
        h.bounded,
        fits.record_fits,
      ) in
    elim (Bool-cases (ltb max_segment_file_size (size_with w (op_of e) (payload_of e)))) [
      | inr small ↦
          let written =
            write-Appended os (numbered w) old current e good held fits (sym lsn_is)
              (ground arith) in
          subst (Appended w old current e)
            (ap₂ (write_record os (numbered w)) lsn_is (sym same)
              ∙ sym (append_record_fitting os w (op_of e) (payload_of e) small))
            (record {
              old' = written.old';
              current' = written.current';
              holds = written.holds;
              old_small = written.old_small;
              entries_are = written.entries_are;
              result_is = written.result_is;
              lsn_is = written.lsn_is;
            })
      | inl large ↦
          let (fresh, started, kept) =
            rotate_segment-Holds os (numbered w) old current good held id_fits in
          let written =
            write-Appended os (rotate_segment os (numbered w)).0 (old ++ (current ∷ []))
              (fresh_segment (current.id + 1)) e good fresh fits (kept ∙ sym lsn_is)
              (omega (arith, length-segment_bytes (current.id + 1) [], fits.record_fits)) in
          subst (Appended w old current e)
            (ap₂ (write_record os (rotate_segment os (numbered w)).0) lsn_is (sym same)
              ∙ sym (append_record_rotated os w (op_of e) (payload_of e) large started))
            (record {
              old' = written.old';
              current' = written.current';
              holds = written.holds;
              old_small = λ small.
                  written.old_small (All-append IsSmall old (current ∷ []) small (h.bounded, tt));
              entries_are =
                  written.entries_are
                  ∙ ap (λ t. t ++ (e ∷ []))
                      (all_entries_last (old ++ (current ∷ [])) (fresh_segment (current.id + 1))
                        ∙ append-nil (all_entries (old ++ (current ∷ []))));
              result_is = written.result_is;
              lsn_is = written.lsn_is;
            })
    ]
