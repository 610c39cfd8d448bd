-- ===== src/Wal/History/Appends.antt =====
-- An append to a WAL whose directory holds a history adds its entry to the history.
use dattaniddhi.Prelude.{
  ℕ, ◌+◌, ◌<◌, ◌≤◌, ◌≡◌, refl, ap, ◌∙◌, sym, List, [], ◌∷◌, ◌++◌, append-nil, append_assoc, arith,
  All, All-append, length, length-append, ok,
}
use dattaniddhi.Wal.Bytes.{IsU64}
use dattaniddhi.Wal.Disk.Files.{Absent, append_file_last}
use dattaniddhi.Wal.Names.{segment_file_name}
use dattaniddhi.Wal.Names.RoundTrip.{segment_file_name_injective}
use dattaniddhi.Wal.Format.{max_segment_file_size}
use dattaniddhi.Wal.Log.{Wal, Segment, opened, Answers, write_record}
use dattaniddhi.Wal.Log.Steps.{NothingFails, write_record_written}
use dattaniddhi.Wal.Scanner.Entry.{Entry, lsn_of, entry_bytes, entries_bytes, EntryFits}
use dattaniddhi.Wal.History.{SegmentLog, content_of, file_of, files, IsSegment, Ascending}

-- The directory holds the segments `old` and, as the last one, `current`, which is active; nothing
-- is torn at the end of `current`.
pub record Holds (w : Wal) (old : List SegmentLog) (current : SegmentLog) : Type 0 where
  pub dir_is : w.dir ≡ files old ++ (file_of current ∷ [])
  pub old_fit : All IsSegment old
  pub current_fits : IsSegment current
  pub ascending : Ascending old
  pub older : All (λ s. s.id < current.id) old
  pub untorn : current.tail ≡ []
  pub active_is :
      w.active_segment
      ≡ record { seg_id = current.id; file = opened; current_size = length (content_of current) }
  pub seg_id_is : w.seg_id ≡ current.id
  pub bounded : length (content_of current) ≤ max_segment_file_size + 16

-- One entry more.
abbrev pub with_entry : SegmentLog → Entry → SegmentLog
with_entry s e = record s { entries = s.entries ++ (e ∷ []) }

entries_bytes-append :
    (es fs : List Entry) → entries_bytes (es ++ fs) ≡ entries_bytes es ++ entries_bytes fs
entries_bytes-append [] fs = refl
entries_bytes-append (e ∷ es) fs =
    ap (λ t. entry_bytes e ++ t) (entries_bytes-append es fs)
    ∙ sym (append_assoc (entry_bytes e) (entries_bytes es) (entries_bytes fs))

-- Where nothing is torn, the new entry's record stands at the end of the file.
content_of-with_entry :
    (s : SegmentLog) (e : Entry)
    → s.tail ≡ []
    → content_of (with_entry s e) ≡ content_of s ++ entry_bytes e
content_of-with_entry s e untorn = simp (untorn, entries_bytes-append, append_assoc, append-nil)

-- The files of older segments have other names.
pub Absent-files :
    (old : List SegmentLog) (id : ℕ)
    → All IsSegment old
    → IsU64 id
    → All (λ s. s.id < id) old
    → Absent (segment_file_name id) (files old)
Absent-files [] id fit id_fits older = tt
Absent-files (s ∷ ss) id fit id_fits older = (
  λ e. absurd (omega (arith, segment_file_name_injective s.id id fit.0.id_fits id_fits e, older.0)),
  Absent-files ss id fit.1 id_fits older.1,
)

module _ (os : Answers) (w : Wal) (old : List SegmentLog) (current : SegmentLog)
    (good : NothingFails os) (h : Holds w old current) where
  pub opened_file : w.active_segment.file ≡ opened
  opened_file = ap (λ (s : Segment). s.file) h.active_is

  absent : Absent (segment_file_name current.id) (files old)
  absent = Absent-files old current.id h.old_fit h.current_fits.id_fits h.older

  -- The write adds the entry to the active segment.
  pub write_record-Holds :
      (e : Entry)
      → EntryFits e
      → length (content_of current) + length (entry_bytes e) ≤ max_segment_file_size + 16
      → Holds (write_record os w (lsn_of e) (entry_bytes e)).0 old (with_entry current e)
        × ((write_record os w (lsn_of e) (entry_bytes e)).1 ≡ ok (lsn_of e))
        × ((write_record os w (lsn_of e) (entry_bytes e)).0.lsn ≡ w.lsn)
  write_record-Holds e fits room =
      let longer = content_of-with_entry current e h.untorn in
      let size : length (content_of (with_entry current e))
          ≡ length (content_of current) + length (entry_bytes e) =
        ap length longer ∙ length-append (content_of current) (entry_bytes e) in
      rw (write_record_written os w (lsn_of e) (entry_bytes e) good opened_file) (
        record {
          dir_is =
              rw (h.dir_is, h.active_is)
                (append_file_last (segment_file_name current.id) (entry_bytes e) (files old)
                    (file_of current) absent refl
                  ∙ ap (λ c. files old ++ (record (file_of current) { content = c } ∷ []))
                      (sym longer));
          old_fit = h.old_fit;
          current_fits = record {
            id_fits = h.current_fits.id_fits;
            entries_fit =
                All-append EntryFits current.entries (e ∷ []) h.current_fits.entries_fit (fits, tt);
            tail_clean = h.current_fits.tail_clean;
          };
          ascending = h.ascending;
          older = h.older;
          untorn = h.untorn;
          active_is = rw h.active_is (
              ap (λ n. record { seg_id = current.id; file = opened; current_size = n })
                (omega arith));
          seg_id_is = h.seg_id_is;
          bounded = omega arith;
        },
        refl,
        refl,
      )
