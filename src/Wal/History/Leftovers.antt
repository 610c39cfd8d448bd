-- ===== src/Wal/History/Leftovers.antt =====
-- What a write leaves at the end of the active segment, where it is no record that can be read.
mod Examples
use dattaniddhi.Prelude.{
  ℕ, ◌+◌, ◌<◌, ◌≤◌, ◌≡◌, ◌≢◌, refl, ap, ◌∙◌, sym, List, [], ◌∷◌, ◌++◌, append-nil, append_assoc,
  All, length, take, ok, err,
}
use dattaniddhi.Wal.Bytes.{IsU64}
use dattaniddhi.Wal.Disk.{append_file}
use dattaniddhi.Wal.Disk.Files.{append_file_last}
use dattaniddhi.Wal.Format.{Error}
use dattaniddhi.Wal.Header.{decode_record_header}
use dattaniddhi.Wal.Log.{Wal}
use dattaniddhi.Wal.Names.{segment_file_name}
use dattaniddhi.Wal.Open.{recover}
use dattaniddhi.Wal.Scanner.{DecodedRecord}
use dattaniddhi.Wal.Scanner.Entry.{entries_bytes, EntryFits}
use dattaniddhi.Wal.Scanner.Fails.{scan_segment_file_refused}
use dattaniddhi.Wal.History.{SegmentLog, content_of, file_of, files, IsSegment, Ascending}
use dattaniddhi.Wal.History.Appends.{Holds, Absent-files}
use dattaniddhi.Wal.History.Recovers.{recover-last}
use dattaniddhi.Wal.History.Rotates.{files-append, Ascending-append}

-- The segment with bytes behind its entries.
abbrev pub left : SegmentLog → List ℕ → SegmentLog
left s bytes = record s { tail = bytes }

content_of-left :
    (s : SegmentLog) (bytes more : List ℕ)
    → content_of (left s bytes) ++ more ≡ content_of (left s (bytes ++ more))
content_of-left s bytes more = simp append_assoc

module _ {w : Wal} {old : List SegmentLog} {current : SegmentLog} (h : Holds w old current) where
  -- More bytes at the end of the active segment.
  pub append_file-left :
      (bytes more : List ℕ)
      → append_file (segment_file_name current.id) more (files (old ++ (left current bytes ∷ [])))
        ≡ files (old ++ (left current (bytes ++ more) ∷ []))
  append_file-left bytes more =
      let name = segment_file_name current.id in
      let absent = Absent-files old current.id h.old_fit h.current_fits.id_fits h.older in
      ap (append_file name more) (files-append old (left current bytes ∷ []))
      ∙ append_file_last name more (files old) (file_of (left current bytes)) absent refl
      ∙ ap (λ c. files old ++ (record (file_of current) { content = c } ∷ []))
          (content_of-left current bytes more)
      ∙ sym (files-append old (left current (bytes ++ more) ∷ []))

  pub dir-left : w.dir ≡ files (old ++ (left current [] ∷ []))
  dir-left =
      h.dir_is
      ∙ ap (λ t. files old ++ (file_of (left current t) ∷ [])) h.untorn
      ∙ sym (files-append old (left current [] ∷ []))

  -- Recover fails where the bytes begin with a record header that is refused.
  pub recover-left :
      (bytes : List ℕ) {x : Error}
      → 32 ≤ length bytes
      → decode_record_header (take 32 bytes) ≡ err x
      → recover (files (old ++ (left current bytes ∷ []))) ≡ err x
  recover-left bytes room refused =
      ap recover (files-append old (left current bytes ∷ []))
      ∙ recover-last current.id (content_of (left current bytes)) h.current_fits.id_fits old
          h.old_fit h.ascending h.older
          (scan_segment_file_refused current.id current.entries bytes h.current_fits.id_fits
            h.current_fits.entries_fit room refused)
