-- ===== src/Wal/History/Recovers.antt =====
-- Recover returns the entries of all segments, in the order of the log.
use mathlib.Core.List.{map, map-append}
use dattaniddhi.Prelude.{
  ℕ, false, ◌<◌, ◌≡◌, refl, ap, sym, List, [], ◌∷◌, ◌++◌, arith, All, le→leb, ok, err,
}
use dattaniddhi.Wal.Bytes.{IsU64}
use dattaniddhi.Wal.Disk.{DirEntry}
use dattaniddhi.Wal.Names.{segment_file_name}
use dattaniddhi.Wal.Names.RoundTrip.{has_suffix-segment_file_name, parse_uint-segment_file_name}
use dattaniddhi.Wal.Open.{
  Found, list_segments, insert_sorted, sort_segments, get_all_segment, scan_segments, recover,
}
use dattaniddhi.Wal.Format.{Error}
use dattaniddhi.Wal.Scanner.{scan_segment_file}
use dattaniddhi.Wal.Scanner.Entry.{decoded}
use dattaniddhi.Wal.Scanner.Recovery.{scan_segment_file-entries}
use dattaniddhi.Wal.History.{SegmentLog, content_of, files, all_entries, IsSegment, Ascending}

abbrev pub found_of : SegmentLog → Found
found_of s = record { seg_id = s.id; file = content_of s }

pub list_segments-files :
    (ss : List SegmentLog) → All IsSegment ss → list_segments (files ss) ≡ ok (map found_of ss)
unfolding list_segments
list_segments-files [] h = refl
list_segments-files (s ∷ ss) h = rw (
  has_suffix-segment_file_name s.id,
  parse_uint-segment_file_name s.id h.0.id_fits,
  list_segments-files ss h.1,
)

-- The segments already stand in the order that SortFunc wants.
insert_sorted_first :
    (s : SegmentLog) (ss : List SegmentLog)
    → All (λ t. s.id < t.id) ss
    → insert_sorted (found_of s) (map found_of ss) ≡ map found_of (s ∷ ss)
unfolding insert_sorted
insert_sorted_first s [] h = refl
insert_sorted_first s (t ∷ ts) h = rw (le→leb s.id t.id (omega (arith, h.0)))

pub sort_segments-Ascending :
    (ss : List SegmentLog) → Ascending ss → sort_segments (map found_of ss) ≡ map found_of ss
unfolding sort_segments
sort_segments-Ascending [] h = refl
sort_segments-Ascending (s ∷ ss) h =
    rw (sort_segments-Ascending ss h.1) (insert_sorted_first s ss h.0)

pub scan_segments-files :
    (ss : List SegmentLog)
    → All IsSegment ss
    → scan_segments (map found_of ss) ≡ ok (map decoded (all_entries ss))
unfolding scan_segments
scan_segments-files [] h = refl
scan_segments-files (s ∷ ss) h =
    rw
      (
        scan_segment_file-entries s.id s.entries s.tail h.0.id_fits h.0.entries_fit h.0.tail_clean,
        scan_segments-files ss h.1,
      )
      (ap ok (sym (map-append decoded s.entries (all_entries ss))))

-- Recover on a directory of segments returns every entry of every segment, in order; what a torn
-- write left at the end of a segment is dropped.
pub recover-files :
    (ss : List SegmentLog)
    → All IsSegment ss
    → Ascending ss
    → recover (files ss) ≡ ok (map decoded (all_entries ss))
unfolding recover get_all_segment
recover-files ss h k =
    rw (list_segments-files ss h, sort_segments-Ascending ss k) (scan_segments-files ss h)

-- A segment file with any bytes, behind segments that can be read.
abbrev pub file_with : ℕ → List ℕ → DirEntry
file_with id content = record { name = segment_file_name id; is_dir = false; content = content }

module _ (id : ℕ) (content : List ℕ) (fits : IsU64 id) where
  abbrev last_found : Found
  last_found = record { seg_id = id; file = content }

  list_segments-last :
      (ss : List SegmentLog)
      → All IsSegment ss
      → list_segments (files ss ++ (file_with id content ∷ []))
        ≡ ok (map found_of ss ++ (last_found ∷ []))
  unfolding list_segments
  list_segments-last [] h =
      rw (has_suffix-segment_file_name id, parse_uint-segment_file_name id fits)
  list_segments-last (s ∷ ss) h = rw (
    has_suffix-segment_file_name s.id,
    parse_uint-segment_file_name s.id h.0.id_fits,
    list_segments-last ss h.1,
  )

  sort_segments-last :
      (ss : List SegmentLog)
      → Ascending ss
      → All (λ s. s.id < id) ss
      → sort_segments (map found_of ss ++ (last_found ∷ [])) ≡ map found_of ss ++ (last_found ∷ [])
  unfolding sort_segments insert_sorted
  sort_segments-last [] h below = refl
  sort_segments-last (s ∷ []) h below = rw (le→leb s.id id (omega (arith, below.0)))
  sort_segments-last (s ∷ (t ∷ ts)) h below =
      rw (sort_segments-last (t ∷ ts) h.1 below.1, le→leb s.id t.id (omega (arith, h.0)))

  scan_segments-last :
      (ss : List SegmentLog) {x : Error}
      → All IsSegment ss
      → scan_segment_file content ≡ err x
      → scan_segments (map found_of ss ++ (last_found ∷ [])) ≡ err x
  unfolding scan_segments
  scan_segments-last [] h refused = rw refused
  scan_segments-last (s ∷ ss) h refused = rw (
    scan_segment_file-entries s.id s.entries s.tail h.0.id_fits h.0.entries_fit h.0.tail_clean,
    scan_segments-last ss h.1 refused,
  )

  -- Recover fails where the last segment cannot be scanned.
  pub recover-last :
      (ss : List SegmentLog) {x : Error}
      → All IsSegment ss
      → Ascending ss
      → All (λ s. s.id < id) ss
      → scan_segment_file content ≡ err x
      → recover (files ss ++ (file_with id content ∷ [])) ≡ err x
  unfolding recover get_all_segment
  recover-last ss h k below refused =
      rw (list_segments-last ss h, sort_segments-last ss k below) (scan_segments-last ss h refused)
