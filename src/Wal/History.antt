-- ===== src/Wal/History.antt =====
-- The abstract view of a WAL directory: segments with the entries that they hold.
pub mod Recovers
pub mod Appends
pub mod Rotates
pub mod Durable
pub mod Failures
pub mod Leftovers
pub mod Oversized
pub mod Torn
pub mod Headless
pub mod Listing
pub mod Sizes
pub mod Restarts
pub mod Reopens
pub mod Numbers
pub mod Examples
pub mod Creates
use mathlib.Core.List.{map}
use dattaniddhi.Prelude.{ℕ, ◌<◌, List, [], ◌∷◌, ◌++◌, All, false}
use dattaniddhi.Wal.Bytes.{IsU64}
use dattaniddhi.Wal.Disk.{DirEntry}
use dattaniddhi.Wal.Names.{segment_file_name}
use dattaniddhi.Wal.Scanner.Entry.{Entry, entries_bytes, EntryFits}
use dattaniddhi.Wal.Scanner.Recovery.{CleanTail, segment_bytes}

-- A segment: its number, its entries, and what a torn write left behind them.
pub record SegmentLog : Type 0 where
  pub id : ℕ
  pub entries : List Entry
  pub tail : List ℕ

abbrev pub content_of : SegmentLog → List ℕ
content_of s = segment_bytes s.id (entries_bytes s.entries ++ s.tail)

abbrev pub file_of : SegmentLog → DirEntry
file_of s = record { name = segment_file_name s.id; is_dir = false; content = content_of s }

abbrev pub files : List SegmentLog → List DirEntry
files [] = []
files (s ∷ ss) = file_of s ∷ files ss

abbrev pub all_entries : List SegmentLog → List Entry
all_entries [] = []
all_entries (s ∷ ss) = s.entries ++ all_entries ss

pub record IsSegment (s : SegmentLog) : Type 0 where
  pub id_fits : IsU64 s.id
  pub entries_fit : All EntryFits s.entries
  pub tail_clean : CleanTail s.tail

-- The numbers grow from segment to segment.
abbrev pub Ascending : List SegmentLog → Type 0
Ascending [] = Unit
Ascending (s ∷ ss) = All (λ t. s.id < t.id) ss × Ascending ss
