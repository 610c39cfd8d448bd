-- ===== src/Wal/Disk.antt =====
-- The WAL directory as internal/store/wal uses it: its entries, and an append to a file in it.
-- What the operating system answers to a call is an argument of the operation that makes it.
pub mod Files
use dattaniddhi.Prelude.{
  ℕ, Bool, true, false, List, [], ◌∷◌, ◌++◌, Option, none, some, take, bytes_equal, if◌then◌else◌,
}

-- os.DirEntry, with the file's bytes.
pub record DirEntry : Type 0 where
  pub name : List ℕ
  pub is_dir : Bool
  pub content : List ℕ

-- os.File.Write: all of the bytes are written, or an error comes back behind some of them.
pub data WriteOutcome : Type 0 where
  written : WriteOutcome
  short : ℕ → WriteOutcome

abbrev pub landed : WriteOutcome → List ℕ → List ℕ
landed written bytes = bytes
landed (short n) bytes = take n bytes

-- The bytes of the file `name`.
unfoldable pub read_file : List ℕ → List DirEntry → Option (List ℕ)
read_file name [] = none
read_file name (d ∷ ds) = if bytes_equal d.name name then some d.content else read_file name ds

-- os.OpenFile with O_CREATE and O_APPEND: a file that is there keeps its bytes.
unfoldable pub open_create : List ℕ → List DirEntry → List DirEntry
open_create name [] = record { name = name; is_dir = false; content = [] } ∷ []
open_create name (d ∷ ds) = if bytes_equal d.name name then d ∷ ds else d ∷ open_create name ds

-- A write to a file that was opened with O_APPEND.
unfoldable pub append_file : List ℕ → List ℕ → List DirEntry → List DirEntry
append_file name bytes [] = []
append_file name bytes (d ∷ ds) =
    if bytes_equal d.name name
    then record d { content = d.content ++ bytes } ∷ ds
    else d ∷ append_file name bytes ds
