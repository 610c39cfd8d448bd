-- ===== src/Wal/Disk/Files.antt =====
-- A directory whose entries have names of their own: reads, appends and creation.
use dattaniddhi.Prelude.{
  ℕ, ◌≡◌, ◌≢◌, refl, ap, false, List, [], ◌∷◌, ◌++◌, All, some, bytes_equal, bytes_equal_refl,
  bytes_equal→eq, Bool-cases, inl, inr,
}
use dattaniddhi.Wal.Disk.{DirEntry, read_file, open_create, append_file}

pub bytes_equal_ne : (xs ys : List ℕ) → xs ≢ ys → bytes_equal xs ys ≡ false
bytes_equal_ne xs ys h = elim (Bool-cases (bytes_equal xs ys)) [
  | inl e ↦ absurd (h (bytes_equal→eq xs ys e))
  | inr e ↦ e
]

-- No entry of the directory has the name.
abbrev pub Absent : List ℕ → List DirEntry → Type 0
Absent name = All (λ d. d.name ≢ name)

module _ (name : List ℕ) where
  pub open_create-Absent :
      (dir : List DirEntry)
      → Absent name dir
      → open_create name dir ≡ dir ++ (record { name = name; is_dir = false; content = [] } ∷ [])
  unfolding open_create
  open_create-Absent [] h = refl
  open_create-Absent (d ∷ ds) h =
      rw (bytes_equal_ne d.name name h.0) (ap (λ t. d ∷ t) (open_create-Absent ds h.1))

  pub append_file_last :
      (bytes : List ℕ) (dir : List DirEntry) (d : DirEntry)
      → Absent name dir
      → d.name ≡ name
      → append_file name bytes (dir ++ (d ∷ []))
        ≡ dir ++ (record d { content = d.content ++ bytes } ∷ [])
  unfolding append_file
  append_file_last bytes [] d h e = rw e (rw bytes_equal_refl)
  append_file_last bytes (c ∷ cs) d h e =
      rw (bytes_equal_ne c.name name h.0) (ap (λ t. c ∷ t) (append_file_last bytes cs d h.1 e))

  pub read_file_last :
      (dir : List DirEntry) (d : DirEntry)
      → Absent name dir
      → d.name ≡ name
      → read_file name (dir ++ (d ∷ [])) ≡ some d.content
  unfolding read_file
  read_file_last [] d h e = rw e (rw bytes_equal_refl)
  read_file_last (c ∷ cs) d h e = rw (bytes_equal_ne c.name name h.0) (read_file_last cs d h.1 e)
