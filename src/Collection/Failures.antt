-- ===== src/Collection/Failures.antt =====
-- Operations of a collection that return an error.
use dattaniddhi.Prelude.{ℕ, ◌≡◌, List, none, arith, int_suc, inl, inr, Result-cases, err}
use dattaniddhi.Prelude.Maps.{bytes_eq, lookup}
use dattaniddhi.Floats.{Floats}
use dattaniddhi.Json.{Json}
use dattaniddhi.Wal.Log.{Answers, append_insert}
use dattaniddhi.Collection.{
  CollectionError, not_found, Collection, logged, validate_insert, insert_vector, commit_insert,
  delete_vector,
}
use dattaniddhi.Vector.{Vector}

module _ (floats : Floats) (json : Json) where
  commit_insert-memory :
      (os : Answers) (c : Collection json.Value) (ext : List ℕ) (id : ℕ) (v : Vector)
      (value : json.Value) (e : CollectionError)
      → (commit_insert floats json os c ext id v value).1 ≡ err e
      → (commit_insert floats json os c ext id v value).0.memory ≡ c.memory
  unfolding commit_insert
  commit_insert-memory os c ext id v value e h = ground arith

  -- An Insert that returns an error, whatever failed, leaves the index, the counter and the maps as
  -- they were.
  pub insert_vector-memory :
      (os os' : Answers) (c : Collection json.Value) (ext vals : List ℕ) (value : json.Value)
      (e : CollectionError)
      → (insert_vector floats json os os' c ext vals value).1 ≡ err e
      → (insert_vector floats json os os' c ext vals value).0.memory ≡ c.memory
  unfolding insert_vector
  insert_vector-memory os os' c ext vals value e h =
      elim (Result-cases (validate_insert floats json c vals value)) [
        | inr (x, invalid) ↦ ground arith
        | inl ((v, text), valid) ↦
            let w = (append_insert os c.wal (logged floats json c ext vals text)).0 in
            ground (
              arith,
              commit_insert-memory os' (record c { wal = w }) ext (int_suc c.memory.id_counter) v
                  value e,
            )
      ]

  -- A Delete that returns an error leaves the index, the counter and the maps as they were.
  pub delete_vector-memory :
      (os : Answers) (c : Collection json.Value) (ext : List ℕ) (e : CollectionError)
      → (delete_vector floats json os c ext).1 ≡ err e
      → (delete_vector floats json os c ext).0.memory ≡ c.memory
  unfolding delete_vector
  delete_vector-memory os c ext e h = ground arith

  -- What is refused for what it is given leaves everything.
  pub insert_vector-invalid :
      (os os' : Answers) (c : Collection json.Value) (ext vals : List ℕ) (value : json.Value)
      (x : CollectionError)
      → validate_insert floats json c vals value ≡ err x
      → insert_vector floats json os os' c ext vals value ≡ (c, err x)
  unfolding insert_vector
  insert_vector-invalid os os' c ext vals value x invalid = rw (insert_vector, invalid)

  pub delete_vector-unknown :
      (os : Answers) (c : Collection json.Value) (ext : List ℕ)
      → lookup ext c.memory.ext_to_int ≡ none
      → delete_vector floats json os c ext ≡ (c, err not_found)
  unfolding delete_vector
  delete_vector-unknown os c ext unknown = rw (delete_vector, unknown)
