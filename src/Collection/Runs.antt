-- ===== src/Collection/Runs.antt =====
-- The life of a collection: inserts, deletes and reopenings in any order, against a specification
-- that knows only which payload stands under which identifier.
pub mod Keeps
pub mod Ready
pub mod Searches
pub mod Attempts
mod Examples
use dattaniddhi.Prelude.{
  ℕ, ◌+◌, ◌^◌, ◌≤◌, ◌<◌, ◌≡◌, refl, ap, ◌∙◌, sym, subst, List, [], ◌∷◌, Option, none, some, arith,
  Result, ok, err, ok_injective, bytes_equal, if◌then◌else◌,
}
use dattaniddhi.Prelude.Maps.{bytes_eq, nat_eq, Map, lookup, map_values}
use dattaniddhi.Floats.{Floats}
use dattaniddhi.Json.{Json, JsonLaws}
use dattaniddhi.Vector.{Vector}
use dattaniddhi.Wal.Bytes.{IsU64}
use dattaniddhi.Wal.Log.{Answers, next_lsn}
use dattaniddhi.Wal.Log.Steps.{NothingFails}
use dattaniddhi.Wal.Scanner.Entry.{insert as inserted, delete as deleted, EntryFits}
use dattaniddhi.Collection.{
  CollectionError, not_found, Collection, CollectionConfig, logged, validate_insert, insert_vector,
  delete_vector, get_payload,
}
use dattaniddhi.Collection.Config.{ConfigJson, ConfigAnswers, CollectionDir, check_loaded}
use dattaniddhi.Collection.Recoverable.{Recoverable}
use dattaniddhi.Collection.Recoverable.Inserts.{insert_vector-Recoverable}
use dattaniddhi.Collection.Recoverable.Deletes.{delete_vector-Recoverable}
use dattaniddhi.Collection.Lifecycle.{make_index, open_collection}
use dattaniddhi.Collection.Lifecycle.Creates.{Created}
use dattaniddhi.Collection.Lifecycle.Opens.{
  ConfigGood, dir_of, Belongs, Opened, open_collection-Opened,
}

-- What happens to a collection, with payloads of type `P`.
pub data Event (P : Type 0) : Type 0 where
  put : List ℕ → P → Event P
  removed : List ℕ → Event P
  refused : Event P
  reopened : Event P

abbrev pub map_option : {A B : Type 0} → (A → B) → Option A → Option B
map_option f none = none
map_option f (some a) = some (f a)

-- The payload under an identifier behind a history, the latest event first.
abbrev pub answer : {P : Type 0} → (P → P) → List (Event P) → List ℕ → Option P
answer stored [] j = none
answer stored (put ext value ∷ es) j = if bytes_equal ext j then some value else answer stored es j
answer stored (removed ext ∷ es) j = if bytes_equal ext j then none else answer stored es j
answer stored (refused ∷ es) j = answer stored es j
answer stored (reopened ∷ es) j = map_option stored (answer stored es j)

module _ (floats : Floats) (json : Json) (config_json : ConfigJson) (file : List ℕ) where
  -- An operation: an Insert or Delete that succeeds, where no call fails, and ids and numbers are
  -- left; one that is refused for what it is given; or a reopening.
  pub data Step (c : Collection json.Value)
      : Event json.Value → Collection json.Value → Type 0 where
    insert :
        (os os' : Answers) (ext vals text : List ℕ) (value : json.Value) (v : Vector)
        → NothingFails os
        → IsU64 (c.wal.seg_id + 1)
        → c.memory.id_counter + 1 < 2 ^ 63
        → validate_insert floats json c vals value ≡ ok (v, text)
        → EntryFits (inserted (next_lsn c.wal) (logged floats json c ext vals text))
        → Step c (put ext value) (insert_vector floats json os os' c ext vals value).0
    delete :
        (os : Answers) (ext : List ℕ) (id : ℕ)
        → NothingFails os
        → IsU64 (c.wal.seg_id + 1)
        → lookup ext c.memory.ext_to_int ≡ some id
        → EntryFits (deleted (next_lsn c.wal) (record { external_id = ext; internal_id = id }))
        → Step c (removed ext) (delete_vector floats json os c ext).0
    refuse_insert :
        (os os' : Answers) (ext vals : List ℕ) (value : json.Value) (x : CollectionError)
        → validate_insert floats json c vals value ≡ err x
        → Step c refused (insert_vector floats json os os' c ext vals value).0
    refuse_delete :
        (os : Answers) (ext : List ℕ)
        → lookup ext c.memory.ext_to_int ≡ none
        → Step c refused (delete_vector floats json os c ext).0
    reopen :
        (os : ConfigAnswers) (os' : Answers) (sp : ℕ) (c' : Collection json.Value)
        → ConfigGood os
        → 1 ≤ sp
        → sp ≤ 3
        → (open_collection floats json config_json os os' c.config.name (dir_of file c) sp).1
          ≡ ok c'
        → Step c reopened c'

  -- The collections that are reached from `c`, each with its history, the latest event first.
  pub data Run (c : Collection json.Value)
      : List (Event json.Value) → Collection json.Value → Type 0 where
    here : Run c [] c
    later :
        {es : List (Event json.Value)} {e : Event json.Value} {d d' : Collection json.Value}
        → Run c es d
        → Step d e d'
        → Run c (e ∷ es) d'

  module _ (laws : JsonLaws json) where
    -- The collection answers as its history says, its log gives its memory, and its configuration
    -- file is `file`.
    pub record Faithful (es : List (Event json.Value)) (c : Collection json.Value) : Type 0 where
      pub recoverable : Recoverable floats json laws c
      pub belongs : Belongs floats json laws config_json file c
      pub answers : (j : List ℕ) → get_payload floats json c j ≡ answer laws.stored es j
