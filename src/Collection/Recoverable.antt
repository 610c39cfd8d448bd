-- ===== src/Collection/Recoverable.antt =====
-- A collection whose log, read back, gives what it holds in memory.
pub mod Inserts
pub mod Deletes
mod Examples
use mathlib.Core.List.{map}
use dattaniddhi.Wal.Format.{Error}
use dattaniddhi.Prelude.{
  subst, ℕ, ◌^◌, ◌≤◌, ◌<◌, ◌≡◌, refl, ap, ◌∙◌, List, [], ◌∷◌, ◌++◌, none, some, arith, Result, ok,
  ◌>>=◌,
}
use dattaniddhi.Prelude.Maps.{bytes_eq, nat_eq, lookup}
use dattaniddhi.Floats.{Floats}
use dattaniddhi.Json.{Json, JsonLaws}
use dattaniddhi.Index.{IndexConfig, LinearIndex}
use dattaniddhi.Wal.Log.{Wal}
use dattaniddhi.Wal.Open.{recover}
use dattaniddhi.Wal.Scanner.{DecodedRecord}
use dattaniddhi.Wal.Scanner.Entry.{Entry, decoded}
use dattaniddhi.Wal.History.{SegmentLog, all_entries}
use dattaniddhi.Wal.History.Appends.{Holds}
use dattaniddhi.Wal.History.Durable.{Durable, recover-Holds}
use dattaniddhi.Collection.{
  CollectionError, wal_failed, CollectionConfig, Memory, Collection, lift, replay, load_state,
}
use dattaniddhi.Collection.Replay.{as_stored, replay-append}

-- What OpenCollection starts from.
abbrev pub fresh_memory : {P : Type 0} → IndexConfig → Memory P
fresh_memory cfg = record {
  index = record { vectors = []; config = cfg };
  id_counter = 0;
  ext_to_int = [];
  int_to_ext = [];
  payload = [];
}

module _ (floats : Floats) (json : Json) (laws : JsonLaws json) where
  -- The log of a directory, replayed on a fresh index.
  abbrev pub read_back :
      Collection json.Value → List DecodedRecord → Result CollectionError (Memory json.Value)
  read_back c records =
      replay floats json c.config.dimension (fresh_memory c.memory.index.config) records

  pub record Recoverable (c : Collection json.Value) : Type 0 where
    pub old : List SegmentLog
    pub current : SegmentLog
    pub holds : Holds c.wal old current
    pub records : List DecodedRecord
    pub recovered : recover c.wal.dir ≡ ok records
    pub read_back_is : read_back c records ≡ ok (as_stored floats json laws c.memory)
    pub index_dimension : c.memory.index.config.dimension ≡ c.config.dimension
    pub index_ids : (id : ℕ) → c.memory.id_counter < id → lookup id c.memory.index.vectors ≡ none
    pub known_ids :
        (ext : List ℕ) (id : ℕ)
        → lookup ext c.memory.ext_to_int ≡ some id
        → id ≤ c.memory.id_counter
    pub counter_fits : c.memory.id_counter < 2 ^ 63

  -- A collection that is opened on the directory of one that is recoverable: LoadState, from an
  -- empty index with the same configuration, ends with the index, the counter and the maps of that
  -- collection, each payload as JSON stores it.
  pub load_state-Recoverable :
      (c : Collection json.Value) (w : Wal)
      → Recoverable c
      → w.dir ≡ c.wal.dir
      → load_state floats json
          (record { config = c.config; memory = fresh_memory c.memory.index.config; wal = w })
        ≡ ok (record { config = c.config; memory = as_stored floats json laws c.memory; wal = w })
  unfolding load_state
  load_state-Recoverable c w r same = rw (same, r.recovered, r.read_back_is)

  records_are :
      {c : Collection json.Value} (r : Recoverable c)
      → map decoded (all_entries (r.old ++ (r.current ∷ []))) ≡ r.records
  records_are {c} r = ground (arith, recover-Holds c.wal r.old r.current r.holds, r.recovered)

  -- What Durable says of the log, for the records of a recoverable collection.
  pub Durable-records :
      {c : Collection json.Value} (r : Recoverable c) (e : Entry) (result : Wal × Result Error ℕ)
      → Durable (map decoded (all_entries (r.old ++ (r.current ∷ [])))) e result
      → Durable r.records e result
  Durable-records r e result d = subst (λ rs. Durable rs e result) (records_are r) d
