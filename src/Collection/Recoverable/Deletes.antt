-- ===== src/Collection/Recoverable/Deletes.antt =====
-- Delete on a recoverable collection.
use dattaniddhi.Prelude.{
  ℕ, ◌+◌, ◌≡◌, refl, ◌∙◌, sym, subst, bytes_equal, if◌then◌else◌, List, [], ◌∷◌, ◌++◌, none, some,
  arith, Result, ok,
}
use dattaniddhi.Prelude.Maps.{bytes_eq, nat_eq, lookup, lookup-delete}
use dattaniddhi.Floats.{Floats}
use dattaniddhi.Json.{Json, JsonLaws}
use dattaniddhi.Index.{remove}
use dattaniddhi.Wal.Bytes.{IsU64}
use dattaniddhi.Wal.Log.{Wal, Answers, next_lsn, append_delete}
use dattaniddhi.Wal.Log.Steps.{NothingFails}
use dattaniddhi.Wal.Payload.{DeletePayload}
use dattaniddhi.Wal.Scanner.Entry.{delete as deleted, decoded, EntryFits}
use dattaniddhi.Wal.History.Durable.{Durable, append_delete-Durable}
use dattaniddhi.Collection.{CollectionError, Collection, forget, delete_vector, get_payload}
use dattaniddhi.Collection.Replay.{as_stored, replay-append, replay_record-forget}
use dattaniddhi.Collection.Recoverable.{Recoverable, Durable-records, fresh_memory}

module _ (floats : Floats) (json : Json) (laws : JsonLaws json) where
  -- The delete succeeded, Get finds nothing under the identifier and all else as before, no id is
  -- free again, and the collection is recoverable.
  pub record Deleted (c : Collection json.Value) (ext : List ℕ)
      (result : Collection json.Value × Result CollectionError (Unit {0})) : Type 0 where
    pub result_is : result.1 ≡ ok tt
    pub get_is :
        (j : List ℕ)
        → get_payload floats json result.0 j
          ≡ (if bytes_equal ext j then none else get_payload floats json c j)
    pub counter_is : result.0.memory.id_counter ≡ c.memory.id_counter
    pub config_is : result.0.config ≡ c.config
    pub index_config_is : result.0.memory.index.config ≡ c.memory.index.config
    pub recoverable : Recoverable floats json laws result.0

  -- The collection behind a delete from the log and the memory.
  abbrev pub shrunk : Collection json.Value → Wal → List ℕ → ℕ → Collection json.Value
  shrunk c w ext id = record c { memory = forget c.memory ext id c.memory.id_counter; wal = w }

  delete_vector_found :
      (os : Answers) (c : Collection json.Value) (ext : List ℕ) (id lsn : ℕ)
      → lookup ext c.memory.ext_to_int ≡ some id
      → (append_delete os c.wal (record { external_id = ext; internal_id = id })).1 ≡ ok lsn
      → delete_vector floats json os c ext ≡ (
        shrunk c (append_delete os c.wal (record { external_id = ext; internal_id = id })).0 ext id,
        ok tt,
      )
  unfolding delete_vector
  delete_vector_found os c ext id lsn known appended = rw (delete_vector, known, appended)

  module _ (os : Answers) (c : Collection json.Value) (r : Recoverable floats json laws c)
      (good : NothingFails os) (id_fits : IsU64 (r.current.id + 1)) where
    durable :
        (dp : DeletePayload)
        → EntryFits (deleted (next_lsn c.wal) dp)
        → Durable r.records (deleted (next_lsn c.wal) dp) (append_delete os c.wal dp)
    durable dp fits =
        Durable-records floats json laws r (deleted (next_lsn c.wal) dp) (append_delete os c.wal dp)
          (append_delete-Durable os c.wal r.old r.current good r.holds id_fits dp fits)

    shrunk-Recoverable :
        (dp : DeletePayload)
        → lookup dp.external_id c.memory.ext_to_int ≡ some dp.internal_id
        → EntryFits (deleted (next_lsn c.wal) dp)
        → Recoverable floats json laws
            (shrunk c (append_delete os c.wal dp).0 dp.external_id dp.internal_id)
    unfolding remove
    shrunk-Recoverable dp known fits =
        let d = durable dp fits in
        record {
          old = d.old';
          current = d.current';
          holds = d.holds;
          records = r.records ++ (decoded (deleted (next_lsn c.wal) dp) ∷ []);
          recovered = d.recovered;
          read_back_is =
              replay-append floats json laws c.config.dimension (fresh_memory c.memory.index.config)
                (as_stored floats json laws c.memory) r.records
                (decoded (deleted (next_lsn c.wal) dp)) r.read_back_is
              ∙ replay_record-forget floats json laws c.config.dimension (next_lsn c.wal) c.memory
                  dp (r.known_ids dp.external_id dp.internal_id known) r.counter_fits;
          index_dimension = r.index_dimension;
          index_ids = λ id h.
              ground
                (arith, lookup-delete dp.internal_id id c.memory.index.vectors, r.index_ids id);
          known_ids = λ e id h.
              ground (arith, lookup-delete dp.external_id e c.memory.ext_to_int, r.known_ids e id);
          counter_fits = r.counter_fits;
        }

    -- A Delete of a known identifier, on a recoverable collection with no failing call, succeeds; Get
    -- finds nothing under the identifier then and all else as before, the counter stays, and the
    -- collection is recoverable: its log, replayed on an empty index, gives the new memory.
    pub delete_vector-Recoverable :
        (ext : List ℕ) (id : ℕ)
        → lookup ext c.memory.ext_to_int ≡ some id
        → EntryFits (deleted (next_lsn c.wal) (record { external_id = ext; internal_id = id }))
        → Deleted c ext (delete_vector floats json os c ext)
    unfolding get_payload remove
    delete_vector-Recoverable ext id known fits =
        let dp : DeletePayload = record { external_id = ext; internal_id = id } in
        let d = durable dp fits in
        let e = delete_vector_found os c ext id (next_lsn c.wal) known d.result_is in
        subst (Deleted c ext) (sym e) (record {
          result_is = refl;
          get_is = λ j. lookup-delete ext j c.memory.payload;
          counter_is = refl;
          config_is = refl;
          index_config_is = refl;
          recoverable = shrunk-Recoverable dp known fits;
        })
