-- ===== src/Collection/Unsynced.antt =====
-- What an Insert whose sync fails leaves for the next one.
mod Examples
use dattaniddhi.Prelude.{
  ℕ, ◌+◌, ◌^◌, ◌≤◌, ◌<◌, ◌≡◌, refl, ap, ◌∙◌, sym, subst, false, List, [], ◌∷◌, ◌++◌, none, some,
  arith, int_suc, Result, ok, err, ==_refl, if_true,
}
use dattaniddhi.Prelude.Maps.{bytes_eq, nat_eq, lookup, insert, lookup-insert}
use dattaniddhi.Floats.{Floats}
use dattaniddhi.Json.{Json, JsonLaws}
use dattaniddhi.Vector.{Vector, new_vector}
use dattaniddhi.Vector.Valid.{IsVector, new_vector-IsVector}
use dattaniddhi.Index.{LinearIndex, add}
use dattaniddhi.Wal.Bytes.{IsU64}
use dattaniddhi.Wal.Format.{Error, failed_to_sync, op_insert}
use dattaniddhi.Wal.Log.{Wal, Answers, sync_always, next_lsn, append_insert}
use dattaniddhi.Wal.Log.Steps.{NothingFails}
use dattaniddhi.Wal.Log.Unsynced.{synced, append_record_unsynced}
use dattaniddhi.Wal.Open.{recover}
use dattaniddhi.Wal.Payload.{InsertPayload}
use dattaniddhi.Wal.Scanner.{DecodedRecord}
use dattaniddhi.Wal.Scanner.Entry.{insert as inserted, decoded, EntryFits}
use dattaniddhi.Wal.History.Durable.{Durable, append_insert-Durable, recover-Holds}
use dattaniddhi.Collection.{
  CollectionError, wal_failed, internal_id_collision, Memory, Collection, remember, logged,
  validate_insert, insert_vector, replay_insert, replay_record, load_state,
}
use dattaniddhi.Collection.Replay.{as_stored, replay-append, replay_record-remember}
use dattaniddhi.Collection.Recoverable.{Recoverable, Durable-records, read_back, fresh_memory}
use dattaniddhi.Collection.Recoverable.Inserts.{
  grown, durable, new_id, grown-Recoverable, validate_insert-new_vector, insert_vector_added,
}

-- An id that is in the index is refused.
add_present :
    (li : LinearIndex) (id : ℕ) (v old : Vector)
    → lookup id li.vectors ≡ some old
    → li.config.dimension ≡ v.dimensions
    → id < 2 ^ 63
    → add li id (some v) ≡ (ok false, li)
unfolding add
add_present li id v old there same small = ground arith

append_insert_unsynced :
    (os : Answers) (w : Wal) (ip : InsertPayload) (n : ℕ)
    → w.sync_policy ≡ sync_always
    → os.sync_ok ≡ false
    → (append_insert (synced os) w ip).1 ≡ ok n
    → append_insert os w ip ≡ ((append_insert (synced os) w ip).0, err failed_to_sync)
unfolding append_insert
append_insert_unsynced os w ip n always failed h =
    append_record_unsynced os w op_insert n _ always failed h

module _ (floats : Floats) (json : Json) (laws : JsonLaws json) where
  insert_vector_failed :
      (os os' : Answers) (c : Collection json.Value) (ext vals text : List ℕ) (value : json.Value)
      (v : Vector) (w : Wal) (e : Error)
      → validate_insert floats json c vals value ≡ ok (v, text)
      → append_insert os c.wal (logged floats json c ext vals text) ≡ (w, err e)
      → insert_vector floats json os os' c ext vals value
        ≡ (record c { wal = w }, err (wal_failed e))
  unfolding insert_vector
  insert_vector_failed os os' c ext vals text value v w e valid appended =
      rw (insert_vector, valid, ap (λ t. t.1) appended, ap (λ t. t.0) appended)

  replay_record_present :
      (dim lsn : ℕ) (m : Memory json.Value) (ip : InsertPayload) (v old : Vector)
      → new_vector floats ip.vector_data dim ≡ ok v
      → lookup ip.internal_id m.index.vectors ≡ some old
      → m.index.config.dimension ≡ v.dimensions
      → ip.internal_id < 2 ^ 63
      → replay_record floats json dim (as_stored floats json laws m) (decoded (inserted lsn ip))
        ≡ err internal_id_collision
  unfolding replay_record replay_insert
  replay_record_present dim lsn m ip v old built there same small =
      rw (built, add_present m.index ip.internal_id v old there same small)

  -- A collection behind two inserts that cannot be opened any more.
  pub record Unopenable (first : Collection json.Value × Result CollectionError (List ℕ))
      (ext : List ℕ) (second : Collection json.Value × Result CollectionError (List ℕ))
      : Type 0 where
    pub failed : first.1 ≡ err (wal_failed failed_to_sync)
    pub inserted_is : second.1 ≡ ok ext
    pub unopenable :
        (u : Wal)
        → u.dir ≡ second.0.wal.dir
        → load_state floats json (record {
          config = second.0.config;
          memory = fresh_memory second.0.memory.index.config;
          wal = u;
        })
          ≡ err internal_id_collision

  module _ (os os' os'' : Answers) (c : Collection json.Value) (r : Recoverable floats json laws c)
      (always : c.wal.sync_policy ≡ sync_always) (failed : os.sync_ok ≡ false)
      (good : NothingFails (synced os)) (good' : NothingFails os') (seg : IsU64 (c.wal.seg_id + 1))
      (room : c.memory.id_counter + 1 < 2 ^ 63) (ext vals text : List ℕ) (value : json.Value)
      (v : Vector) (valid : validate_insert floats json c vals value ≡ ok (v, text))
      (fits : EntryFits (inserted (next_lsn c.wal) (logged floats json c ext vals text))) where
    -- The WAL and the collection behind the insert that fails.
    abbrev pub wal_of_failed : Wal
    wal_of_failed = (append_insert (synced os) c.wal (logged floats json c ext vals text)).0

    abbrev pub behind_failed : Collection json.Value
    behind_failed = record c { wal = wal_of_failed }

    -- What the log holds then: as if the insert had succeeded.
    logged_anyway :
        Recoverable floats json laws (grown floats json laws c wal_of_failed ext v value)
    logged_anyway =
        let (built, marshalled) =
          validate_insert-new_vector floats json laws c vals value v text valid in
        let w = new_vector-IsVector floats vals c.config.dimension built in
        grown-Recoverable floats json laws (synced os) os' c r good
          (omega (arith, r.holds.seg_id_is)) room ext vals text value v built marshalled
          (r.index_dimension ∙ sym w.dimensions_is) fits

    insert_vector-failed :
        insert_vector floats json os os' c ext vals value
        ≡ (behind_failed, err (wal_failed failed_to_sync))
    insert_vector-failed =
        let ip = logged floats json c ext vals text in
        let d =
          durable floats json laws (synced os) os' c r good (omega (arith, r.holds.seg_id_is)) room
            ip fits in
        insert_vector_failed os os' c ext vals text value v wal_of_failed failed_to_sync valid
          (append_insert_unsynced os c.wal ip (next_lsn c.wal) always failed d.result_is)

    module _ (seg' : IsU64 (behind_failed.wal.seg_id + 1)) (ext' vals' text' : List ℕ)
        (value' : json.Value) (v' : Vector)
        (valid' : validate_insert floats json behind_failed vals' value' ≡ ok (v', text'))
        (fits' : EntryFits (
          inserted
            (next_lsn behind_failed.wal)
            (logged floats json behind_failed ext' vals' text'))) where
      abbrev ip' : InsertPayload
      ip' = logged floats json behind_failed ext' vals' text'

      -- The record of the second insert stands behind the one of the first, with the same id.
      second-Durable :
          Durable logged_anyway.records
            (inserted (next_lsn wal_of_failed) ip')
            (append_insert os' wal_of_failed ip')
      second-Durable =
          Durable-records floats json laws logged_anyway (inserted (next_lsn wal_of_failed) ip')
            (append_insert os' wal_of_failed ip')
            (append_insert-Durable os' wal_of_failed logged_anyway.old logged_anyway.current good'
              logged_anyway.holds (omega (arith, logged_anyway.holds.seg_id_is)) ip' fits')

      v'-dimensions : c.memory.index.config.dimension ≡ v'.dimensions
      v'-dimensions =
          let (built, marshalled) =
            validate_insert-new_vector floats json laws behind_failed vals' value' v' text'
              valid' in
          r.index_dimension
          ∙ sym (new_vector-IsVector floats vals' c.config.dimension built).dimensions_is

      insert_vector-second : insert_vector floats json os' os'' behind_failed ext' vals' value' ≡ (
        grown floats json laws behind_failed (append_insert os' wal_of_failed ip').0 ext' v' value',
        ok ext',
      )
      insert_vector-second =
          insert_vector_added floats json laws os' os'' behind_failed ext' vals' value' v' text'
            (next_lsn wal_of_failed) valid' second-Durable.result_is
            (new_id floats json laws (synced os) os' c r good (omega (arith, r.holds.seg_id_is))
              room)
            v'-dimensions (omega arith)

      replay-second :
          read_back floats json laws c
            (logged_anyway.records ++ (decoded (inserted (next_lsn wal_of_failed) ip') ∷ []))
          ≡ err internal_id_collision
      replay-second =
          let (built, marshalled) =
            validate_insert-new_vector floats json laws behind_failed vals' value' v' text'
              valid' in
          let id = int_suc c.memory.id_counter in
          let m = (grown floats json laws c wal_of_failed ext v value).memory in
          let there : lookup id m.index.vectors ≡ some v =
            lookup-insert id id v c.memory.index.vectors ∙ if_true _ _ (==_refl id) in
          replay-append floats json laws c.config.dimension (fresh_memory c.memory.index.config)
            (as_stored floats json laws m) logged_anyway.records
            (decoded (inserted (next_lsn wal_of_failed) ip')) logged_anyway.read_back_is
          ∙ replay_record_present c.config.dimension (next_lsn wal_of_failed) m ip' v' v built there
              v'-dimensions (omega arith)

      load_state-second :
          (u : Wal)
          → u.dir ≡ (append_insert os' wal_of_failed ip').0.dir
          → load_state floats json
              (record { config = c.config; memory = fresh_memory c.memory.index.config; wal = u })
            ≡ err internal_id_collision
      unfolding load_state
      load_state-second u same = rw (same, second-Durable.recovered, replay-second)

      -- Under SyncAlways, an Insert whose Sync fails, every other call succeeding, returns an error;
      -- but if the next Insert succeeds, the log holds two records with the same internal id, and
      -- LoadState fails on the directory, as it is then, with an id collision.
      pub insert_vector-Unopenable :
          Unopenable (insert_vector floats json os os' c ext vals value) ext' (
            insert_vector floats json os' os''
              (insert_vector floats json os os' c ext vals value).0
              ext'
              vals'
              value')
      insert_vector-Unopenable =
          let first = insert_vector-failed in
          let second =
            ap (λ d. insert_vector floats json os' os'' d ext' vals' value') (ap (λ t. t.0) first)
            ∙ insert_vector-second in
          record {
            failed = ap (λ t. t.1) first;
            inserted_is = ap (λ t. t.1) second;
            unopenable = λ u same.
                ap
                  (λ (t : Collection json.Value × Result CollectionError (List ℕ)).
                    load_state floats json (record {
                      config = t.0.config;
                      memory = fresh_memory t.0.memory.index.config;
                      wal = u;
                    }))
                  second
                ∙ load_state-second u (same ∙ ap (λ t. t.0.wal.dir) second);
          }
