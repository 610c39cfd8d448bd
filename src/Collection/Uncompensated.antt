-- ===== src/Collection/Uncompensated.antt =====
-- An Insert that the index refuses behind the write to the log.
mod Examples
use mathlib.Core.List.{map}
use dattaniddhi.Prelude.{
  ℕ, ◌+◌, ◌^◌, ◌<◌, ◌≤◌, ◌≡◌, refl, ap, ◌∙◌, sym, subst, List, [], ◌∷◌, ◌++◌, arith, int_suc,
  Result, ok, err, ok_injective, some, append_assoc,
}
use dattaniddhi.Floats.{Floats}
use dattaniddhi.Json.{Json, JsonLaws}
use dattaniddhi.Vector.{Vector, new_vector}
use dattaniddhi.Index.{IndexError, invalid_id, LinearIndex, add}
use dattaniddhi.Wal.Bytes.{IsU64}
use dattaniddhi.Wal.Log.{Wal, Answers, next_lsn, append_insert, append_delete}
use dattaniddhi.Wal.Log.Steps.{NothingFails}
use dattaniddhi.Wal.Open.{recover}
use dattaniddhi.Wal.Payload.{InsertPayload, DeletePayload}
use dattaniddhi.Wal.Scanner.{DecodedRecord}
use dattaniddhi.Wal.Scanner.Entry.{insert as inserted, delete as deleted, decoded, EntryFits}
use dattaniddhi.Wal.History.{all_entries}
use dattaniddhi.Wal.History.Durable.{
  Durable, append_insert-Durable, append_delete-Durable, recover-Holds,
}
use dattaniddhi.Collection.{
  CollectionError, index_failed, Memory, Collection, logged, validate_insert, commit_insert,
  insert_vector, replay_insert, replay_record, load_state,
}
use dattaniddhi.Collection.Replay.{as_stored, replay_refused}
use dattaniddhi.Collection.Recoverable.{Recoverable, Durable-records, read_back, fresh_memory}
use dattaniddhi.Collection.Recoverable.Inserts.{validate_insert-new_vector}

add_negative :
    (li : LinearIndex) (id : ℕ) (v : Vector)
    → 2 ^ 63 ≤ id
    → add li id (some v) ≡ (err invalid_id, li)
unfolding add
add_negative li id v large = ground arith

module _ (floats : Floats) (json : Json) (laws : JsonLaws json) where
  replay_record_negative :
      (dim lsn : ℕ) (m : Memory json.Value) (ip : InsertPayload) (v : Vector)
      → new_vector floats ip.vector_data dim ≡ ok v
      → 2 ^ 63 ≤ ip.internal_id
      → replay_record floats json dim m (decoded (inserted lsn ip)) ≡ err (index_failed invalid_id)
  unfolding replay_record replay_insert
  replay_record_negative dim lsn m ip v built large =
      rw (built, add_negative m.index ip.internal_id v large)

  commit_insert_refused :
      (os : Answers) (c : Collection json.Value) (ext : List ℕ) (id : ℕ) (v : Vector)
      (value : json.Value) {e : IndexError} {index : LinearIndex} {n : ℕ}
      → add c.memory.index id (some v) ≡ (err e, index)
      → (append_delete os c.wal (record { external_id = ext; internal_id = id })).1 ≡ ok n
      → commit_insert floats json os c ext id v value ≡ (
        record c {
          wal = (append_delete os c.wal (record { external_id = ext; internal_id = id })).0;
        },
        err (index_failed e),
      )
  unfolding commit_insert
  commit_insert_refused os c ext id v value refuses undone = rw (commit_insert, refuses, undone)

  -- The insert reports that the index refused it and leaves the memory; the log has the insert and
  -- the delete that is to undo it behind what it had; no log that begins so can be loaded.
  pub record Uncompensated (c : Collection json.Value) (ext vals text : List ℕ)
      (result : Collection json.Value × Result CollectionError (List ℕ)) : Type 0 where
    pub refused : result.1 ≡ err (index_failed invalid_id)
    pub kept : result.0.memory ≡ c.memory
    pub before : List DecodedRecord
    pub before_is : recover c.wal.dir ≡ ok before
    pub undo_lsn : ℕ
    pub written : List DecodedRecord
    pub written_is :
        written
        ≡ (before
            ++ (decoded (inserted (next_lsn c.wal) (logged floats json c ext vals text)) ∷ []))
          ++ (decoded (
                deleted undo_lsn
                  (record { external_id = ext; internal_id = int_suc c.memory.id_counter }))
              ∷ [])
    pub recovered : recover result.0.wal.dir ≡ ok written
    pub unopenable :
        (u : Wal) (later : List DecodedRecord)
        → recover u.dir ≡ ok (written ++ later)
        → load_state floats json
            (record { config = c.config; memory = fresh_memory c.memory.index.config; wal = u })
          ≡ err (index_failed invalid_id)

  module _ (os os' : Answers) (c : Collection json.Value) (r : Recoverable floats json laws c)
      (good : NothingFails os) (good' : NothingFails os') (seg : IsU64 (c.wal.seg_id + 1))
      (full : c.memory.id_counter + 1 ≡ 2 ^ 63) (ext vals text : List ℕ) (value : json.Value)
      (v : Vector) (valid : validate_insert floats json c vals value ≡ ok (v, text))
      (fits : EntryFits (inserted (next_lsn c.wal) (logged floats json c ext vals text))) where
    abbrev ip : InsertPayload
    ip = logged floats json c ext vals text

    first-Durable : Durable r.records (inserted (next_lsn c.wal) ip) (append_insert os c.wal ip)
    first-Durable =
        Durable-records floats json laws r (inserted (next_lsn c.wal) ip)
          (append_insert os c.wal ip)
          (append_insert-Durable os c.wal r.old r.current good r.holds
            (omega (arith, r.holds.seg_id_is)) ip fits)

    -- The WAL behind the insert record, and the compensating delete.
    abbrev pub logged_wal : Wal
    logged_wal = (append_insert os c.wal ip).0

    abbrev pub undo : DeletePayload
    undo = record { external_id = ext; internal_id = int_suc c.memory.id_counter }

    module _ (seg' : IsU64 (logged_wal.seg_id + 1))
        (fits' : EntryFits (deleted (next_lsn logged_wal) undo)) where
      second-Durable :
          Durable
            (r.records ++ (decoded (inserted (next_lsn c.wal) ip) ∷ []))
            (deleted (next_lsn logged_wal) undo)
            (append_delete os' logged_wal undo)
      second-Durable =
          let d = first-Durable in
          let same : map decoded (all_entries (d.old' ++ (d.current' ∷ [])))
              ≡ r.records ++ (decoded (inserted (next_lsn c.wal) ip) ∷ []) =
            ok_injective (sym (recover-Holds logged_wal d.old' d.current' d.holds) ∙ d.recovered) in
          subst
            (λ rs.
              Durable rs (deleted (next_lsn logged_wal) undo) (append_delete os' logged_wal undo))
            same
            (append_delete-Durable os' logged_wal d.old' d.current' good' d.holds
              (omega (arith, d.holds.seg_id_is)) undo fits')

      insert_vector_refused : insert_vector floats json os os' c ext vals value ≡ (
        record c { wal = (append_delete os' logged_wal undo).0 },
        err (index_failed invalid_id),
      )
      unfolding insert_vector
      insert_vector_refused =
          let refused =
            commit_insert_refused os' (record c { wal = logged_wal }) ext
              (int_suc c.memory.id_counter) v value
              (add_negative c.memory.index (int_suc c.memory.id_counter) v (omega (arith, full)))
              second-Durable.result_is in
          rw (insert_vector, valid, first-Durable.result_is) refused

      -- The log behind the compensating delete.
      abbrev written_records : List DecodedRecord
      written_records =
          (r.records ++ (decoded (inserted (next_lsn c.wal) ip) ∷ []))
          ++ (decoded (deleted (next_lsn logged_wal) undo) ∷ [])

      load_state_refused :
          (u : Wal) (later : List DecodedRecord)
          → recover u.dir ≡ ok (written_records ++ later)
          → load_state floats json
              (record { config = c.config; memory = fresh_memory c.memory.index.config; wal = u })
            ≡ err (index_failed invalid_id)
      unfolding load_state
      load_state_refused u later reads =
          let (built, marshalled) =
            validate_insert-new_vector floats json laws c vals value v text valid in
          let undone = decoded (deleted (next_lsn logged_wal) undo) in
          let before = r.records ++ (decoded (inserted (next_lsn c.wal) ip) ∷ []) in
          rw (
            reads,
            append_assoc before (undone ∷ []) later,
            replay_refused floats json laws c.config.dimension (fresh_memory c.memory.index.config)
                (as_stored floats json laws c.memory) r.records (undone ∷ later)
                (decoded (inserted (next_lsn c.wal) ip)) r.read_back_is
                (replay_record_negative c.config.dimension (next_lsn c.wal)
                  (as_stored floats json laws c.memory) ip v built (omega (arith, full))),
          )

      -- When the ids are used up, an Insert with no failing call is refused by the index behind the
      -- write to the log; the memory is kept, and Recover then returns what it returned before, the
      -- insert, and the delete that is to undo it. But LoadState meets the insert first, and fails on
      -- every directory whose log begins with what is logged then.
      pub insert_vector-Uncompensated :
          Uncompensated c ext vals text (insert_vector floats json os os' c ext vals value)
      insert_vector-Uncompensated =
          let step = insert_vector_refused in
          record {
            refused = ap (λ t. t.1) step;
            kept = ap (λ t. t.0.memory) step;
            before = r.records;
            before_is = r.recovered;
            undo_lsn = next_lsn logged_wal;
            written = written_records;
            written_is = refl;
            recovered = ap (λ t. recover t.0.wal.dir) step ∙ second-Durable.recovered;
            unopenable = load_state_refused;
          }
