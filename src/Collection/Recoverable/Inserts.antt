-- ===== src/Collection/Recoverable/Inserts.antt =====
-- Insert on a recoverable collection.
use dattaniddhi.Prelude.{
  ℕ, ◌+◌, ◌^◌, ◌<◌, ◌≡◌, refl, ap, ◌∙◌, sym, subst, bytes_equal, if◌then◌else◌, true, List, [], ◌∷◌,
  ◌++◌, none, some, arith, int_suc, Result, ok,
}
use dattaniddhi.Prelude.Maps.{bytes_eq, nat_eq, lookup, insert, lookup-insert}
use dattaniddhi.Floats.{Floats}
use dattaniddhi.Json.{Json, JsonLaws}
use dattaniddhi.Vector.{Vector, new_vector}
use dattaniddhi.Vector.Valid.{new_vector-IsVector}
use dattaniddhi.Index.{LinearIndex, add}
use dattaniddhi.Wal.Bytes.{IsU64}
use dattaniddhi.Wal.Log.{Wal, Answers, next_lsn, append_insert}
use dattaniddhi.Wal.Log.Steps.{NothingFails}
use dattaniddhi.Wal.Payload.{InsertPayload}
use dattaniddhi.Wal.Scanner.Entry.{insert as inserted, decoded, EntryFits}
use dattaniddhi.Wal.History.Durable.{Durable, append_insert-Durable}
use dattaniddhi.Collection.{
  CollectionError, Collection, remember, logged, validate_insert, commit_insert, insert_vector,
  get_payload,
}
use dattaniddhi.Collection.Replay.{as_stored, replay-append, replay_record-remember}
use dattaniddhi.Collection.Recoverable.{Recoverable, Durable-records, fresh_memory}

-- A new id goes into the index.
pub add_fresh :
    (li : LinearIndex) (id : ℕ) (v : Vector)
    → lookup id li.vectors ≡ none
    → li.config.dimension ≡ v.dimensions
    → id < 2 ^ 63
    → add li id (some v) ≡ (ok true, record li { vectors = insert id v li.vectors })
unfolding add
add_fresh li id v fresh same small = ground arith

module _ (floats : Floats) (json : Json) (laws : JsonLaws json) where
  pub validate_insert-new_vector :
      (c : Collection json.Value) (vals : List ℕ) (value : json.Value) (v : Vector) (text : List ℕ)
      → validate_insert floats json c vals value ≡ ok (v, text)
      → (new_vector floats vals c.config.dimension ≡ ok v) × (json.marshal value ≡ some text)
  unfolding validate_insert
  validate_insert-new_vector c vals value v text h = (ground arith, ground arith)

  -- The insert returned the identifier, Get finds the payload under it and all else as before, the
  -- counter went up by one, and the collection is recoverable.
  pub record Inserted (c : Collection json.Value) (ext : List ℕ) (value : json.Value)
      (result : Collection json.Value × Result CollectionError (List ℕ)) : Type 0 where
    pub result_is : result.1 ≡ ok ext
    pub get_is :
        (j : List ℕ)
        → get_payload floats json result.0 j
          ≡ (if bytes_equal ext j then some value else get_payload floats json c j)
    pub counter_is : result.0.memory.id_counter ≡ c.memory.id_counter + 1
    pub config_is : result.0.config ≡ c.config
    pub index_config_is : result.0.memory.index.config ≡ c.memory.index.config
    pub recoverable : Recoverable floats json laws result.0

  -- The collection behind an insert into the log and the memory.
  abbrev pub grown :
      Collection json.Value → Wal → List ℕ → Vector → json.Value → Collection json.Value
  grown c w ext v value =
      let id = int_suc c.memory.id_counter in
      record c {
        memory =
            remember c.memory
              (record c.memory.index { vectors = insert id v c.memory.index.vectors }) ext id id
              value;
        wal = w;
      }

  pub insert_vector_added :
      (os os' : Answers) (c : Collection json.Value) (ext vals : List ℕ) (value : json.Value)
      (v : Vector) (text : List ℕ) (lsn : ℕ)
      → validate_insert floats json c vals value ≡ ok (v, text)
      → (append_insert os c.wal (logged floats json c ext vals text)).1 ≡ ok lsn
      → lookup (int_suc c.memory.id_counter) c.memory.index.vectors ≡ none
      → c.memory.index.config.dimension ≡ v.dimensions
      → int_suc c.memory.id_counter < 2 ^ 63
      → insert_vector floats json os os' c ext vals value ≡ (
        grown c (append_insert os c.wal (logged floats json c ext vals text)).0 ext v value,
        ok ext,
      )
  unfolding insert_vector commit_insert
  insert_vector_added os os' c ext vals value v text lsn valid appended fresh same small =
      let added = add_fresh c.memory.index (int_suc c.memory.id_counter) v fresh same small in
      rw (insert_vector, valid, commit_insert, appended, ap (λ t. t.0) added, ap (λ t. t.1) added)

  module _ (os os' : Answers) (c : Collection json.Value) (r : Recoverable floats json laws c)
      (good : NothingFails os) (id_fits : IsU64 (r.current.id + 1))
      (room : c.memory.id_counter + 1 < 2 ^ 63) where
    suc_is : int_suc c.memory.id_counter ≡ c.memory.id_counter + 1
    suc_is = omega arith

    pub new_id : lookup (int_suc c.memory.id_counter) c.memory.index.vectors ≡ none
    new_id = r.index_ids (int_suc c.memory.id_counter) (omega (arith, suc_is))

    pub durable :
        (ip : InsertPayload)
        → EntryFits (inserted (next_lsn c.wal) ip)
        → Durable r.records (inserted (next_lsn c.wal) ip) (append_insert os c.wal ip)
    durable ip fits =
        Durable-records floats json laws r (inserted (next_lsn c.wal) ip)
          (append_insert os c.wal ip)
          (append_insert-Durable os c.wal r.old r.current good r.holds id_fits ip fits)

    pub grown-Recoverable :
        (ext vals text : List ℕ) (value : json.Value) (v : Vector)
        → new_vector floats vals c.config.dimension ≡ ok v
        → json.marshal value ≡ some text
        → c.memory.index.config.dimension ≡ v.dimensions
        → EntryFits (inserted (next_lsn c.wal) (logged floats json c ext vals text))
        → Recoverable floats json laws
            (grown c (append_insert os c.wal (logged floats json c ext vals text)).0 ext v value)
    grown-Recoverable ext vals text value v built marshalled same fits =
        let ip = logged floats json c ext vals text in
        let d = durable ip fits in
        record {
          old = d.old';
          current = d.current';
          holds = d.holds;
          records = r.records ++ (decoded (inserted (next_lsn c.wal) ip) ∷ []);
          recovered = d.recovered;
          read_back_is =
              replay-append floats json laws c.config.dimension (fresh_memory c.memory.index.config)
                (as_stored floats json laws c.memory) r.records
                (decoded (inserted (next_lsn c.wal) ip)) r.read_back_is
              ∙ replay_record-remember floats json laws c.config.dimension (next_lsn c.wal) c.memory
                  ip v
                  (record c.memory.index {
                    vectors = insert ip.internal_id v c.memory.index.vectors;
                  })
                  value built marshalled
                  (add_fresh c.memory.index ip.internal_id v new_id same (omega (arith, suc_is)))
                  (omega (arith, suc_is)) (omega (arith, suc_is));
          index_dimension = r.index_dimension;
          index_ids = λ id h. ground (
            arith,
            suc_is,
            lookup-insert (int_suc c.memory.id_counter) id v c.memory.index.vectors,
            r.index_ids id,
          );
          known_ids = λ e id h. ground (
            arith,
            suc_is,
            lookup-insert ext e (int_suc c.memory.id_counter) c.memory.ext_to_int,
            r.known_ids e id,
          );
          counter_fits = omega (arith, suc_is);
        }

    -- An Insert that passes validation, on a recoverable collection with no failing call and with an
    -- id below 2 ^ 63 left, returns the identifier and counts up by one; Get finds
    -- the payload under the identifier and all else as before; and the collection is recoverable: its log, replayed on an empty index, gives the new memory.
    pub insert_vector-Recoverable :
        (ext vals text : List ℕ) (value : json.Value) (v : Vector)
        → validate_insert floats json c vals value ≡ ok (v, text)
        → EntryFits (inserted (next_lsn c.wal) (logged floats json c ext vals text))
        → Inserted c ext value (insert_vector floats json os os' c ext vals value)
    unfolding get_payload
    insert_vector-Recoverable ext vals text value v valid fits =
        let (built, marshalled) = validate_insert-new_vector c vals value v text valid in
        let is_vector = new_vector-IsVector floats vals c.config.dimension built in
        let same = r.index_dimension ∙ sym is_vector.dimensions_is in
        let d = durable (logged floats json c ext vals text) fits in
        let e =
          insert_vector_added os os' c ext vals value v text (next_lsn c.wal) valid d.result_is
            new_id same (omega (arith, suc_is)) in
        subst (Inserted c ext value) (sym e) (record {
          result_is = refl;
          get_is = λ j. lookup-insert ext j value c.memory.payload;
          counter_is = suc_is;
          config_is = refl;
          index_config_is = refl;
          recoverable = grown-Recoverable ext vals text value v built marshalled same fits;
        })
