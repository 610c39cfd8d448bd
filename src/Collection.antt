-- ===== src/Collection.antt =====
-- internal/collection/collection.go and recovery.go: the collection over its index and its WAL.
-- Under the lock each operation is one step; it returns the collection beside its result.
pub mod Examples
pub mod Failures
pub mod Config
pub mod Lifecycle
pub mod Matched
pub mod Replay
pub mod Recoverable
pub mod Runs
pub mod Search
pub mod Unsynced
pub mod LastWord
pub mod Reloads
pub mod Uncompensated
use dattaniddhi.Prelude.{
  ℕ, Bool, true, false, ◌++◌, not, List, [], ◌∷◌, Option, none, some, length, ◌==◌, if◌then◌else◌,
  int_lt, int_suc, Result, ok, err, ◌>>=◌, ◌>>◌, require,
}
use dattaniddhi.Prelude.Maps.{Map, nat_eq, bytes_eq, lookup, insert, delete}
use dattaniddhi.Floats.{Floats}
use dattaniddhi.Json.{Json}
use dattaniddhi.Vector.{Vector, VectorError, new_vector}
use dattaniddhi.Index.{IndexError, LinearIndex, add, remove}
use dattaniddhi.Wal.Format.{Error, op_insert, op_delete}
use dattaniddhi.Wal.Log.{Wal, Answers, append_insert, append_delete, close}
use dattaniddhi.Wal.Payload.{InsertPayload}
use dattaniddhi.Wal.Open.{recover}
use dattaniddhi.Wal.Scanner.{DecodedRecord}

pub data CollectionError : Type 0 where
  invalid_dimension not_found marshal_failed internal_id_collision corrupt_payload : CollectionError
  invalid_collection_name invalid_metric invalid_index_type invalid_data_type : CollectionError
  invalid_model_name invalid_version collection_already_exists collection_not_found :
      CollectionError
  failed_to_stat failed_to_make_directory failed_to_write_config failed_to_read_config :
      CollectionError
  corrupt_config unsupported_index id_not_mapped : CollectionError
  invalid_config : CollectionError → CollectionError
  vector_failed : VectorError → CollectionError
  index_failed : IndexError → CollectionError
  wal_failed : Error → CollectionError
  rollback_failed : Error → CollectionError

-- CollectionConfig
pub record CollectionConfig : Type 0 where
  pub name : List ℕ
  pub dimension : ℕ
  pub metric : ℕ
  pub index_type : ℕ
  pub data_type : ℕ
  pub model_name : List ℕ
  pub version : ℕ

-- What a collection holds in memory, for payloads of type `P`.
pub record Memory (P : Type 0) : Type 0 where
  pub index : LinearIndex
  pub id_counter : ℕ
  pub ext_to_int : Map (List ℕ) ℕ
  pub int_to_ext : Map ℕ (List ℕ)
  pub payload : Map (List ℕ) P

pub record Collection (P : Type 0) : Type 0 where
  pub config : CollectionConfig
  pub memory : Memory P
  pub wal : Wal

-- An error of a callee as one of the collection.
abbrev pub lift : {E A : Type 0} → (E → CollectionError) → Result E A → Result CollectionError A
lift f (ok a) = ok a
lift f (err e) = err (f e)

-- A vector under a new id in the four maps.
abbrev pub remember : {P : Type 0} → Memory P → LinearIndex → List ℕ → ℕ → ℕ → P → Memory P
remember m index ext id counter value = record {
  index = index;
  id_counter = counter;
  ext_to_int = insert ext id m.ext_to_int;
  int_to_ext = insert id ext m.int_to_ext;
  payload = insert ext value m.payload;
}

-- `delete` of an id in the four maps.
abbrev pub forget : {P : Type 0} → Memory P → List ℕ → ℕ → ℕ → Memory P
forget m ext id counter = record {
  index = remove m.index id;
  id_counter = counter;
  ext_to_int = delete ext m.ext_to_int;
  int_to_ext = delete id m.int_to_ext;
  payload = delete ext m.payload;
}

-- `if int(record.IntID) > c.idCounter`
abbrev pub raised : ℕ → ℕ → ℕ
raised counter id = if int_lt counter id then id else counter

module _ (floats : Floats) (json : Json) where
  open json use {Value, null, marshal, unmarshal}

  -- `if len(record.MetaData) > 0`
  unfoldable pub payload_data : List ℕ → Result CollectionError Value
  payload_data meta_data =
      if length meta_data == 0
      then ok null
      else elim (unmarshal meta_data) [ none ↦ err corrupt_payload | some v ↦ ok v ]

  -- One record of LoadState's loop.
  unfoldable pub replay_insert :
      ℕ → Memory Value → DecodedRecord → Result CollectionError (Memory Value)
  replay_insert dim m r = do
    vector ← lift vector_failed (new_vector floats r.vector dim)
    let (result, index) = add m.index r.int_id (some vector)
    added ← lift index_failed result
    require added internal_id_collision
    value ← payload_data r.meta_data
    ok (remember m index r.ext_id r.int_id (raised m.id_counter r.int_id) value)

  unfoldable pub replay_record :
      ℕ → Memory Value → DecodedRecord → Result CollectionError (Memory Value)
  unfolding replay_insert
  replay_record dim m r =
      if r.op_type == op_insert
      then replay_insert dim m r
      else if r.op_type == op_delete
      then ok (forget m r.ext_id r.int_id (raised m.id_counter r.int_id))
      else ok m

  unfoldable pub replay :
      ℕ → Memory Value → List DecodedRecord → Result CollectionError (Memory Value)
  replay dim m [] = ok m
  replay dim m (r ∷ rs) = do m' ← replay_record dim m r; replay dim m' rs

  -- LoadState: the counter and the maps are reset, the index is not. On an error the caller drops the
  -- collection, which is not returned here.
  unfoldable pub load_state : Collection Value → Result CollectionError (Collection Value)
  load_state c = do
    records ← lift wal_failed (recover c.wal.dir)
    let reset = record c.memory { id_counter = 0; ext_to_int = []; int_to_ext = []; payload = [] }
    m ← replay c.config.dimension reset records
    ok (record c { memory = m })

  -- Insert's validation phase: the vector and the payload's text.
  unfoldable pub validate_insert :
      Collection Value → List ℕ → Value → Result CollectionError (Vector × List ℕ)
  validate_insert c vec_vals value = do
    require (length vec_vals == c.config.dimension) invalid_dimension
    vector ← lift vector_failed (new_vector floats vec_vals c.config.dimension)
    elim (marshal value) [ none ↦ err marshal_failed | some text ↦ ok (vector, text) ]

  -- Behind the WAL write: the index, the compensating delete if it refuses, and the maps.
  unfoldable pub commit_insert :
      Answers
      → Collection Value
      → List ℕ
      → ℕ
      → Vector
      → Value
      → Collection Value × Result CollectionError (List ℕ)
  commit_insert os c external_id internal_id vector value =
      let (result, index) = add c.memory.index internal_id (some vector) in
      let (wal', undone) =
        append_delete os c.wal (record { external_id = external_id; internal_id = internal_id }) in
      let rolled_back = λ (e : CollectionError).
        elim undone as (λ _. Collection Value × Result CollectionError (List ℕ)) [
          | err w ↦ (record c { wal = wal' }, err (rollback_failed w))
          | ok n ↦ (record c { wal = wal' }, err e)
        ] in
      elim result [
        | err e ↦ rolled_back (index_failed e)
        | ok false ↦ rolled_back internal_id_collision
        | ok true ↦ (
          record c { memory = remember c.memory index external_id internal_id internal_id value },
          ok external_id,
        )
      ]

  -- What Insert writes to the log.
  abbrev pub logged : Collection Value → List ℕ → List ℕ → List ℕ → InsertPayload
  logged c ext vals text = record {
    external_id = ext;
    internal_id = int_suc c.memory.id_counter;
    vector_data = vals;
    meta_data = text;
  }

  -- (c *Collection) Insert; `external_id` is what uuid.NewString returns, `os` and `os'` answer the
  -- calls of the two appends.
  unfoldable pub insert_vector :
      Answers
      → Answers
      → Collection Value
      → List ℕ
      → List ℕ
      → Value
      → Collection Value × Result CollectionError (List ℕ)
  insert_vector os os' c external_id vec_vals value = elim (validate_insert c vec_vals value) [
    | err e ↦ (c, err e)
    | ok (vector, meta_data) ↦
        let internal_id = int_suc c.memory.id_counter in
        let (wal', appended) = append_insert os c.wal (logged c external_id vec_vals meta_data) in
        elim appended [
          | err e ↦ (record c { wal = wal' }, err (wal_failed e))
          | ok lsn ↦
              commit_insert os' (record c { wal = wal' }) external_id internal_id vector value
        ]
  ]

  -- (c *Collection) Delete; LinearIndex.Delete returns no error, so the panic is never reached.
  unfoldable pub delete_vector :
      Answers → Collection Value → List ℕ → Collection Value × Result CollectionError (Unit {0})
  delete_vector os c id = elim (lookup id c.memory.ext_to_int) [
    | none ↦ (c, err not_found)
    | some internal_id ↦
        let (wal', appended) =
          append_delete os c.wal (record { external_id = id; internal_id = internal_id }) in
        elim appended [
          | err e ↦ (record c { wal = wal' }, err (wal_failed e))
          | ok lsn ↦ (
            record c { memory = forget c.memory id internal_id c.memory.id_counter; wal = wal' },
            ok tt,
          )
        ]
  ]

  -- (c *Collection) Get
  unfoldable pub get_payload : Collection Value → List ℕ → Option Value
  get_payload c id = lookup id c.memory.payload
