-- ===== src/Collection/LastWord.antt =====
-- LoadState and the last record about an identifier.
use dattaniddhi.Prelude.{
  ℕ, ◌≡◌, ap, ◌∙◌, sym, List, [], ◌∷◌, length, bytes_equal, Option, none, some, ◌==◌, if◌then◌else◌,
  arith, ok, ok_injective, bind_succeeded, Result-cases, Bool-cases, true, false, inl, inr,
}
use dattaniddhi.Prelude.Maps.{
  bytes_eq, nat_eq, lookup, insert, delete, lookup-insert, lookup-delete,
}
use dattaniddhi.Floats.{Floats}
use dattaniddhi.Json.{Json}
use dattaniddhi.Vector.{new_vector}
use dattaniddhi.Index.{add}
use dattaniddhi.Wal.Format.{op_insert, op_delete}
use dattaniddhi.Wal.Open.{recover}
use dattaniddhi.Wal.Scanner.{DecodedRecord}
use dattaniddhi.Collection.{
  Memory, Collection, payload_data, replay_insert, replay_record, replay, load_state, get_payload,
}
use dattaniddhi.Collection.Replay.{emptied, load_state_succeeded}

module _ {A : Type 0} (value : DecodedRecord → Option A) (ext : List ℕ) where
  -- What one record says of the identifier: the value that an insert gives, no value for a delete,
  -- and nothing where it is about another one.
  abbrev pub said : DecodedRecord → Option (Option A)
  said r =
      if bytes_equal r.ext_id ext
      then if r.op_type == op_insert
        then some (value r)
        else if r.op_type == op_delete
        then some none
        else none
      else none

  -- What the last record about the identifier says.
  abbrev pub last_word : List DecodedRecord → Option (Option A)
  last_word [] = none
  last_word (r ∷ rs) = elim (last_word rs) [ some w ↦ some w | none ↦ said r ]

  -- A value that is kept where nothing is said.
  abbrev pub unless_said : Option (Option A) → Option A → Option A
  unless_said (some w) old = w
  unless_said none old = old

  unless_said-last_word :
      (r : DecodedRecord) (rs : List DecodedRecord) (old : Option A)
      → unless_said (last_word rs) (unless_said (said r) old) ≡ unless_said (last_word (r ∷ rs)) old
  unless_said-last_word r rs old = ground arith

module _ (floats : Floats) (json : Json) where
  -- The payload of an insert record: null where no text is stored.
  abbrev pub payload_in : DecodedRecord → Option json.Value
  payload_in r = if length r.meta_data == 0 then some json.null else json.unmarshal r.meta_data

  abbrev pub id_in : DecodedRecord → Option ℕ
  id_in r = some r.int_id

  replay_insert-payload_in :
      (dim : ℕ) (m m' : Memory json.Value) (r : DecodedRecord)
      → replay_insert floats json dim m r ≡ ok m'
      → (v : json.Value) × (payload_in r ≡ some v)
        × (m'.payload ≡ insert r.ext_id v m.payload)
        × (m'.ext_to_int ≡ insert r.ext_id r.int_id m.ext_to_int)
  unfolding replay_insert payload_data
  replay_insert-payload_in dim m m' r h = elim (Result-cases (new_vector floats r.vector dim)) [
    | inr (e, fails) ↦ grind arith
    | inl (v, built) ↦ elim (Result-cases ((add m.index r.int_id (some v)).0)) [
      | inr (e, fails) ↦ grind arith
      | inl (added, adds) ↦ elim (Result-cases (payload_data floats json r.meta_data)) [
        | inr (e, fails) ↦ grind arith
        | inl (value, reads) ↦ (value, grind arith, grind arith, grind arith)
      ]
    ]
  ]

  module _ (dim : ℕ) (ext : List ℕ) where
    -- The second memory holds for the identifier what is said, and else what the first one holds.
    abbrev Told :
        Memory json.Value
        → Memory json.Value
        → Option (Option json.Value)
        → Option (Option ℕ)
        → Type 0
    Told m m' value id =
        (lookup ext m'.payload ≡ unless_said payload_in ext value (lookup ext m.payload))
        × (lookup ext m'.ext_to_int ≡ unless_said id_in ext id (lookup ext m.ext_to_int))

    replay_insert-Told :
        (m m' : Memory json.Value) (r : DecodedRecord)
        → (r.op_type == op_insert) ≡ true
        → replay_insert floats json dim m r ≡ ok m'
        → Told m m' (said payload_in ext r) (said id_in ext r)
    replay_insert-Told m m' r op h =
        let (v, reads, payload, ids) = replay_insert-payload_in dim m m' r h in
        let stores = lookup-insert r.ext_id ext v m.payload in
        let names = lookup-insert r.ext_id ext r.int_id m.ext_to_int in
        (rw payload (grind arith), rw ids (grind arith))

    replay_other-Told :
        (m m' : Memory json.Value) (r : DecodedRecord)
        → (r.op_type == op_insert) ≡ false
        → replay_record floats json dim m r ≡ ok m'
        → Told m m' (said payload_in ext r) (said id_in ext r)
    unfolding replay_record
    replay_other-Told m m' r op h = elim (Bool-cases (r.op_type == op_delete)) [
      | inl goes ↦
          let erases = lookup-delete r.ext_id ext m.payload in
          let unnames = lookup-delete r.ext_id ext m.ext_to_int in
          let payload : m'.payload ≡ delete r.ext_id m.payload = grind arith in
          let ids : m'.ext_to_int ≡ delete r.ext_id m.ext_to_int = grind arith in
          (rw payload (grind arith), rw ids (grind arith))
      | inr stays ↦
          let same : m' ≡ m = grind arith in (rw same (grind arith), rw same (grind arith))
    ]

    replay_record-Told :
        (m m' : Memory json.Value) (r : DecodedRecord)
        → replay_record floats json dim m r ≡ ok m'
        → Told m m' (said payload_in ext r) (said id_in ext r)
    unfolding replay_record
    replay_record-Told m m' r h = elim (Bool-cases (r.op_type == op_insert)) [
      | inl op ↦ replay_insert-Told m m' r op (grind arith)
      | inr op ↦ replay_other-Told m m' r op h
    ]

    replay-Told :
        (m m' : Memory json.Value) (rs : List DecodedRecord)
        → replay floats json dim m rs ≡ ok m'
        → Told m m' (last_word payload_in ext rs) (last_word id_in ext rs)
    unfolding replay
    replay-Told m m' [] h = (
      ap (λ t. lookup ext t.payload) (sym (ok_injective h)),
      ap (λ t. lookup ext t.ext_to_int) (sym (ok_injective h)),
    )
    replay-Told m m' (r ∷ rs) h =
        let (m₁, first, rest) =
          bind_succeeded (λ m₁. replay floats json dim m₁ rs) (replay_record floats json dim m r)
            h in
        let (value, id) = replay_record-Told m m₁ r first in
        let (value', id') = replay-Told m₁ m' rs rest in
        (
          value'
              ∙ ap (unless_said payload_in ext (last_word payload_in ext rs)) value
              ∙ unless_said-last_word payload_in ext r rs (lookup ext m.payload),
          id'
              ∙ ap (unless_said id_in ext (last_word id_in ext rs)) id
              ∙ unless_said-last_word id_in ext r rs (lookup ext m.ext_to_int),
        )

  -- What a loaded collection holds for the identifier.
  pub record AnswersAs (c : Collection json.Value) (rs : List DecodedRecord) : Type 0 where
    pub payload_is :
        (ext : List ℕ)
        → get_payload floats json c ext
          ≡ unless_said payload_in ext (last_word payload_in ext rs) none
    pub id_is :
        (ext : List ℕ)
        → lookup ext c.memory.ext_to_int ≡ unless_said id_in ext (last_word id_in ext rs) none

  -- Where LoadState succeeds, whatever stands in the log, Get and the map of internal ids answer for
  -- each identifier as the last record about it says, and nothing where there is none.
  pub load_state-AnswersAs :
      (c c' : Collection json.Value)
      → load_state floats json c ≡ ok c'
      → (rs : List DecodedRecord) × (recover c.wal.dir ≡ ok rs) × AnswersAs c' rs
  unfolding get_payload lookup
  load_state-AnswersAs c c' h =
      let (rs, m, reads, replayed, same) = load_state_succeeded floats json c c' h in
      let told = λ (ext : List ℕ).
        replay-Told c.config.dimension ext (emptied floats json c.memory) m rs replayed in
      (
        rs,
        reads,
        record {
          payload_is = λ ext.
              ap (λ (t : Collection json.Value). lookup ext t.memory.payload) same ∙ (told ext).0;
          id_is = λ ext.
              ap (λ (t : Collection json.Value). lookup ext t.memory.ext_to_int) same
              ∙ (told ext).1;
        },
      )
