-- ===== src/Collection/Replay.antt =====
-- LoadState's loop: over a log with one more record, and on the records that Insert and Delete write.
use dattaniddhi.Prelude.{
  ℕ, ◌^◌, ◌≤◌, ◌<◌, ◌≡◌, true, List, [], ◌∷◌, ◌++◌, bind_succeeded, bind_ok, some, arith, ok, err,
  ok_injective, Result-cases, inl, inr,
}
use dattaniddhi.Prelude.Maps.{bytes_eq, nat_eq, map_values, map_values-insert, map_values-delete}
use dattaniddhi.Floats.{Floats}
use dattaniddhi.Json.{Json, JsonLaws}
use dattaniddhi.Vector.{Vector, new_vector}
use dattaniddhi.Index.{LinearIndex, add}
use dattaniddhi.Wal.Payload.{InsertPayload, DeletePayload}
use dattaniddhi.Wal.Open.{recover}
use dattaniddhi.Wal.Scanner.{DecodedRecord}
use dattaniddhi.Wal.Scanner.Entry.{decoded, insert as inserted, delete as deleted}
use dattaniddhi.Collection.{
  Collection, load_state, CollectionError, Memory, remember, forget, payload_data, raised,
  replay_insert, replay_record, replay,
}

module _ (floats : Floats) (json : Json) where
  -- What LoadState replays the log on.
  abbrev pub emptied : Memory json.Value → Memory json.Value
  emptied m = record m { id_counter = 0; ext_to_int = []; int_to_ext = []; payload = [] }

  pub load_state_succeeded :
      (c c' : Collection json.Value)
      → load_state floats json c ≡ ok c'
      → (rs : List DecodedRecord) × (m : Memory json.Value) × (recover c.wal.dir ≡ ok rs)
        × (replay floats json c.config.dimension (emptied c.memory) rs ≡ ok m)
        × (c' ≡ record c { memory = m })
  unfolding load_state
  load_state_succeeded c c' h = elim (Result-cases (recover c.wal.dir)) [
    | inr (e, fails) ↦ grind arith
    | inl (rs, reads) ↦
        elim (Result-cases (replay floats json c.config.dimension (emptied c.memory) rs)) [
          | inr (e, fails) ↦ grind arith
          | inl (m, replayed) ↦ (rs, m, reads, replayed, grind arith)
        ]
  ]

module _ (floats : Floats) (json : Json) (laws : JsonLaws json) where
  -- The memory with each payload as JSON stores it.
  abbrev pub as_stored : Memory json.Value → Memory json.Value
  as_stored m = record m { payload = map_values laws.stored m.payload }

  -- One more record at the end of the log.
  pub replay-append :
      (dim : ℕ) (m m' : Memory json.Value) (rs : List DecodedRecord) (r : DecodedRecord)
      → replay floats json dim m rs ≡ ok m'
      → replay floats json dim m (rs ++ (r ∷ [])) ≡ replay_record floats json dim m' r
  unfolding replay
  replay-append dim m m' [] r h = ground (arith, bind_ok (replay_record floats json dim m r))
  replay-append dim m m' (s ∷ rs) r h =
      let (m₁, first, rest) =
        bind_succeeded (λ m₁. replay floats json dim m₁ rs) (replay_record floats json dim m s) h in
      rw first (replay-append dim m₁ m' rs r rest)

  -- A record that is refused ends the replay, whatever is behind it.
  pub replay_refused :
      (dim : ℕ) (m m' : Memory json.Value) (rs rest : List DecodedRecord) (r : DecodedRecord)
      {x : CollectionError}
      → replay floats json dim m rs ≡ ok m'
      → replay_record floats json dim m' r ≡ err x
      → replay floats json dim m ((rs ++ (r ∷ [])) ++ rest) ≡ err x
  unfolding replay
  replay_refused dim m m' [] rest r h refused = rw (ok_injective h, replay, refused)
  replay_refused dim m m' (s ∷ rs) rest r h refused =
      let (m₁, first, later) =
        bind_succeeded (λ m₁. replay floats json dim m₁ rs) (replay_record floats json dim m s) h in
      rw first (replay_refused dim m₁ m' rs rest r later refused)

  payload_data-marshal :
      (value : json.Value) (text : List ℕ)
      → json.marshal value ≡ some text
      → payload_data floats json text ≡ ok (laws.stored value)
  unfolding payload_data
  payload_data-marshal value text h =
      ground (arith, laws.marshal_positive value text h, laws.unmarshal-marshal value text h)

  raised_above : (counter id : ℕ) → counter < id → id < 2 ^ 63 → raised counter id ≡ id
  raised_above counter id h k = ground arith

  raised_below : (counter id : ℕ) → id ≤ counter → counter < 2 ^ 63 → raised counter id ≡ counter
  raised_below counter id h k = ground arith

  pub replay_record-remember :
      (dim lsn : ℕ) (m : Memory json.Value) (ip : InsertPayload) (v : Vector) (index : LinearIndex)
      (value : json.Value)
      → new_vector floats ip.vector_data dim ≡ ok v
      → json.marshal value ≡ some ip.meta_data
      → add m.index ip.internal_id (some v) ≡ (ok true, index)
      → m.id_counter < ip.internal_id
      → ip.internal_id < 2 ^ 63
      → replay_record floats json dim (as_stored m) (decoded (inserted lsn ip))
        ≡ ok (as_stored (remember m index ip.external_id ip.internal_id ip.internal_id value))
  unfolding replay_record replay_insert
  replay_record-remember dim lsn m ip v index value built text added above small = rw (
    built,
    added,
    payload_data-marshal value ip.meta_data text,
    raised_above m.id_counter ip.internal_id above small,
    map_values-insert laws.stored ip.external_id value m.payload,
  )

  pub replay_record-forget :
      (dim lsn : ℕ) (m : Memory json.Value) (dp : DeletePayload)
      → dp.internal_id ≤ m.id_counter
      → m.id_counter < 2 ^ 63
      → replay_record floats json dim (as_stored m) (decoded (deleted lsn dp))
        ≡ ok (as_stored (forget m dp.external_id dp.internal_id m.id_counter))
  unfolding replay_record
  replay_record-forget dim lsn m dp below small = rw (
    raised_below m.id_counter dp.internal_id below small,
    map_values-delete laws.stored dp.external_id m.payload,
  )
