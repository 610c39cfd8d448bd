-- ===== src/Collection/Reloads.antt =====
-- LoadState called twice in a row on the same collection.
use dattaniddhi.Prelude.{
  ℕ, ◌≡◌, ◌≢◌, refl, ap, ◌∙◌, sym, List, [], ◌∷◌, All, Bool-cases, true, false, inl, inr, some,
  none, ◌==◌, is_negative, arith, ok, err, Result-cases, bind_succeeded, ok_injective, subst,
}
use dattaniddhi.Prelude.Maps.{nat_eq, lookup, insert, delete, lookup-insert, lookup-delete}
use dattaniddhi.Floats.{Floats}
use dattaniddhi.Json.{Json}
use dattaniddhi.Vector.{Vector, new_vector}
use dattaniddhi.Index.{LinearIndex, add, remove}
use dattaniddhi.Wal.Format.{op_insert, op_delete}
use dattaniddhi.Wal.Open.{recover}
use dattaniddhi.Wal.Scanner.{DecodedRecord}
use dattaniddhi.Collection.{
  Memory, Collection, internal_id_collision, payload_data, replay_insert, replay_record, replay,
  load_state,
}
use dattaniddhi.Collection.Replay.{emptied, load_state_succeeded}

-- An Add that succeeded and what a second one would meet.
record Added (li : LinearIndex) (id : ℕ) (v : Vector) (li' : LinearIndex) : Type 0 where
  was_free : lookup id li.vectors ≡ none
  index_is : li' ≡ record li { vectors = insert id v li.vectors }
  id_fits : is_negative id ≡ false
  dimension_is : (li.config.dimension == v.dimensions) ≡ true

add-Added :
    (li li' : LinearIndex) (id : ℕ) (v : Vector)
    → add li id (some v) ≡ (ok true, li')
    → Added li id v li'
unfolding add
add-Added li li' id v h = record {
  was_free = grind arith;
  index_is = grind arith;
  id_fits = grind arith;
  dimension_is = grind arith;
}

-- The same Add on an index with the same configuration that has the id.
add_again :
    (li li' li₂ : LinearIndex) (id : ℕ) (v w : Vector)
    → Added li id v li'
    → li₂.config ≡ li.config
    → lookup id li₂.vectors ≡ some w
    → add li₂ id (some v) ≡ (ok false, li₂)
unfolding add
add_again li li' li₂ id v w h same taken =
    let free = h.id_fits in
    let fits : (li₂.config.dimension == v.dimensions) ≡ true =
      ap (λ k. k.dimension == v.dimensions) same ∙ h.dimension_is in
    rw (free, fits, taken) refl

module _ (floats : Floats) (json : Json) where
  replay_insert-Added :
      (dim : ℕ) (m m' : Memory json.Value) (r : DecodedRecord)
      → replay_insert floats json dim m r ≡ ok m'
      → (v : Vector) × (new_vector floats r.vector dim ≡ ok v) × Added m.index r.int_id v m'.index
  unfolding replay_insert
  replay_insert-Added dim m m' r h = elim (Result-cases (new_vector floats r.vector dim)) [
    | inr (e, fails) ↦ grind arith
    | inl (v, built) ↦ elim (Result-cases ((add m.index r.int_id (some v)).0)) [
      | inr (e, fails) ↦ grind arith
      | inl (false, adds) ↦ grind arith
      | inl (true, adds) ↦
          let index : (add m.index r.int_id (some v)).1 ≡ m'.index =
            elim (Result-cases (payload_data floats json r.meta_data)) [
              | inr (e, fails) ↦ grind arith
              | inl (value, reads) ↦ grind arith
            ] in
          (v, built, add-Added m.index m'.index r.int_id v (grind arith))
    ]
  ]

  replay_insert_again :
      (dim : ℕ) (m m' m₂ : Memory json.Value) (w : Vector) (r : DecodedRecord)
      → replay_insert floats json dim m r ≡ ok m'
      → m₂.index.config ≡ m.index.config
      → lookup r.int_id m₂.index.vectors ≡ some w
      → replay_insert floats json dim m₂ r ≡ err internal_id_collision
  unfolding replay_insert
  replay_insert_again dim m m' m₂ w r h same taken =
      let (v, built, added) = replay_insert-Added dim m m' r h in
      rw (built, add_again m.index m'.index m₂.index r.int_id v w added same taken) refl

  -- A record that does not delete the id.
  abbrev pub Spares : ℕ → DecodedRecord → Type 0
  Spares id r = (r.op_type == op_delete) ≡ true → r.int_id ≢ id

  -- An id stays in the index where no record deletes it.
  module _ (dim id : ℕ) (w : Vector) where
    record Keeps (m m' : Memory json.Value) : Type 0 where
      same_config : m'.index.config ≡ m.index.config
      stays : lookup id m.index.vectors ≡ some w → lookup id m'.index.vectors ≡ some w

    replay_record-Keeps :
        (m m' : Memory json.Value) (r : DecodedRecord)
        → Spares id r
        → replay_record floats json dim m r ≡ ok m'
        → Keeps m m'
    unfolding replay_record remove
    replay_record-Keeps m m' r spares h = elim (Bool-cases (r.op_type == op_insert)) [
      | inl op ↦
          let (v, built, added) = replay_insert-Added dim m m' r (grind arith) in
          let found = lookup-insert r.int_id id v m.index.vectors in
          let free = added.was_free in
          record {
            same_config = ap (λ (li : LinearIndex). li.config) added.index_is;
            stays = λ there.
                ap (λ (li : LinearIndex). lookup id li.vectors) added.index_is ∙ grind arith;
          }
      | inr op ↦ elim (Bool-cases (r.op_type == op_delete)) [
        | inl goes ↦
            let index : m'.index ≡ record m.index { vectors = delete r.int_id m.index.vectors } =
              grind arith in
            let found = lookup-delete r.int_id id m.index.vectors in
            let other = spares goes in
            record {
              same_config = ap (λ (li : LinearIndex). li.config) index;
              stays = λ there. ap (λ (li : LinearIndex). lookup id li.vectors) index ∙ grind arith;
            }
        | inr stays ↦
            let same : m' ≡ m = grind arith in
            record {
              same_config = ap (λ (t : Memory json.Value). t.index.config) same;
              stays =
                  λ there. ap (λ (t : Memory json.Value). lookup id t.index.vectors) same ∙ there;
            }
      ]
    ]

    replay-Keeps :
        (m m' : Memory json.Value) (rs : List DecodedRecord)
        → All (Spares id) rs
        → replay floats json dim m rs ≡ ok m'
        → Keeps m m'
    unfolding replay
    replay-Keeps m m' [] spared h = record {
      same_config = ap (λ (t : Memory json.Value). t.index.config) (sym (ok_injective h));
      stays = λ there.
          ap (λ (t : Memory json.Value). lookup id t.index.vectors) (sym (ok_injective h)) ∙ there;
    }
    replay-Keeps m m' (r ∷ rs) (spare, spared) h =
        let (m₁, first, rest) =
          bind_succeeded (λ m₁. replay floats json dim m₁ rs) (replay_record floats json dim m r)
            h in
        let k = replay_record-Keeps m m₁ r spare first in
        let k' = replay-Keeps m₁ m' rs spared rest in
        record {
          same_config = k'.same_config ∙ k.same_config;
          stays = λ there. k'.stays (k.stays there);
        }

  replay_again :
      (dim : ℕ) (m m' : Memory json.Value) (r : DecodedRecord) (rs : List DecodedRecord)
      → replay floats json dim m (r ∷ rs) ≡ ok m'
      → (r.op_type == op_insert) ≡ true
      → All (Spares r.int_id) rs
      → replay floats json dim (emptied floats json m') (r ∷ rs) ≡ err internal_id_collision
  unfolding replay replay_record
  replay_again dim m m' r rs h op spared =
      let (m₁, first, rest) =
        bind_succeeded (λ m₁. replay floats json dim m₁ rs) (replay_record floats json dim m r) h in
      let inserts : replay_insert floats json dim m r ≡ ok m₁ = grind arith in
      let (v, built, added) = replay_insert-Added dim m m₁ r inserts in
      let put = lookup-insert r.int_id r.int_id v m.index.vectors in
      let there : lookup r.int_id m₁.index.vectors ≡ some v =
        ap (λ (li : LinearIndex). lookup r.int_id li.vectors) added.index_is ∙ grind arith in
      let k = replay-Keeps dim r.int_id v m₁ m' rs spared rest in
      let again =
        replay_insert_again dim m m₁ (emptied floats json m') v r inserts
          (k.same_config ∙ ap (λ (li : LinearIndex). li.config) added.index_is) (k.stays there) in
      rw (op, again) refl

  -- A second LoadState behind one that succeeded, on a log that begins with an insert whose id no
  -- later record deletes, fails with an internal id collision.
  pub load_state_again :
      (c c' : Collection json.Value) (r : DecodedRecord) (rs : List DecodedRecord)
      → load_state floats json c ≡ ok c'
      → recover c.wal.dir ≡ ok (r ∷ rs)
      → (r.op_type == op_insert) ≡ true
      → All (Spares r.int_id) rs
      → load_state floats json c' ≡ err internal_id_collision
  unfolding load_state
  load_state_again c c' r rs h reads op spared =
      let (rs', m, reads', replayed, same) = load_state_succeeded floats json c c' h in
      let all : rs' ≡ r ∷ rs = ok_injective (sym reads' ∙ reads) in
      let first =
        subst (λ ts. replay floats json c.config.dimension (emptied floats json c.memory) ts ≡ ok m)
          all replayed in
      rw
        (
          same,
          reads,
          replay_again c.config.dimension (emptied floats json c.memory) m r rs first op spared,
        )
        refl
