-- ===== src/Collection/Matched.antt =====
-- The maps and the index of a collection belong together, whatever its operations return.
use dattaniddhi.Prelude.{
  ℕ, ◌+◌, ◌^◌, ◌≤◌, ◌<◌, ◌≡◌, sym, subst, List, none, some, arith, int_suc, inl, inr,
  bytes_equal→eq, bytes_equal_refl, Option-cases, Result-cases, ok,
}
use dattaniddhi.Prelude.Maps.{nat_eq, bytes_eq, lookup, insert, lookup-insert, lookup-delete}
use dattaniddhi.Floats.{Floats}
use dattaniddhi.Json.{Json}
use dattaniddhi.Vector.{Vector, new_vector}
use dattaniddhi.Index.{add, remove}
use dattaniddhi.Wal.Log.{Answers}
use dattaniddhi.Collection.{
  Collection, Memory, remember, forget, validate_insert, commit_insert, insert_vector,
  delete_vector,
}
use dattaniddhi.Collection.Failures.{insert_vector-memory, delete_vector-memory}

-- The two id maps are inverse to each other, every id is at most the counter, and the index and the
-- payloads have the ids and the identifiers of these maps.
pub record Matched {P : Type 0} (m : Memory P) : Type 0 where
  pub to_ext :
      (ext : List ℕ) (id : ℕ)
      → lookup ext m.ext_to_int ≡ some id
      → lookup id m.int_to_ext ≡ some ext
  pub to_int :
      (ext : List ℕ) (id : ℕ)
      → lookup id m.int_to_ext ≡ some ext
      → lookup ext m.ext_to_int ≡ some id
  pub counted : (ext : List ℕ) (id : ℕ) → lookup id m.int_to_ext ≡ some ext → id ≤ m.id_counter
  pub not_indexed : (id : ℕ) → lookup id m.int_to_ext ≡ none → lookup id m.index.vectors ≡ none
  pub indexed : (id : ℕ) → lookup id m.index.vectors ≡ none → lookup id m.int_to_ext ≡ none
  pub no_payload : (ext : List ℕ) → lookup ext m.ext_to_int ≡ none → lookup ext m.payload ≡ none
  pub has_payload : (ext : List ℕ) → lookup ext m.payload ≡ none → lookup ext m.ext_to_int ≡ none

module _ {P : Type 0} (m : Memory P) (old : Matched m) where
  remember-Matched :
      (ext : List ℕ) (id : ℕ) (v : Vector) (value : P)
      → lookup ext m.ext_to_int ≡ none
      → m.id_counter < id
      → Matched
          (remember m (record m.index { vectors = insert id v m.index.vectors }) ext id id value)
  remember-Matched ext id v value fresh above = record {
    to_ext = λ e i h. ground (
      arith,
      lookup-insert ext e id m.ext_to_int,
      lookup-insert id i ext m.int_to_ext,
      bytes_equal→eq ext e,
      old.to_ext e i,
      old.counted e i,
    );
    to_int = λ e i h. ground (
      arith,
      lookup-insert ext e id m.ext_to_int,
      lookup-insert id i ext m.int_to_ext,
      bytes_equal→eq ext e,
      bytes_equal_refl ext,
      old.to_int e i,
    );
    counted = λ e i h. ground (arith, lookup-insert id i ext m.int_to_ext, old.counted e i);
    not_indexed = λ i h. ground (
      arith,
      lookup-insert id i ext m.int_to_ext,
      lookup-insert id i v m.index.vectors,
      old.not_indexed i,
    );
    indexed = λ i h. ground (
      arith,
      lookup-insert id i ext m.int_to_ext,
      lookup-insert id i v m.index.vectors,
      old.indexed i,
    );
    no_payload = λ e h. ground (
      arith,
      lookup-insert ext e id m.ext_to_int,
      lookup-insert ext e value m.payload,
      old.no_payload e,
    );
    has_payload = λ e h. ground (
      arith,
      lookup-insert ext e id m.ext_to_int,
      lookup-insert ext e value m.payload,
      old.has_payload e,
    );
  }

  forget-Matched :
      (ext : List ℕ) (id : ℕ)
      → lookup ext m.ext_to_int ≡ some id
      → Matched (forget m ext id m.id_counter)
  unfolding remove
  forget-Matched ext id known = record {
    to_ext = λ e i h. ground (
      arith,
      lookup-delete ext e m.ext_to_int,
      lookup-delete id i m.int_to_ext,
      bytes_equal_refl ext,
      old.to_ext e i,
      old.to_ext ext id known,
    );
    to_int = λ e i h. ground (
      arith,
      lookup-delete ext e m.ext_to_int,
      lookup-delete id i m.int_to_ext,
      bytes_equal→eq ext e,
      old.to_int e i,
    );
    counted = λ e i h. ground (arith, lookup-delete id i m.int_to_ext, old.counted e i);
    not_indexed = λ i h. ground (
      arith,
      lookup-delete id i m.int_to_ext,
      lookup-delete id i m.index.vectors,
      old.not_indexed i,
    );
    indexed = λ i h.
        ground (
          arith,
          lookup-delete id i m.int_to_ext,
          lookup-delete id i m.index.vectors,
          old.indexed i,
        );
    no_payload = λ e h.
        ground (
          arith,
          lookup-delete ext e m.ext_to_int,
          lookup-delete ext e m.payload,
          old.no_payload e,
        );
    has_payload = λ e h.
        ground (
          arith,
          lookup-delete ext e m.ext_to_int,
          lookup-delete ext e m.payload,
          old.has_payload e,
        );
  }

module _ (floats : Floats) (json : Json) where
  -- An Insert that succeeds remembers the vector under the next id.
  pub insert_vector-remember :
      (os os' : Answers) (c : Collection json.Value) (ext vals : List ℕ) (value : json.Value)
      (out : List ℕ)
      → (insert_vector floats json os os' c ext vals value).1 ≡ ok out
      → (v : Vector) × (new_vector floats vals c.config.dimension ≡ ok v)
        × ((insert_vector floats json os os' c ext vals value).0.memory
            ≡ remember c.memory
                (record c.memory.index {
                  vectors = insert (int_suc c.memory.id_counter) v c.memory.index.vectors;
                })
                ext
                (int_suc c.memory.id_counter)
                (int_suc c.memory.id_counter)
                value)
  unfolding insert_vector commit_insert add validate_insert
  insert_vector-remember os os' c ext vals value out h =
      elim (Result-cases (validate_insert floats json c vals value)) [
        | inr (x, invalid) ↦ absurd (ground arith)
        | inl ((v, text), valid) ↦ (v, ground arith, ground arith)
      ]

  -- A Delete that succeeds forgets the id of its identifier.
  pub delete_vector-forget :
      (os : Answers) (c : Collection json.Value) (ext : List ℕ) (out : Unit {0})
      → (delete_vector floats json os c ext).1 ≡ ok out
      → (id : ℕ) × (lookup ext c.memory.ext_to_int ≡ some id)
        × ((delete_vector floats json os c ext).0.memory
            ≡ forget c.memory ext id c.memory.id_counter)
  unfolding delete_vector
  delete_vector-forget os c ext out h = elim (Option-cases (lookup ext c.memory.ext_to_int)) [
    | inr unknown ↦ absurd (ground arith)
    | inl (id, known) ↦ (id, known, ground arith)
  ]

  -- Insert, whatever it returns and whatever fails, keeps the maps and the index matched, if the
  -- identifier is new and an id below 2 ^ 63 is left.
  pub insert_vector-Matched :
      (os os' : Answers) (c : Collection json.Value) (ext vals : List ℕ) (value : json.Value)
      → Matched c.memory
      → lookup ext c.memory.ext_to_int ≡ none
      → c.memory.id_counter + 1 < 2 ^ 63
      → Matched (insert_vector floats json os os' c ext vals value).0.memory
  insert_vector-Matched os os' c ext vals value old fresh room =
      let result = insert_vector floats json os os' c ext vals value in
      elim (Result-cases result.1) [
        | inr (e, failed) ↦
            subst Matched (sym (insert_vector-memory floats json os os' c ext vals value e failed))
              old
        | inl (out, done) ↦
            let (v, built, memory_is) = insert_vector-remember os os' c ext vals value out done in
            subst Matched (sym memory_is) (
              remember-Matched c.memory old ext (int_suc c.memory.id_counter) v value fresh
                (omega arith))
      ]

  -- Delete, whatever it returns and whatever fails, keeps the maps and the index matched.
  pub delete_vector-Matched :
      (os : Answers) (c : Collection json.Value) (ext : List ℕ)
      → Matched c.memory
      → Matched (delete_vector floats json os c ext).0.memory
  delete_vector-Matched os c ext old = elim (Result-cases (delete_vector floats json os c ext).1) [
    | inr (e, failed) ↦ subst Matched (sym (delete_vector-memory floats json os c ext e failed)) old
    | inl (out, done) ↦
        let (id, known, memory_is) = delete_vector-forget os c ext out done in
        subst Matched (sym memory_is) (forget-Matched c.memory old ext id known)
  ]
