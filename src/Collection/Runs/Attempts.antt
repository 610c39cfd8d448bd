-- ===== src/Collection/Runs/Attempts.antt =====
-- Inserts and deletes in which the operating system may refuse any call.
use dattaniddhi.Prelude.{
  ℕ, ◌+◌, ◌^◌, ◌<◌, ◌≤◌, ◌≡◌, ap, ◌∙◌, sym, List, [], ◌∷◌, none, some, arith, length, ok, err, inl,
  inr, Result-cases, bytes_equal, if◌then◌else◌,
}
use dattaniddhi.Prelude.Maps.{bytes_eq, nat_eq, lookup, lookup-insert, lookup-delete}
use dattaniddhi.Floats.{Floats}
use dattaniddhi.Json.{Json}
use dattaniddhi.Index.{remove}
use dattaniddhi.Wal.Log.{Answers}
use dattaniddhi.Collection.{Collection, insert_vector, delete_vector, commit_insert, get_payload}
use dattaniddhi.Collection.Failures.{insert_vector-memory, delete_vector-memory}
use dattaniddhi.Collection.Matched.{insert_vector-remember, delete_vector-forget}
use dattaniddhi.Collection.Runs.{Event, put, removed, answer}
use dattaniddhi.Collection.Runs.Ready.{Ready, insert_vector-Ready, delete_vector-Ready}

module _ (floats : Floats) (json : Json) where
  -- A call of Insert or Delete, with what the operating system and uuid.NewString answer.
  pub data Attempt : Type 0 where
    insert : Answers → Answers → List ℕ → List ℕ → json.Value → Attempt
    delete : Answers → List ℕ → Attempt

  -- The collection behind a call, and the history, longer where the call reports success.
  pub attempt :
      Attempt
      → Collection json.Value × List (Event json.Value)
      → Collection json.Value × List (Event json.Value)
  attempt (insert os os' ext vals value) (c, es) =
      let (c', result) = insert_vector floats json os os' c ext vals value in
      (c', elim result [ ok id ↦ put ext value ∷ es | err e ↦ es ])
  attempt (delete os ext) (c, es) =
      let (c', result) = delete_vector floats json os c ext in
      (c', elim result [ ok done ↦ removed ext ∷ es | err e ↦ es ])

  pub attempt_all :
      List Attempt
      → Collection json.Value × List (Event json.Value)
      → Collection json.Value × List (Event json.Value)
  attempt_all [] s = s
  attempt_all (a ∷ as') s = attempt_all as' (attempt a s)

  -- uuid.NewString returns no identifier that the collection has.
  abbrev pub NewIds : List Attempt → Collection json.Value × List (Event json.Value) → Type 0
  NewIds [] s = Unit
  NewIds (insert os os' ext vals value ∷ as') s =
      (answer (λ v. v) s.1 ext ≡ none) × NewIds as' (attempt (insert os os' ext vals value) s)
  NewIds (delete os ext ∷ as') s = NewIds as' (attempt (delete os ext) s)

  -- The memory answers as the history says, and a search can be made.
  pub record Consistent (s : Collection json.Value × List (Event json.Value)) : Type 0 where
    pub ready : Ready s.0.memory
    pub same_dimension : s.0.memory.index.config.dimension ≡ s.0.config.dimension
    pub answers : (j : List ℕ) → get_payload floats json s.0 j ≡ answer (λ v. v) s.1 j

  insert_vector-config :
      (os os' : Answers) (c : Collection json.Value) (ext vals : List ℕ) (value : json.Value)
      → (insert_vector floats json os os' c ext vals value).0.config ≡ c.config
  unfolding insert_vector commit_insert
  insert_vector-config os os' c ext vals value = ground arith

  delete_vector-config :
      (os : Answers) (c : Collection json.Value) (ext : List ℕ)
      → (delete_vector floats json os c ext).0.config ≡ c.config
  unfolding delete_vector
  delete_vector-config os c ext = ground arith

  insert-Consistent :
      (os os' : Answers) (c : Collection json.Value) (es : List (Event json.Value))
      (ext vals : List ℕ) (value : json.Value)
      → Consistent (c, es)
      → answer (λ v. v) es ext ≡ none
      → c.memory.id_counter + 1 < 2 ^ 63
      → Consistent (attempt (insert os os' ext vals value) (c, es))
        × ((attempt (insert os os' ext vals value) (c, es)).0.memory.id_counter
            ≤ c.memory.id_counter + 1)
  unfolding attempt get_payload
  insert-Consistent os os' c es ext vals value k new room =
      let result = insert_vector floats json os os' c ext vals value in
      let ready =
        insert_vector-Ready floats json os os' c ext vals value k.ready k.same_dimension
          (k.ready.matched.has_payload ext (k.answers ext ∙ new)) room in
      let config = ap (λ cfg. cfg.dimension) (insert_vector-config os os' c ext vals value) in
      elim (Result-cases result.1) [
        | inr (e, failed) ↦
            let same = insert_vector-memory floats json os os' c ext vals value e failed in
            rw failed (
              record {
                ready = ready;
                same_dimension =
                    ap (λ m. m.index.config.dimension) same ∙ k.same_dimension ∙ sym config;
                answers = λ j. ap (λ m. lookup j m.payload) same ∙ k.answers j;
              },
              omega (arith, ap (λ m. m.id_counter) same),
            )
        | inl (out, done) ↦
            let (v, built, memory_is) =
              insert_vector-remember floats json os os' c ext vals value out done in
            rw done (
              record {
                ready = ready;
                same_dimension =
                    ap (λ m. m.index.config.dimension) memory_is ∙ k.same_dimension ∙ sym config;
                answers = λ j.
                    ap (λ m. lookup j m.payload) memory_is
                    ∙ lookup-insert ext j value c.memory.payload
                    ∙ ap (λ a. if bytes_equal ext j then some value else a) (k.answers j);
              },
              omega (arith, ap (λ m. m.id_counter) memory_is),
            )
      ]

  delete-Consistent :
      (os : Answers) (c : Collection json.Value) (es : List (Event json.Value)) (ext : List ℕ)
      → Consistent (c, es)
      → Consistent (attempt (delete os ext) (c, es))
        × ((attempt (delete os ext) (c, es)).0.memory.id_counter ≤ c.memory.id_counter)
  unfolding attempt get_payload remove
  delete-Consistent os c es ext k =
      let result = delete_vector floats json os c ext in
      let ready = delete_vector-Ready floats json os c ext k.ready in
      let config = ap (λ cfg. cfg.dimension) (delete_vector-config os c ext) in
      elim (Result-cases result.1) [
        | inr (e, failed) ↦
            let same = delete_vector-memory floats json os c ext e failed in
            rw failed (
              record {
                ready = ready;
                same_dimension =
                    ap (λ m. m.index.config.dimension) same ∙ k.same_dimension ∙ sym config;
                answers = λ j. ap (λ m. lookup j m.payload) same ∙ k.answers j;
              },
              omega (arith, ap (λ m. m.id_counter) same),
            )
        | inl (out, done) ↦
            let (id, known, memory_is) = delete_vector-forget floats json os c ext out done in
            rw done (
              record {
                ready = ready;
                same_dimension =
                    ap (λ m. m.index.config.dimension) memory_is ∙ k.same_dimension ∙ sym config;
                answers = λ j.
                    ap (λ m. lookup j m.payload) memory_is
                    ∙ lookup-delete ext j c.memory.payload
                    ∙ ap (λ a. if bytes_equal ext j then none else a) (k.answers j);
              },
              omega (arith, ap (λ m. m.id_counter) memory_is),
            )
      ]

  -- Whatever calls the operating system refuses: behind a sequence of inserts of new identifiers and of
  -- deletes, Get answers as the calls say that reported success, and the maps, the index and the
  -- payloads belong together.
  pub attempt_all-Consistent :
      (attempts : List Attempt) (c : Collection json.Value) (es : List (Event json.Value))
      → Consistent (c, es)
      → NewIds attempts (c, es)
      → c.memory.id_counter + length attempts < 2 ^ 63
      → Consistent (attempt_all attempts (c, es))
  unfolding attempt_all
  attempt_all-Consistent [] c es k new room = k
  attempt_all-Consistent (insert os os' ext vals value ∷ as') c es k new room =
      let s = attempt (insert os os' ext vals value) (c, es) in
      let (next, counted) = insert-Consistent os os' c es ext vals value k new.0 (omega arith) in
      attempt_all-Consistent as' s.0 s.1 next new.1 (omega arith)
  attempt_all-Consistent (delete os ext ∷ as') c es k new room =
      let s = attempt (delete os ext) (c, es) in
      let (next, counted) = delete-Consistent os c es ext k in
      attempt_all-Consistent as' s.0 s.1 next new (omega arith)
