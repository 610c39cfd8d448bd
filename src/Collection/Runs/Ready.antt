-- ===== src/Collection/Runs/Ready.antt =====
-- What Search needs of a memory, and what Insert and Delete keep of it.
use dattaniddhi.Prelude.{
  ℕ, ◌+◌, ◌^◌, ◌<◌, ◌≡◌, ◌≢◌, refl, ap, ◌∙◌, sym, subst, true, List, [], ◌∷◌, Option, none, some,
  arith, length, ok, inl, inr, Option-cases, Result-cases,
}
use dattaniddhi.Prelude.Maps.{bytes_eq, nat_eq, Map, lookup, insert, delete}
use dattaniddhi.Floats.{Floats}
use dattaniddhi.Json.{Json, JsonLaws}
use dattaniddhi.Vector.{Vector}
use dattaniddhi.Vector.Valid.{new_vector-IsVector}
use dattaniddhi.Index.{
  IndexConfig, LinearIndex, remove, is_metric, new_index_config, validate, new_linear_index,
  create_index,
}
use dattaniddhi.Index.Search.Best.{Sized}
use dattaniddhi.Wal.Log.{Answers}
use dattaniddhi.Collection.{Collection, CollectionConfig, Memory, insert_vector, delete_vector}
use dattaniddhi.Collection.Matched.{
  Matched, insert_vector-Matched, delete_vector-Matched, insert_vector-remember,
  delete_vector-forget,
}
use dattaniddhi.Collection.Replay.{as_stored}
use dattaniddhi.Collection.Failures.{insert_vector-memory, delete_vector-memory}
use dattaniddhi.Collection.Recoverable.{fresh_memory}
use dattaniddhi.Collection.Lifecycle.{make_index}
use dattaniddhi.Collection.Runs.{map_option}
use dattaniddhi.Collection.Runs.Keeps.{lookup-map_values}

insert-Sized :
    (dim id : ℕ) (v : Vector) (m : Map ℕ Vector)
    → length v.values ≡ dim
    → Sized dim m
    → Sized dim (insert id v m)
unfolding insert
insert-Sized dim id v [] size sized = (size, tt)
insert-Sized dim id v ((j, w) ∷ m) size sized = ground (arith, insert-Sized dim id v m size sized.1)

delete-Sized : (dim id : ℕ) (m : Map ℕ Vector) → Sized dim m → Sized dim (delete id m)
unfolding delete
delete-Sized dim id [] sized = tt
delete-Sized dim id ((j, w) ∷ m) sized = ground (arith, delete-Sized dim id m sized.1)

remove-Sized :
    (id : ℕ) (li : LinearIndex)
    → Sized li.config.dimension li.vectors
    → Sized (remove li id).config.dimension (remove li id).vectors
unfolding remove
remove-Sized id li sized = delete-Sized li.config.dimension id li.vectors sized

-- What Search needs of the memory.
pub record Ready {P : Type 0} (m : Memory P) : Type 0 where
  pub matched : Matched m
  pub sized : Sized m.index.config.dimension m.index.vectors

pub make_index-metric :
    (cfg : CollectionConfig) {li : LinearIndex}
    → make_index cfg ≡ ok li
    → is_metric li.config.metric ≡ true
unfolding make_index new_index_config validate new_linear_index create_index
make_index-metric cfg h = ground arith

length-lookup : {V : Type 0} (id : ℕ) (m : Map ℕ V) → lookup id m ≢ none → 0 < length m
unfolding lookup
length-lookup id [] h = absurd (h refl)
length-lookup id (kv ∷ m) h = omega arith

map_option-none : {A B : Type 0} (f : A → B) (o : Option A) → map_option f o ≡ none → o ≡ none
map_option-none f none h = refl
map_option-none f (some a) h = absurd (ground arith)

pub fresh_memory-Ready : {P : Type 0} (cfg : IndexConfig) → Ready {P = P} (fresh_memory cfg)
unfolding lookup
fresh_memory-Ready cfg = record {
  matched = record {
    to_ext = λ ext id h. absurd (ground arith);
    to_int = λ ext id h. absurd (ground arith);
    counted = λ ext id h. absurd (ground arith);
    not_indexed = λ id h. refl;
    indexed = λ id h. refl;
    no_payload = λ ext h. refl;
    has_payload = λ ext h. refl;
  };
  sized = tt;
}

module _ (floats : Floats) (json : Json) where
  pub insert_vector-Ready :
      (os os' : Answers) (c : Collection json.Value) (ext vals : List ℕ) (value : json.Value)
      → Ready c.memory
      → c.memory.index.config.dimension ≡ c.config.dimension
      → lookup ext c.memory.ext_to_int ≡ none
      → c.memory.id_counter + 1 < 2 ^ 63
      → Ready (insert_vector floats json os os' c ext vals value).0.memory
  insert_vector-Ready os os' c ext vals value r same fresh room = record {
    matched = insert_vector-Matched floats json os os' c ext vals value r.matched fresh room;
    sized =
        let result = insert_vector floats json os os' c ext vals value in
        elim (Result-cases result.1) [
          | inr (e, failed) ↦
              subst (λ m. Sized m.index.config.dimension m.index.vectors)
                (sym (insert_vector-memory floats json os os' c ext vals value e failed)) r.sized
          | inl (out, done) ↦
              let (v, built, memory_is) =
                insert_vector-remember floats json os os' c ext vals value out done in
              let w = new_vector-IsVector floats vals c.config.dimension built in
              subst (λ m. Sized m.index.config.dimension m.index.vectors) (sym memory_is)
                (insert-Sized c.memory.index.config.dimension _ v c.memory.index.vectors
                  (w.length_is ∙ sym same) r.sized)
        ];
  }

  pub delete_vector-Ready :
      (os : Answers) (c : Collection json.Value) (ext : List ℕ)
      → Ready c.memory
      → Ready (delete_vector floats json os c ext).0.memory
  delete_vector-Ready os c ext r = record {
    matched = delete_vector-Matched floats json os c ext r.matched;
    sized = elim (Result-cases (delete_vector floats json os c ext).1) [
      | inr (e, failed) ↦
          subst (λ m. Sized m.index.config.dimension m.index.vectors)
            (sym (delete_vector-memory floats json os c ext e failed)) r.sized
      | inl (out, done) ↦
          let (id, known, memory_is) = delete_vector-forget floats json os c ext out done in
          subst (λ m. Sized m.index.config.dimension m.index.vectors) (sym memory_is)
            (remove-Sized id c.memory.index r.sized)
    ];
  }

  pub as_stored-Ready :
      (laws : JsonLaws json) (m : Memory json.Value)
      → Ready m
      → Ready (as_stored floats json laws m)
  as_stored-Ready laws m r =
      let old = r.matched in
      let payload_is = λ (j : List ℕ). lookup-map_values laws.stored j m.payload in
      record {
        matched = record {
          to_ext = old.to_ext;
          to_int = old.to_int;
          counted = old.counted;
          not_indexed = old.not_indexed;
          indexed = old.indexed;
          no_payload = λ e h. payload_is e ∙ ap (map_option laws.stored) (old.no_payload e h);
          has_payload = λ e h.
              old.has_payload e
                (map_option-none laws.stored (lookup e m.payload) (sym (payload_is e) ∙ h));
        };
        sized = r.sized;
      }

  -- An identifier with a payload has a vector, so the index is not empty.
  pub answer-vectors :
      {m : Memory json.Value} (ext : List ℕ) {value : json.Value}
      → Matched m
      → lookup ext m.payload ≡ some value
      → 0 < length m.index.vectors
  answer-vectors {m} ext old there = elim (Option-cases (lookup ext m.ext_to_int)) [
    | inr missing ↦ absurd (ground (arith, old.no_payload ext missing))
    | inl (id, known) ↦
        let name = old.to_ext ext id known in
        length-lookup id m.index.vectors (λ gone. ground (arith, old.indexed id gone, name))
  ]
