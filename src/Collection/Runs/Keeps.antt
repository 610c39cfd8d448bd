-- ===== src/Collection/Runs/Keeps.antt =====
-- Inserts, deletes and reopenings keep a collection faithful to its history.
use dattaniddhi.Prelude.{
  ℕ, ◌+◌, ◌^◌, ◌≤◌, ◌<◌, ◌≡◌, refl, ap, ◌∙◌, sym, subst, List, [], ◌∷◌, none, some, arith, Result,
  ok, ok_injective, bytes_equal, if◌then◌else◌,
}
use dattaniddhi.Prelude.Maps.{bytes_eq, nat_eq, Map, lookup, map_values}
use dattaniddhi.Floats.{Floats}
use dattaniddhi.Json.{Json, JsonLaws}
use dattaniddhi.Vector.{Vector}
use dattaniddhi.Wal.Bytes.{IsU64}
use dattaniddhi.Wal.Log.{Answers, next_lsn}
use dattaniddhi.Wal.Log.Steps.{NothingFails}
use dattaniddhi.Wal.Scanner.Entry.{insert as inserted, delete as deleted, EntryFits}
use dattaniddhi.Collection.{
  CollectionError, Collection, CollectionConfig, logged, validate_insert, insert_vector,
  delete_vector, get_payload,
}
use dattaniddhi.Collection.Config.{ConfigJson, ConfigAnswers, CollectionDir, check_loaded}
use dattaniddhi.Collection.Recoverable.Inserts.{insert_vector-Recoverable}
use dattaniddhi.Collection.Recoverable.Deletes.{delete_vector-Recoverable}
use dattaniddhi.Collection.Lifecycle.{make_index, open_collection}
use dattaniddhi.Collection.Lifecycle.Creates.{Created}
use dattaniddhi.Collection.Lifecycle.Opens.{
  ConfigGood, dir_of, Belongs, Opened, open_collection-Opened,
}
use dattaniddhi.Collection.Failures.{insert_vector-invalid, delete_vector-unknown}
use dattaniddhi.Collection.Runs.{
  Event, put, removed, refused, reopened, map_option, Step, Run, Faithful,
}

pub lookup-map_values :
    {V : Type 0} (f : V → V) (j : List ℕ) (m : Map (List ℕ) V)
    → lookup j (map_values f m) ≡ map_option f (lookup j m)
unfolding lookup
lookup-map_values f j [] = refl
lookup-map_values f j ((k, v) ∷ m) = ground (arith, lookup-map_values f j m)

module _ (floats : Floats) (json : Json) (config_json : ConfigJson) (file : List ℕ)
    (laws : JsonLaws json) where
  Belongs-same :
      {c d : Collection json.Value}
      → d.config ≡ c.config
      → d.memory.index.config ≡ c.memory.index.config
      → Belongs floats json laws config_json file c
      → Belongs floats json laws config_json file d
  Belongs-same {c} {d} same same' b = record {
    reads = b.reads ∙ ap some (sym same);
    checks = subst (λ cfg. check_loaded cfg.name cfg ≡ ok cfg) (sym same) b.checks;
    index_is =
        ap make_index same
        ∙ b.index_is
        ∙ ap (λ cfg. ok (record { vectors = []; config = cfg })) (sym same');
  }

  insert-Faithful :
      (os os' : Answers) (c : Collection json.Value) (ext vals text : List ℕ) (value : json.Value)
      (v : Vector) (es : List (Event json.Value))
      → NothingFails os
      → IsU64 (c.wal.seg_id + 1)
      → c.memory.id_counter + 1 < 2 ^ 63
      → validate_insert floats json c vals value ≡ ok (v, text)
      → EntryFits (inserted (next_lsn c.wal) (logged floats json c ext vals text))
      → Faithful floats json config_json file laws es c
      → Faithful floats json config_json file laws
          (put ext value ∷ es)
          (insert_vector floats json os os' c ext vals value).0
  insert-Faithful os os' c ext vals text value v es good seg room valid fits f =
      let r = f.recoverable in
      let seg' : IsU64 (r.current.id + 1) = omega (arith, r.holds.seg_id_is) in
      let i =
        insert_vector-Recoverable floats json laws os os' c r good seg' room ext vals text value v
          valid fits in
      record {
        recoverable = i.recoverable;
        belongs = Belongs-same i.config_is i.index_config_is f.belongs;
        answers =
            λ j. i.get_is j ∙ ap (λ a. if bytes_equal ext j then some value else a) (f.answers j);
      }

  delete-Faithful :
      (os : Answers) (c : Collection json.Value) (ext : List ℕ) (id : ℕ)
      (es : List (Event json.Value))
      → NothingFails os
      → IsU64 (c.wal.seg_id + 1)
      → lookup ext c.memory.ext_to_int ≡ some id
      → EntryFits (deleted (next_lsn c.wal) (record { external_id = ext; internal_id = id }))
      → Faithful floats json config_json file laws es c
      → Faithful floats json config_json file laws
          (removed ext ∷ es)
          (delete_vector floats json os c ext).0
  delete-Faithful os c ext id es good seg known fits f =
      let r = f.recoverable in
      let seg' : IsU64 (r.current.id + 1) = omega (arith, r.holds.seg_id_is) in
      let i = delete_vector-Recoverable floats json laws os c r good seg' ext id known fits in
      record {
        recoverable = i.recoverable;
        belongs = Belongs-same i.config_is i.index_config_is f.belongs;
        answers = λ j. i.get_is j ∙ ap (λ a. if bytes_equal ext j then none else a) (f.answers j);
      }

  pub Opened-Faithful :
      {c d : Collection json.Value} (es : List (Event json.Value))
      → Opened floats json laws config_json file c d
      → Faithful floats json config_json file laws es c
      → Faithful floats json config_json file laws (reopened ∷ es) d
  unfolding get_payload
  Opened-Faithful {c} {d} es o f = record {
    recoverable = o.recoverable;
    belongs = o.belongs;
    answers = λ j.
        ap (λ m. lookup j m.payload) o.memory_is
        ∙ lookup-map_values laws.stored j c.memory.payload
        ∙ ap (map_option laws.stored) (f.answers j);
  }

  refused-Faithful :
      {c : Collection json.Value} (es : List (Event json.Value))
      → Faithful floats json config_json file laws es c
      → Faithful floats json config_json file laws (refused ∷ es) c
  refused-Faithful es f = record {
    recoverable = f.recoverable;
    belongs = f.belongs;
    answers = f.answers;
  }

  Step-Faithful :
      {c d : Collection json.Value} {e : Event json.Value} (es : List (Event json.Value))
      → Step floats json config_json file c e d
      → Faithful floats json config_json file laws es c
      → Faithful floats json config_json file laws (e ∷ es) d
  Step-Faithful {c} es (Step.insert os os' ext vals text value v good seg room valid fits) f =
      insert-Faithful os os' c ext vals text value v es good seg room valid fits f
  Step-Faithful {c} es (Step.delete os ext id good seg known fits) f =
      delete-Faithful os c ext id es good seg known fits f
  Step-Faithful {c} es (Step.refuse_insert os os' ext vals value x invalid) f =
      subst (Faithful floats json config_json file laws (refused ∷ es))
        (sym (ap (λ r. r.0) (insert_vector-invalid floats json os os' c ext vals value x invalid)))
        (refused-Faithful es f)
  Step-Faithful {c} es (Step.refuse_delete os ext unknown) f =
      subst (Faithful floats json config_json file laws (refused ∷ es))
        (sym (ap (λ r. r.0) (delete_vector-unknown floats json os c ext unknown)))
        (refused-Faithful es f)
  Step-Faithful {c} es (Step.reopen os os' sp c' good low high opened) f =
      let (d, is, o) =
        open_collection-Opened floats json laws config_json file c f.belongs f.recoverable os os' sp
          good low high in
      let same : d ≡ c' = ok_injective (sym (ap (λ t. t.1) is) ∙ opened) in
      subst (Faithful floats json config_json file laws (reopened ∷ es)) same
        (Opened-Faithful es o f)

  -- Runs keep a collection faithful to its history.
  pub Run-Faithful :
      {c d : Collection json.Value} {es : List (Event json.Value)}
      → Faithful floats json config_json file laws [] c
      → Run floats json config_json file c es d
      → Faithful floats json config_json file laws es d
  Run-Faithful start Run.here = start
  Run-Faithful start (Run.later {es = es} run step) = Step-Faithful es step (Run-Faithful start run)

module _ (floats : Floats) (json : Json) (laws : JsonLaws json) (config_json : ConfigJson)
    {cfg : CollectionConfig}
    {result : CollectionDir × Result CollectionError (Collection json.Value)}
    (k : Created floats json laws config_json cfg result) where
  pub Created-Faithful : Faithful floats json config_json k.file laws [] k.created
  unfolding get_payload lookup
  Created-Faithful = record {
    recoverable = k.recoverable;
    belongs = k.belongs;
    answers = λ j. ap (λ m. lookup j m.payload) k.memory_is;
  }

  -- From a collection that was just created, whatever inserts, deletes and reopenings follow, in
  -- whatever order, each refused for what it is given or successful with no failing call, while ids
  -- and segment numbers are left and the records fit: Get answers for every identifier as the
  -- history says, the collection is recoverable, and its configuration file can be loaded.
  pub Run-Faithful_created :
      {es : List (Event json.Value)} {d : Collection json.Value}
      → Run floats json config_json k.file k.created es d
      → Faithful floats json config_json k.file laws es d
  Run-Faithful_created run = Run-Faithful floats json config_json k.file laws (Created-Faithful) run

  -- Whatever inserts, deletes and reopenings lie behind it, each refused for what it is given or
  -- successful with no failing call, the collection can be opened once more when no call fails:
  -- OpenCollection on its directory returns a collection with its configuration, which answers as
  -- the history with that reopening says and is recoverable again.
  pub Run-reopens :
      {es : List (Event json.Value)} {d : Collection json.Value} (os : ConfigAnswers)
      (os' : Answers) (sp : ℕ)
      → Run floats json config_json k.file k.created es d
      → ConfigGood os
      → 1 ≤ sp
      → sp ≤ 3
      → (d' : Collection json.Value) × ((open_collection floats json config_json os os'
            d.config.name
            (dir_of k.file d)
            sp).1
          ≡ ok d')
        × (d'.config ≡ d.config)
        × Faithful floats json config_json k.file laws (reopened ∷ es) d'
  Run-reopens {es} {d} os os' sp run good low high =
      let f = Run-Faithful_created run in
      let (d', is, o) =
        open_collection-Opened floats json laws config_json k.file d f.belongs f.recoverable os os'
          sp good low high in
      (
        d',
        ap (λ t. t.1) is,
        o.config_is,
        Opened-Faithful floats json config_json k.file laws es o f,
      )
