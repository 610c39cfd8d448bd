-- ===== src/Command/Restarts.antt =====
-- The command started for the first time, and started again.
use dattaniddhi.Prelude.{ℕ, ◌≡◌, refl, ap, ◌∙◌, sym, List, [], ◌∷◌, some, arith, ok, err, Result}
use dattaniddhi.Floats.{Floats}
use dattaniddhi.Json.{Json, JsonLaws}
use dattaniddhi.Wal.Log.{Answers, sync_os}
use dattaniddhi.Wal.Log.Steps.{NothingFails}
use dattaniddhi.Collection.{CollectionError, Collection, collection_already_exists}
use dattaniddhi.Collection.Config.{ConfigJson, ConfigAnswers, CollectionDir}
use dattaniddhi.Collection.Lifecycle.{check_new, create_collection, open_collection}
use dattaniddhi.Collection.Lifecycle.Opens.{ConfigGood, dir_of, open_collection-Opened}
use dattaniddhi.Collection.Lifecycle.Creates.{ConfigLaws, no_collection, create_collection-Created}
use dattaniddhi.Collection.Runs.{Event, reopened, Faithful}
use dattaniddhi.Collection.Runs.Keeps.{Created-Faithful, Opened-Faithful}
use dattaniddhi.Command.{command_config, test_model, start}

module _ (floats : Floats) (json : Json) (laws : JsonLaws json) (config_json : ConfigJson)
    (os : ConfigAnswers) (os' : Answers) (coll_name : List ℕ) (dim : ℕ) (good : ConfigGood os)
    (good' : NothingFails os') (valid : check_new (command_config coll_name dim) ≡ ok tt) where
  -- What the command serves: a collection of the name that was asked for, faithful to its history,
  -- in the directory that belongs to it.
  pub record Serves (es : List (Event json.Value))
      (result : CollectionDir × Result CollectionError (Collection json.Value)) : Type 0 where
    pub served : Collection json.Value
    pub result_is : result.1 ≡ ok served
    pub file : List ℕ
    pub dir_is : result.0 ≡ dir_of file served
    pub name_is : served.config.name ≡ coll_name
    pub faithful : Faithful floats json config_json file laws es served

  -- Started where nothing is, with no failing call, the command serves an empty collection.
  pub start_first :
      (config_laws : ConfigLaws config_json)
      → config_laws.IsText coll_name
      → config_laws.IsText test_model
      → Serves [] (start floats json config_json os os' coll_name dim no_collection)
  unfolding start
  start_first config_laws name_fits model_fits =
      let k =
        create_collection-Created floats json laws config_json os os' (command_config coll_name dim)
          sync_os good good' (omega arith) (omega arith) config_laws valid refl refl name_fits
          model_fits in
      record {
        served = k.created;
        result_is = rw (start, k.result_is);
        file = k.file;
        dir_is = rw (start, k.result_is) k.dir_is;
        name_is = ap (λ c. c.name) k.config_is;
        faithful = Created-Faithful floats json laws config_json k;
      }

  create_again :
      (file : List ℕ) (c : Collection json.Value)
      → create_collection floats json config_json os os'
          (command_config coll_name dim)
          (dir_of file c)
          sync_os
        ≡ (dir_of file c, err collection_already_exists)
  unfolding create_collection
  create_again file c = rw (create_collection, valid, good.stats)

  -- Started again on the directory that it left behind a history, with no failing call and with
  -- whatever valid dimension, the command serves a collection that answers as the history and the
  -- reopening say.
  pub start_again :
      (file : List ℕ) (c : Collection json.Value) (es : List (Event json.Value))
      → Faithful floats json config_json file laws es c
      → c.config.name ≡ coll_name
      → Serves (reopened ∷ es) (start floats json config_json os os' coll_name dim (dir_of file c))
  unfolding start
  start_again file c es f named =
      let (d, is, o) =
        open_collection-Opened floats json laws config_json file c f.belongs f.recoverable os os'
          sync_os good (omega arith) (omega arith) in
      let opens =
        ap (λ n. open_collection floats json config_json os os' n (dir_of file c) sync_os)
          (sym named)
        ∙ is in
      let again = create_again file c in
      let result : start floats json config_json os os' coll_name dim (dir_of file c)
          ≡ (dir_of file c, ok d) =
        rw (start, ap (λ r. r.1) again, ap (λ r. r.0) again) opens in
      record {
        served = d;
        result_is = ap (λ r. r.1) result;
        file = file;
        dir_is =
            ap (λ r. r.0) result
            ∙ ap (λ w. record { config_file = some file; wal_dir = w }) (sym o.dir_is);
        name_is = ap (λ k. k.name) o.config_is ∙ named;
        faithful = Opened-Faithful floats json config_json file laws es o f;
      }
