-- ===== src/Command.antt =====
-- cmd/vectordb/main.go: the command creates its collection or opens it, serves until a signal, and
-- closes it. The flags are its arguments; the log lines are left out.
mod Examples
pub mod Restarts
use dattaniddhi.Prelude.{ℕ, List, [], ◌∷◌, Result, ok, err}
use dattaniddhi.Floats.{Floats}
use dattaniddhi.Json.{Json}
use dattaniddhi.Index.{linear_index, metric_cosine}
use dattaniddhi.Wal.Log.{Answers, sync_os}
use dattaniddhi.Collection.{
  CollectionConfig, CollectionError, Collection, collection_already_exists,
}
use dattaniddhi.Collection.Config.{ConfigJson, ConfigAnswers, CollectionDir, text_data}
use dattaniddhi.Collection.Lifecycle.{create_collection, open_collection, close_collection}

-- "test-model"
abbrev pub test_model : List ℕ
test_model = b't' ∷ b'e' ∷ b's' ∷ b't' ∷ b'-' ∷ b'm' ∷ b'o' ∷ b'd' ∷ b'e' ∷ b'l' ∷ []

abbrev pub command_config : List ℕ → ℕ → CollectionConfig
command_config coll_name dim = record {
  name = coll_name;
  dimension = dim;
  metric = metric_cosine;
  index_type = linear_index;
  data_type = text_data;
  model_name = test_model;
  version = 0;
}

-- How the process ends.
pub data Exit : Type 0 where
  clean : Exit
  fatal : CollectionError → Exit

module _ (floats : Floats) (json : Json) (config_json : ConfigJson) where
  -- The collection that is served, or the error of log.Fatalf.
  unfoldable pub start :
      ConfigAnswers
      → Answers
      → List ℕ
      → ℕ
      → CollectionDir
      → CollectionDir × Result CollectionError (Collection json.Value)
  start os os' coll_name dim d =
      let (d', created) =
        create_collection floats json config_json os os' (command_config coll_name dim) d sync_os in
      elim created [
        | ok c ↦ (d', ok c)
        | err collection_already_exists ↦
            open_collection floats json config_json os os' coll_name d' sync_os
        | err e ↦ (d', err e)
      ]

  -- Behind the signal.
  unfoldable pub shut_down : Answers → Collection json.Value → Exit
  shut_down os c = elim (close_collection floats json config_json os c).1 [
    | ok done ↦ clean
    | err e ↦ fatal e
  ]
