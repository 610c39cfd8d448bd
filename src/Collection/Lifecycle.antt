-- ===== src/Collection/Lifecycle.antt =====
-- CreateCollection, OpenCollection and Close of internal/collection/collection.go, over the directory
-- of one collection. The panic of the index factory ends the process: it is the error
-- `unsupported_index` here.
pub mod Creates
pub mod Examples
pub mod Opens
pub mod Refusals
use dattaniddhi.Prelude.{
  ℕ, Bool, not, List, [], Option, none, some, length, ◌==◌, if◌then◌else◌, is_not_positive, Result,
  ok, err, ◌>>=◌, ◌>>◌, require,
}
use dattaniddhi.Floats.{Floats}
use dattaniddhi.Json.{Json}
use dattaniddhi.Index.{LinearIndex, is_metric, is_index_type, new_index_config, create_index}
use dattaniddhi.Wal.Format.{Error}
use dattaniddhi.Wal.Disk.{DirEntry}
use dattaniddhi.Wal.Log.{Wal, Answers, close}
use dattaniddhi.Wal.Open.{new_wal}
use dattaniddhi.Collection.{
  CollectionConfig, CollectionError, Collection, invalid_dimension, invalid_collection_name,
  invalid_metric, invalid_index_type, unsupported_index, collection_already_exists, failed_to_stat,
  index_failed, wal_failed, lift, load_state,
}
use dattaniddhi.Collection.Config.{
  ConfigJson, ConfigAnswers, CollectionDir, save_config, load_config, collection_config_version,
}

-- The index that a configuration asks for.
unfoldable pub make_index : CollectionConfig → Result CollectionError LinearIndex
make_index cfg = do
  index_config ← lift index_failed (new_index_config cfg.index_type cfg.metric cfg.dimension)
  elim (create_index index_config) [ none ↦ err unsupported_index | some r ↦ lift index_failed r ]

-- CreateCollection's checks of its argument.
unfoldable pub check_new : CollectionConfig → Result CollectionError (Unit {0})
check_new cfg = do
  require (not (is_not_positive cfg.dimension)) invalid_dimension
  require (not (length cfg.name == 0)) invalid_collection_name
  require (is_metric cfg.metric) invalid_metric
  require (is_index_type cfg.index_type) invalid_index_type

module _ (floats : Floats) (json : Json) (config_json : ConfigJson) where
  open json use {Value}

  -- A collection with nothing in it, on an index and a WAL.
  abbrev pub empty_collection : CollectionConfig → LinearIndex → Wal → Collection Value
  empty_collection cfg index w = record {
    config = cfg;
    memory = record {
      index = index;
      id_counter = 0;
      ext_to_int = [];
      int_to_ext = [];
      payload = [];
    };
    wal = w;
  }

  -- The WAL of the collection, and the collection on it.
  unfoldable pub attach :
      Answers
      → CollectionConfig
      → LinearIndex
      → CollectionDir
      → ℕ
      → CollectionDir × Result CollectionError (Collection Value)
  attach os cfg index d sync =
      let (opened, wal_dir) = new_wal os d.wal_dir sync in
      (
        record d { wal_dir = wal_dir },
        lift wal_failed (opened >>= λ w. ok (empty_collection cfg index w)),
      )

  -- Behind the tests: the configuration file, the index and the WAL.
  unfoldable pub establish :
      ConfigAnswers
      → Answers
      → CollectionConfig
      → CollectionDir
      → ℕ
      → CollectionDir × Result CollectionError (Collection Value)
  establish os os' cfg d sync =
      let (d', written) = save_config config_json os cfg d in
      elim written [
        | err e ↦ (d', err e)
        | ok done ↦ elim (make_index cfg) [
          | err e ↦ (d', err e)
          | ok index ↦ attach os' cfg index d' sync
        ]
      ]

  unfoldable pub create_collection :
      ConfigAnswers
      → Answers
      → CollectionConfig
      → CollectionDir
      → ℕ
      → CollectionDir × Result CollectionError (Collection Value)
  create_collection os os' cfg d sync = elim (check_new cfg) [
    | err e ↦ (d, err e)
    | ok done ↦
        if os.stat_ok
        then elim d.config_file [
          | some file ↦ (d, err collection_already_exists)
          | none ↦ establish os os' (record cfg { version = collection_config_version }) d sync
        ]
        else (d, err failed_to_stat)
  ]

  -- LoadState on the new instance; on an error the WAL is closed, which leaves the directory.
  unfoldable pub load_attached :
      CollectionDir × Result CollectionError (Collection Value)
      → CollectionDir × Result CollectionError (Collection Value)
  load_attached (d, attached) = (d, attached >>= load_state floats json)

  unfoldable pub open_collection :
      ConfigAnswers
      → Answers
      → List ℕ
      → CollectionDir
      → ℕ
      → CollectionDir × Result CollectionError (Collection Value)
  open_collection os os' name d sync = elim (load_config config_json os name d) [
    | err e ↦ (d, err e)
    | ok cfg ↦ elim (make_index cfg) [
      | err e ↦ (d, err e)
      | ok index ↦ load_attached (attach os' cfg index d sync)
    ]
  ]

  -- (c *Collection) Close
  unfoldable pub close_collection :
      Answers → Collection Value → Collection Value × Result CollectionError (Unit {0})
  close_collection os c =
      let (w, closed) = close os c.wal in (record c { wal = w }, lift wal_failed closed)
