-- ===== src/Collection/Config.antt =====
-- internal/collection/config.go: the configuration of a collection and its file. `CollectionDir` is
-- what `path/name` holds; MarshalIndent and Unmarshal of a configuration are a parameter.
use dattaniddhi.Prelude.{
  ℕ, Bool, not, ◌||◌, List, Option, none, some, length, take, ◌==◌, if◌then◌else◌, is_not_positive,
  bytes_equal, Result, ok, err, ◌>>◌, require,
}
use dattaniddhi.Index.{is_metric, is_index_type}
use dattaniddhi.Wal.Disk.{DirEntry}
use dattaniddhi.Collection.{
  CollectionConfig, CollectionError, invalid_dimension, marshal_failed, invalid_collection_name,
  invalid_metric, invalid_index_type, invalid_data_type, invalid_model_name, invalid_version,
  invalid_config, collection_not_found, failed_to_stat, failed_to_make_directory,
  failed_to_write_config, failed_to_read_config, corrupt_config,
}

-- collectionConfigVersion
abbrev pub collection_config_version : ℕ
collection_config_version = 1

-- types.DataType: Text, Image, Audio, Video.
abbrev pub text_data : ℕ
text_data = 1

abbrev pub image_data : ℕ
image_data = 2

abbrev pub audio_data : ℕ
audio_data = 3

abbrev pub video_data : ℕ
video_data = 4

abbrev pub is_data_type : ℕ → Bool
is_data_type t = (t == audio_data) || ((t == image_data) || ((t == text_data) || (t == video_data)))

unfoldable pub new_collection_config :
    List ℕ → ℕ → ℕ → ℕ → ℕ → List ℕ → Result CollectionError CollectionConfig
new_collection_config name dim metric idx_type da_type mod_name = do
  require (not (length name == 0)) invalid_collection_name
  require (not (is_not_positive dim)) invalid_dimension
  require (is_metric metric) invalid_metric
  require (is_index_type idx_type) invalid_index_type
  require (is_data_type da_type) invalid_data_type
  require (not (length mod_name == 0)) invalid_model_name
  ok (record {
    name = name;
    dimension = dim;
    metric = metric;
    index_type = idx_type;
    data_type = da_type;
    model_name = mod_name;
    version = collection_config_version;
  })

-- The directory of one collection: config.json, and what `wal` holds.
pub record CollectionDir : Type 0 where
  pub config_file : Option (List ℕ)
  pub wal_dir : List DirEntry

-- os.WriteFile: it empties the file first, unless it cannot open it.
pub data SaveOutcome : Type 0 where
  saved refused : SaveOutcome
  cut : ℕ → SaveOutcome

-- What the operating system answers to the calls on config.json.
pub record ConfigAnswers : Type 0 where
  pub stat_ok : Bool
  pub mkdir_ok : Bool
  pub config_write : SaveOutcome
  pub read_ok : Bool

-- json.MarshalIndent and json.Unmarshal at a configuration; `none` is an error.
pub record ConfigJson : Type 0 where
  pub marshal_indent : CollectionConfig → Option (List ℕ)
  pub unmarshal : List ℕ → Option CollectionConfig

-- loadConfig's checks of what was read.
unfoldable pub check_loaded : List ℕ → CollectionConfig → Result CollectionError CollectionConfig
check_loaded col_name config = do
  require (bytes_equal config.name col_name) (invalid_config invalid_collection_name)
  require (not (is_not_positive config.dimension)) (invalid_config invalid_dimension)
  require (is_metric config.metric) (invalid_config invalid_metric)
  require (is_index_type config.index_type) (invalid_config invalid_index_type)
  require (is_data_type config.data_type) (invalid_config invalid_data_type)
  require (collection_config_version == config.version) (invalid_config invalid_version)
  ok config

module _ (config_json : ConfigJson) where
  open config_json use {marshal_indent, unmarshal}

  unfoldable pub save_config :
      ConfigAnswers
      → CollectionConfig
      → CollectionDir
      → CollectionDir × Result CollectionError (Unit {0})
  save_config os cfg d = elim (marshal_indent cfg) [
    | none ↦ (d, err marshal_failed)
    | some json_data ↦
        if os.mkdir_ok
        then elim os.config_write as (λ _. CollectionDir × Result CollectionError (Unit {0})) [
          | saved ↦ (record d { config_file = some json_data }, ok tt)
          | refused ↦ (d, err failed_to_write_config)
          | cut n ↦ (record d { config_file = some (take n json_data) }, err failed_to_write_config)
        ]
        else (d, err failed_to_make_directory)
  ]

  unfoldable pub read_config : List ℕ → Bool → List ℕ → Result CollectionError CollectionConfig
  read_config col_name read_ok file = do
    require read_ok failed_to_read_config
    elim (unmarshal file) [ none ↦ err corrupt_config | some config ↦ check_loaded col_name config ]

  unfoldable pub load_config :
      ConfigAnswers → List ℕ → CollectionDir → Result CollectionError CollectionConfig
  load_config os col_name d =
      if os.stat_ok
      then elim d.config_file [
        | none ↦ err collection_not_found
        | some file ↦ read_config col_name os.read_ok file
      ]
      else err failed_to_stat
