-- ===== src/Collection/Lifecycle/Creates.antt =====
-- CreateCollection: on a path where there is no collection, and on one where there is.
use dattaniddhi.Prelude.{
  ℕ, ◌≤◌, ◌≡◌, refl, ap, ◌∙◌, true, List, [], none, some, arith, ok, Result, bytes_equal_refl,
  if_true, ◌>>=◌,
}
use dattaniddhi.Prelude.Maps.{bytes_eq, nat_eq, lookup}
use dattaniddhi.Floats.{Floats}
use dattaniddhi.Json.{Json, JsonLaws}
use dattaniddhi.Index.{
  IndexConfig, LinearIndex, linear_index, new_index_config, validate, new_linear_index,
  create_index,
}
use dattaniddhi.Wal.Log.{Answers}
use dattaniddhi.Wal.Log.Steps.{NothingFails}
use dattaniddhi.Wal.History.Rotates.{fresh_segment}
use dattaniddhi.Wal.History.Creates.{first_wal, first_wal-Holds, new_wal_empty}
use dattaniddhi.Wal.History.Durable.{recover-Holds}
use dattaniddhi.Collection.{CollectionError, Collection, CollectionConfig, lift, wal_failed, replay}
use dattaniddhi.Collection.Config.{
  ConfigJson, ConfigAnswers, CollectionDir, collection_config_version, is_data_type, check_loaded,
  save_config,
}
use dattaniddhi.Collection.Recoverable.{Recoverable, fresh_memory}
use dattaniddhi.Collection.Lifecycle.{
  make_index, check_new, empty_collection, attach, establish, create_collection,
}
use dattaniddhi.Collection.Lifecycle.Opens.{ConfigGood, dir_of, Belongs}

-- A path where nothing is.
abbrev pub no_collection : CollectionDir
no_collection = record { config_file = none; wal_dir = [] }

-- What is documented of encoding/json at a configuration: with names that are valid UTF-8 it has a
-- text, from which it is read back.
pub record ConfigLaws (config_json : ConfigJson) : Type 1 where
  pub IsText : List ℕ → Type 0
  pub written :
      (cfg : CollectionConfig)
      → IsText cfg.name
      → IsText cfg.model_name
      → (text : List ℕ) × (config_json.marshal_indent cfg ≡ some text)
        × (config_json.unmarshal text ≡ some cfg)

-- The configuration that CreateCollection stores.
abbrev pub versioned : CollectionConfig → CollectionConfig
versioned cfg = record cfg { version = collection_config_version }

abbrev pub index_config_of : CollectionConfig → IndexConfig
index_config_of cfg = record {
  index_type = cfg.index_type;
  metric = cfg.metric;
  dimension = cfg.dimension;
}

pub make_index-linear :
    (cfg : CollectionConfig)
    → check_new cfg ≡ ok tt
    → cfg.index_type ≡ linear_index
    → make_index (versioned cfg) ≡ ok (record { vectors = []; config = index_config_of cfg })
unfolding make_index check_new new_index_config validate new_linear_index create_index
make_index-linear cfg checked linear = ground arith

pub check_loaded-versioned :
    (cfg : CollectionConfig)
    → check_new cfg ≡ ok tt
    → is_data_type cfg.data_type ≡ true
    → check_loaded cfg.name (versioned cfg) ≡ ok (versioned cfg)
unfolding check_loaded check_new
check_loaded-versioned cfg checked known = ground (arith, bytes_equal_refl cfg.name)

module _ (floats : Floats) (json : Json) (config_json : ConfigJson) where
  abbrev pub new_collection : CollectionConfig → ℕ → Collection json.Value
  new_collection cfg sp = record {
    config = versioned cfg;
    memory = fresh_memory (index_config_of cfg);
    wal = first_wal sp;
  }

  module _ (os : ConfigAnswers) (os' : Answers) (cfg : CollectionConfig) (sp : ℕ)
      (good : ConfigGood os) (good' : NothingFails os') (low : 1 ≤ sp) (high : sp ≤ 3) where
    attach-new :
        (file : List ℕ) (index : LinearIndex)
        → attach floats json config_json os'
            (versioned cfg)
            index
            (record { config_file = some file; wal_dir = [] })
            sp
          ≡ (
            dir_of file (new_collection cfg sp),
            ok (empty_collection floats json config_json (versioned cfg) index (first_wal sp)),
          )
    unfolding attach
    attach-new file index =
        ap
          (λ t. (
            record { config_file = some file; wal_dir = t.1 },
            lift wal_failed (
                t.0 >>= λ w. ok (empty_collection floats json config_json (versioned cfg) index w)),
          ))
          (new_wal_empty os' sp good' low high)

    pub save_config-new :
        (file : List ℕ)
        → config_json.marshal_indent (versioned cfg) ≡ some file
        → save_config config_json os (versioned cfg) no_collection
          ≡ (record { config_file = some file; wal_dir = [] }, ok tt)
    unfolding save_config
    save_config-new file text = rw (save_config, text) (if_true _ _ good.makes ∙ (rw good.writes))

    establish-new :
        (file : List ℕ)
        → config_json.marshal_indent (versioned cfg) ≡ some file
        → make_index (versioned cfg) ≡ ok (record { vectors = []; config = index_config_of cfg })
        → establish floats json config_json os os' (versioned cfg) no_collection sp
          ≡ (dir_of file (new_collection cfg sp), ok (new_collection cfg sp))
    unfolding establish
    establish-new file text index =
        let saves = save_config-new file text in
        rw (establish, ap (λ t. t.1) saves, index, ap (λ t. t.0) saves)
          (attach-new file (record { vectors = []; config = index_config_of cfg }))

    -- Where there is nothing, the configuration is stored and an empty collection is returned.
    pub create_collection-new :
        (file : List ℕ)
        → config_json.marshal_indent (versioned cfg) ≡ some file
        → check_new cfg ≡ ok tt
        → cfg.index_type ≡ linear_index
        → create_collection floats json config_json os os' cfg no_collection sp
          ≡ (dir_of file (new_collection cfg sp), ok (new_collection cfg sp))
    unfolding create_collection
    create_collection-new file text checked linear =
        rw (create_collection, checked)
          (if_true _ _ good.stats ∙ establish-new file text (make_index-linear cfg checked linear))

module _ (floats : Floats) (json : Json) (laws : JsonLaws json) (config_json : ConfigJson) where
  -- The new collection and its directory: the configuration is stored with the current version, the
  -- memory is empty, and what is in the directory belongs to the collection.
  pub record Created (cfg : CollectionConfig)
      (result : CollectionDir × Result CollectionError (Collection json.Value)) : Type 0 where
    pub created : Collection json.Value
    pub result_is : result.1 ≡ ok created
    pub file : List ℕ
    pub dir_is : result.0 ≡ dir_of file created
    pub config_is : created.config ≡ versioned cfg
    pub memory_is : created.memory ≡ fresh_memory (index_config_of cfg)
    pub recoverable : Recoverable floats json laws created
    pub belongs : Belongs floats json laws config_json file created

  no_ids :
      (ext : List ℕ) (id : ℕ) (cfg : CollectionConfig) (sp : ℕ)
      → lookup ext (new_collection floats json config_json cfg sp).memory.ext_to_int ≡ some id
      → id ≤ 0
  unfolding lookup
  no_ids ext id cfg sp h = ground arith

  no_index :
      (id : ℕ) (cfg : CollectionConfig) (sp : ℕ)
      → lookup id (new_collection floats json config_json cfg sp).memory.index.vectors ≡ none
  unfolding lookup
  no_index id cfg sp = refl

  pub new_collection-Recoverable :
      (cfg : CollectionConfig) (sp : ℕ)
      → Recoverable floats json laws (new_collection floats json config_json cfg sp)
  unfolding replay
  new_collection-Recoverable cfg sp = record {
    old = [];
    current = fresh_segment 1;
    holds = first_wal-Holds sp;
    records = [];
    recovered = recover-Holds (first_wal sp) [] (fresh_segment 1) (first_wal-Holds sp);
    read_back_is = refl;
    index_dimension = refl;
    index_ids = λ id h. no_index id cfg sp;
    known_ids = λ ext id h. no_ids ext id cfg sp h;
    counter_fits = omega arith;
  }

  module _ (os : ConfigAnswers) (os' : Answers) (cfg : CollectionConfig) (sp : ℕ)
      (good : ConfigGood os) (good' : NothingFails os') (low : 1 ≤ sp) (high : sp ≤ 3) where
    -- CreateCollection with a valid configuration for the linear index, on a path where there is
    -- nothing and with no failing call, succeeds: the collection is empty and recoverable, and the
    -- directory holds its configuration and its WAL.
    pub create_collection-Created :
        (config_laws : ConfigLaws config_json)
        → check_new cfg ≡ ok tt
        → cfg.index_type ≡ linear_index
        → is_data_type cfg.data_type ≡ true
        → config_laws.IsText cfg.name
        → config_laws.IsText cfg.model_name
        → Created cfg (create_collection floats json config_json os os' cfg no_collection sp)
    create_collection-Created config_laws checked linear known name_fits model_fits =
        let (file, text, reads) = config_laws.written (versioned cfg) name_fits model_fits in
        let result =
          create_collection-new floats json config_json os os' cfg sp good good' low high file text
            checked linear in
        record {
          created = new_collection floats json config_json cfg sp;
          result_is = ap (λ r. r.1) result;
          file = file;
          dir_is = ap (λ r. r.0) result;
          config_is = refl;
          memory_is = refl;
          recoverable = new_collection-Recoverable cfg sp;
          belongs = record {
            reads = reads;
            checks = check_loaded-versioned cfg checked known;
            index_is = make_index-linear cfg checked linear;
          };
        }
