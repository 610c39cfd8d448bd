-- ===== src/Collection/Lifecycle/Refusals.antt =====
-- Collections that CreateCollection should have refused, and those that it does refuse.
use dattaniddhi.Prelude.{
  ℕ, ◌≤◌, ◌≡◌, ◌≢◌, ap, ◌∙◌, true, false, List, [], some, arith, if_true, ok, err, bytes_equal_refl,
}
use dattaniddhi.Floats.{Floats}
use dattaniddhi.Json.{Json}
use dattaniddhi.Index.{linear_index, new_index_config, create_index}
use dattaniddhi.Wal.Log.{Answers}
use dattaniddhi.Wal.Log.Steps.{NothingFails}
use dattaniddhi.Collection.{
  Collection, CollectionConfig, collection_already_exists, invalid_config, invalid_data_type,
  unsupported_index,
}
use dattaniddhi.Collection.Config.{
  ConfigJson, ConfigAnswers, CollectionDir, is_data_type, check_loaded, read_config, load_config,
}
use dattaniddhi.Collection.Lifecycle.{
  make_index, check_new, establish, create_collection, open_collection,
}
use dattaniddhi.Collection.Lifecycle.Opens.{ConfigGood, dir_of}
use dattaniddhi.Collection.Lifecycle.Creates.{
  ConfigLaws, versioned, no_collection, new_collection, create_collection-new, save_config-new,
  check_loaded-versioned,
}

check_loaded-unknown :
    (cfg : CollectionConfig)
    → check_new cfg ≡ ok tt
    → is_data_type cfg.data_type ≡ false
    → check_loaded cfg.name (versioned cfg) ≡ err (invalid_config invalid_data_type)
unfolding check_loaded check_new
check_loaded-unknown cfg checked unknown = ground (arith, bytes_equal_refl cfg.name)

make_index-unsupported :
    (cfg : CollectionConfig)
    → check_new cfg ≡ ok tt
    → cfg.index_type ≢ linear_index
    → make_index (versioned cfg) ≡ err unsupported_index
unfolding make_index check_new new_index_config create_index
make_index-unsupported cfg checked other = ground arith

module _ (floats : Floats) (json : Json) (config_json : ConfigJson) where
  -- CreateCollection on a path with a configuration file returns an error, whatever the operating
  -- system answers, and leaves the directory as it was.
  pub create_collection_exists :
      (os : ConfigAnswers) (os' : Answers) (cfg : CollectionConfig) (d : CollectionDir) (sp : ℕ)
      (file : List ℕ)
      → d.config_file ≡ some file
      → ((create_collection floats json config_json os os' cfg d sp).0 ≡ d)
        × ((c : Collection json.Value)
            → (create_collection floats json config_json os os' cfg d sp).1 ≢ ok c)
  unfolding create_collection
  create_collection_exists os os' cfg d sp file there = (ground arith, λ c. ground arith)

  module _ (laws : ConfigLaws config_json) (os os'' : ConfigAnswers) (os' os''' : Answers)
      (cfg : CollectionConfig) (sp sp' : ℕ) (good : ConfigGood os) (good'' : ConfigGood os'')
      (good' : NothingFails os') (low : 1 ≤ sp) (high : sp ≤ 3) (name_fits : laws.IsText cfg.name)
      (model_fits : laws.IsText cfg.model_name) where
    load_config-unknown :
        (file : List ℕ)
        → config_json.unmarshal file ≡ some (versioned cfg)
        → check_new cfg ≡ ok tt
        → is_data_type cfg.data_type ≡ false
        → load_config config_json os'' cfg.name
            (dir_of file (new_collection floats json config_json cfg sp))
          ≡ err (invalid_config invalid_data_type)
    unfolding load_config read_config
    load_config-unknown file reads checked unknown =
        rw (good''.stats, good''.reads, reads, check_loaded-unknown cfg checked unknown)

    -- A configuration with an unknown data type, valid else, is accepted by CreateCollection; but
    -- OpenCollection refuses the directory that it makes, although no call fails.
    pub create_collection-unopenable :
        check_new cfg ≡ ok tt
        → cfg.index_type ≡ linear_index
        → is_data_type cfg.data_type ≡ false
        → let d = (create_collection floats json config_json os os' cfg no_collection sp).0 in
          ((create_collection floats json config_json os os' cfg no_collection sp).1
            ≡ ok (new_collection floats json config_json cfg sp))
          × ((open_collection floats json config_json os'' os''' cfg.name d sp').1
              ≡ err (invalid_config invalid_data_type))
    unfolding open_collection
    create_collection-unopenable checked linear unknown =
        let (file, text, reads) = laws.written (versioned cfg) name_fits model_fits in
        let result =
          create_collection-new floats json config_json os os' cfg sp good good' low high file text
            checked linear in
        (
          ap (λ r. r.1) result,
          ap (λ r. (open_collection floats json config_json os'' os''' cfg.name r.0 sp').1) result
              ∙ (rw (open_collection, load_config-unknown file reads checked unknown)),
        )

    load_config-versioned :
        (file : List ℕ)
        → config_json.unmarshal file ≡ some (versioned cfg)
        → check_new cfg ≡ ok tt
        → is_data_type cfg.data_type ≡ true
        → load_config config_json os'' cfg.name (record { config_file = some file; wal_dir = [] })
          ≡ ok (versioned cfg)
    unfolding load_config read_config
    load_config-versioned file reads checked known =
        rw (good''.stats, good''.reads, reads, check_loaded-versioned cfg checked known)

    create_collection-stored :
        (file : List ℕ)
        → config_json.marshal_indent (versioned cfg) ≡ some file
        → check_new cfg ≡ ok tt
        → cfg.index_type ≢ linear_index
        → create_collection floats json config_json os os' cfg no_collection sp
          ≡ (record { config_file = some file; wal_dir = [] }, err unsupported_index)
    unfolding create_collection establish
    create_collection-stored file text checked other =
        let saves =
          save_config-new floats json config_json os os' cfg sp good good' low high file text in
        rw (create_collection, checked)
          (if_true _ _ good.stats
            ∙ (rw (
              establish,
              ap (λ t. t.1) saves,
              make_index-unsupported cfg checked other,
              ap (λ t. t.0) saves,
            )))

    -- A valid configuration for an index type that the factory does not know ends CreateCollection in
    -- the factory's panic, with the configuration file already written: OpenCollection on that
    -- directory ends in the same panic, and another CreateCollection finds the collection there.
    pub create_collection-unsupported :
        check_new cfg ≡ ok tt
        → is_data_type cfg.data_type ≡ true
        → cfg.index_type ≢ linear_index
        → let d = (create_collection floats json config_json os os' cfg no_collection sp).0 in
          ((create_collection floats json config_json os os' cfg no_collection sp).1
            ≡ err unsupported_index)
          × ((open_collection floats json config_json os'' os''' cfg.name d sp').1
              ≡ err unsupported_index)
          × ((create_collection floats json config_json os'' os''' cfg d sp').1
              ≡ err collection_already_exists)
    unfolding open_collection create_collection
    create_collection-unsupported checked known other =
        let (file, text, reads) = laws.written (versioned cfg) name_fits model_fits in
        let result = create_collection-stored file text checked other in
        (
          ap (λ r. r.1) result,
          ap (λ r. (open_collection floats json config_json os'' os''' cfg.name r.0 sp').1) result
              ∙ (rw (
                open_collection,
                load_config-versioned file reads checked known,
                make_index-unsupported cfg checked other,
              )),
          ap (λ r. (create_collection floats json config_json os'' os''' cfg r.0 sp').1) result
              ∙ (rw (create_collection, checked, good''.stats)),
        )
