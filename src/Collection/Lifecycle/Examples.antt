-- ===== src/Collection/Lifecycle/Examples.antt =====
-- Creation, opening and whole runs at concrete inputs.
use dattaniddhi.Prelude.{
  ℕ, ◌≡◌, ◌≢◌, refl, true, List, [], ◌∷◌, ◌++◌, Option, none, some, arith, length, take, drop,
  take-append, drop-append, ok, err, bytes_equal,
}
use dattaniddhi.Prelude.Maps.{bytes_eq, nat_eq}
use dattaniddhi.Index.{hnsw_index, new_index_config, validate, new_linear_index, create_index}
use dattaniddhi.Index.Examples.{naturals, insertion_sort, library}
use dattaniddhi.Wal.Log.{Wal, sync_os}
use dattaniddhi.Wal.Open.{new_wal}
use dattaniddhi.Wal.Examples.{good, good-NothingFails}
use dattaniddhi.Wal.History.Reopens.{Reopened, new_wal-Reopened}
use dattaniddhi.Collection.{
  CollectionConfig, Collection, collection_already_exists, invalid_config, invalid_data_type,
  unsupported_index,
}
use dattaniddhi.Collection.Examples.{
  bytes, bytes_laws, ones, ones_built, config, one_vector, one_vector-Recoverable,
  one_vector-Matched, one_wal, one_wal-Holds, one_segment,
}
use dattaniddhi.Collection.Config.{ConfigJson, ConfigAnswers, saved, check_loaded}
use dattaniddhi.Collection.Lifecycle.{make_index, check_new, create_collection, open_collection}
use dattaniddhi.Collection.Lifecycle.Creates.{
  ConfigLaws, no_collection, new_collection, Created, create_collection-Created,
}
use dattaniddhi.Collection.Lifecycle.Opens.{
  ConfigGood, dir_of, Belongs, Opened, open_collection-Opened,
}
use dattaniddhi.Collection.Lifecycle.Refusals.{
  create_collection_exists, create_collection-unopenable, create_collection-unsupported,
}
use dattaniddhi.Collection.Search.{search_vectors}
use dattaniddhi.Collection.Search.Named.{NamedBest, search_vectors-NamedBest}

-- Numbers in the place of the text of a configuration.
abbrev pub write_config : CollectionConfig → List ℕ
write_config c =
    length c.name
    ∷ (c.dimension
        ∷ (c.metric ∷ (c.index_type ∷ (c.data_type ∷ (c.version ∷ (c.name ++ c.model_name))))))

abbrev pub read_text : List ℕ → Option CollectionConfig
read_text (n ∷ (d ∷ (m ∷ (i ∷ (t ∷ (v ∷ names)))))) = some (record {
  name = take n names;
  dimension = d;
  metric = m;
  index_type = i;
  data_type = t;
  model_name = drop n names;
  version = v;
})
read_text other = none

abbrev pub numbers : ConfigJson
numbers = record { marshal_indent = λ c. some (write_config c); unmarshal = read_text }

pub read_text-write_config : (c : CollectionConfig) → read_text (write_config c) ≡ some c
read_text-write_config c = rw (take-append, drop-append)

abbrev pub number_laws : ConfigLaws numbers
number_laws = record {
  IsText = λ name. Unit {0};
  written = λ c name_fits model_fits. (write_config c, refl, read_text-write_config c);
}

abbrev pub all_right : ConfigAnswers
all_right = record { stat_ok = true; mkdir_ok = true; config_write = saved; read_ok = true }

pub all_right-ConfigGood : ConfigGood all_right
all_right-ConfigGood = record { stats = refl; makes = refl; writes = refl; reads = refl }

pub config_checked : check_new config ≡ ok tt
unfolding check_new
config_checked = refl

create_collection-Created_example :
    Created naturals bytes bytes_laws numbers config
      (create_collection naturals bytes numbers all_right good config no_collection sync_os)
create_collection-Created_example =
    create_collection-Created naturals bytes bytes_laws numbers all_right good config sync_os
      all_right-ConfigGood good-NothingFails (omega arith) (omega arith) number_laws config_checked
      refl refl tt tt

new_wal-Reopened_example :
    (v : Wal) × (new_wal good one_wal.dir sync_os ≡ (ok v, one_wal.dir))
    × Reopened one_wal [] one_segment sync_os v
new_wal-Reopened_example =
    new_wal-Reopened one_wal [] one_segment one_wal-Holds sync_os good (omega arith) (omega arith)

-- The configuration file of `one_vector`.
abbrev pub one_file : List ℕ
one_file = write_config one_vector.config

pub one_vector-Belongs : Belongs naturals bytes bytes_laws numbers one_file one_vector
unfolding check_loaded make_index new_index_config validate new_linear_index create_index
    bytes_equal
one_vector-Belongs = record { reads = refl; checks = refl; index_is = refl }

open_collection-Opened_example :
    (c' : Collection ℕ) × (open_collection naturals bytes numbers all_right good
        (b'c' ∷ [])
        (dir_of one_file one_vector)
        sync_os
      ≡ (dir_of one_file one_vector, ok c'))
    × Opened naturals bytes bytes_laws numbers one_file one_vector c'
open_collection-Opened_example =
    open_collection-Opened naturals bytes bytes_laws numbers one_file one_vector one_vector-Belongs
      one_vector-Recoverable all_right good sync_os all_right-ConfigGood (omega arith) (omega arith)

create_collection_exists_example :
    ((create_collection naturals bytes numbers all_right good config
        (dir_of one_file one_vector)
        sync_os).0
      ≡ dir_of one_file one_vector)
    × ((c : Collection ℕ)
        → (create_collection naturals bytes numbers all_right good config
            (dir_of one_file one_vector)
            sync_os).1
          ≢ ok c)
create_collection_exists_example =
    create_collection_exists naturals bytes numbers all_right good config
      (dir_of one_file one_vector) sync_os one_file refl

search_vectors-NamedBest_example :
    NamedBest naturals bytes
      (λ m. m)
      insertion_sort
      one_vector
      ones
      1
      (search_vectors naturals bytes (λ m. m) insertion_sort one_vector (0x3f800000 ∷ []) 1)
search_vectors-NamedBest_example =
    search_vectors-NamedBest naturals bytes (λ m. m) insertion_sort library one_vector
      one_vector-Matched refl refl (refl, tt) (omega arith) (omega arith) (0x3f800000 ∷ []) ones 1
      ones_built (omega arith) (omega arith)

-- A data type that is none of the four, and an index type without an implementation.
abbrev odd_config : CollectionConfig
odd_config = record config { data_type = 9 }

odd_config_checked : check_new odd_config ≡ ok tt
unfolding check_new
odd_config_checked = refl

create_collection-unopenable_example :
    ((create_collection naturals bytes numbers all_right good odd_config no_collection sync_os).1
      ≡ ok (new_collection naturals bytes numbers odd_config sync_os))
    × ((open_collection naturals bytes numbers all_right good
          (b'c' ∷ [])
          (create_collection naturals bytes numbers all_right good odd_config no_collection
            sync_os).0
          sync_os).1
        ≡ err (invalid_config invalid_data_type))
create_collection-unopenable_example =
    create_collection-unopenable naturals bytes numbers number_laws all_right all_right good good
      odd_config sync_os sync_os all_right-ConfigGood all_right-ConfigGood good-NothingFails
      (omega arith) (omega arith) tt tt odd_config_checked refl refl

abbrev graph_config : CollectionConfig
graph_config = record config { index_type = hnsw_index }

graph_config_checked : check_new graph_config ≡ ok tt
unfolding check_new
graph_config_checked = refl

create_collection-unsupported_example :
    let d =
      (create_collection naturals bytes numbers all_right good graph_config no_collection
        sync_os).0 in
    ((create_collection naturals bytes numbers all_right good graph_config no_collection sync_os).1
      ≡ err unsupported_index)
    × ((open_collection naturals bytes numbers all_right good (b'c' ∷ []) d sync_os).1
        ≡ err unsupported_index)
    × ((create_collection naturals bytes numbers all_right good graph_config d sync_os).1
        ≡ err collection_already_exists)
create_collection-unsupported_example =
    create_collection-unsupported naturals bytes numbers number_laws all_right all_right good good
      graph_config sync_os sync_os all_right-ConfigGood all_right-ConfigGood good-NothingFails
      (omega arith) (omega arith) tt tt graph_config_checked refl (ground arith)
