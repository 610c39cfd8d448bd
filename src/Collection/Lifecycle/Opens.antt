-- ===== src/Collection/Lifecycle/Opens.antt =====
-- OpenCollection on the directory of a collection.
use dattaniddhi.Prelude.{ℕ, ◌≤◌, ◌≡◌, refl, ap, ◌∙◌, sym, true, List, [], ◌∷◌, some, ok}
use dattaniddhi.Prelude.Maps.{bytes_eq, Map, map_values}
use dattaniddhi.Floats.{Floats}
use dattaniddhi.Json.{Json, JsonLaws}
use dattaniddhi.Wal.Log.{Wal, Answers}
use dattaniddhi.Wal.Open.{new_wal, recover}
use dattaniddhi.Wal.History.Reopens.{Reopened, new_wal-Reopened}
use dattaniddhi.Collection.{Collection}
use dattaniddhi.Collection.Config.{
  ConfigJson, ConfigAnswers, CollectionDir, saved, check_loaded, read_config, load_config,
}
use dattaniddhi.Collection.Replay.{as_stored}
use dattaniddhi.Collection.Recoverable.{Recoverable, load_state-Recoverable}
use dattaniddhi.Collection.Lifecycle.{make_index, attach, load_attached, open_collection}

-- No call on the configuration file fails.
pub record ConfigGood (os : ConfigAnswers) : Type 0 where
  pub stats : os.stat_ok ≡ true
  pub makes : os.mkdir_ok ≡ true
  pub writes : os.config_write ≡ saved
  pub reads : os.read_ok ≡ true

-- The directory of a collection whose configuration file is `file`.
abbrev pub dir_of : {P : Type 0} → List ℕ → Collection P → CollectionDir
dir_of file c = record { config_file = some file; wal_dir = c.wal.dir }

module _ (floats : Floats) (json : Json) (laws : JsonLaws json) (config_json : ConfigJson) where
  -- `file` is the text of the collection's configuration, which passes the checks of a file that is
  -- loaded, and asks for the index that the collection has.
  pub record Belongs (file : List ℕ) (c : Collection json.Value) : Type 0 where
    pub reads : config_json.unmarshal file ≡ some c.config
    pub checks : check_loaded c.config.name c.config ≡ ok c.config
    pub index_is :
        make_index c.config ≡ ok (record { vectors = []; config = c.memory.index.config })

  map_values_stored :
      (m : Map (List ℕ) json.Value)
      → map_values laws.stored (map_values laws.stored m) ≡ map_values laws.stored m
  map_values_stored [] = refl
  map_values_stored ((k, v) ∷ m) = rw (laws.stored_stored v, map_values_stored m)

  -- The collection that OpenCollection returned: the configuration, the memory as JSON stores it, and
  -- a WAL on the same directory.
  pub record Opened (file : List ℕ) (c c' : Collection json.Value) : Type 0 where
    pub config_is : c'.config ≡ c.config
    pub memory_is : c'.memory ≡ as_stored floats json laws c.memory
    pub dir_is : c'.wal.dir ≡ c.wal.dir
    pub recoverable : Recoverable floats json laws c'
    pub belongs : Belongs file c'

  module _ (file : List ℕ) (c : Collection json.Value) (b : Belongs file c)
      (r : Recoverable floats json laws c) where
    abbrev with_wal : Wal → Collection json.Value
    with_wal v = record { config = c.config; memory = as_stored floats json laws c.memory; wal = v }

    with_wal-Opened :
        (sp : ℕ) (v : Wal) → Reopened c.wal r.old r.current sp v → Opened file c (with_wal v)
    with_wal-Opened sp v o = record {
      config_is = refl;
      memory_is = refl;
      dir_is = o.dir_is;
      recoverable = record {
        old = r.old;
        current = r.current;
        holds = o.holds;
        records = r.records;
        recovered = ap recover o.dir_is ∙ r.recovered;
        read_back_is =
            r.read_back_is
            ∙ ap (λ p. ok (record (as_stored floats json laws c.memory) { payload = p }))
                (sym (map_values_stored c.memory.payload));
        index_dimension = r.index_dimension;
        index_ids = r.index_ids;
        known_ids = r.known_ids;
        counter_fits = r.counter_fits;
      };
      belongs = record { reads = b.reads; checks = b.checks; index_is = b.index_is };
    }

    load_config-Belongs :
        (os : ConfigAnswers)
        → ConfigGood os
        → load_config config_json os c.config.name (dir_of file c) ≡ ok c.config
    unfolding load_config read_config
    load_config-Belongs os good = rw (good.stats, good.reads, b.reads, b.checks)

    attach-Belongs :
        (os : Answers) (sp : ℕ) (v : Wal)
        → new_wal os c.wal.dir sp ≡ (ok v, c.wal.dir)
        → v.dir ≡ c.wal.dir
        → load_attached floats json config_json (
            attach floats json config_json os c.config
              (record { vectors = []; config = c.memory.index.config })
              (dir_of file c)
              sp)
          ≡ (dir_of file c, ok (with_wal v))
    unfolding attach load_attached
    attach-Belongs os sp v opened same =
        rw (opened, load_state-Recoverable floats json laws c v r same)

    -- OpenCollection, on the directory of a recoverable collection and with no failing call, returns a
    -- collection with the same configuration, index, counter and maps, each payload as JSON stores it;
    -- it leaves the directory as it was, and the collection it returns is recoverable again.
    pub open_collection-Opened :
        (os : ConfigAnswers) (os' : Answers) (sp : ℕ)
        → ConfigGood os
        → 1 ≤ sp
        → sp ≤ 3
        → (c' : Collection json.Value) × (open_collection floats json config_json os os'
              c.config.name
              (dir_of file c)
              sp
            ≡ (dir_of file c, ok c'))
          × Opened file c c'
    unfolding open_collection
    open_collection-Opened os os' sp good low high =
        let (v, opened, o) = new_wal-Reopened c.wal r.old r.current r.holds sp os' low high in
        (
          with_wal v,
          rw (open_collection, load_config-Belongs os good, b.index_is)
              (attach-Belongs os' sp v opened o.dir_is),
          with_wal-Opened sp v o,
        )
