-- ===== src/Collection/Runs/Examples.antt =====
-- A collection that was created, inserts, and reopenings, at concrete inputs.
use dattaniddhi.Prelude.{
  ℕ, ◌≡◌, refl, ap, subst, sym, subst, sym, [], ◌∷◌, some, arith, length, ok, bytes_equal,
}
use dattaniddhi.Prelude.Maps.{lookup, bytes_eq, nat_eq, insert}
use dattaniddhi.Index.Examples.{naturals, insertion_sort, library}
use dattaniddhi.Vector.{new_vector}
use dattaniddhi.Wal.Log.{Answers, sync_os}
use dattaniddhi.Wal.Examples.{good, good-NothingFails, entry_one_fits}
use dattaniddhi.Collection.{get_payload, Collection, validate_insert, insert_vector}
use dattaniddhi.Collection.Examples.{bytes, bytes_laws, ones, ones_built, config}
use dattaniddhi.Collection.Lifecycle.{create_collection, open_collection}
use dattaniddhi.Collection.Lifecycle.Creates.{
  index_config_of, no_collection, versioned, new_collection, new_collection-Recoverable,
  make_index-linear, check_loaded-versioned, create_collection-new, Created,
}
use dattaniddhi.Collection.Lifecycle.Opens.{dir_of, Opened, open_collection-Opened}
use dattaniddhi.Collection.Lifecycle.Examples.{
  read_text-write_config, numbers, all_right, all_right-ConfigGood, config_checked, one_file,
}
use dattaniddhi.Collection.Runs.Searches.{Run-NamedBest}
use dattaniddhi.Collection.Matched.{insert_vector-remember}
use dattaniddhi.Collection.Recoverable.Inserts.{Inserted, insert_vector-Recoverable}
use dattaniddhi.Collection.Runs.Attempts.{Attempt, attempt_all, Consistent, attempt_all-Consistent}
use dattaniddhi.Collection.Runs.Ready.{fresh_memory-Ready}
use dattaniddhi.Wal.Disk.{short}
use dattaniddhi.Collection.Runs.{answer, put, reopened, Step, Run, Faithful}
use dattaniddhi.Collection.Runs.Keeps.{Run-Faithful_created, Run-reopens}
use dattaniddhi.Collection.Search.{search_vectors}
use dattaniddhi.Collection.Search.Named.{NamedBest}

-- A collection that was created, its first insert, and a reopening.
made : create_collection naturals bytes numbers all_right good config no_collection sync_os ≡ (
  dir_of one_file (new_collection naturals bytes numbers config sync_os),
  ok (new_collection naturals bytes numbers config sync_os),
)
made =
    create_collection-new naturals bytes numbers all_right good config sync_os all_right-ConfigGood
      good-NothingFails (omega arith) (omega arith) one_file refl config_checked refl

abbrev fresh :
    Created naturals bytes bytes_laws numbers config
      (create_collection naturals bytes numbers all_right good config no_collection sync_os)
fresh = record {
  created = new_collection naturals bytes numbers config sync_os;
  result_is = ap (λ r. r.1) made;
  file = one_file;
  dir_is = ap (λ r. r.0) made;
  config_is = refl;
  memory_is = refl;
  recoverable = new_collection-Recoverable naturals bytes bytes_laws numbers config sync_os;
  belongs = record {
    reads = read_text-write_config (versioned config);
    checks = check_loaded-versioned config config_checked refl;
    index_is = make_index-linear config config_checked refl;
  };
}

fresh_valid :
    validate_insert naturals bytes fresh.created (0x3f800000 ∷ []) b'7' ≡ ok (ones, b'7' ∷ [])
unfolding validate_insert
fresh_valid = rw ones_built

abbrev with_one : Collection ℕ
with_one =
    (insert_vector naturals bytes good good fresh.created (b'a' ∷ []) (0x3f800000 ∷ []) b'7').0

with_one-Run :
    Run naturals bytes numbers one_file fresh.created (put (b'a' ∷ []) b'7' ∷ []) with_one
with_one-Run = Run.later Run.here (
    Step.insert good good (b'a' ∷ []) (0x3f800000 ∷ []) (b'7' ∷ []) b'7' ones good-NothingFails
      (omega arith) (omega arith) fresh_valid entry_one_fits)

with_one-Faithful :
    Faithful naturals bytes numbers one_file bytes_laws (put (b'a' ∷ []) b'7' ∷ []) with_one
with_one-Faithful = Run-Faithful_created naturals bytes bytes_laws numbers fresh with_one-Run

abbrev opened_again :
    (c' : Collection ℕ) × (open_collection naturals bytes numbers all_right good
        with_one.config.name
        (dir_of one_file with_one)
        sync_os
      ≡ (dir_of one_file with_one, ok c'))
    × Opened naturals bytes bytes_laws numbers one_file with_one c'
opened_again =
    open_collection-Opened naturals bytes bytes_laws numbers one_file with_one
      with_one-Faithful.belongs with_one-Faithful.recoverable all_right good sync_os
      all_right-ConfigGood (omega arith) (omega arith)

Run-Faithful_created_example :
    Faithful naturals bytes numbers one_file bytes_laws
      (reopened ∷ (put (b'a' ∷ []) b'7' ∷ []))
      opened_again.0
Run-Faithful_created_example = Run-Faithful_created naturals bytes bytes_laws numbers fresh (
    Run.later with_one-Run (
      Step.reopen all_right good sync_os opened_again.0 all_right-ConfigGood (omega arith)
        (omega arith) (ap (λ r. r.1) opened_again.1)))

Run-reopens_example :
    (d : Collection ℕ) × ((open_collection naturals bytes numbers all_right good
        with_one.config.name
        (dir_of one_file with_one)
        sync_os).1
      ≡ ok d)
    × (d.config ≡ with_one.config)
    × Faithful naturals bytes numbers one_file bytes_laws (reopened ∷ (put (b'a' ∷ []) b'7' ∷ [])) d
Run-reopens_example =
    Run-reopens naturals bytes bytes_laws numbers fresh all_right good sync_os with_one-Run
      all_right-ConfigGood (omega arith) (omega arith)

with_one_answer : answer bytes_laws.stored (put (b'a' ∷ []) b'7' ∷ []) (b'a' ∷ []) ≡ some b'7'
unfolding bytes_equal
with_one_answer = refl

with_one-Inserted :
    Inserted naturals bytes bytes_laws fresh.created
      (b'a' ∷ [])
      b'7'
      (insert_vector naturals bytes good good fresh.created (b'a' ∷ []) (0x3f800000 ∷ []) b'7')
with_one-Inserted =
    insert_vector-Recoverable naturals bytes bytes_laws good good fresh.created fresh.recoverable
      good-NothingFails (omega (arith, fresh.recoverable.holds.seg_id_is)) (omega arith) (b'a' ∷ [])
      (0x3f800000 ∷ []) (b'7' ∷ []) b'7' ones fresh_valid entry_one_fits

with_one_few : length with_one.memory.index.vectors ≡ 1
unfolding insert
with_one_few =
    let (v, built, memory_is) =
      insert_vector-remember naturals bytes good good fresh.created (b'a' ∷ []) (0x3f800000 ∷ [])
        b'7' (b'a' ∷ []) with_one-Inserted.result_is in
    ap (λ m. length m.index.vectors) memory_is

-- A search finds the vector under its identifier.
Run-NamedBest_example :
    NamedBest naturals bytes
      (λ m. m)
      insertion_sort
      with_one
      ones
      1
      (search_vectors naturals bytes (λ m. m) insertion_sort with_one (0x3f800000 ∷ []) 1)
Run-NamedBest_example =
    Run-NamedBest naturals bytes bytes_laws numbers fresh (λ m. m) insertion_sort library
      with_one-Run (refl, tt) (b'a' ∷ []) b'7' with_one_answer (omega (arith, with_one_few))
      (0x3f800000 ∷ []) ones 1
      (subst (λ c. new_vector naturals (0x3f800000 ∷ []) c.dimension ≡ ok ones)
        (sym with_one-Inserted.config_is) ones_built)
      (omega arith) (omega arith)

abbrev full_disk : Answers
full_disk = record good { record_write = short 0 }

fresh-Consistent : Consistent naturals bytes (fresh.created, [])
unfolding get_payload lookup
fresh-Consistent = record {
  ready = fresh_memory-Ready (index_config_of config);
  same_dimension = refl;
  answers = λ j. refl;
}

-- An insert that meets a full disk, and a delete of what was not inserted.
attempt_all-Consistent_example : Consistent naturals bytes (
    attempt_all naturals bytes
      (Attempt.insert full_disk good (b'a' ∷ []) (0x3f800000 ∷ []) b'7'
        ∷ (Attempt.delete good (b'a' ∷ []) ∷ []))
      (fresh.created, []))
attempt_all-Consistent_example =
    attempt_all-Consistent naturals bytes
      (Attempt.insert full_disk good (b'a' ∷ []) (0x3f800000 ∷ []) b'7'
        ∷ (Attempt.delete good (b'a' ∷ []) ∷ []))
      fresh.created [] fresh-Consistent (refl, tt) (omega arith)
