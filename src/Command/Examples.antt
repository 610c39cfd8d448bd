-- ===== src/Command/Examples.antt =====
-- The command started on the directory of a collection with one vector.
use dattaniddhi.Prelude.{◌≡◌, refl, [], ◌∷◌, ok}
use dattaniddhi.Prelude.Maps.{bytes_eq, lookup}
use dattaniddhi.Index.Examples.{naturals}
use dattaniddhi.Wal.Examples.{good, good-NothingFails}
use dattaniddhi.Collection.{get_payload}
use dattaniddhi.Collection.Examples.{bytes, bytes_laws, one_vector, one_vector-Recoverable}
use dattaniddhi.Collection.Lifecycle.{check_new}
use dattaniddhi.Collection.Lifecycle.Creates.{no_collection}
use dattaniddhi.Collection.Lifecycle.Examples.{
  numbers, number_laws, all_right, all_right-ConfigGood, one_file, one_vector-Belongs,
}
use dattaniddhi.Collection.Lifecycle.Opens.{dir_of}
use dattaniddhi.Collection.Runs.{put, reopened, Faithful}
use dattaniddhi.Command.{command_config, start}
use dattaniddhi.Command.Restarts.{Serves, start_first, start_again}

command_checked : check_new (command_config (b'c' ∷ []) 1) ≡ ok tt
unfolding check_new
command_checked = refl

start_first_example :
    Serves naturals bytes bytes_laws numbers all_right good
      (b'c' ∷ [])
      1
      all_right-ConfigGood
      good-NothingFails
      command_checked
      []
      (start naturals bytes numbers all_right good (b'c' ∷ []) 1 no_collection)
start_first_example =
    start_first naturals bytes bytes_laws numbers all_right good (b'c' ∷ []) 1 all_right-ConfigGood
      good-NothingFails command_checked number_laws tt tt

one_vector-Faithful :
    Faithful naturals bytes numbers one_file bytes_laws (put (b'a' ∷ []) b'7' ∷ []) one_vector
unfolding get_payload lookup
one_vector-Faithful = record {
  recoverable = one_vector-Recoverable;
  belongs = one_vector-Belongs;
  answers = λ j. refl;
}

start_again_example :
    Serves naturals bytes bytes_laws numbers all_right good
      (b'c' ∷ [])
      1
      all_right-ConfigGood
      good-NothingFails
      command_checked
      (reopened ∷ (put (b'a' ∷ []) b'7' ∷ []))
      (start naturals bytes numbers all_right good (b'c' ∷ []) 1 (dir_of one_file one_vector))
start_again_example =
    start_again naturals bytes bytes_laws numbers all_right good (b'c' ∷ []) 1 all_right-ConfigGood
      good-NothingFails command_checked one_file one_vector (put (b'a' ∷ []) b'7' ∷ [])
      one_vector-Faithful refl
