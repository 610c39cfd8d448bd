-- ===== src/Collection/Recoverable/Examples.antt =====
-- Delete, LoadState and operations that fail, at a collection with one vector.
use dattaniddhi.Prelude.{ℕ, List, ◌≡◌, refl, [], ◌∷◌, bytes_equal, some, arith, ok, err}
use dattaniddhi.Prelude.Maps.{nat_eq, bytes_eq, lookup}
use dattaniddhi.Index.Examples.{naturals}
use dattaniddhi.Wal.Examples.{good, good-NothingFails, entry_two_fits, entry_one}
use dattaniddhi.Wal.Open.{recover}
use dattaniddhi.Wal.Scanner.{DecodedRecord}
use dattaniddhi.Collection.LastWord.{AnswersAs, load_state-AnswersAs}
use dattaniddhi.Collection.Reloads.{load_state_again}
use dattaniddhi.Wal.Scanner.Entry.{decoded}
use dattaniddhi.Collection.{Collection, internal_id_collision, delete_vector, load_state}
use dattaniddhi.Collection.Recoverable.{fresh_memory, load_state-Recoverable}
use dattaniddhi.Collection.Recoverable.Deletes.{Deleted, delete_vector-Recoverable}
use dattaniddhi.Collection.Examples.{
  bytes, bytes_laws, config, index_config, one_wal, one_vector, one_vector-Recoverable,
}

one_known : lookup (b'a' ∷ []) one_vector.memory.ext_to_int ≡ some 1
unfolding lookup bytes_equal
one_known = refl

delete_vector-Recoverable_example :
    Deleted naturals bytes bytes_laws one_vector
      (b'a' ∷ [])
      (delete_vector naturals bytes good one_vector (b'a' ∷ []))
delete_vector-Recoverable_example =
    delete_vector-Recoverable naturals bytes bytes_laws good one_vector one_vector-Recoverable
      good-NothingFails (omega arith) (b'a' ∷ []) 1 one_known entry_two_fits

abbrev unloaded : Collection ℕ
unloaded = record { config = config; memory = fresh_memory index_config; wal = one_wal }

load_state-AnswersAs_example :
    (rs : List DecodedRecord) × (recover one_wal.dir ≡ ok rs)
    × AnswersAs naturals bytes one_vector rs
load_state-AnswersAs_example = load_state-AnswersAs naturals bytes unloaded one_vector (
    load_state-Recoverable naturals bytes bytes_laws one_vector one_wal one_vector-Recoverable refl)

load_state_again_example : load_state naturals bytes one_vector ≡ err internal_id_collision
load_state_again_example =
    load_state_again naturals bytes unloaded one_vector (decoded entry_one) []
      (load_state-Recoverable naturals bytes bytes_laws one_vector one_wal one_vector-Recoverable
        refl)
      one_vector-Recoverable.recovered refl tt
