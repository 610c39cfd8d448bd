-- ===== src/Collection/Unsynced/Examples.antt =====
-- Two inserts, the first with a sync that fails.
use dattaniddhi.Prelude.{ℕ, ◌≡◌, refl, false, [], ◌∷◌, arith, ok}
use dattaniddhi.Index.Examples.{naturals}
use dattaniddhi.Wal.Log.{Wal, Answers, sync_always}
use dattaniddhi.Wal.Log.Unsynced.{synced}
use dattaniddhi.Wal.Log.Steps.{NothingFails}
use dattaniddhi.Wal.Examples.{point, good, good-NothingFails, entry_one_fits}
use dattaniddhi.Wal.History.Examples.{point_fits_at, append_insert-seg_id}
use dattaniddhi.Collection.{Collection, insert_vector, validate_insert}
use dattaniddhi.Collection.Examples.{bytes, bytes_laws, ones, ones_built, config}
use dattaniddhi.Collection.Lifecycle.Creates.{new_collection, new_collection-Recoverable}
use dattaniddhi.Collection.Lifecycle.Examples.{numbers}
use dattaniddhi.Collection.Unsynced.{Unopenable, insert_vector-Unopenable}

abbrev unsynced : Answers
unsynced = record good { sync_ok = false }

unsynced-NothingFails : NothingFails (synced unsynced)
unsynced-NothingFails = record {
  closes = refl;
  creates = refl;
  writes_header = refl;
  writes_record = refl;
  syncs = refl;
}

abbrev careful : Collection ℕ
careful = new_collection naturals bytes numbers config sync_always

careful_valid :
    (w : Wal)
    → validate_insert naturals bytes (record careful { wal = w }) (0x3f800000 ∷ []) b'7'
      ≡ ok (ones, b'7' ∷ [])
unfolding validate_insert
careful_valid w = rw ones_built

insert_vector-Unopenable_example :
    Unopenable naturals bytes bytes_laws
      (insert_vector naturals bytes unsynced good careful (b'a' ∷ []) (0x3f800000 ∷ []) b'7')
      (b'a' ∷ [])
      (insert_vector naturals bytes good good
        (insert_vector naturals bytes unsynced good careful (b'a' ∷ []) (0x3f800000 ∷ []) b'7').0
        (b'a' ∷ [])
        (0x3f800000 ∷ [])
        b'7')
insert_vector-Unopenable_example =
    let seg = append_insert-seg_id (synced unsynced) careful.wal point in
    insert_vector-Unopenable naturals bytes bytes_laws unsynced good good careful
      (new_collection-Recoverable naturals bytes bytes_laws numbers config sync_always) refl refl
      unsynced-NothingFails good-NothingFails (omega arith) (omega arith) (b'a' ∷ [])
      (0x3f800000 ∷ []) (b'7' ∷ []) b'7' ones (careful_valid careful.wal) entry_one_fits
      (omega (arith, seg)) (b'a' ∷ []) (0x3f800000 ∷ []) (b'7' ∷ []) b'7' ones (careful_valid _)
      (point_fits_at _ (omega arith))
