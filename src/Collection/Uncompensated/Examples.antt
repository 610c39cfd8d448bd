-- ===== src/Collection/Uncompensated/Examples.antt =====
-- An Insert on a collection whose ids are used up.
use dattaniddhi.Prelude.{
  ℕ, ◌≤◌, ◌≡◌, refl, List, [], ◌∷◌, ◌++◌, none, some, arith, length, length-append, inl, ok,
}
use dattaniddhi.Prelude.Maps.{nat_eq, bytes_eq, lookup, delete as delete_key}
use dattaniddhi.Index.{remove}
use dattaniddhi.Index.Examples.{naturals}
use dattaniddhi.Wal.Bytes.{IsU64}
use dattaniddhi.Wal.Log.{Wal, opened, next_lsn}
use dattaniddhi.Wal.Payload.{InsertPayload, DeletePayload}
use dattaniddhi.Wal.Payload.Layout.{length-encode_insert, length-encode_delete}
use dattaniddhi.Wal.Scanner.Crash.{length-segment_bytes}
use dattaniddhi.Wal.Scanner.Entry.{
  Entry, insert, delete, decoded, entry_bytes, entries_bytes, EntryFits,
}
use dattaniddhi.Wal.Scanner.Rounds.{length-entry_bytes}
use dattaniddhi.Wal.History.{SegmentLog, content_of, file_of}
use dattaniddhi.Wal.History.Appends.{Holds}
use dattaniddhi.Wal.History.Durable.{recover-Holds}
use dattaniddhi.Wal.History.Examples.{append_insert-seg_id, append_insert-lsn}
use dattaniddhi.Wal.Examples.{good, good-NothingFails, wal}
use dattaniddhi.Collection.{
  Collection, logged, insert_vector, validate_insert, replay, replay_record,
}
use dattaniddhi.Collection.Examples.{bytes, bytes_laws, ones, ones_built, config, no_vectors}
use dattaniddhi.Collection.Recoverable.{read_back, Recoverable}
use dattaniddhi.Collection.Uncompensated.{Uncompensated, insert_vector-Uncompensated}

-- The last id was given to a point that is gone again.
abbrev last_point : DeletePayload
last_point = record { external_id = b'a' ∷ []; internal_id = 9223372036854775807 }

abbrev last_entry : Entry
last_entry = delete 1 last_point

delete-EntryFits :
    (n id : ℕ)
    → IsU64 n
    → IsU64 id
    → EntryFits (delete n (record { external_id = b'a' ∷ []; internal_id = id }))
delete-EntryFits n id h h' = record {
  payload_fits = omega (arith, h');
  lsn_fits = h;
  record_fits = omega (
    arith,
    length-entry_bytes (delete n (record { external_id = b'a' ∷ []; internal_id = id })),
    length-encode_delete (record { external_id = b'a' ∷ []; internal_id = id }),
  );
}

last-EntryFits : EntryFits last_entry
last-EntryFits = delete-EntryFits 1 9223372036854775807 (omega arith) (omega arith)

abbrev last_segment : SegmentLog
last_segment = record { id = 1; entries = last_entry ∷ []; tail = [] }

abbrev last_wal : Wal
last_wal = record wal {
  dir = file_of last_segment ∷ [];
  active_segment = record {
    seg_id = 1;
    file = opened;
    current_size = length (content_of last_segment);
  };
  lsn = 1;
}

last_wal-Holds : Holds last_wal [] last_segment
last_wal-Holds = record {
  dir_is = refl;
  old_fit = tt;
  current_fits = record {
    id_fits = omega arith;
    entries_fit = (last-EntryFits, tt);
    tail_clean = inl refl;
  };
  ascending = tt;
  older = tt;
  untorn = refl;
  active_is = refl;
  seg_id_is = refl;
  bounded = omega (
    arith,
    length-segment_bytes 1 (entries_bytes (last_entry ∷ []) ++ []),
    length-append (entries_bytes (last_entry ∷ [])) [],
    length-append (entry_bytes last_entry) [],
    last-EntryFits.record_fits,
  );
}

abbrev used_up : Collection ℕ
used_up = record {
  config = config;
  memory = record no_vectors.memory { id_counter = 9223372036854775807 };
  wal = last_wal;
}

no_ids :
    (ext : List ℕ) (id : ℕ)
    → lookup ext used_up.memory.ext_to_int ≡ some id
    → id ≤ 9223372036854775807
unfolding lookup
no_ids ext id h = ground arith

no_index : (id : ℕ) → lookup id used_up.memory.index.vectors ≡ none
unfolding lookup
no_index id = refl

one_record :
    read_back naturals bytes bytes_laws used_up (decoded last_entry ∷ []) ≡ ok used_up.memory
unfolding replay replay_record delete_key remove
one_record = refl

used_up-Recoverable : Recoverable naturals bytes bytes_laws used_up
used_up-Recoverable = record {
  old = [];
  current = last_segment;
  holds = last_wal-Holds;
  records = decoded last_entry ∷ [];
  recovered = recover-Holds last_wal [] last_segment last_wal-Holds;
  read_back_is = one_record;
  index_dimension = refl;
  index_ids = λ id h. no_index id;
  known_ids = no_ids;
  counter_fits = omega arith;
}

ones_valid : validate_insert naturals bytes used_up (0x3f800000 ∷ []) b'7' ≡ ok (ones, b'7' ∷ [])
unfolding validate_insert
ones_valid = rw ones_built

abbrev next_point : InsertPayload
next_point = logged naturals bytes used_up (b'a' ∷ []) (0x3f800000 ∷ []) (b'7' ∷ [])

next-EntryFits : EntryFits (insert (next_lsn last_wal) next_point)
next-EntryFits = record {
  payload_fits = omega arith;
  lsn_fits = omega arith;
  record_fits = omega (
    arith,
    length-entry_bytes (insert (next_lsn last_wal) next_point),
    length-encode_insert next_point,
  );
}

insert_vector-Uncompensated_example :
    Uncompensated naturals bytes bytes_laws used_up
      (b'a' ∷ [])
      (0x3f800000 ∷ [])
      (b'7' ∷ [])
      (insert_vector naturals bytes good good used_up (b'a' ∷ []) (0x3f800000 ∷ []) b'7')
insert_vector-Uncompensated_example =
    let seg = append_insert-seg_id good last_wal next_point in
    let lsn = append_insert-lsn good last_wal next_point in
    insert_vector-Uncompensated naturals bytes bytes_laws good good used_up used_up-Recoverable
      good-NothingFails good-NothingFails (omega arith) refl (b'a' ∷ []) (0x3f800000 ∷ [])
      (b'7' ∷ []) b'7' ones ones_valid next-EntryFits (omega (arith, seg))
      (delete-EntryFits _ _ (omega (arith, lsn)) (omega arith))
