-- ===== src/Collection/Examples.antt =====
-- A collection with one vector, and the theorems of Insert at it.
use dattaniddhi.Prelude.{
  ℕ, ◌<◌, ◌≤◌, ◌≡◌, refl, List, [], ◌∷◌, ◌++◌, bytes_equal→eq, bytes_equal_refl, Option, none, some,
  arith, length, length-append, inl, ok,
}
use dattaniddhi.Prelude.Maps.{nat_eq, bytes_eq, lookup, insert as insert_key}
use dattaniddhi.Json.{Json, JsonLaws}
use dattaniddhi.Vector.{Vector, new_vector, normalize, validate_values, magnitude}
use dattaniddhi.Index.{IndexConfig, linear_index, metric_cosine, add}
use dattaniddhi.Index.Examples.{naturals}
use dattaniddhi.Wal.Log.{Wal, opened}
use dattaniddhi.Wal.Scanner.Crash.{length-segment_bytes}
use dattaniddhi.Wal.Scanner.Entry.{decoded, entry_bytes, entries_bytes}
use dattaniddhi.Wal.History.{SegmentLog, content_of, file_of}
use dattaniddhi.Wal.History.Appends.{Holds}
use dattaniddhi.Wal.History.Durable.{recover-Holds}
use dattaniddhi.Wal.Examples.{
  good, good-NothingFails, wal, first_segment, wal-Holds, entry_one, entry_one_fits,
}
use dattaniddhi.Collection.{
  Collection, CollectionConfig, insert_vector, replay, replay_record, replay_insert, payload_data,
  validate_insert,
}
use dattaniddhi.Collection.Matched.{Matched}
use dattaniddhi.Collection.Recoverable.{fresh_memory, read_back, Recoverable}
use dattaniddhi.Collection.Recoverable.Inserts.{Inserted, insert_vector-Recoverable}

abbrev pub read_byte : List ℕ → Option ℕ
read_byte [] = none
read_byte (v ∷ vs) = some v

-- Payloads that are one byte each.
abbrev pub bytes : Json
bytes = record { Value = ℕ; null = 0; marshal = λ v. some (v ∷ []); unmarshal = read_byte }

abbrev pub bytes_laws : JsonLaws bytes
bytes_laws = record {
  stored = λ v. v;
  marshal_positive = λ v text h. ground arith;
  unmarshal-marshal = λ v text h. ground arith;
  stored_stored = λ v. refl;
}

abbrev pub ones : Vector
ones = record { values = 0x3f800000 ∷ []; dimensions = 1 }

pub ones_built : new_vector naturals (0x3f800000 ∷ []) 1 ≡ ok ones
unfolding new_vector normalize validate_values magnitude
ones_built = refl

abbrev pub index_config : IndexConfig
index_config = record { index_type = linear_index; metric = metric_cosine; dimension = 1 }

abbrev pub config : CollectionConfig
config = record {
  name = b'c' ∷ [];
  dimension = 1;
  metric = metric_cosine;
  index_type = linear_index;
  data_type = 1;
  model_name = [];
  version = 1;
}

abbrev pub no_vectors : Collection ℕ
no_vectors = record { config = config; memory = fresh_memory index_config; wal = wal }

no_ids : (ext : List ℕ) (id : ℕ) → lookup ext no_vectors.memory.ext_to_int ≡ some id → id ≤ 0
unfolding lookup
no_ids ext id h = ground arith

no_index : (id : ℕ) → lookup id no_vectors.memory.index.vectors ≡ none
unfolding lookup
no_index id = refl

no_records : read_back naturals bytes bytes_laws no_vectors [] ≡ ok no_vectors.memory
unfolding replay
no_records = refl

abbrev no_vectors-Recoverable : Recoverable naturals bytes bytes_laws no_vectors
no_vectors-Recoverable = record {
  old = [];
  current = first_segment;
  holds = wal-Holds;
  records = [];
  recovered = recover-Holds wal [] first_segment wal-Holds;
  read_back_is = no_records;
  index_dimension = refl;
  index_ids = λ id h. no_index id;
  known_ids = no_ids;
  counter_fits = omega arith;
}

pub ones_valid :
    validate_insert naturals bytes no_vectors (0x3f800000 ∷ []) b'7' ≡ ok (ones, b'7' ∷ [])
unfolding validate_insert
ones_valid = rw ones_built

insert_vector-Recoverable_example :
    Inserted naturals bytes bytes_laws no_vectors
      (b'a' ∷ [])
      b'7'
      (insert_vector naturals bytes good good no_vectors (b'a' ∷ []) (0x3f800000 ∷ []) b'7')
insert_vector-Recoverable_example =
    insert_vector-Recoverable naturals bytes bytes_laws good good no_vectors no_vectors-Recoverable
      good-NothingFails (omega arith) (omega arith) (b'a' ∷ []) (0x3f800000 ∷ []) (b'7' ∷ []) b'7'
      ones ones_valid entry_one_fits

-- The directory and the collection with one vector.
abbrev pub one_segment : SegmentLog
one_segment = record { id = 1; entries = entry_one ∷ []; tail = [] }

abbrev pub one_wal : Wal
one_wal = record wal {
  dir = file_of one_segment ∷ [];
  active_segment = record {
    seg_id = 1;
    file = opened;
    current_size = length (content_of one_segment);
  };
  lsn = 1;
}

pub one_wal-Holds : Holds one_wal [] one_segment
one_wal-Holds = record {
  dir_is = refl;
  old_fit = tt;
  current_fits = record {
    id_fits = omega arith;
    entries_fit = (entry_one_fits, tt);
    tail_clean = inl refl;
  };
  ascending = tt;
  older = tt;
  untorn = refl;
  active_is = refl;
  seg_id_is = refl;
  bounded = omega (
    arith,
    length-segment_bytes 1 (entries_bytes (entry_one ∷ []) ++ []),
    length-append (entries_bytes (entry_one ∷ [])) [],
    length-append (entry_bytes entry_one) [],
    entry_one_fits.record_fits,
  );
}

abbrev pub one_vector : Collection ℕ
one_vector = record {
  config = config;
  memory = record {
    index = record { vectors = (1, ones) ∷ []; config = index_config };
    id_counter = 1;
    ext_to_int = (b'a' ∷ [], 1) ∷ [];
    int_to_ext = (1, b'a' ∷ []) ∷ [];
    payload = (b'a' ∷ [], b'7') ∷ [];
  };
  wal = one_wal;
}

pub one_id : (ext : List ℕ) (id : ℕ) → lookup ext one_vector.memory.ext_to_int ≡ some id → id ≤ 1
unfolding lookup
one_id ext id h = ground arith

pub one_index : (id : ℕ) → 1 < id → lookup id one_vector.memory.index.vectors ≡ none
unfolding lookup
one_index id h = ground arith

pub one_record :
    read_back naturals bytes bytes_laws one_vector (decoded entry_one ∷ []) ≡ ok one_vector.memory
unfolding replay replay_record replay_insert payload_data add lookup insert_key
one_record = rw ones_built

abbrev pub one_vector-Recoverable : Recoverable naturals bytes bytes_laws one_vector
one_vector-Recoverable = record {
  old = [];
  current = one_segment;
  holds = one_wal-Holds;
  records = decoded entry_one ∷ [];
  recovered = recover-Holds one_wal [] one_segment one_wal-Holds;
  read_back_is = one_record;
  index_dimension = refl;
  index_ids = one_index;
  known_ids = one_id;
  counter_fits = omega arith;
}

pub one_vector-Matched : Matched one_vector.memory
unfolding lookup
one_vector-Matched = record {
  to_ext = λ ext id h. ground (arith, bytes_equal→eq (b'a' ∷ []) ext);
  to_int = λ ext id h. ground (arith, bytes_equal_refl (b'a' ∷ []));
  counted = λ ext id h. ground arith;
  not_indexed = λ id h. ground arith;
  indexed = λ id h. ground arith;
  no_payload = λ ext h. ground arith;
  has_payload = λ ext h. ground arith;
}
