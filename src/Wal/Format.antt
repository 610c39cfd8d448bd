-- ===== src/Wal/Format.antt =====
-- internal/store/wal/wal.go: the constants and the sync policies, and the errors of the package.
use dattaniddhi.Prelude.{ℕ, ◌*◌, List, [], ◌∷◌}

-- "SANGITA"
abbrev pub magic_bytes : List ℕ
magic_bytes = b'S' ∷ b'A' ∷ b'N' ∷ b'G' ∷ b'I' ∷ b'T' ∷ b'A' ∷ []

abbrev pub segment_header_byte_size : ℕ
segment_header_byte_size = 16

abbrev pub record_header_byte_size : ℕ
record_header_byte_size = 32

abbrev pub op_insert : ℕ
op_insert = 1

abbrev pub op_delete : ℕ
op_delete = 2

abbrev pub op_update : ℕ
op_update = 3

abbrev pub wal_version : ℕ
wal_version = 1

abbrev pub max_segment_file_size : ℕ
max_segment_file_size = 64 * 1024 * 1024

abbrev pub min_record_length : ℕ
min_record_length = 36

pub data SyncPolicy : Type 0 where
  sync_every_sec sync_always sync_os : SyncPolicy

-- One constructor for each message that the package returns.
pub data Error : Type 0 where
  incomplete_segment_header : Error
  invalid_segment_magic : Error
  invalid_segment_version : Error
  invalid_record_header_size : Error
  invalid_record_magic : Error
  unsupported_version : Error
  invalid_operation_type : Error
  record_too_small : Error
  record_too_large : Error
  incomplete_external_id_length : Error
  incomplete_external_id : Error
  incomplete_internal_id : Error
  incomplete_vector_size : Error
  incomplete_vector_values : Error
  incorrect_metadata_size : Error
  incomplete_metadata : Error
  incomplete_checksum : Error
  invalid_checksum : Error
  failed_to_read : Error
  failed_to_open : Error
  failed_to_create : Error
  failed_to_write : Error
  failed_to_sync : Error
  failed_to_close : Error
  failed_to_parse_segment_id : Error
  invalid_sync_policy : Error
  -- No Go value: a loop of the model ran out of fuel.
  out_of_fuel : Error
