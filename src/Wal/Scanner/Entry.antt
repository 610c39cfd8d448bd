-- ===== src/Wal/Scanner/Entry.antt =====
-- A log entry: what AppendInsert or AppendDelete writes, and what the scanner makes of it.
use dattaniddhi.Prelude.{ℕ, ◌≤◌, List, [], ◌∷◌, ◌++◌, length}
use dattaniddhi.Wal.Bytes.{IsU64}
use dattaniddhi.Wal.Format.{op_insert, op_delete, wal_version, max_segment_file_size}
use dattaniddhi.Wal.Header.{new_record_header}
use dattaniddhi.Wal.Payload.{InsertPayload, DeletePayload, encode_insert, encode_delete}
use dattaniddhi.Wal.Payload.RoundTrip.{InsertFits, DeleteFits}
use dattaniddhi.Wal.Record.{new_record_wrapper, encode_record}
use dattaniddhi.Wal.Scanner.{DecodedRecord}

pub data Entry : Type 0 where
  insert : ℕ → InsertPayload → Entry
  delete : ℕ → DeletePayload → Entry

abbrev pub lsn_of : Entry → ℕ
lsn_of (insert lsn ip) = lsn
lsn_of (delete lsn dp) = lsn

abbrev pub op_of : Entry → ℕ
op_of (insert lsn ip) = op_insert
op_of (delete lsn dp) = op_delete

abbrev pub payload_of : Entry → List ℕ
payload_of (insert lsn ip) = encode_insert ip
payload_of (delete lsn dp) = encode_delete dp

-- The record that is appended for an entry.
abbrev pub entry_bytes : Entry → List ℕ
entry_bytes e =
    encode_record
      (new_record_wrapper (new_record_header wal_version (lsn_of e) (op_of e)) (payload_of e))

abbrev pub entries_bytes : List Entry → List ℕ
entries_bytes [] = []
entries_bytes (e ∷ es) = entry_bytes e ++ entries_bytes es

-- What replay sees of an entry.
abbrev pub decoded : Entry → DecodedRecord
decoded (insert lsn ip) = record {
  lsn = lsn;
  op_type = op_insert;
  ext_id = ip.external_id;
  int_id = ip.internal_id;
  vector = ip.vector_data;
  meta_data = ip.meta_data;
}
decoded (delete lsn dp) = record {
  lsn = lsn;
  op_type = op_delete;
  ext_id = dp.external_id;
  int_id = dp.internal_id;
  vector = [];
  meta_data = [];
}

abbrev pub PayloadFits : Entry → Type 0
PayloadFits (insert lsn ip) = InsertFits ip
PayloadFits (delete lsn dp) = DeleteFits dp

-- The entry's numbers fit their fields, and its record is no longer than a segment may be.
pub record EntryFits (e : Entry) : Type 0 where
  pub payload_fits : PayloadFits e
  pub lsn_fits : IsU64 (lsn_of e)
  pub record_fits : length (entry_bytes e) ≤ max_segment_file_size
