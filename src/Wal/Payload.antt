-- ===== src/Wal/Payload.antt =====
-- internal/store/wal/payload_ops.go, and the payload decoders of decoder.go.
-- A Go string and a []byte are lists of bytes; a float32 is its bit pattern, so that
-- math.Float32bits and math.Float32frombits are the identity.
pub mod Layout
pub mod RoundTrip
pub mod Sound
pub mod Total
use dattaniddhi.Prelude.{
  ℕ, zero, suc, ◌+◌, ◌*◌, ◌%◌, ◌^◌, List, [], ◌∷◌, length, replicate, slice, leb, Result, ok, ◌>>=◌,
  ◌>>◌, require,
}
use dattaniddhi.Wal.Bytes.{put_uint, uint, write}
use dattaniddhi.Wal.Format.{
  Error, incomplete_external_id_length, incomplete_external_id, incomplete_internal_id,
  incomplete_vector_size, incomplete_vector_values, incorrect_metadata_size, incomplete_metadata,
}

pub record InsertPayload : Type 0 where
  pub external_id : List ℕ
  pub internal_id : ℕ
  pub vector_data : List ℕ
  pub meta_data : List ℕ

pub record DeletePayload : Type 0 where
  pub external_id : List ℕ
  pub internal_id : ℕ

-- `for _, f := range ip.vectorData`: the buffer and the offset after the loop.
pub put_vector : List ℕ → ℕ → List ℕ → List ℕ × ℕ
put_vector [] offset buf = (buf, offset)
put_vector (f ∷ fs) offset buf = put_vector fs (offset + 4) (write offset (put_uint 4 f) buf)

-- (ip *insertPayload) encode
pub encode_insert : InsertPayload → List ℕ
encode_insert ip =
    let ext_id_len = length ip.external_id in
    let vec_data_len = length ip.vector_data in
    let meta_data_len = length ip.meta_data in
    let buf_size = 2 + ext_id_len + 8 + 4 + 4 * vec_data_len + 4 + meta_data_len in
    let buf = write 0 (put_uint 2 (ext_id_len % 2 ^ 16)) (replicate buf_size 0) in
    let buf = write 2 ip.external_id buf in
    let buf = write (2 + ext_id_len) (put_uint 8 ip.internal_id) buf in
    let buf = write (2 + ext_id_len + 8) (put_uint 4 (vec_data_len % 2 ^ 32)) buf in
    let (buf, offset) = put_vector ip.vector_data (2 + ext_id_len + 8 + 4) buf in
    let buf = write offset (put_uint 4 (meta_data_len % 2 ^ 32)) buf in
    write (offset + 4) ip.meta_data buf

-- (dp *deletePayload) encode
pub encode_delete : DeletePayload → List ℕ
encode_delete dp =
    let ext_id_len = length dp.external_id in
    let buf = write 0 (put_uint 2 (ext_id_len % 2 ^ 16)) (replicate (2 + ext_id_len + 8) 0) in
    let buf = write 2 dp.external_id buf in write (2 + ext_id_len) (put_uint 8 dp.internal_id) buf

-- (ip *insertPayload) size
pub size_insert : InsertPayload → ℕ
size_insert ip =
    (2 + length ip.external_id + 8 + 4 + 4 * length ip.vector_data + 4 + length ip.meta_data)
    % 2 ^ 32

-- (dp *deletePayload) size
pub size_delete : DeletePayload → ℕ
size_delete dp = (2 + length dp.external_id + 8) % 2 ^ 32

-- `for i = 0; i < vectorDimension; i++` over the rounds left: the values and the offset after it.
pub get_vector : ℕ → List ℕ → ℕ → Result Error (List ℕ × ℕ)
get_vector zero pl_bytes offset = ok ([], offset)
get_vector (suc i) pl_bytes offset = do
  require (leb (offset + 4) (length pl_bytes)) incomplete_vector_values
  let value = uint (slice pl_bytes offset (offset + 4))
  (values, end) ← get_vector i pl_bytes (offset + 4)
  ok (value ∷ values, end)

pub decode_insert_payload : List ℕ → Result Error InsertPayload
decode_insert_payload pl_bytes = do
  require (leb 2 (length pl_bytes)) incomplete_external_id_length
  let ext_id_len = uint (slice pl_bytes 0 2)
  require (leb (2 + ext_id_len) (length pl_bytes)) incomplete_external_id
  let ext_id = slice pl_bytes 2 (2 + ext_id_len)
  let offset = 2 + ext_id_len
  require (leb (offset + 8) (length pl_bytes)) incomplete_internal_id
  let int_id = uint (slice pl_bytes offset (offset + 8))
  require (leb (offset + 8 + 4) (length pl_bytes)) incomplete_vector_size
  let vector_dimension = uint (slice pl_bytes (offset + 8) (offset + 8 + 4))
  (vector_data, offset) ← get_vector vector_dimension pl_bytes (offset + 8 + 4)
  require (leb (offset + 4) (length pl_bytes)) incorrect_metadata_size
  let meta_data_size = uint (slice pl_bytes offset (offset + 4))
  require (leb (offset + 4 + meta_data_size) (length pl_bytes)) incomplete_metadata
  let meta_data = slice pl_bytes (offset + 4) (offset + 4 + meta_data_size)
  ok (record {
    external_id = ext_id;
    internal_id = int_id;
    vector_data = vector_data;
    meta_data = meta_data;
  })

pub decode_delete_payload : List ℕ → Result Error DeletePayload
decode_delete_payload pl_bytes = do
  require (leb 2 (length pl_bytes)) incomplete_external_id_length
  let ext_id_len = uint (slice pl_bytes 0 2)
  require (leb (2 + ext_id_len) (length pl_bytes)) incomplete_external_id
  let ext_id = slice pl_bytes 2 (2 + ext_id_len)
  let offset = 2 + ext_id_len
  require (leb (offset + 8) (length pl_bytes)) incomplete_internal_id
  let int_id = uint (slice pl_bytes offset (offset + 8))
  ok (record { external_id = ext_id; internal_id = int_id })
