-- ===== src/Wal/Payload/Layout.antt =====
-- The encoders of payload_ops.go fill their buffers exactly: what stands in them, field by field.
use dattaniddhi.Prelude.{
  ℕ, ◌+◌, ◌*◌, ◌%◌, ◌^◌, ◌≡◌, refl, subst, ◌∙◌, List, [], ◌∷◌, ◌++◌, append_assoc, append-nil,
  arith, length, length-append,
}
use dattaniddhi.Wal.Bytes.{put_uint, write}
use dattaniddhi.Wal.Bytes.Cursor.{Written, Written-start, Written-write, Written-done}
use dattaniddhi.Wal.Payload.{
  InsertPayload, DeletePayload, put_vector, encode_insert, encode_delete, size_insert, size_delete,
}

-- The values of a vector, four bytes each.
abbrev pub floats : List ℕ → List ℕ
floats [] = []
floats (f ∷ fs) = put_uint 4 f ++ floats fs

pub length-floats : (fs : List ℕ) → length (floats fs) ≡ 4 * length fs
length-floats [] = refl
length-floats (f ∷ fs) = omega (arith, length-floats fs)

put_vector-Written :
    (fs : List ℕ) {buf pre : List ℕ} {offset room : ℕ} (left : ℕ)
    → Written buf pre offset room
    → room ≡ length (floats fs) + left
    → Written (put_vector fs offset buf).0 (pre ++ floats fs) (put_vector fs offset buf).1 left
unfolding put_vector
put_vector-Written [] {room = room} left w e =
    let same : left ≡ room = omega arith in
    record { shape = rw (append-nil, same) w.shape; place = rw append-nil w.place }
put_vector-Written (f ∷ fs) {buf} {pre} {offset} {room} left w e =
    let rest = length (floats fs) + left in
    subst
      (λ p. Written (put_vector (f ∷ fs) offset buf).0 p (put_vector (f ∷ fs) offset buf).1 left)
      (append_assoc pre (put_uint 4 f) (floats fs))
      (put_vector-Written fs left
        (Written-write (put_uint 4 f) (offset + 4) rest w (omega arith) (omega arith)) refl)

-- The offset after the loop.
pub put_vector-offset :
    (fs : List ℕ) (offset : ℕ) (buf : List ℕ)
    → (put_vector fs offset buf).1 ≡ offset + 4 * length fs
unfolding put_vector
put_vector-offset [] offset buf = omega arith
put_vector-offset (f ∷ fs) offset buf =
    omega (arith, put_vector-offset fs (offset + 4) (write offset (put_uint 4 f) buf))

abbrev pub insert_layout : InsertPayload → List ℕ
insert_layout ip =
    put_uint 2 (length ip.external_id % 2 ^ 16)
    ++ (ip.external_id
        ++ (put_uint 8 ip.internal_id
            ++ (put_uint 4 (length ip.vector_data % 2 ^ 32)
                ++ (floats ip.vector_data
                    ++ (put_uint 4 (length ip.meta_data % 2 ^ 32) ++ ip.meta_data)))))

abbrev pub delete_layout : DeletePayload → List ℕ
delete_layout dp =
    put_uint 2 (length dp.external_id % 2 ^ 16) ++ (dp.external_id ++ put_uint 8 dp.internal_id)

-- `encode` of an insert payload.
pub encode_insert-layout : (ip : InsertPayload) → encode_insert ip ≡ insert_layout ip
unfolding encode_insert
encode_insert-layout ip =
    let n = length ip.external_id in
    let k = length ip.vector_data in
    let m = length ip.meta_data in
    let d = length (floats ip.vector_data) in
    let room : d ≡ 4 * k = length-floats ip.vector_data in
    let w = Written-start (2 + n + 8 + 4 + 4 * k + 4 + m) in
    let w =
      Written-write (put_uint 2 (n % 2 ^ 16)) 2 (n + 8 + 4 + 4 * k + 4 + m) w (omega arith)
        (omega arith) in
    let w =
      Written-write ip.external_id (2 + n) (8 + 4 + 4 * k + 4 + m) w (omega arith) (omega arith) in
    let w =
      Written-write (put_uint 8 ip.internal_id) (2 + n + 8) (4 + 4 * k + 4 + m) w (omega arith)
        (omega arith) in
    let w =
      Written-write (put_uint 4 (k % 2 ^ 32)) (2 + n + 8 + 4) (4 * k + 4 + m) w (omega arith)
        (omega arith) in
    let w = put_vector-Written ip.vector_data (4 + m) w (omega arith) in
    let w = Written-write (put_uint 4 (m % 2 ^ 32)) _ m w refl (omega arith) in
    let w = Written-write ip.meta_data _ 0 w refl (omega arith) in
    Written-done w ∙ simp append_assoc

-- `encode` of a delete payload.
pub encode_delete-layout : (dp : DeletePayload) → encode_delete dp ≡ delete_layout dp
unfolding encode_delete
encode_delete-layout dp =
    let n = length dp.external_id in
    let w = Written-start (2 + n + 8) in
    let w = Written-write (put_uint 2 (n % 2 ^ 16)) 2 (n + 8) w (omega arith) (omega arith) in
    let w = Written-write dp.external_id (2 + n) 8 w (omega arith) (omega arith) in
    let w = Written-write (put_uint 8 dp.internal_id) (2 + n + 8) 0 w (omega arith) (omega arith) in
    Written-done w
    ∙ append_assoc (put_uint 2 (n % 2 ^ 16)) dp.external_id (put_uint 8 dp.internal_id)

-- `size` is the length of what `encode` writes, as a uint32.
pub size_insert-encode_insert :
    (ip : InsertPayload) → size_insert ip ≡ length (encode_insert ip) % 2 ^ 32
unfolding size_insert
size_insert-encode_insert ip =
    rw encode_insert-layout (omega (arith, length-append {0}, length-floats ip.vector_data))

pub size_delete-encode_delete :
    (dp : DeletePayload) → size_delete dp ≡ length (encode_delete dp) % 2 ^ 32
unfolding size_delete
size_delete-encode_delete dp = rw encode_delete-layout (omega (arith, length-append {0}))

pub length-encode_insert :
    (ip : InsertPayload)
    → length (encode_insert ip)
      ≡ 18 + length ip.external_id + 4 * length ip.vector_data + length ip.meta_data
length-encode_insert ip =
    rw encode_insert-layout (omega (arith, length-append {0}, length-floats ip.vector_data))

pub length-encode_delete :
    (dp : DeletePayload) → length (encode_delete dp) ≡ 10 + length dp.external_id
length-encode_delete dp = rw encode_delete-layout (omega (arith, length-append {0}))
