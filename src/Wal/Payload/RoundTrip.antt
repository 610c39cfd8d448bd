-- ===== src/Wal/Payload/RoundTrip.antt =====
-- decodeInsertPayload and decodeDeletePayload read back what the encoders of payload_ops.go wrote.
use native.Mathlib.Nat.{mod-eq_of_lt}
use dattaniddhi.Prelude.{
  ℕ, ◌+◌, ◌*◌, ◌%◌, ◌^◌, ◌≤◌, ◌≡◌, refl, ap, List, [], ◌∷◌, ◌++◌, append-nil, subst, sym, ◌∙◌,
  arith, length, slice, All, leb, le→leb, Result, ok, ◌>>◌, require,
}
use dattaniddhi.Wal.Bytes.{IsU16, IsU32, IsU64, put_uint, uint}
use dattaniddhi.Wal.Bytes.Cursor.{At, At-start, At-skip, At-skip_uint, slice-At, uint-At}
use dattaniddhi.Wal.Payload.{
  InsertPayload, DeletePayload, get_vector, encode_insert, encode_delete, decode_insert_payload,
  decode_delete_payload,
}
use dattaniddhi.Wal.Payload.Layout.{
  floats, length-floats, insert_layout, delete_layout, encode_insert-layout, encode_delete-layout,
}

-- Every length fits the field that holds it, and every number its width.
pub record InsertFits (ip : InsertPayload) : Type 0 where
  pub external_id_fits : IsU16 (length ip.external_id)
  pub internal_id_fits : IsU64 ip.internal_id
  pub dimension_fits : IsU32 (length ip.vector_data)
  pub values_fit : All IsU32 ip.vector_data
  pub meta_data_fits : IsU32 (length ip.meta_data)

pub record DeleteFits (dp : DeletePayload) : Type 0 where
  pub external_id_fits : IsU16 (length dp.external_id)
  pub internal_id_fits : IsU64 dp.internal_id

-- A `require` whose test passes.
require_le :
    {E A : Type 0} {x : Result E A} (a b : ℕ) (e : E) → a ≤ b → (require (leb a b) e >> x) ≡ x
require_le a b e h = rw (le→leb a b h)

-- The reading loop returns the values that stand at the offset.
get_vector-At :
    (fs : List ℕ) {pl : List ℕ} {offset : ℕ} (r : List ℕ)
    → At pl offset (floats fs ++ r)
    → All IsU32 fs
    → get_vector (length fs) pl offset ≡ ok (fs, offset + 4 * length fs)
unfolding get_vector
get_vector-At [] {pl} {offset} r at fits = ap (λ o. ok ([], o)) (omega arith)
get_vector-At (f ∷ fs) {pl} {offset} r at fits =
    let rest = floats fs ++ r in
    let value : uint (slice pl offset (offset + 4)) ≡ f =
      uint-At 4 f (offset + 4) rest at (omega arith) refl in
    let next : At pl (offset + 4) rest = At-skip_uint 4 f (offset + 4) rest at refl in
    let room : offset + 4 ≤ length pl = omega (arith, next.size) in
    rw (le→leb _ _ room, value, get_vector-At fs r next fits.1)
      (ap (λ o. ok (f ∷ fs, o)) (omega arith))

decode_insert-At :
    (ip : InsertPayload) {pl : List ℕ}
    → InsertFits ip
    → At pl 0 (insert_layout ip)
    → decode_insert_payload pl ≡ ok ip
unfolding decode_insert_payload
decode_insert-At ip {pl} fits at0 =
    let n = length ip.external_id in
    let k = length ip.vector_data in
    let m = length ip.meta_data in
    let r6 : List ℕ = ip.meta_data in
    let r5 = put_uint 4 (m % 2 ^ 32) ++ r6 in
    let r4 = floats ip.vector_data ++ r5 in
    let r3 = put_uint 4 (k % 2 ^ 32) ++ r4 in
    let r2 = put_uint 8 ip.internal_id ++ r3 in
    let r1 = ip.external_id ++ r2 in
    let at1 = At-skip_uint 2 (n % 2 ^ 16) 2 r1 at0 refl in
    let at2 = At-skip ip.external_id r2 at1 (2 + n) refl in
    let at3 = At-skip_uint 8 ip.internal_id (2 + n + 8) r3 at2 refl in
    let at4 = At-skip_uint 4 (k % 2 ^ 32) (2 + n + 8 + 4) r4 at3 refl in
    let o = 2 + n + 8 + 4 + 4 * k in
    let at5 =
      At-skip (floats ip.vector_data) r5 at4 o (omega (arith, length-floats ip.vector_data)) in
    let at6 = At-skip_uint 4 (m % 2 ^ 32) (o + 4) r6 at5 refl in
    let size : length pl ≡ o + 4 + m = at6.size in
    let e1 : uint (slice pl 0 2) ≡ n =
      uint-At 2 (n % 2 ^ 16) 2 r1 at0 (omega arith) refl ∙ mod-eq_of_lt fits.external_id_fits in
    let e2 : slice pl 2 (2 + n) ≡ ip.external_id = slice-At ip.external_id r2 at1 (2 + n) refl in
    let e3 : uint (slice pl (2 + n) (2 + n + 8)) ≡ ip.internal_id =
      uint-At 8 ip.internal_id (2 + n + 8) r3 at2 fits.internal_id_fits refl in
    let e4 : uint (slice pl (2 + n + 8) (2 + n + 8 + 4)) ≡ k =
      uint-At 4 (k % 2 ^ 32) (2 + n + 8 + 4) r4 at3 (omega arith) refl
      ∙ mod-eq_of_lt fits.dimension_fits in
    let e5 : get_vector k pl (2 + n + 8 + 4) ≡ ok (ip.vector_data, o) =
      get_vector-At ip.vector_data r5 at4 fits.values_fit in
    let e6 : uint (slice pl o (o + 4)) ≡ m =
      uint-At 4 (m % 2 ^ 32) (o + 4) r6 at5 (omega arith) refl ∙ mod-eq_of_lt fits.meta_data_fits in
    let e7 : slice pl (o + 4) (o + 4 + m) ≡ ip.meta_data =
      slice-At ip.meta_data [] (subst (At pl (o + 4)) (sym (append-nil ip.meta_data)) at6)
        (o + 4 + m) refl in
    let g1 = le→leb 2 (length pl) (omega arith) in
    let g2 = le→leb (2 + n) (length pl) (omega arith) in
    let g3 = le→leb (2 + n + 8) (length pl) (omega arith) in
    let g4 = le→leb (2 + n + 8 + 4) (length pl) (omega arith) in
    let g5 = le→leb (o + 4) (length pl) (omega arith) in
    let g6 = le→leb (o + 4 + m) (length pl) (omega arith) in
    rw (g1, e1, g2, g3, g4, e4, e5, g5, e6, g6, e2, e3, e7) refl

-- Decoding what `encode` wrote gives the insert payload back.
pub decode_insert_payload-encode_insert :
    (ip : InsertPayload) → InsertFits ip → decode_insert_payload (encode_insert ip) ≡ ok ip
decode_insert_payload-encode_insert ip fits =
    rw encode_insert-layout (decode_insert-At ip fits (At-start (insert_layout ip)))

decode_delete-At :
    (dp : DeletePayload) {pl : List ℕ}
    → DeleteFits dp
    → At pl 0 (delete_layout dp)
    → decode_delete_payload pl ≡ ok dp
unfolding decode_delete_payload
decode_delete-At dp {pl} fits at0 =
    let n = length dp.external_id in
    let r2 = put_uint 8 dp.internal_id in
    let at1 = At-skip_uint 2 (n % 2 ^ 16) 2 (dp.external_id ++ r2) at0 refl in
    let at2 = At-skip dp.external_id r2 at1 (2 + n) refl in
    let size : length pl ≡ 2 + n + 8 = at2.size in
    let e1 : uint (slice pl 0 2) ≡ n =
      uint-At 2 (n % 2 ^ 16) 2 (dp.external_id ++ r2) at0 (omega arith) refl
      ∙ mod-eq_of_lt fits.external_id_fits in
    let e2 : slice pl 2 (2 + n) ≡ dp.external_id = slice-At dp.external_id r2 at1 (2 + n) refl in
    let e3 : uint (slice pl (2 + n) (2 + n + 8)) ≡ dp.internal_id =
      uint-At 8 dp.internal_id (2 + n + 8) [] at2 fits.internal_id_fits refl in
    let g1 = le→leb 2 (length pl) (omega arith) in
    let g2 = le→leb (2 + n) (length pl) (omega arith) in
    let g3 = le→leb (2 + n + 8) (length pl) (omega arith) in rw (g1, e1, g2, g3, e2, e3) refl

-- Decoding what `encode` wrote gives the delete payload back.
pub decode_delete_payload-encode_delete :
    (dp : DeletePayload) → DeleteFits dp → decode_delete_payload (encode_delete dp) ≡ ok dp
decode_delete_payload-encode_delete dp fits =
    rw encode_delete-layout (decode_delete-At dp fits (At-start (delete_layout dp)))
