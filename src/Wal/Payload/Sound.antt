-- ===== src/Wal/Payload/Sound.antt =====
-- What the payload decoders return stands in the bytes that they read.
use dattaniddhi.Prelude.{
  ℕ, zero, suc, ◌+◌, ◌*◌, ◌%◌, ◌^◌, ◌≤◌, ◌≡◌, refl, ap, List, [], ◌∷◌, ◌++◌, append_assoc, subst,
  sym, ◌∙◌, arith, length, slice, All, ok, inl, inr, Result-cases,
}
use dattaniddhi.Wal.Bytes.{IsByte, IsU32, put_uint, uint}
use dattaniddhi.Wal.Bytes.Cursor.{At, At-start}
use dattaniddhi.Wal.Bytes.Pieces.{Piece, piece, Number, number}
use dattaniddhi.Wal.Payload.{
  InsertPayload, DeletePayload, get_vector, encode_insert, encode_delete, decode_insert_payload,
  decode_delete_payload,
}
use dattaniddhi.Wal.Payload.Layout.{
  floats, insert_layout, delete_layout, encode_insert-layout, encode_delete-layout,
}
use dattaniddhi.Wal.Payload.RoundTrip.{InsertFits, DeleteFits}

-- The values that the reading loop returns, and where it ends.
record Values (k : ℕ) (pl : List ℕ) (offset : ℕ) (rest fs : List ℕ) (end : ℕ) : Type 0 where
  pub left : List ℕ
  pub splits : rest ≡ floats fs ++ left
  pub count : length fs ≡ k
  pub fit : All IsU32 fs
  pub end_is : end ≡ offset + 4 * k
  pub at_left : At pl end left
  pub bytes : All IsByte left

get_vector-Values :
    (k : ℕ) {pl : List ℕ} {offset : ℕ} (rest fs : List ℕ) (end : ℕ)
    → At pl offset rest
    → All IsByte rest
    → get_vector k pl offset ≡ ok (fs, end)
    → Values k pl offset rest fs end
unfolding get_vector
get_vector-Values zero {pl} {offset} rest fs end at small h =
    let none_read : fs ≡ [] = cc in
    let stays : end ≡ offset = cc in
    record {
      left = rest;
      splits = rw none_read refl;
      count = rw none_read refl;
      fit = rw none_read tt;
      end_is = omega arith;
      at_left = rw stays at;
      bytes = small;
    }
get_vector-Values (suc k) {pl} {offset} rest fs end at small h =
    let room : offset + 4 ≤ length pl = ground arith in
    let n = number 4 rest at small room in
    let v = uint (slice pl offset (offset + 4)) in
    elim (Result-cases (get_vector k pl (offset + 4))) [
      | inr (x, failed) ↦ absurd (ground arith)
      | inl ((vs, e), got) ↦
          let later = get_vector-Values k n.left vs e n.at_left n.bytes got in
          let values : fs ≡ v ∷ vs = ground arith in
          let same_end : end ≡ e = ground arith in
          record {
            left = later.left;
            splits =
                n.splits
                ∙ ap (λ l. put_uint 4 v ++ l) later.splits
                ∙ sym (append_assoc (put_uint 4 v) (floats vs) later.left)
                ∙ ap (λ l. floats l ++ later.left) (sym values);
            count = ap length values ∙ ap suc later.count;
            fit = subst (All IsU32) (sym values) (n.fits, later.fit);
            end_is = omega (arith, later.end_is);
            at_left = subst (λ o. At pl o later.left) (sym same_end) later.at_left;
            bytes = later.bytes;
          }
    ]

regroup :
    (a b c d e f g l : List ℕ)
    → a ++ (b ++ (c ++ (d ++ (e ++ (f ++ (g ++ l))))))
      ≡ (a ++ (b ++ (c ++ (d ++ (e ++ (f ++ g)))))) ++ l
regroup a b c d e f g l = simp append_assoc

-- What a decoder accepts: the encoding of its result, and bytes that it does not look at.
pub record Decoded (Fits : Type 0) (encoded pl : List ℕ) : Type 0 where
  pub fits : Fits
  pub left : List ℕ
  pub splits : pl ≡ encoded ++ left

-- The length of the external id, and where the fields behind it end.
abbrev id_length : List ℕ → ℕ
id_length pl = uint (slice pl 0 2)

abbrev dimension : List ℕ → ℕ
dimension pl = uint (slice pl (2 + id_length pl + 8) (2 + id_length pl + 8 + 4))

abbrev meta_length : List ℕ → ℕ → ℕ
meta_length pl o = uint (slice pl o (o + 4))

-- The tests that decodeInsertPayload has passed, and what it has read.
record InsertReads (pl : List ℕ) (ip : InsertPayload) : Type 0 where
  pub room_length : 2 ≤ length pl
  pub room_id : 2 + id_length pl ≤ length pl
  pub room_internal : 2 + id_length pl + 8 ≤ length pl
  pub room_dimension : 2 + id_length pl + 8 + 4 ≤ length pl
  pub end : ℕ
  pub got : get_vector (dimension pl) pl (2 + id_length pl + 8 + 4) ≡ ok (ip.vector_data, end)
  pub room_meta_length : end + 4 ≤ length pl
  pub room_meta : end + 4 + meta_length pl end ≤ length pl
  pub external_is : slice pl 2 (2 + id_length pl) ≡ ip.external_id
  pub internal_is : uint (slice pl (2 + id_length pl) (2 + id_length pl + 8)) ≡ ip.internal_id
  pub meta_is : slice pl (end + 4) (end + 4 + meta_length pl end) ≡ ip.meta_data

decode_insert_payload-InsertReads :
    (pl : List ℕ) (ip : InsertPayload) → decode_insert_payload pl ≡ ok ip → InsertReads pl ip
unfolding decode_insert_payload
decode_insert_payload-InsertReads pl ip h =
    elim (Result-cases (get_vector (dimension pl) pl (2 + id_length pl + 8 + 4))) [
      | inr (x, failed) ↦ absurd (ground arith)
      | inl ((vs, o), got) ↦
          let values : vs ≡ ip.vector_data = ground arith in
          record {
            room_length = ground arith;
            room_id = ground arith;
            room_internal = ground arith;
            room_dimension = ground arith;
            end = o;
            got = got ∙ ap (λ v. ok (v, o)) values;
            room_meta_length = ground arith;
            room_meta = ground arith;
            external_is = ground arith;
            internal_is = ground arith;
            meta_is = ground arith;
          }
    ]

module _ {pl : List ℕ} {ip : InsertPayload} (small : All IsByte pl) (r : InsertReads pl ip) where
  length_part : Number pl 0 2 pl
  length_part = number 2 pl (At-start pl) small r.room_length

  external_part : Piece pl 2 (id_length pl) length_part.left
  external_part =
      piece (id_length pl) length_part.left length_part.at_left length_part.bytes r.room_id

  internal_part : Number pl (2 + id_length pl) 8 external_part.left
  internal_part =
      number 8 external_part.left external_part.at_left external_part.bytes.1 r.room_internal

  dimension_part : Number pl (2 + id_length pl + 8) 4 internal_part.left
  dimension_part =
      number 4 internal_part.left internal_part.at_left internal_part.bytes r.room_dimension

  values_part :
      Values (dimension pl) pl (2 + id_length pl + 8 + 4) dimension_part.left ip.vector_data r.end
  values_part =
      get_vector-Values (dimension pl) dimension_part.left ip.vector_data r.end
        dimension_part.at_left dimension_part.bytes r.got

  meta_length_part : Number pl r.end 4 values_part.left
  meta_length_part =
      number 4 values_part.left values_part.at_left values_part.bytes r.room_meta_length

  meta_part : Piece pl (r.end + 4) (meta_length pl r.end) meta_length_part.left
  meta_part =
      piece (meta_length pl r.end) meta_length_part.left meta_length_part.at_left
        meta_length_part.bytes r.room_meta

  external_length : length ip.external_id ≡ id_length pl
  external_length = ap length (sym r.external_is) ∙ external_part.width

  meta_data_length : length ip.meta_data ≡ meta_length pl r.end
  meta_data_length = ap length (sym r.meta_is) ∙ meta_part.width

  read-InsertFits : InsertFits ip
  read-InsertFits = record {
    external_id_fits = omega (arith, external_length, length_part.fits);
    internal_id_fits = omega (arith, r.internal_is, internal_part.fits);
    dimension_fits = omega (arith, values_part.count, dimension_part.fits);
    values_fit = values_part.fit;
    meta_data_fits = omega (arith, meta_data_length, meta_length_part.fits);
  }

  meta_parts : meta_length_part.left ≡ ip.meta_data ++ meta_part.left
  meta_parts = meta_part.splits ∙ ap (λ x. x ++ meta_part.left) r.meta_is

  external_parts : length_part.left ≡ ip.external_id ++ external_part.left
  external_parts = external_part.splits ∙ ap (λ x. x ++ external_part.left) r.external_is

  internal_parts : external_part.left ≡ put_uint 8 ip.internal_id ++ internal_part.left
  internal_parts = internal_part.splits ∙ ap (λ x. put_uint 8 x ++ internal_part.left) r.internal_is

  layout_parts : pl ≡ insert_layout ip ++ meta_part.left
  layout_parts =
      let n : length ip.external_id % 2 ^ 16 ≡ id_length pl =
        omega (arith, external_length, length_part.fits) in
      let k : length ip.vector_data % 2 ^ 32 ≡ dimension pl =
        omega (arith, values_part.count, dimension_part.fits) in
      let m : length ip.meta_data % 2 ^ 32 ≡ meta_length pl r.end =
        omega (arith, meta_data_length, meta_length_part.fits) in
      rw (n, k, m)
        (length_part.splits
          ∙ ap (λ x. put_uint 2 (id_length pl) ++ x)
              (external_parts
                ∙ ap (λ x. ip.external_id ++ x)
                    (internal_parts
                      ∙ ap (λ x. put_uint 8 ip.internal_id ++ x)
                          (dimension_part.splits
                            ∙ ap (λ x. put_uint 4 (dimension pl) ++ x)
                                (values_part.splits
                                  ∙ ap (λ x. floats ip.vector_data ++ x)
                                      (meta_length_part.splits
                                        ∙ ap (λ x. put_uint 4 (meta_length pl r.end) ++ x)
                                            meta_parts)))))
          ∙ regroup (put_uint 2 (id_length pl)) ip.external_id (put_uint 8 ip.internal_id)
              (put_uint 4 (dimension pl)) (floats ip.vector_data)
              (put_uint 4 (meta_length pl r.end)) ip.meta_data meta_part.left)

-- An insert payload that the decoder accepts fits its fields, and its encoding stands at the front of
-- the bytes that were read.
pub decode_insert_payload-Decoded :
    (pl : List ℕ) (ip : InsertPayload)
    → All IsByte pl
    → decode_insert_payload pl ≡ ok ip
    → Decoded (InsertFits ip) (encode_insert ip) pl
decode_insert_payload-Decoded pl ip small h =
    let r = decode_insert_payload-InsertReads pl ip h in
    record {
      fits = read-InsertFits small r;
      left = (meta_part small r).left;
      splits =
          layout_parts small r
          ∙ ap (λ e. e ++ (meta_part small r).left) (sym (encode_insert-layout ip));
    }

-- The tests that decodeDeletePayload has passed, and what it has read.
record DeleteReads (pl : List ℕ) (dp : DeletePayload) : Type 0 where
  pub room_length : 2 ≤ length pl
  pub room_id : 2 + id_length pl ≤ length pl
  pub room_internal : 2 + id_length pl + 8 ≤ length pl
  pub external_is : slice pl 2 (2 + id_length pl) ≡ dp.external_id
  pub internal_is : uint (slice pl (2 + id_length pl) (2 + id_length pl + 8)) ≡ dp.internal_id

decode_delete_payload-DeleteReads :
    (pl : List ℕ) (dp : DeletePayload) → decode_delete_payload pl ≡ ok dp → DeleteReads pl dp
unfolding decode_delete_payload
decode_delete_payload-DeleteReads pl dp h = record {
  room_length = ground arith;
  room_id = ground arith;
  room_internal = ground arith;
  external_is = ground arith;
  internal_is = ground arith;
}

-- The same of a delete payload.
pub decode_delete_payload-Decoded :
    (pl : List ℕ) (dp : DeletePayload)
    → All IsByte pl
    → decode_delete_payload pl ≡ ok dp
    → Decoded (DeleteFits dp) (encode_delete dp) pl
decode_delete_payload-Decoded pl dp small h =
    let r = decode_delete_payload-DeleteReads pl dp h in
    let p0 = number 2 pl (At-start pl) small r.room_length in
    let p1 = piece (id_length pl) p0.left p0.at_left p0.bytes r.room_id in
    let p2 = number 8 p1.left p1.at_left p1.bytes.1 r.room_internal in
    let size : length dp.external_id ≡ id_length pl = ap length (sym r.external_is) ∙ p1.width in
    let n : length dp.external_id % 2 ^ 16 ≡ id_length pl = omega (arith, size, p0.fits) in
    let layout : pl ≡ delete_layout dp ++ p2.left = rw n (
      p0.splits
      ∙ ap (λ x. put_uint 2 (id_length pl) ++ x)
          (p1.splits
            ∙ ap (λ x. x ++ p1.left) r.external_is
            ∙ ap (λ x. dp.external_id ++ x)
                (p2.splits ∙ ap (λ x. put_uint 8 x ++ p2.left) r.internal_is)
            ∙ sym (append_assoc dp.external_id (put_uint 8 dp.internal_id) p2.left))) in
    record {
      fits = record {
        external_id_fits = omega (arith, size, p0.fits);
        internal_id_fits = omega (arith, r.internal_is, p2.fits);
      };
      left = p2.left;
      splits = layout ∙ ap (λ e. e ++ p2.left) (sym (encode_delete-layout dp));
    }
