-- ===== src/Wal/Bytes/Cursor.antt =====
-- A decoder's position in a byte slice, and an encoder's position in its buffer.
use dattaniddhi.Prelude.{
  ℕ, ◌+◌, ◌-◌, ◌^◌, ◌<◌, ◌≡◌, refl, ◌∙◌, List, [], ◌++◌, append-nil, arith, length, take, drop,
  replicate, slice, length-append, take-append, drop-append, drop-drop,
}
use dattaniddhi.Wal.Bytes.{put_uint, uint, write, length-put_uint, uint-put_uint, write_next}

-- `rest` is what is left of `buf` from `offset` on.
pub record At (buf : List ℕ) (offset : ℕ) (rest : List ℕ) : Type 0 where
  pub here : drop offset buf ≡ rest
  pub size : length buf ≡ offset + length rest

pub At-start : (buf : List ℕ) → At buf 0 buf
At-start buf = record { here = refl; size = omega arith }

module _ {buf : List ℕ} {offset : ℕ} (a r : List ℕ) (at : At buf offset (a ++ r)) where
  pub At-skip : (next : ℕ) → next ≡ offset + length a → At buf next r
  At-skip next e = record {
    here = rw (e, ← drop-drop (length a) offset buf, at.here) (drop-append a r);
    size = omega (arith, at.size, length-append a r);
  }

  pub slice-At : (next : ℕ) → next ≡ offset + length a → slice buf offset next ≡ a
  slice-At next e =
      let width : next - offset ≡ length a = omega arith in rw (width, at.here) (take-append a r)

-- A number that stands at the position is read.
pub uint-At :
    {buf : List ℕ} {offset : ℕ} (w v next : ℕ) (r : List ℕ)
    → At buf offset (put_uint w v ++ r)
    → v < 256 ^ w
    → next ≡ offset + w
    → uint (slice buf offset next) ≡ v
uint-At w v next r at fits e =
    rw (slice-At (put_uint w v) r at next (omega (arith, length-put_uint w v)))
      (uint-put_uint w v fits)

pub At-skip_uint :
    {buf : List ℕ} {offset : ℕ} (w v next : ℕ) (r : List ℕ)
    → At buf offset (put_uint w v ++ r)
    → next ≡ offset + w
    → At buf next r
At-skip_uint w v next r at e = At-skip (put_uint w v) r at next (omega (arith, length-put_uint w v))

-- `pre` is written, `room` zeros are left.
pub record Written (buf pre : List ℕ) (offset room : ℕ) : Type 0 where
  pub shape : buf ≡ pre ++ replicate room 0
  pub place : length pre ≡ offset

pub Written-start : (n : ℕ) → Written (replicate n 0) [] 0 n
Written-start n = record { shape = refl; place = refl }

pub Written-write :
    {buf pre : List ℕ} {offset room : ℕ} (src : List ℕ) (next left : ℕ)
    → Written buf pre offset room
    → next ≡ offset + length src
    → room ≡ length src + left
    → Written (write offset src buf) (pre ++ src) next left
Written-write {buf} {pre} {offset} {room} src next left w e f = record {
  shape = rw w.shape (write_next pre src offset room left w.place f);
  place = omega (arith, length-append pre src, w.place);
}

pub Written-done : {buf pre : List ℕ} {offset : ℕ} → Written buf pre offset 0 → buf ≡ pre
Written-done {buf} {pre} w = w.shape ∙ append-nil pre

pub take-Written :
    {buf pre : List ℕ} {offset room : ℕ} → Written buf pre offset room → take offset buf ≡ pre
take-Written {buf} {pre} {offset} {room} w =
    rw (w.shape, ← w.place) (take-append pre (replicate room 0))
