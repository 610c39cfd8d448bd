-- ===== src/Wal/Bytes.antt =====
-- encoding/binary's LittleEndian as the write-ahead log uses it, and Go's copy into a buffer.
pub mod Cursor
pub mod Pieces
use dattaniddhi.Prelude.{
  ℕ, zero, suc, ◌+◌, ◌-◌, ◌*◌, ◌/◌, ◌%◌, ◌^◌, ◌≤◌, ◌<◌, ◌≡◌, refl, ap, sym, List, [], ◌∷◌, ◌++◌,
  append_assoc, arith, length, take, drop, replicate, All, length-append, length-replicate,
  take-append, take-ge, drop-append-add, drop-replicate,
}

-- A byte.
abbrev pub IsByte : ℕ → Type 0
IsByte b = b < 256

abbrev pub IsU16 : ℕ → Type 0
IsU16 v = v < 2 ^ 16

abbrev pub IsU32 : ℕ → Type 0
IsU32 v = v < 2 ^ 32

abbrev pub IsU64 : ℕ → Type 0
IsU64 v = v < 2 ^ 64

-- `PutUint16`, `PutUint32`, `PutUint64` for the widths 2, 4, 8: the bytes that they store.
abbrev pub put_uint : ℕ → ℕ → List ℕ
put_uint zero v = []
put_uint (suc w) v = (v % 256) ∷ put_uint w (v / 256)

-- `Uint16`, `Uint32`, `Uint64` on the bytes given.
abbrev pub uint : List ℕ → ℕ
uint [] = 0
uint (b ∷ bs) = b + 256 * uint bs

-- `copy(buf[offset:], src)`
abbrev pub write : ℕ → List ℕ → List ℕ → List ℕ
write offset src buf =
    take offset buf ++ (take (length buf - offset) src ++ drop (offset + length src) buf)

pub length-put_uint : (w v : ℕ) → length (put_uint w v) ≡ w
length-put_uint zero v = refl
length-put_uint (suc w) v = ap suc (length-put_uint w (v / 256))

pub put_uint-IsByte : (w v : ℕ) → All IsByte (put_uint w v)
put_uint-IsByte zero v = tt
put_uint-IsByte (suc w) v = (omega arith, put_uint-IsByte w (v / 256))

-- What is stored in `w` bytes is read back when it fits them.
pub uint-put_uint : (w v : ℕ) → v < 256 ^ w → uint (put_uint w v) ≡ v
uint-put_uint zero v h = omega arith
uint-put_uint (suc w) v h = omega (arith, uint-put_uint w (v / 256) (omega arith))

-- A buffer that is written from left to right: what is written so far, then zeros.
pub write_next :
    (pre src : List ℕ) (offset n m : ℕ)
    → length pre ≡ offset
    → n ≡ length src + m
    → write offset src (pre ++ replicate n 0) ≡ (pre ++ src) ++ replicate m 0
write_next pre src offset n m ho hn = rw (← ho, hn) (written m)
  where
    written :
        (m : ℕ)
        → write (length pre) src (pre ++ replicate (length src + m) 0)
          ≡ (pre ++ src) ++ replicate m 0
    written m =
        let zeros : List ℕ = replicate (length src + m) 0 in
        let room : length src ≤ length (pre ++ zeros) - length pre =
          omega (arith, length-append pre zeros, length-replicate {0} {A = ℕ} (length src + m) 0) in
        rw (take-append, take-ge _ src room, drop-append-add, drop-replicate)
          (sym (append_assoc pre src _))
