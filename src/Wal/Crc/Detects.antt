-- ===== src/Wal/Crc/Detects.antt =====
-- The checksum tells two byte strings apart that differ in one byte.
use Prim.Native.Nat.{bit_xor}
use mathlib.Core.List.{foldl, foldl-append}
use dattaniddhi.Prelude.{
  ℕ, ◌/◌, ◌%◌, ◌^◌, ◌≤◌, ◌≡◌, ◌≢◌, sym, ap, ◌∙◌, List, [], ◌∷◌, ◌++◌, All, arith, ◌⊎◌, inl, inr,
}
use dattaniddhi.Wal.Bytes.{IsByte, IsU32}
use dattaniddhi.Wal.Crc.{crc_bit, crc_byte, checksum_ieee}
use dattaniddhi.Wal.Crc.Xor.{bit_xor_comm, bit_xor-bit_xor, bit_xor_lt, bit_xor_ge}

bit_xor-injective : (a a' b : ℕ) → bit_xor a b ≡ bit_xor a' b → a ≡ a'
bit_xor-injective a a' b h =
    sym (bit_xor-bit_xor a b) ∙ ap (λ c. bit_xor c b) h ∙ bit_xor-bit_xor a' b

crc_bit_odd : (c : ℕ) → c % 2 ≡ 1 → crc_bit c ≡ bit_xor (c / 2) 0xedb88320
unfolding crc_bit
crc_bit_odd c h = ground arith

crc_bit_even : (c : ℕ) → c % 2 ≡ 0 → crc_bit c ≡ c / 2
unfolding crc_bit
crc_bit_even c h = ground arith

parity : (c : ℕ) → (c % 2 ≡ 1) ⊎ (c % 2 ≡ 0)
parity c = ground arith

-- The top bit tells the two cases of a step apart.
crc_bit_odd-ge : (c : ℕ) → IsU32 c → c % 2 ≡ 1 → 2 ^ 31 ≤ crc_bit c
crc_bit_odd-ge c h o =
    omega (arith, crc_bit_odd c o, bit_xor_ge 31 (c / 2) 0xedb88320 (omega arith) (omega arith))

crc_bit-IsU32 : (c : ℕ) → IsU32 c → IsU32 (crc_bit c)
crc_bit-IsU32 c h = elim (parity c) [
  | inl o ↦
      omega (arith, crc_bit_odd c o, bit_xor_lt 32 (c / 2) 0xedb88320 (omega arith) (omega arith))
  | inr e ↦ omega (arith, crc_bit_even c e)
]

crc_bit-injective : (c d : ℕ) → IsU32 c → IsU32 d → crc_bit c ≡ crc_bit d → c ≡ d
crc_bit-injective c d h k same = elim (parity c) [
  | inl o ↦ elim (parity d) [
    | inl o' ↦
        let half =
          bit_xor-injective (c / 2) (d / 2) 0xedb88320
            (sym (crc_bit_odd c o) ∙ same ∙ crc_bit_odd d o') in
        omega arith
    | inr e' ↦ absurd (omega (arith, crc_bit_odd-ge c h o, crc_bit_even d e'))
  ]
  | inr e ↦ elim (parity d) [
    | inl o' ↦ absurd (omega (arith, crc_bit_odd-ge d k o', crc_bit_even c e))
    | inr e' ↦ omega (arith, crc_bit_even c e, crc_bit_even d e')
  ]
]

-- A step on 32-bit words that loses nothing.
record Lossless (f : ℕ → ℕ) : Type 0 where
  pub stays : (c : ℕ) → IsU32 c → IsU32 (f c)
  pub injective : (c d : ℕ) → IsU32 c → IsU32 d → f c ≡ f d → c ≡ d

twice-Lossless : (f : ℕ → ℕ) → Lossless f → Lossless (λ c. f (f c))
twice-Lossless f l = record {
  stays = λ c h. l.stays (f c) (l.stays c h);
  injective = λ c d h k same.
      l.injective c d h k (l.injective (f c) (f d) (l.stays c h) (l.stays d k) same);
}

eight_bits-Lossless :
    Lossless (λ c. crc_bit (crc_bit (crc_bit (crc_bit (crc_bit (crc_bit (crc_bit (crc_bit c))))))))
eight_bits-Lossless =
    twice-Lossless (λ c. crc_bit (crc_bit (crc_bit (crc_bit c))))
      (twice-Lossless (λ c. crc_bit (crc_bit c))
        (twice-Lossless crc_bit (record { stays = crc_bit-IsU32; injective = crc_bit-injective })))

crc_byte-Lossless : (b : ℕ) → IsByte b → Lossless (λ c. crc_byte c b)
unfolding crc_byte
crc_byte-Lossless b small = record {
  stays = λ c h. eight_bits-Lossless.stays (bit_xor c b) (bit_xor_lt 32 c b h (omega arith));
  injective = λ c d h k same. bit_xor-injective c d b (
      eight_bits-Lossless.injective (bit_xor c b) (bit_xor d b) (bit_xor_lt 32 c b h (omega arith))
        (bit_xor_lt 32 d b k (omega arith)) same);
}

-- With the same state, two bytes lead to the same state only if they are the same.
crc_byte_other :
    (c b b' : ℕ) → IsU32 c → IsByte b → IsByte b' → crc_byte c b ≡ crc_byte c b' → b ≡ b'
unfolding crc_byte
crc_byte_other c b b' h k k' same =
    let whole : bit_xor c b ≡ bit_xor c b' =
      eight_bits-Lossless.injective (bit_xor c b) (bit_xor c b') (bit_xor_lt 32 c b h (omega arith))
        (bit_xor_lt 32 c b' h (omega arith)) same in
    bit_xor-injective b b' c (bit_xor_comm b c ∙ whole ∙ bit_xor_comm c b')

crc_bytes-Lossless : (bytes : List ℕ) → All IsByte bytes → Lossless (λ c. foldl crc_byte c bytes)
crc_bytes-Lossless [] small = record { stays = λ c h. h; injective = λ c d h k same. same }
crc_bytes-Lossless (b ∷ bytes) small =
    let now = crc_byte-Lossless b small.0 in
    let later = crc_bytes-Lossless bytes small.1 in
    record {
      stays = λ c h. later.stays (crc_byte c b) (now.stays c h);
      injective = λ c d h k same.
          now.injective c d h k
            (later.injective (crc_byte c b) (crc_byte d b) (now.stays c h) (now.stays d k) same);
    }

last_xor-injective :
    (e e' : ℕ)
    → IsU32 e
    → IsU32 e'
    → bit_xor e 0xffffffff % 2 ^ 32 ≡ bit_xor e' 0xffffffff % 2 ^ 32
    → e ≡ e'
last_xor-injective e e' h h' same = bit_xor-injective e e' 0xffffffff (
    omega (
      arith,
      bit_xor_lt 32 e 0xffffffff h (omega arith),
      bit_xor_lt 32 e' 0xffffffff h' (omega arith),
      same,
    ))

-- Byte strings that differ in one byte have different checksums.
pub checksum_ieee_altered :
    (pre post : List ℕ) (b b' : ℕ)
    → All IsByte pre
    → All IsByte post
    → IsByte b
    → IsByte b'
    → b ≢ b'
    → checksum_ieee (pre ++ (b ∷ post)) ≢ checksum_ieee (pre ++ (b' ∷ post))
unfolding checksum_ieee
checksum_ieee_altered pre post b b' front back small small' other same =
    let c = foldl crc_byte 0xffffffff pre in
    let start : IsU32 c = (crc_bytes-Lossless pre front).stays 0xffffffff (omega arith) in
    let rest = crc_bytes-Lossless post back in
    let d = crc_byte c b in
    let d' = crc_byte c b' in
    let one : IsU32 d = (crc_byte-Lossless b small).stays c start in
    let two : IsU32 d' = (crc_byte-Lossless b' small').stays c start in
    let last = λ (s : ℕ). bit_xor s 0xffffffff % 2 ^ 32 in
    let ends : foldl crc_byte d post ≡ foldl crc_byte d' post =
      last_xor-injective (foldl crc_byte d post) (foldl crc_byte d' post) (rest.stays d one)
        (rest.stays d' two)
        (ap last (sym (foldl-append crc_byte 0xffffffff pre (b ∷ post)))
          ∙ same
          ∙ ap last (foldl-append crc_byte 0xffffffff pre (b' ∷ post))) in
    other (crc_byte_other c b b' start small small' (rest.injective d d' one two ends))
