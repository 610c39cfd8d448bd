-- ===== src/Wal/Crc/Xor.antt =====
-- Exclusive or, bit by bit: what the checksum needs of it.
use Prim.Native.Nat.{bit_xor, bit_xor-bitwise, digits, differ}
use dattaniddhi.Prelude.{
  ℕ, zero, suc, ◌+◌, ◌*◌, ◌/◌, ◌%◌, ◌^◌, ◌≤◌, ◌<◌, ◌≡◌, refl, sym, ap, ◌∙◌, arith,
}

-- More rounds than the first number has digits change nothing.
digits_enough :
    (n m a b : ℕ) → a ≤ n → a ≤ m → digits (λ x. x) differ n a b ≡ digits (λ x. x) differ m a b
digits_enough zero zero a b h h' = refl
digits_enough zero (suc m) zero b h h' = refl
digits_enough zero (suc m) (suc a) b h h' = absurd (omega arith)
digits_enough (suc n) zero zero b h h' = refl
digits_enough (suc n) zero (suc a) b h h' = absurd (omega arith)
digits_enough (suc n) (suc m) zero b h h' = refl
digits_enough (suc n) (suc m) (suc a) b h h' =
    ap (λ q. q * 2 + differ (suc a % 2) (b % 2))
      (digits_enough n m (suc a / 2) (b / 2) (omega arith) (omega arith))

bit_xor-digits : (a b : ℕ) → bit_xor a b ≡ digits (λ x. x) differ a a b
bit_xor-digits a b = λ i. bit_xor-bitwise a b i

pub bit_xor_zero : (b : ℕ) → bit_xor 0 b ≡ b
bit_xor_zero b = bit_xor-digits 0 b

pub bit_xor_step : (a b : ℕ) → bit_xor a b ≡ bit_xor (a / 2) (b / 2) * 2 + differ (a % 2) (b % 2)
bit_xor_step zero b = omega (arith, bit_xor_zero b, bit_xor_zero (b / 2))
bit_xor_step (suc a) b =
    bit_xor-digits (suc a) b
    ∙ ap (λ q. q * 2 + differ (suc a % 2) (b % 2))
        (digits_enough a (suc a / 2) (suc a / 2) (b / 2) (omega arith) (omega arith)
          ∙ sym (bit_xor-digits (suc a / 2) (b / 2)))

differ_bits : (a b : ℕ) → a < 2 → b < 2 → (differ a b < 2) × (differ (differ a b) b ≡ a)
differ_bits zero b h h' = (h', differ_same b)
  where
    differ_same : (b : ℕ) → differ b b ≡ 0
    differ_same zero = refl
    differ_same (suc b) = differ_same b
differ_bits (suc zero) zero h h' = (omega arith, refl)
differ_bits (suc zero) (suc zero) h h' = (omega arith, refl)
differ_bits (suc zero) (suc (suc b)) h h' = absurd (omega arith)
differ_bits (suc (suc a)) b h h' = absurd (omega arith)

bits_of : (a b : ℕ) → differ (a % 2) (b % 2) < 2
bits_of a b = (differ_bits (a % 2) (b % 2) (omega arith) (omega arith)).0

-- Taking the exclusive or twice gives the number back.
undone : (n a b : ℕ) → a ≤ n → b ≤ n → bit_xor (bit_xor a b) b ≡ a
undone zero zero zero h h' = refl
undone zero (suc a) b h h' = absurd (omega arith)
undone zero zero (suc b) h h' = absurd (omega arith)
undone (suc n) a b h h' =
    let step = bit_xor_step a b in
    let d = differ (a % 2) (b % 2) in
    let small = bits_of a b in
    let half : bit_xor a b / 2 ≡ bit_xor (a / 2) (b / 2) = omega arith in
    let low : bit_xor a b % 2 ≡ d = omega arith in
    let again = undone n (a / 2) (b / 2) (omega arith) (omega arith) in
    let digit = (differ_bits (a % 2) (b % 2) (omega arith) (omega arith)).1 in
    bit_xor_step (bit_xor a b) b
    ∙ ap (λ q. bit_xor q (b / 2) * 2 + differ (bit_xor a b % 2) (b % 2)) half
    ∙ ap (λ q. q * 2 + differ (bit_xor a b % 2) (b % 2)) again
    ∙ ap (λ q. a / 2 * 2 + differ q (b % 2)) low
    ∙ omega (arith, digit)

pub bit_xor-bit_xor : (a b : ℕ) → bit_xor (bit_xor a b) b ≡ a
bit_xor-bit_xor a b = undone (a + b) a b (omega arith) (omega arith)

pub bit_xor_lt : (k a b : ℕ) → a < 2 ^ k → b < 2 ^ k → bit_xor a b < 2 ^ k
bit_xor_lt zero zero b h h' = omega (arith, bit_xor_zero b)
bit_xor_lt zero (suc a) b h h' = absurd (omega arith)
bit_xor_lt (suc k) a b h h' =
    omega (
      arith,
      bit_xor_step a b,
      bits_of a b,
      bit_xor_lt k (a / 2) (b / 2) (omega arith) (omega arith),
    )

pub bit_xor_ge : (k a b : ℕ) → a < 2 ^ k → 2 ^ k ≤ b → 2 ^ k ≤ bit_xor a b
bit_xor_ge zero zero b h h' = omega (arith, bit_xor_zero b)
bit_xor_ge zero (suc a) b h h' = absurd (omega arith)
bit_xor_ge (suc k) a b h h' =
    omega (
      arith,
      bit_xor_step a b,
      bits_of a b,
      bit_xor_ge k (a / 2) (b / 2) (omega arith) (omega arith),
    )

differ_comm : (a b : ℕ) → differ a b ≡ differ b a
differ_comm zero zero = refl
differ_comm zero (suc b) = refl
differ_comm (suc a) zero = refl
differ_comm (suc a) (suc b) = differ_comm a b

swapped : (n a b : ℕ) → a ≤ n → b ≤ n → bit_xor a b ≡ bit_xor b a
swapped zero zero zero h h' = refl
swapped zero (suc a) b h h' = absurd (omega arith)
swapped zero zero (suc b) h h' = absurd (omega arith)
swapped (suc n) a b h h' = omega (
  arith,
  bit_xor_step a b,
  bit_xor_step b a,
  differ_comm (a % 2) (b % 2),
  swapped n (a / 2) (b / 2) (omega arith) (omega arith),
)

pub bit_xor_comm : (a b : ℕ) → bit_xor a b ≡ bit_xor b a
bit_xor_comm a b = swapped (a + b) a b (omega arith) (omega arith)
