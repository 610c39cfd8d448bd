-- ===== src/Wal/Crc.antt =====
-- hash/crc32's ChecksumIEEE: the reflected CRC with polynomial 0xedb88320, a bit at a time.
mod Xor
pub mod Detects
use Prim.Native.Nat.{bit_xor}
use mathlib.Core.List.{foldl}
use dattaniddhi.Prelude.{ℕ, ◌/◌, ◌%◌, ◌^◌, ◌≡◌, refl, List, [], ◌∷◌, arith, ◌==◌, if◌then◌else◌}
use dattaniddhi.Wal.Bytes.{IsU32}

pub crc_bit : ℕ → ℕ
crc_bit c = if c % 2 == 1 then bit_xor (c / 2) 0xedb88320 else c / 2

pub crc_byte : ℕ → ℕ → ℕ
unfolding crc_bit
crc_byte c b =
    crc_bit (crc_bit (crc_bit (crc_bit (crc_bit (crc_bit (crc_bit (crc_bit (bit_xor c b))))))))

unfoldable pub checksum_ieee : List ℕ → ℕ
unfolding crc_byte
checksum_ieee bytes = bit_xor (foldl crc_byte 0xffffffff bytes) 0xffffffff % 2 ^ 32

pub checksum_ieee-IsU32 : (bytes : List ℕ) → IsU32 (checksum_ieee bytes)
unfolding checksum_ieee
checksum_ieee-IsU32 bytes = omega arith

-- The check value of the algorithm.
check_value :
    checksum_ieee (b'1' ∷ b'2' ∷ b'3' ∷ b'4' ∷ b'5' ∷ b'6' ∷ b'7' ∷ b'8' ∷ b'9' ∷ []) ≡ 0xcbf43926
unfolding checksum_ieee
check_value = refl
