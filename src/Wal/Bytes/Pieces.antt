-- ===== src/Wal/Bytes/Pieces.antt =====
-- Pieces of a byte slice that a decoder reads, one behind the other.
use dattaniddhi.Prelude.{
  ℕ, suc, ◌+◌, ◌-◌, ◌*◌, ◌/◌, ◌%◌, ◌^◌, ◌≤◌, ◌<◌, ◌≡◌, refl, ap, List, [], ◌∷◌, ◌++◌, subst, sym,
  ◌∙◌, arith, length, take, drop, slice, All, All-split, take-append-drop, length-take,
}
use dattaniddhi.Wal.Bytes.{IsByte, put_uint, uint}
use dattaniddhi.Wal.Bytes.Cursor.{At, At-skip}

bytes_bound : (n b u : ℕ) → b < 256 → u < 256 ^ n → b + 256 * u < 256 ^ suc n
bytes_bound n b u small h = omega arith

-- A number that was read from bytes is written as these bytes.
pub put_uint-uint :
    (bs : List ℕ)
    → All IsByte bs
    → (uint bs < 256 ^ length bs) × (put_uint (length bs) (uint bs) ≡ bs)
put_uint-uint [] small = (omega arith, refl)
put_uint-uint (b ∷ bs) small =
    let (fits, same) = put_uint-uint bs small.1 in
    let low : (b + 256 * uint bs) % 256 ≡ b = omega (arith, small.0) in
    let high : (b + 256 * uint bs) / 256 ≡ uint bs = omega (arith, small.0) in
    (
      bytes_bound (length bs) b (uint bs) small.0 fits,
      ap (λ c. c ∷ put_uint (length bs) ((b + 256 * uint bs) / 256)) low
          ∙ ap (λ q. b ∷ put_uint (length bs) q) high
          ∙ ap (λ r. b ∷ r) same,
    )

-- Bytes that a decoder has read: from `offset` on, `n` of them.
pub record Piece (pl : List ℕ) (offset n : ℕ) (rest : List ℕ) : Type 0 where
  pub left : List ℕ
  pub splits : rest ≡ slice pl offset (offset + n) ++ left
  pub width : length (slice pl offset (offset + n)) ≡ n
  pub at_left : At pl (offset + n) left
  pub bytes : All IsByte (slice pl offset (offset + n)) × All IsByte left

pub piece :
    {pl : List ℕ} {offset : ℕ} (n : ℕ) (rest : List ℕ)
    → At pl offset rest
    → All IsByte rest
    → offset + n ≤ length pl
    → Piece pl offset n rest
piece {pl} {offset} n rest at small room =
    let width : offset + n - offset ≡ n = omega arith in
    let read : slice pl offset (offset + n) ≡ take n rest = rw (width, at.here) refl in
    let splits : rest ≡ slice pl offset (offset + n) ++ drop n rest =
      sym (take-append-drop n rest) ∙ ap (λ a. a ++ drop n rest) (sym read) in
    let size : length (slice pl offset (offset + n)) ≡ n =
      ap length read ∙ omega (arith, length-take n rest, at.size) in
    record {
      left = drop n rest;
      splits = splits;
      width = size;
      at_left =
          At-skip (slice pl offset (offset + n)) (drop n rest) (subst (At pl offset) splits at)
            (offset + n) (omega arith);
      bytes =
          All-split IsByte (slice pl offset (offset + n)) (drop n rest)
            (subst (All IsByte) splits small);
    }

-- A piece that is read as a number.
pub record Number (pl : List ℕ) (offset w : ℕ) (rest : List ℕ) : Type 0 where
  pub left : List ℕ
  pub splits : rest ≡ put_uint w (uint (slice pl offset (offset + w))) ++ left
  pub fits : uint (slice pl offset (offset + w)) < 256 ^ w
  pub at_left : At pl (offset + w) left
  pub bytes : All IsByte left

pub number :
    {pl : List ℕ} {offset : ℕ} (w : ℕ) (rest : List ℕ)
    → At pl offset rest
    → All IsByte rest
    → offset + w ≤ length pl
    → Number pl offset w rest
number {pl} {offset} w rest at small room =
    let p = piece w rest at small room in
    let bs = slice pl offset (offset + w) in
    let (fits, same) = put_uint-uint bs p.bytes.0 in
    record {
      left = p.left;
      splits =
          p.splits
          ∙ ap (λ a. a ++ p.left) (subst (λ n. bs ≡ put_uint n (uint bs)) p.width (sym same));
      fits = subst (λ n. uint bs < 256 ^ n) p.width fits;
      at_left = p.at_left;
      bytes = p.bytes.1;
    }

pub slice-IsByte : (a b : ℕ) (bytes : List ℕ) → All IsByte bytes → All IsByte (slice bytes a b)
slice-IsByte a b bytes small =
    let (front, back) =
      All-split IsByte (take a bytes) (drop a bytes)
        (subst (All IsByte) (sym (take-append-drop a bytes)) small) in
    (All-split IsByte (take (b - a) (drop a bytes)) (drop (b - a) (drop a bytes))
      (subst (All IsByte) (sym (take-append-drop (b - a) (drop a bytes))) back)).0
