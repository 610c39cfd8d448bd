-- ===== src/Wal/Names/RoundTrip.antt =====
-- A segment's file name is recognised, and its number is read back from it.
use dattaniddhi.Prelude.{
  ℕ, zero, suc, ◌+◌, ◌-◌, ◌/◌, ◌%◌, ◌^◌, ◌<◌, ◌≤◌, ◌≡◌, refl, ap, ◌∙◌, true, List, [], ◌∷◌, ◌++◌,
  some, arith, length, length-append, take-append, drop-append, replicate, bytes_equal_refl, leb,
  le→leb,
}
use dattaniddhi.Wal.Bytes.{IsU64}
use dattaniddhi.Wal.Names.{
  suffix, decimal_loop, decimal, segment_file_name, has_suffix, trim_suffix, parse_loop, parse_uint,
}

parse_loop-decimal_loop :
    (fuel n : ℕ) (acc : List ℕ)
    → n < 10 ^ fuel
    → n < 2 ^ 64
    → 0 < fuel
    → parse_loop (decimal_loop fuel n acc) 0 ≡ parse_loop acc n
unfolding parse_loop decimal_loop
parse_loop-decimal_loop zero n acc h fits pos = absurd (omega arith)
parse_loop-decimal_loop (suc zero) n acc h fits pos = ground arith
parse_loop-decimal_loop (suc (suc fuel)) n acc h fits pos =
    ground (arith, parse_loop-decimal_loop (suc fuel) (n / 10) ((48 + n % 10) ∷ acc) (omega arith))

parse_loop-zeros : (k : ℕ) (cs : List ℕ) → parse_loop (replicate k 48 ++ cs) 0 ≡ parse_loop cs 0
unfolding parse_loop
parse_loop-zeros zero cs = refl
parse_loop-zeros (suc k) cs = ground (arith, parse_loop-zeros k cs)

parse_uint-parse_loop : (cs : List ℕ) → 0 < length cs → parse_uint cs ≡ parse_loop cs 0
unfolding parse_uint
parse_uint-parse_loop [] h = absurd (omega arith)
parse_uint-parse_loop (c ∷ cs) h = refl

decimal_loop_longer : (fuel n : ℕ) (acc : List ℕ) → length acc ≤ length (decimal_loop fuel n acc)
unfolding decimal_loop
decimal_loop_longer zero n acc = omega arith
decimal_loop_longer (suc fuel) n acc =
    ground (arith, decimal_loop_longer fuel (n / 10) ((48 + n % 10) ∷ acc))

decimal_pos : (n : ℕ) → 0 < length (decimal n)
unfolding decimal decimal_loop
decimal_pos n = ground (arith, decimal_loop_longer 19 (n / 10) ((48 + n % 10) ∷ []))

abbrev padded : ℕ → List ℕ
padded id = replicate (10 - length (decimal id)) 48 ++ decimal id

parse_uint-padded : (id : ℕ) → IsU64 id → parse_uint (padded id) ≡ some id
parse_uint-padded id fits =
    parse_uint-parse_loop (padded id) (
      omega (
        arith,
        decimal_pos id,
        length-append (replicate (10 - length (decimal id)) 48) (decimal id),
      ))
    ∙ parse_loop-zeros (10 - length (decimal id)) (decimal id)
    ∙ (unfold decimal parse_loop in
        parse_loop-decimal_loop 20 id [] (omega arith) fits (omega arith))

trim_suffix-segment_file_name : (id : ℕ) → trim_suffix (segment_file_name id) ≡ padded id
unfolding segment_file_name
trim_suffix-segment_file_name id =
    let size : length (padded id ++ suffix) - 8 ≡ length (padded id) =
      omega (arith, length-append (padded id) suffix) in
    rw size (take-append (padded id) suffix)

-- The name of a segment file has the suffix.
pub has_suffix-segment_file_name : (id : ℕ) → has_suffix (segment_file_name id) ≡ true
unfolding segment_file_name has_suffix
has_suffix-segment_file_name id =
    let size : length (padded id ++ suffix) - 8 ≡ length (padded id) =
      omega (arith, length-append (padded id) suffix) in
    let room : leb 8 (length (padded id ++ suffix)) ≡ true =
      le→leb 8 _ (omega (arith, length-append (padded id) suffix)) in
    rw (room, size, drop-append) (bytes_equal_refl suffix)

-- The number in a segment's file name is the segment's.
pub parse_uint-segment_file_name :
    (id : ℕ) → IsU64 id → parse_uint (trim_suffix (segment_file_name id)) ≡ some id
parse_uint-segment_file_name id fits =
    ap parse_uint (trim_suffix-segment_file_name id) ∙ parse_uint-padded id fits

-- Segments with different numbers have different file names.
pub segment_file_name_injective :
    (a b : ℕ) → IsU64 a → IsU64 b → segment_file_name a ≡ segment_file_name b → a ≡ b
segment_file_name_injective a b fa fb e = cc (
  parse_uint-segment_file_name a fa,
  parse_uint-segment_file_name b fb,
  ap (λ s. parse_uint (trim_suffix s)) e,
)
