-- ===== src/Wal/Names.antt =====
-- Segment file names: fmt.Sprintf("%010d.waldrky", id) of segment.go, and the suffix test and
-- strconv.ParseUint of wal.go and recovery.go.
pub mod RoundTrip
use dattaniddhi.Prelude.{
  ℕ, zero, suc, ◌+◌, ◌-◌, ◌*◌, ◌/◌, ◌%◌, ◌^◌, Bool, ◌&&◌, not, List, [], ◌∷◌, ◌++◌, Option, none,
  some, length, take, drop, replicate, bytes_equal, ltb, leb, if◌then◌else◌,
}

-- ".waldrky"
abbrev pub suffix : List ℕ
suffix = b'.' ∷ b'w' ∷ b'a' ∷ b'l' ∷ b'd' ∷ b'r' ∷ b'k' ∷ b'y' ∷ []

-- The decimal digits of `n` in front of `acc`.
decimal_loop : ℕ → ℕ → List ℕ → List ℕ
decimal_loop zero n acc = acc
decimal_loop (suc fuel) n acc =
    let acc' = (48 + n % 10) ∷ acc in
    let rest = decimal_loop fuel (n / 10) acc' in if ltb n 10 then acc' else rest

-- A uint64 has 20 digits at most.
pub decimal : ℕ → List ℕ
unfolding decimal_loop
decimal n = decimal_loop 20 n []

-- "%010d.waldrky"
unfoldable pub segment_file_name : ℕ → List ℕ
unfolding decimal
segment_file_name id =
    let digits = decimal id in (replicate (10 - length digits) 48 ++ digits) ++ suffix

-- strings.HasSuffix(name, ".waldrky")
unfoldable pub has_suffix : List ℕ → Bool
has_suffix name =
    leb (length suffix) (length name)
    && bytes_equal (drop (length name - length suffix) name) suffix

-- strings.TrimSuffix(name, ".waldrky") where the suffix is there.
abbrev pub trim_suffix : List ℕ → List ℕ
trim_suffix name = take (length name - length suffix) name

parse_loop : List ℕ → ℕ → Option ℕ
parse_loop [] n = some n
parse_loop (c ∷ cs) n =
    let n' = n * 10 + (c - 48) in
    let rest = parse_loop cs n' in if leb 48 c && (leb c 57 && ltb n' (2 ^ 64)) then rest else none

-- strconv.ParseUint(s, 10, 64); its errors are one `none`.
unfoldable pub parse_uint : List ℕ → Option ℕ
unfolding parse_loop
parse_uint [] = none
parse_uint (c ∷ cs) = parse_loop (c ∷ cs) 0
