-- ===== src/Index/Strings.antt =====
-- internal/types/indextype.go: the names of the index types.
use dattaniddhi.Prelude.{
  ℕ, ◌≡◌, ◌≢◌, true, List, [], ◌∷◌, Option, none, some, ◌==◌, if◌then◌else◌, arith,
}
use dattaniddhi.Index.{linear_index, hnsw_index, ivf_index, pq_index, is_index_type}

-- "LinearIndex", "HNSWIndex", "IVFIndex" and "PQIndex", byte for byte.
abbrev linear_string : List ℕ
linear_string = b'L' ∷ b'i' ∷ b'n' ∷ b'e' ∷ b'a' ∷ b'r' ∷ b'I' ∷ b'n' ∷ b'd' ∷ b'e' ∷ b'x' ∷ []

abbrev hnsw_string : List ℕ
hnsw_string = b'H' ∷ b'N' ∷ b'S' ∷ b'W' ∷ b'I' ∷ b'n' ∷ b'd' ∷ b'e' ∷ b'x' ∷ []

abbrev ivf_string : List ℕ
ivf_string = b'I' ∷ b'V' ∷ b'F' ∷ b'I' ∷ b'n' ∷ b'd' ∷ b'e' ∷ b'x' ∷ []

abbrev pq_string : List ℕ
pq_string = b'P' ∷ b'Q' ∷ b'I' ∷ b'n' ∷ b'd' ∷ b'e' ∷ b'x' ∷ []

-- (it IndexType) String; none is the panic.
unfoldable pub index_type_string : ℕ → Option (List ℕ)
index_type_string it =
    if it == linear_index
    then some linear_string
    else if it == hnsw_index
    then some hnsw_string
    else if it == ivf_index
    then some ivf_string
    else if it == pq_index
    then some pq_string
    else none

-- String panics on no valid index type.
pub index_type_string-valid : (it : ℕ) → is_index_type it ≡ true → index_type_string it ≢ none
unfolding index_type_string
index_type_string-valid it h = grind arith

-- Two valid index types with the same name are the same.
pub index_type_string-injective :
    (it it' : ℕ) {s : List ℕ}
    → index_type_string it ≡ some s
    → index_type_string it' ≡ some s
    → it ≡ it'
unfolding index_type_string
index_type_string-injective it it' h h' = grind arith
