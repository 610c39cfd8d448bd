-- ===== src/Vector.antt =====
-- internal/vector: construction, normalization and similarity of vectors.
pub mod Valid
pub mod Sums
use dattaniddhi.Prelude.{
  ℕ, Bool, false, ◌||◌, List, [], ◌∷◌, Option, none, some, length, not, ◌==◌, if◌then◌else◌, Result,
  ok, err, ◌>>=◌, ◌>>◌, require,
}
use dattaniddhi.Floats.{Floats, is_nan, is_inf}

pub data VectorError : Type 0 where
  no_dimension dimension_mismatch contains_nan contains_inf zero_length zero_magnitude : VectorError
  unequal_lengths nil_vectors : VectorError

pub record Vector : Type 0 where
  pub values : List ℕ
  pub dimensions : ℕ

-- validateValues
unfoldable pub validate_values : List ℕ → Result VectorError (Unit {0})
validate_values [] = ok tt
validate_values (v ∷ vs) =
    let rest = validate_values vs in
    if is_nan v then err contains_nan else if is_inf v then err contains_inf else rest

module _ (floats : Floats) where
  open floats use {
    Float64, widen, zero64, add, subtract, multiply, negate, sqrt, epsilon, less, divide32,
  }

  magnitude_loop : List ℕ → Float64 → Float64
  magnitude_loop [] sum = sum
  magnitude_loop (v ∷ vs) sum = magnitude_loop vs (add sum (multiply (widen v) (widen v)))

  unfoldable pub magnitude : List ℕ → Float64
  unfolding magnitude_loop
  magnitude values = sqrt (magnitude_loop values zero64)

  abbrev pub divide_all : Float64 → List ℕ → List ℕ
  divide_all m [] = []
  divide_all m (v ∷ vs) = divide32 v m ∷ divide_all m vs

  unfoldable pub normalize : List ℕ → Result VectorError (List ℕ)
  unfolding magnitude
  normalize vec = do
    require (not (length vec == 0)) zero_length
    let mag_vec = magnitude vec
    require (not (less mag_vec epsilon)) zero_magnitude
    ok (divide_all mag_vec vec)

  unfoldable pub new_vector : List ℕ → ℕ → Result VectorError Vector
  new_vector vec_values dim = do
    require (not (length vec_values == 0)) no_dimension
    require (length vec_values == dim) dimension_mismatch
    validate_values vec_values
    normal_vec ← normalize vec_values
    ok (record { values = normal_vec; dimensions = dim })

  pub dot_loop : List ℕ → List ℕ → Float64 → Float64
  dot_loop [] ys sum = sum
  dot_loop (x ∷ xs) [] sum = sum
  dot_loop (x ∷ xs) (y ∷ ys) sum = dot_loop xs ys (add sum (multiply (widen x) (widen y)))

  unfoldable pub dot_product : List ℕ → List ℕ → Result VectorError Float64
  unfolding dot_loop
  dot_product vec1 vec2 = do
    require (length vec1 == length vec2) unequal_lengths
    ok (dot_loop vec1 vec2 zero64)

  unfoldable pub cosine : List ℕ → List ℕ → Result VectorError Float64
  unfolding dot_product
  cosine vec1 vec2 = do require (length vec1 == length vec2) unequal_lengths; dot_product vec1 vec2

  pub euclidean_loop : List ℕ → List ℕ → Float64 → Float64
  euclidean_loop [] ys sum = sum
  euclidean_loop (x ∷ xs) [] sum = sum
  euclidean_loop (x ∷ xs) (y ∷ ys) sum =
      let d = subtract (widen x) (widen y) in euclidean_loop xs ys (add sum (multiply d d))

  unfoldable pub euclidean : List ℕ → List ℕ → Result VectorError Float64
  unfolding euclidean_loop
  euclidean vec1 vec2 = do
    require (length vec1 == length vec2) unequal_lengths
    ok (negate (euclidean_loop vec1 vec2 zero64))

  -- (v *Vector) Similarity; a nil pointer is `none`.
  pub similarity : Option Vector → Option Vector → Result VectorError Float64
  similarity none other = err nil_vectors
  similarity (some v) none = err nil_vectors
  similarity (some v) (some other) = do
    require (v.dimensions == other.dimensions) dimension_mismatch
    cosine v.values other.values
