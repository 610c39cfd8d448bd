-- ===== src/Vector/Valid.antt =====
-- What newVector promises of a vector, and what it refuses.
use dattaniddhi.Prelude.{ℕ, ◌<◌, ◌≡◌, refl, false, List, [], ◌∷◌, arith, length, All, ok}
use dattaniddhi.Floats.{Floats, is_nan, is_inf}
use dattaniddhi.Vector.{Vector, validate_values, magnitude, divide_all, normalize, new_vector}

-- No value is NaN or infinite.
abbrev pub IsFinite : ℕ → Type 0
IsFinite v = (is_nan v ≡ false) × (is_inf v ≡ false)

pub validate_values-All : (vs : List ℕ) → validate_values vs ≡ ok tt → All IsFinite vs
unfolding validate_values
validate_values-All [] h = tt
validate_values-All (v ∷ vs) h =
    ((ground arith, ground arith), validate_values-All vs (ground arith))

pub record IsVector (vec_values : List ℕ) (dim : ℕ) (v : Vector) : Type 0 where
  pub dimensions_is : v.dimensions ≡ dim
  pub length_is : length v.values ≡ dim
  pub input_length : length vec_values ≡ dim
  pub input_positive : 0 < dim
  pub input_finite : All IsFinite vec_values

length-divide_all :
    (floats : Floats) (m : floats.Float64) (vs : List ℕ)
    → length (divide_all floats m vs) ≡ length vs
length-divide_all floats m [] = refl
length-divide_all floats m (v ∷ vs) = omega (arith, length-divide_all floats m vs)

normalize-length :
    (floats : Floats) (vec out : List ℕ) → normalize floats vec ≡ ok out → length out ≡ length vec
unfolding normalize
normalize-length floats vec out h =
    ground (arith, length-divide_all floats (magnitude floats vec) vec)

-- A vector that NewVector builds has the dimension that was asked for, and as many values; the input
-- had that length, which is not zero, and no NaN and no infinity in it.
pub new_vector-IsVector :
    (floats : Floats) (vec_values : List ℕ) (dim : ℕ) {v : Vector}
    → new_vector floats vec_values dim ≡ ok v
    → IsVector vec_values dim v
unfolding new_vector
new_vector-IsVector floats vec_values dim {v} h = record {
  dimensions_is = ground arith;
  length_is = ground (arith, normalize-length floats vec_values v.values);
  input_length = ground arith;
  input_positive = ground arith;
  input_finite = validate_values-All vec_values (ground arith);
}
