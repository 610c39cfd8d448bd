-- ===== src/Vector/Sums.antt =====
-- The similarities as sums over the places of two vectors.
use dattaniddhi.Prelude.{ℕ, ◌≡◌, refl, List, [], ◌∷◌, length, ==_refl, ok}
use dattaniddhi.Floats.{Floats}
use dattaniddhi.Vector.{dot_loop, dot_product, cosine, euclidean_loop, euclidean}

module _ (floats : Floats) where
  open floats use {Float64, widen, zero64, add, subtract, multiply, negate}

  -- A value for each place that both vectors have.
  abbrev pub at_each_place : (Float64 → Float64 → Float64) → List ℕ → List ℕ → List Float64
  at_each_place f [] ys = []
  at_each_place f (x ∷ xs) [] = []
  at_each_place f (x ∷ xs) (y ∷ ys) = f (widen x) (widen y) ∷ at_each_place f xs ys

  -- The sum from the left.
  abbrev pub sum_from : Float64 → List Float64 → Float64
  sum_from sum [] = sum
  sum_from sum (t ∷ ts) = sum_from (add sum t) ts

  abbrev pub inner_product : List ℕ → List ℕ → Float64
  inner_product xs ys = sum_from zero64 (at_each_place multiply xs ys)

  abbrev squared_difference : Float64 → Float64 → Float64
  squared_difference x y = multiply (subtract x y) (subtract x y)

  abbrev pub squared_distance : List ℕ → List ℕ → Float64
  squared_distance xs ys = sum_from zero64 (at_each_place squared_difference xs ys)

  dot_loop-sum_from :
      (xs ys : List ℕ) (sum : Float64)
      → dot_loop floats xs ys sum ≡ sum_from sum (at_each_place multiply xs ys)
  unfolding dot_loop
  dot_loop-sum_from [] ys sum = refl
  dot_loop-sum_from (x ∷ xs) [] sum = refl
  dot_loop-sum_from (x ∷ xs) (y ∷ ys) sum =
      dot_loop-sum_from xs ys (add sum (multiply (widen x) (widen y)))

  euclidean_loop-sum_from :
      (xs ys : List ℕ) (sum : Float64)
      → euclidean_loop floats xs ys sum ≡ sum_from sum (at_each_place squared_difference xs ys)
  unfolding euclidean_loop
  euclidean_loop-sum_from [] ys sum = refl
  euclidean_loop-sum_from (x ∷ xs) [] sum = refl
  euclidean_loop-sum_from (x ∷ xs) (y ∷ ys) sum =
      euclidean_loop-sum_from xs ys (add sum (squared_difference (widen x) (widen y)))

  module _ (xs ys : List ℕ) (same : length xs ≡ length ys) where
    pub dot_product-inner_product : dot_product floats xs ys ≡ ok (inner_product xs ys)
    unfolding dot_product
    dot_product-inner_product = rw (same, ==_refl (length ys), dot_loop-sum_from xs ys zero64)

    pub cosine-inner_product : cosine floats xs ys ≡ ok (inner_product xs ys)
    unfolding cosine
    cosine-inner_product = rw (dot_product-inner_product, same, ==_refl (length ys))

    pub euclidean-squared_distance : euclidean floats xs ys ≡ ok (negate (squared_distance xs ys))
    unfolding euclidean
    euclidean-squared_distance =
        rw (same, ==_refl (length ys), euclidean_loop-sum_from xs ys zero64)
