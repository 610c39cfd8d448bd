-- ===== src/Index/Search.antt =====
-- (li *LinearIndex) Search of internal/index/linear.go. The order in which a map is read and
-- slices.SortFunc are parameters.
pub mod Best
use Prim.Native.Nat.{Ordering}
use dattaniddhi.Prelude.{
  ℕ, zero, suc, ◌-◌, Bool, not, ◌++◌, List, [], ◌∷◌, Option, none, some, length, take, ◌==◌,
  if◌then◌else◌, is_not_positive, int_lt, Result, ok, err, ◌>>=◌, ◌>>◌, require,
}
use dattaniddhi.Prelude.Maps.{Map}
use dattaniddhi.Floats.{Floats}
use dattaniddhi.Vector.{Vector, VectorError, cosine, dot_product, euclidean}
use dattaniddhi.Index.{
  IndexError, LinearIndex, empty_query, query_dimension_mismatch, invalid_result_count,
  similarity_failed, metric_cosine, metric_dot, metric_euclidean,
}

-- SearchResult, with scores of type `F`.
pub record SearchResult (F : Type 0) : Type 0 where
  pub vec_id : ℕ
  pub score : F

-- slices.SortFunc on slices of `A`.
abbrev pub SortFunc : Type 0 → Type 0
SortFunc A = (A → A → Ordering) → List A → List A

-- `result[:k]` of a slice whose capacity is `size`: behind the length stand zero values.
abbrev pub zeros : {A : Type 0} → A → ℕ → List A
zeros a zero = []
zeros a (suc n) = a ∷ zeros a n

abbrev pub reslice : {A : Type 0} → A → ℕ → ℕ → List A → List A
reslice a size k xs = take k (xs ++ zeros a (size - length xs))

module _ (floats : Floats) where
  -- The function that SortFunc is given.
  abbrev pub compare_results : SearchResult floats.Float64 → SearchResult floats.Float64 → Ordering
  compare_results a b = floats.compare b.score a.score

  -- The loops of Search, one for each metric.
  abbrev pub score_all :
      (List ℕ → List ℕ → Result VectorError floats.Float64)
      → List ℕ
      → Map ℕ Vector
      → Result IndexError (List (SearchResult floats.Float64))
  score_all f q [] = ok []
  score_all f q ((key, val) ∷ m) =
      let rest = score_all f q m in
      elim (f val.values q) [
        | err e ↦ err (similarity_failed e)
        | ok sim_score ↦ rest >>= λ result. ok (record { vec_id = key; score = sim_score } ∷ result)
      ]

  unfoldable pub score_by :
      ℕ → List ℕ → Map ℕ Vector → Result IndexError (List (SearchResult floats.Float64))
  score_by metric q m =
      if metric == metric_cosine
      then score_all (cosine floats) q m
      else if metric == metric_dot
      then score_all (dot_product floats) q m
      else if metric == metric_euclidean
      then score_all (euclidean floats) q m
      else ok []

  module _ (order : Map ℕ Vector → Map ℕ Vector)
      (sort : SortFunc (SearchResult floats.Float64)) where
    -- Behind the test of an empty index; a nil query is `none`.
    unfoldable pub search_query :
        LinearIndex → Option Vector → ℕ → Result IndexError (List (SearchResult floats.Float64))
    search_query li none k = err empty_query
    search_query li (some query) k = do
      require (li.config.dimension == query.dimensions) query_dimension_mismatch
      require (not (is_not_positive k)) invalid_result_count
      result ← score_by li.config.metric query.values (order li.vectors)
      let sorted = sort compare_results result
      let size = length li.vectors
      let none_scored : SearchResult floats.Float64 = record { vec_id = 0; score = floats.zero64 }
      ok (if int_lt size k then sorted else reslice none_scored size k sorted)

    unfoldable pub search :
        LinearIndex → Option Vector → ℕ → Result IndexError (List (SearchResult floats.Float64))
    search li query k = if length li.vectors == 0 then ok [] else search_query li query k
