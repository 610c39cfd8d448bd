-- ===== src/Collection/Search.antt =====
-- (c *Collection) Search of internal/collection/collection.go, over the index's Search.
pub mod Named
use dattaniddhi.Prelude.{
  ℕ, List, [], ◌∷◌, none, some, length, ◌==◌, Result, ok, err, ◌>>=◌, ◌>>◌, require,
}
use dattaniddhi.Prelude.Maps.{nat_eq, Map, lookup}
use dattaniddhi.Floats.{Floats}
use dattaniddhi.Json.{Json}
use dattaniddhi.Vector.{Vector, new_vector}
use dattaniddhi.Index.Search.{SortFunc, SearchResult, search}
use dattaniddhi.Collection.{
  CollectionError, Collection, invalid_dimension, id_not_mapped, vector_failed, index_failed, lift,
}

-- Result, with scores of type `F`.
pub record NamedResult (F : Type 0) : Type 0 where
  pub vec_id : List ℕ
  pub score : F

-- The loop that puts external ids for internal ones.
unfoldable pub name_results :
    {F : Type 0}
    → Map ℕ (List ℕ)
    → List (SearchResult F)
    → Result CollectionError (List (NamedResult F))
name_results m [] = ok []
name_results m (r ∷ rs) =
    let rest = name_results m rs in
    elim (lookup r.vec_id m) [
      | none ↦ err id_not_mapped
      | some ext ↦ rest >>= λ named. ok (record { vec_id = ext; score = r.score } ∷ named)
    ]

module _ (floats : Floats) (json : Json) (order : Map ℕ Vector → Map ℕ Vector)
    (sort : SortFunc (SearchResult floats.Float64)) where
  unfoldable pub search_vectors :
      Collection json.Value
      → List ℕ
      → ℕ
      → Result CollectionError (List (NamedResult floats.Float64))
  search_vectors c query_vals k = do
    require (c.config.dimension == length query_vals) invalid_dimension
    query_vector ← lift vector_failed (new_vector floats query_vals c.config.dimension)
    idx_result ← lift index_failed (search floats order sort c.memory.index (some query_vector) k)
    name_results c.memory.int_to_ext idx_result
