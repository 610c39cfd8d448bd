-- ===== src/Index.antt =====
-- internal/index: the configuration and the linear index.
pub mod Config
pub mod Contract
pub mod Examples
pub mod Search
mod Strings
use dattaniddhi.Prelude.{
  ℕ, length, Bool, true, false, ◌||◌, [], Option, none, some, ◌==◌, not, if◌then◌else◌, is_negative,
  is_not_positive, Result, ok, err, ◌>>◌, require,
}
use dattaniddhi.Prelude.Maps.{Map, nat_eq, lookup, insert, delete}
use dattaniddhi.Vector.{Vector, VectorError}

-- types.IndexType, types.SimilarityMetric: their constants.
abbrev pub linear_index : ℕ
linear_index = 1

abbrev pub hnsw_index : ℕ
hnsw_index = 2

abbrev pub ivf_index : ℕ
ivf_index = 3

abbrev pub pq_index : ℕ
pq_index = 4

abbrev pub metric_cosine : ℕ
metric_cosine = 1

abbrev pub metric_dot : ℕ
metric_dot = 2

abbrev pub metric_euclidean : ℕ
metric_euclidean = 3

pub data IndexError : Type 0 where
  invalid_dimension invalid_index_type invalid_metric index_type_required metric_required :
      IndexError
  invalid_id empty_vector index_dimension_mismatch : IndexError
  empty_query query_dimension_mismatch invalid_result_count : IndexError
  similarity_failed : VectorError → IndexError

pub record IndexConfig : Type 0 where
  pub index_type : ℕ
  pub metric : ℕ
  pub dimension : ℕ

abbrev pub is_index_type : ℕ → Bool
is_index_type t =
    (t == linear_index) || ((t == hnsw_index) || ((t == ivf_index) || (t == pq_index)))

abbrev pub is_metric : ℕ → Bool
is_metric m = (m == metric_cosine) || ((m == metric_dot) || (m == metric_euclidean))

unfoldable pub new_index_config : ℕ → ℕ → ℕ → Result IndexError IndexConfig
new_index_config index_type metric dimension = do
  require (not (is_not_positive dimension)) invalid_dimension
  require (is_index_type index_type) invalid_index_type
  require (is_metric metric) invalid_metric
  ok (record { index_type = index_type; metric = metric; dimension = dimension })

-- (c IndexConfig) Validate
unfoldable pub validate : IndexConfig → Result IndexError (Unit {0})
validate c = do
  require (not (c.index_type == 0)) index_type_required
  require (not (c.metric == 0)) metric_required
  require (not (is_not_positive c.dimension)) invalid_dimension

pub record LinearIndex : Type 0 where
  pub vectors : Map ℕ Vector
  pub config : IndexConfig

unfoldable pub new_linear_index : IndexConfig → Result IndexError LinearIndex
unfolding validate
new_linear_index cfg = do validate cfg; ok (record { vectors = []; config = cfg })

-- DefaultIndexFactory.CreateIndex: `none` is the panic on an index type that is not supported.
unfoldable pub create_index : IndexConfig → Option (Result IndexError LinearIndex)
unfolding new_linear_index
create_index cfg = if cfg.index_type == linear_index then some (new_linear_index cfg) else none

-- (li *LinearIndex) Add; a nil vector is `none`.
unfoldable pub add : LinearIndex → ℕ → Option Vector → Result IndexError Bool × LinearIndex
add li id none = if is_negative id then (err invalid_id, li) else (err empty_vector, li)
add li id (some vec) =
    if is_negative id
    then (err invalid_id, li)
    else if not (li.config.dimension == vec.dimensions)
    then (err index_dimension_mismatch, li)
    else elim (lookup id li.vectors) [
      | some old ↦ (ok false, li)
      | none ↦ (ok true, record li { vectors = insert id vec li.vectors })
    ]

-- (li *LinearIndex) Delete never fails.
unfoldable pub remove : LinearIndex → ℕ → LinearIndex
remove li id = record li { vectors = delete id li.vectors }

-- (li *LinearIndex) Get
unfoldable pub get : LinearIndex → ℕ → Option Vector
get li id = lookup id li.vectors

-- (li *LinearIndex) Size
unfoldable pub size : LinearIndex → ℕ
size li = length li.vectors
