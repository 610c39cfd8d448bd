-- ===== src/Registry/Examples.antt =====
-- The registry with a factory that numbers its indexes.
use dattaniddhi.Prelude.{ℕ, ◌≡◌, [], ◌∷◌, none}
use dattaniddhi.Index.{IndexConfig, linear_index, hnsw_index, metric_cosine}
use dattaniddhi.Registry.{IndexRegistry, new_index_registry, get_or_create_index}
use dattaniddhi.Registry.Stable.{run_calls, get_or_create_index-run_calls}

abbrev linear : IndexConfig
linear = record { index_type = linear_index; metric = metric_cosine; dimension = 3 }

abbrev graph : IndexConfig
graph = record { index_type = hnsw_index; metric = metric_cosine; dimension = 3 }

abbrev empty : IndexRegistry ℕ
empty = new_index_registry ℕ (λ calls cfg. (calls, none))

get_or_create_index-run_calls_example :
    let later = run_calls ℕ (graph ∷ (linear ∷ [])) (get_or_create_index ℕ linear empty).0 in
    get_or_create_index ℕ linear later ≡ (later, (get_or_create_index ℕ linear empty).1)
get_or_create_index-run_calls_example =
    get_or_create_index-run_calls ℕ linear (graph ∷ (linear ∷ [])) empty
