-- ===== src/Index/Config.antt =====
-- Index configurations that the constructor accepts.
use dattaniddhi.Prelude.{ℕ, ◌≡◌, true, false, [], is_not_positive, arith, ok}
use dattaniddhi.Index.{
  IndexConfig, is_index_type, is_metric, new_index_config, validate, new_linear_index,
}

-- What a configuration promises.
pub record IsConfig (index_type metric dimension : ℕ) (cfg : IndexConfig) : Type 0 where
  pub index_type_is : cfg.index_type ≡ index_type
  pub known_type : is_index_type cfg.index_type ≡ true
  pub known_metric : is_metric cfg.metric ≡ true
  pub metric_is : cfg.metric ≡ metric
  pub dimension_is : cfg.dimension ≡ dimension
  pub dimension_positive : is_not_positive cfg.dimension ≡ false
  pub validated : validate cfg ≡ ok tt
  pub created : new_linear_index cfg ≡ ok (record { vectors = []; config = cfg })

-- A configuration that NewIndexConfig builds has the type, metric and dimension it was given; these
-- are known and the dimension is positive; it passes Validate, so that NewLinearIndex builds an
-- empty index of it.
pub new_index_config-IsConfig :
    (index_type metric dimension : ℕ) {cfg : IndexConfig}
    → new_index_config index_type metric dimension ≡ ok cfg
    → IsConfig index_type metric dimension cfg
unfolding new_index_config validate new_linear_index
new_index_config-IsConfig index_type metric dimension h = record {
  index_type_is = ground arith;
  known_type = ground arith;
  known_metric = ground arith;
  metric_is = ground arith;
  dimension_is = ground arith;
  dimension_positive = ground arith;
  validated = ground arith;
  created = ground arith;
}
