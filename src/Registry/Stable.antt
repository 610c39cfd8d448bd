-- ===== src/Registry/Stable.antt =====
-- An index that was handed out is handed out again.
use dattaniddhi.Prelude.{◌≡◌, List, [], ◌∷◌, some, arith}
use dattaniddhi.Prelude.Maps.{lookup, lookup-insert}
use dattaniddhi.Index.{IndexConfig}
use dattaniddhi.Registry.{
  config_eq, IndexRegistry, get_or_create_index, same_config→eq, same_config_refl,
}

module _ (Idx : Type 0) where
  -- The registry behind a sequence of calls.
  pub run_calls : List IndexConfig → IndexRegistry Idx → IndexRegistry Idx
  run_calls [] ir = ir
  run_calls (cfg ∷ cfgs) ir = run_calls cfgs (get_or_create_index Idx cfg ir).0

  registered :
      (cfg : IndexConfig) (ir : IndexRegistry Idx)
      → lookup cfg (get_or_create_index Idx cfg ir).0.registry
        ≡ some (get_or_create_index Idx cfg ir).1
  unfolding get_or_create_index
  registered cfg ir =
      ground
        (arith, same_config_refl cfg, lookup-insert cfg cfg (ir.factory ir.calls cfg).0 ir.registry)

  kept :
      (cfg other : IndexConfig) (ir : IndexRegistry Idx) (idx : Idx)
      → lookup cfg ir.registry ≡ some idx
      → lookup cfg (get_or_create_index Idx other ir).0.registry ≡ some idx
  unfolding get_or_create_index
  kept cfg other ir idx h = ground (
    arith,
    same_config→eq other cfg,
    lookup-insert other cfg (ir.factory ir.calls other).0 ir.registry,
  )

  run_calls-kept :
      (cfg : IndexConfig) (cfgs : List IndexConfig) (ir : IndexRegistry Idx) (idx : Idx)
      → lookup cfg ir.registry ≡ some idx
      → lookup cfg (run_calls cfgs ir).registry ≡ some idx
  unfolding run_calls
  run_calls-kept cfg [] ir idx h = h
  run_calls-kept cfg (other ∷ cfgs) ir idx h =
      run_calls-kept cfg cfgs (get_or_create_index Idx other ir).0 idx (kept cfg other ir idx h)

  found_again :
      (cfg : IndexConfig) (ir : IndexRegistry Idx) (idx : Idx)
      → lookup cfg ir.registry ≡ some idx
      → get_or_create_index Idx cfg ir ≡ (ir, idx)
  unfolding get_or_create_index
  found_again cfg ir idx h = rw (get_or_create_index, h)

  -- The index that GetOrCreateIndex returns for a configuration is returned again for it behind any
  -- sequence of calls for any configurations, and the factory is not called for it again.
  pub get_or_create_index-run_calls :
      (cfg : IndexConfig) (cfgs : List IndexConfig) (ir : IndexRegistry Idx)
      → let later = run_calls cfgs (get_or_create_index Idx cfg ir).0 in
        get_or_create_index Idx cfg later ≡ (later, (get_or_create_index Idx cfg ir).1)
  get_or_create_index-run_calls cfg cfgs ir =
      let first = get_or_create_index Idx cfg ir in
      found_again cfg (run_calls cfgs first.0) first.1
        (run_calls-kept cfg cfgs first.0 first.1 (registered cfg ir))
