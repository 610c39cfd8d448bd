-- ===== src/Registry.antt =====
-- internal/ingest/registry.go: one index for each configuration. Indexes are pointers, of a type
-- `Idx`; a call of the factory is told how many came before it, since each makes a new index.
mod Examples
pub mod Stable
use dattaniddhi.Prelude.{
  ℕ, ◌+◌, ◌≡◌, refl, ap, Bool, true, ◌&&◌, List, [], ◌∷◌, Option, none, some, arith, ◌==◌, ==→eq,
  ==_refl,
}
use dattaniddhi.Prelude.Maps.{Eq, Map, lookup, insert}
use dattaniddhi.Index.{IndexConfig, IndexError}

-- `==` on the struct.
abbrev pub same_config : IndexConfig → IndexConfig → Bool
same_config a b =
    (a.index_type == b.index_type) && ((a.metric == b.metric) && (a.dimension == b.dimension))

pub same_config→eq : (a b : IndexConfig) → same_config a b ≡ true → a ≡ b
same_config→eq a b h = ground arith

pub same_config_refl : (a : IndexConfig) → same_config a a ≡ true
same_config_refl a = ground arith

instance abbrev pub config_eq : Eq IndexConfig
config_eq = record { beq = same_config; beq→eq = same_config→eq; beq_refl = same_config_refl }

module _ (Idx : Type 0) where
  -- IndexFactory: an index and an error, which may both be there.
  abbrev pub IndexFactory : Type 0
  IndexFactory = ℕ → IndexConfig → Idx × Option IndexError

  -- indexRegistry, with the number of calls that its factory has had.
  pub record IndexRegistry : Type 0 where
    pub registry : Map IndexConfig Idx
    pub factory : IndexFactory
    pub calls : ℕ

  unfoldable pub new_index_registry : IndexFactory → IndexRegistry
  new_index_registry f = record { registry = []; factory = f; calls = 0 }

  -- GetOrCreateIndex; the error of CreateIndex is not looked at.
  unfoldable pub get_or_create_index : IndexConfig → IndexRegistry → IndexRegistry × Idx
  get_or_create_index cfg ir = elim (lookup cfg ir.registry) [
    | some idx ↦ (ir, idx)
    | none ↦
        let (idx, failure) = ir.factory ir.calls cfg in
        (record ir { registry = insert cfg idx ir.registry; calls = ir.calls + 1 }, idx)
  ]
