-- ===== src/Prelude/Maps.antt =====
-- Go's maps as association lists. A lookup finds the first entry of a key.
pub mod Sizes
use mathlib.Core.Path.{◌≡◌, refl, ap}
use mathlib.Core.Bool.{Bool, true}
use mathlib.Core.Option.{Option, none, some}
use mathlib.Core.List.{List, [], ◌∷◌}
use Prim.Native.Nat.{ℕ}
use native.Mathlib.Omega.{arith}
use dattaniddhi.Prelude.Tests.{◌==◌ as nat_beq, ==→eq, ==_refl, if◌then◌else◌}
use dattaniddhi.Prelude.Lists.{bytes_equal, bytes_equal→eq, bytes_equal_refl}

-- Keys that can be compared.
pub record Eq (K : Type 0) : Type 0 where
  pub beq : K → K → Bool
  pub beq→eq : (a b : K) → beq a b ≡ true → a ≡ b
  pub beq_refl : (a : K) → beq a a ≡ true

instance abbrev pub nat_eq : Eq ℕ
nat_eq = record { beq = nat_beq; beq→eq = ==→eq; beq_refl = ==_refl }

instance abbrev pub bytes_eq : Eq (List ℕ)
bytes_eq = record { beq = bytes_equal; beq→eq = bytes_equal→eq; beq_refl = bytes_equal_refl }

abbrev pub Map : Type 0 → Type 0 → Type 0
Map K V = List (K × V)

module _ {K : Type 0} ⦃e : Eq K⦄ where
  same_key : (i k j : K) → e.beq i k ≡ true → e.beq i j ≡ e.beq k j
  same_key i k j h = ap (λ t. e.beq t j) (e.beq→eq i k h)

  two_keys : (i k j : K) → e.beq i j ≡ true → e.beq k j ≡ true → e.beq i k ≡ true
  two_keys i k j h h' = rw (e.beq→eq i j h, e.beq→eq k j h') (e.beq_refl j)

module _ {K V : Type 0} ⦃e : Eq K⦄ where
  -- `v, ok := m[k]`
  unfoldable pub lookup : K → Map K V → Option V
  lookup k [] = none
  lookup k ((j, v) ∷ m) = if e.beq j k then some v else lookup k m

  -- `m[k] = v`
  unfoldable pub insert : K → V → Map K V → Map K V
  insert k v [] = (k, v) ∷ []
  insert k v ((j, w) ∷ m) = if e.beq j k then (j, v) ∷ m else (j, w) ∷ insert k v m

  -- `delete(m, k)`
  unfoldable pub delete : K → Map K V → Map K V
  delete k [] = []
  delete k ((j, w) ∷ m) = let rest = delete k m in if e.beq j k then rest else (j, w) ∷ rest

  pub lookup-insert :
      (k j : K) (v : V) (m : Map K V)
      → lookup j (insert k v m) ≡ (if e.beq k j then some v else lookup j m)
  unfolding lookup insert
  lookup-insert k j v [] = refl
  lookup-insert k j v ((i, w) ∷ m) =
      ground (arith, same_key i k j, two_keys i k j, lookup-insert k j v m)

  pub lookup-delete :
      (k j : K) (m : Map K V) → lookup j (delete k m) ≡ (if e.beq k j then none else lookup j m)
  unfolding lookup delete
  lookup-delete k j [] = ground arith
  lookup-delete k j ((i, w) ∷ m) =
      ground (arith, same_key i k j, two_keys i k j, lookup-delete k j m)

module _ {K V W : Type 0} ⦃e : Eq K⦄ (f : V → W) where
  -- Every value of a map replaced.
  abbrev pub map_values : Map K V → Map K W
  map_values [] = []
  map_values ((k, v) ∷ m) = (k, f v) ∷ map_values m

  pub map_values-insert :
      (k : K) (v : V) (m : Map K V) → map_values (insert k v m) ≡ insert k (f v) (map_values m)
  unfolding insert
  map_values-insert k v [] = refl
  map_values-insert k v ((j, w) ∷ m) = ground (arith, map_values-insert k v m)

  pub map_values-delete : (k : K) (m : Map K V) → map_values (delete k m) ≡ delete k (map_values m)
  unfolding delete
  map_values-delete k [] = refl
  map_values-delete k ((j, w) ∷ m) = ground (arith, map_values-delete k m)
