-- ===== src/Prelude/Maps/Sizes.antt =====
-- How many entries a map has.
use mathlib.Core.Path.{◌≡◌, refl}
use mathlib.Core.Option.{none, some}
use mathlib.Core.Bool.{true}
use mathlib.Core.List.{[], ◌∷◌}
use Prim.Native.Nat.{◌+◌}
use native.Mathlib.Omega.{arith}
use dattaniddhi.Prelude.Lists.{length}
use dattaniddhi.Prelude.Maps.{Eq, Map, lookup, insert, delete, lookup-insert, lookup-delete}

module _ {K : Type 0} ⦃e : Eq K⦄ where
  same_way : (a b : K) → e.beq a b ≡ true → e.beq b a ≡ true
  same_way a b h = rw (e.beq→eq a b h) (e.beq_refl b)

module _ {K V : Type 0} ⦃e : Eq K⦄ where
  -- No key has two entries.
  abbrev pub IsMap : Map K V → Type 0
  IsMap [] = Unit
  IsMap ((j, v) ∷ m) = (lookup j m ≡ none) × IsMap m

  pub insert-IsMap : (k : K) (v : V) (m : Map K V) → IsMap m → IsMap (insert k v m)
  unfolding insert lookup
  insert-IsMap k v [] h = (refl, tt)
  insert-IsMap k v ((j, w) ∷ m) h =
      ground (arith, insert-IsMap k v m h.1, lookup-insert k j v m, same_way k j)

  pub delete-IsMap : (k : K) (m : Map K V) → IsMap m → IsMap (delete k m)
  unfolding delete
  delete-IsMap k [] h = tt
  delete-IsMap k ((j, w) ∷ m) h = ground (arith, delete-IsMap k m h.1, lookup-delete k j m)

  pub length-insert :
      (k : K) (v : V) (m : Map K V) → lookup k m ≡ none → length (insert k v m) ≡ length m + 1
  unfolding insert lookup
  length-insert k v [] h = refl
  length-insert k v ((j, w) ∷ m) h = ground (arith, length-insert k v m)

  pub delete_missing : (k : K) (m : Map K V) → lookup k m ≡ none → delete k m ≡ m
  unfolding delete lookup
  delete_missing k [] h = refl
  delete_missing k ((j, w) ∷ m) h = ground (arith, delete_missing k m)

  pub length-delete :
      (k : K) {v : V} (m : Map K V)
      → IsMap m
      → lookup k m ≡ some v
      → length (delete k m) + 1 ≡ length m
  unfolding delete lookup
  length-delete k [] h there = cc
  length-delete k {v} ((j, w) ∷ m) h there =
      ground (arith, length-delete k {v = v} m h.1, delete_missing k m, e.beq→eq j k)
