-- ===== src/Prelude/Slices.antt =====
-- Slices of slices: Go's `xs[from:to]` cut again and joined.
use mathlib.Core.Path.{◌≡◌, sym, ap, ◌∙◌}
use mathlib.Core.List.{List, ◌++◌}
use Prim.Native.Nat.{ℕ, ◌+◌, ◌-◌, ◌≤◌}
use native.Mathlib.Omega.{arith}
use dattaniddhi.Prelude.Lists.{
  length, take, drop, slice, length-take, length-drop, take-take, drop-take, take-append-take,
  drop-drop,
}

module _ {ℓ} {A : Type ℓ} (xs : List A) where
  pub length-slice : (a b : ℕ) → b ≤ length xs → length (slice xs a b) ≡ b - a
  length-slice a b h = omega (arith, length-take (b - a) (drop a xs), length-drop a xs)

  pub take-slice : (a b m c : ℕ) → a + m ≤ b → c ≡ a + m → take m (slice xs a b) ≡ slice xs a c
  take-slice a b m c h e =
      let e' : c - a ≡ m = omega arith in
      take-take m (b - a) (drop a xs) (omega arith) ∙ ap (λ k. take k (drop a xs)) (sym e')

  pub drop-slice : (a b m c : ℕ) → a + m ≤ b → c ≡ a + m → drop m (slice xs a b) ≡ slice xs c b
  drop-slice a b m c h e =
      let width : b - a ≡ m + (b - c) = omega arith in
      ap (λ k. drop m (take k (drop a xs))) width
      ∙ drop-take m (b - c) (drop a xs)
      ∙ ap (take (b - c)) (drop-drop m a xs ∙ ap (λ k. drop k xs) (sym e))

  pub slice-append-slice : (a b c : ℕ) → a ≤ b → b ≤ c → slice xs a b ++ slice xs b c ≡ slice xs a c
  slice-append-slice a b c h k =
      let start : a + (b - a) ≡ b = omega arith in
      let width : (b - a) + (c - b) ≡ c - a = omega arith in
      ap (λ o. slice xs a b ++ take (c - b) o)
        (ap (λ k. drop k xs) (sym start) ∙ sym (drop-drop (b - a) a xs))
      ∙ take-append-take (b - a) (c - b) (drop a xs)
      ∙ ap (λ k. take k (drop a xs)) width
