-- ===== src/Floats.antt =====
-- Floating-point arithmetic as the program uses it. A float32 is its bit pattern, so that tests on
-- its bits are computed; float64 and the operations are a parameter, with no laws assumed here.
use Prim.Native.Nat.{Ordering, lt, eq, gt}
use dattaniddhi.Prelude.{ℕ, ◌/◌, ◌%◌, ◌^◌, Bool, not, ◌&&◌, ◌==◌, true, ◌≡◌, ◌≢◌}

-- math.IsNaN and math.IsInf of the float64 that a float32 is widened to.
abbrev pub is_nan : ℕ → Bool
is_nan v = (v / 2 ^ 23 % 256 == 255) && not (v % 2 ^ 23 == 0)

abbrev pub is_inf : ℕ → Bool
is_inf v = (v / 2 ^ 23 % 256 == 255) && (v % 2 ^ 23 == 0)

pub record Floats : Type 1 where
  pub Float64 : Type 0
  -- float64(v)
  pub widen : ℕ → Float64
  pub zero64 : Float64
  pub add : Float64 → Float64 → Float64
  pub subtract : Float64 → Float64 → Float64
  pub multiply : Float64 → Float64 → Float64
  pub negate : Float64 → Float64
  -- math.Sqrt
  pub sqrt : Float64 → Float64
  -- the constant 1e-6, and the test `<`
  pub epsilon : Float64
  pub less : Float64 → Float64 → Bool
  -- cmp.Compare
  pub compare : Float64 → Float64 → Ordering
  -- v / float32(m)
  pub divide32 : ℕ → Float64 → ℕ

-- A comparison that orders its arguments, some of which may count as the same.
pub record IsWeakOrder {A : Type 0} (cmp : A → A → Ordering) : Type 0 where
  pub same : (a : A) → cmp a a ≡ eq
  pub flips_lt : (a b : A) → cmp a b ≡ lt → cmp b a ≡ gt
  pub flips_gt : (a b : A) → cmp a b ≡ gt → cmp b a ≡ lt
  pub not_below : (a b c : A) → cmp b a ≢ lt → cmp c b ≢ lt → cmp c a ≢ lt

-- What cmp.Compare documents: it is an order on all numbers, NaN among them, that agrees with `<`.
pub record CompareLaws (floats : Floats) : Type 0 where
  pub compare_order : IsWeakOrder floats.compare
  pub compare_less : (a b : floats.Float64) → floats.less a b ≡ true → floats.compare a b ≡ lt
