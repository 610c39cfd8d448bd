-- ===== src/Prelude.antt =====
-- Names that every module shares: the libraries' passed on, Boolean tests and the conditional,
-- lists over the native numbers, and results that carry an error.
mod Tests
mod Lists
mod Results
mod Slices
mod Words
pub mod Maps
pub mod Perms
pub use Tests.*
pub use Lists.*
unfoldable pub use Lists.{bytes_equal}
pub use Words.*
pub use Slices.*
pub use Results.*
pub use Prim.Native.Nat.{ℕ, zero, suc, ◌+◌, ◌-◌, ◌*◌, ◌/◌, ◌%◌, ◌^◌, ◌≤◌, ◌<◌}
pub use mathlib.Core.Path.{◌≡◌, refl, sym, ap, ap₂, subst, ◌∙◌}
pub use mathlib.Core.Logic.{◌≢◌, ◌↔◌, ◌⊎◌, inl, inr}
pub use mathlib.Core.Bool.{Bool, true, false, not, ◌&&◌, ◌||◌}
pub use mathlib.Core.Option.{Option, none, some}
pub use mathlib.Core.List.{List, [], ◌∷◌, ◌++◌, append-nil, append_assoc}
pub use native.Mathlib.Omega.{arith}
