-- ===== src/Common.antt =====
-- The names that every module shares: the libraries', passed on, Boolean tests and lists over the
-- native numbers, the outcomes of checked Rust arithmetic, and the laws of shifts and masks.
mod Tests
mod Lists
mod Outcome
mod Bits
pub use Tests.*
pub use Lists.*
unfoldable pub use Outcome.*
pub use Bits.*
pub use Prim.Native.Nat.{
  ℕ, zero, suc, ◌+◌, ◌-◌, ◌*◌, ◌/◌, ◌%◌, ◌^◌, ◌≤◌, ◌<◌, min, max, bit_and, bit_or,
}
pub use mathlib.Core.Path.{◌≡◌, refl, sym, ap, ◌∙◌, subst}
pub use mathlib.Core.Logic.{◌≢◌, ◌↔◌, ◌⊎◌, inl, inr}
pub use mathlib.Core.Bool.{Bool, true, false, not, ◌&&◌, ◌||◌}
pub use mathlib.Core.Option.{Option, none, some}
pub use mathlib.Core.List.{List, [], ◌∷◌, ◌++◌, map}
pub use native.Mathlib.Omega.{arith}
pub use native.Mathlib.Nat.{pow-suc, one-le-pow, mul_assoc, mul_comm}
