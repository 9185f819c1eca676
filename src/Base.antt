-- ===== src/Base.antt =====
-- The names that every part shares: the libraries', passed on, and those of the children: tests on
-- numbers, lists over native numbers, and memory as lists of bytes.
mod Tests
mod Lists
mod Memory
mod Words
mod Bits
mod Texts
pub use Tests.*
pub use Lists.*
unfoldable pub use Memory.*
pub use Words.*
unfoldable pub use Bits.*
pub use Texts.*
pub use Prim.Native.Nat.{
  ℕ, zero, suc, ◌+◌, ◌-◌, ◌*◌, ◌/◌, ◌%◌, ◌^◌, ◌≤◌, ◌<◌, min, max, bit_and, bit_or, bit_xor,
}
pub use mathlib.Core.Path.{◌≡◌, refl, sym, ap, ap₂, subst, ◌∙◌}
pub use mathlib.Core.Logic.{◌≢◌, ◌↔◌, ◌⊎◌, inl, inr}
pub use mathlib.Core.Bool.{Bool, true, false, not, ◌&&◌, ◌||◌}
pub use mathlib.Core.Option.{Option, none, some}
pub use mathlib.Core.List.{List, [], ◌∷◌, ◌++◌, map, append-nil, append_assoc}
pub use native.Mathlib.Omega.{arith}
