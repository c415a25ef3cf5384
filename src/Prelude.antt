-- ===== src/Prelude.antt =====
-- The names that the other modules share: those of the libraries and of the children, passed on.
mod Tests
mod Lists
mod Words
mod Slices
mod Search
mod Shift
mod Delete
mod Bits
mod Texts
pub use Tests.*
unfoldable pub use Lists.*
pub use Words.*
pub use Slices.*
pub use Search.*
pub use Shift.*
pub use Delete.*
pub use Bits.*
pub use Texts.*
pub use Prim.Native.Nat.{
  ℕ, zero, suc, ◌+◌, ◌-◌, ◌*◌, ◌/◌, ◌%◌, ◌^◌, ◌≤◌, ◌<◌, min, max, bit_and, bit_or,
}
pub use mathlib.Core.Path.{◌≡◌, refl, sym, ap, ◌∙◌, subst, fun_ext}
pub use mathlib.Core.Logic.{◌≢◌, ◌↔◌, ◌⊎◌, inl, inr}
pub use mathlib.Core.Bool.{Bool, true, false, not, ◌&&◌, ◌||◌}
pub use mathlib.Core.Option.{Option, none, some}
pub use mathlib.Core.List.{List, [], ◌∷◌, ◌++◌, map, append_assoc, append-nil}
pub use native.Mathlib.Omega.{arith}
