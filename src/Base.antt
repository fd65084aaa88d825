-- ===== src/Base.antt =====
-- The names that all modules share: the libraries', passed on, and those of the children, which
-- hold Boolean tests, functions as arrays, signed results, bits of words and machine words.
mod Tests
mod Arrays
mod Signed
mod Bits
mod Masks
mod Words
pub use Tests.*
unfoldable pub use Arrays.{update, array_loop}
pub use Arrays.*
pub use Signed.*
unfoldable pub use Bits.{bit}
pub use Bits.*
pub use Masks.*
pub use Words.*
pub use Prim.Native.Nat.{ℕ, zero, suc, ◌+◌, ◌-◌, ◌*◌, ◌/◌, ◌%◌, ◌^◌, ◌≤◌, ◌<◌, bit_and, bit_or}
pub use mathlib.Core.Path.{◌≡◌, refl, sym, ap, ◌∙◌, subst, fun_ext}
pub use mathlib.Core.Logic.{◌≢◌, ◌↔◌, ◌⊎◌, inl, inr}
pub use mathlib.Core.Bool.{Bool, true, false, ◌&&◌, ◌||◌, not}
pub use mathlib.Core.Option.{Option, none, some}
pub use mathlib.Core.List.{List, [], ◌∷◌, ◌++◌, map}
pub use native.Mathlib.Omega.{arith}
