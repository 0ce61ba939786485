-- ===== src/Base.antt =====
-- Names that the components share: those of the libraries, Boolean tests on numbers, lists over
-- the native numbers, and arrays as functions.
mod Tests
mod Lists
mod Arrays
mod Options
mod Strings
pub mod Bits
pub mod Sums
pub mod Order
pub mod Assoc
pub mod Segments
pub use Tests.*
pub use Lists.*
pub use Arrays.*
pub use Options.*
pub use Strings.{str_equal_iff, bytes}
unfoldable pub use Strings.{str_equal, cut, has_char}
pub use Prim.Native.Nat.{ℕ, zero, suc, ◌+◌, ◌-◌, ◌*◌, ◌/◌, ◌%◌, ◌^◌, ◌≤◌, ◌<◌}
pub use Prim.Native.Nat.{bit_and, bit_or, bit_xor, min, max}
pub use mathlib.Core.Bool.{Bool, true, false, not, ◌&&◌, ◌||◌}
pub use mathlib.Core.List.{List, [], ◌∷◌, ◌++◌, append-nil, append_assoc}
pub use mathlib.Core.Logic.{◌≢◌, ◌↔◌, ◌⊎◌, inl, inr}
pub use mathlib.Core.Option.{Option, none, some}
pub use mathlib.Core.Path.{◌≡◌, refl, sym, ap, ◌∙◌}
pub use native.Mathlib.Omega.{arith}
