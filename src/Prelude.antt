-- ===== src/Prelude.antt =====
-- The names that the other modules share: the libraries', passed on, and those of five children:
-- Boolean tests, lists measured by native numbers, bytes and their
-- readings as numbers, and the outcome of a call.
mod Tests
mod Lists
mod ByteStrings
mod Words
mod Errors
pub use Tests.*
pub use Lists.*
unfoldable pub use ByteStrings.*
pub use Words.*
pub use Errors.*
pub use Prim.Native.Nat.{ℕ, zero, suc, ◌+◌, ◌-◌, ◌*◌, ◌/◌, ◌%◌, ◌^◌, ◌≤◌, ◌<◌, min}
pub use mathlib.Core.Path.{◌≡◌, refl, sym, ap, subst, ◌∙◌}
pub use mathlib.Core.Logic.{◌≢◌, ◌↔◌, ◌⊎◌, inl, inr}
pub use mathlib.Core.Bool.{Bool, true, false, not, ◌&&◌, ◌||◌}
pub use mathlib.Core.Option.{Option, none, some}
pub use mathlib.Core.List.{List, [], ◌∷◌, ◌++◌, map, append-nil, append_assoc}
pub use native.Mathlib.Omega.{arith}
