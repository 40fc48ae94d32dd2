-- ===== src/Prelude.antt =====
-- The names that every other module shares: the libraries' own, passed on, and those of the children
-- (Boolean tests on native numbers, lists measured by them, byte strings, machine-width counters).
mod Tests
mod Lists
mod Strings
mod Find
mod Int
unfoldable pub use Tests.*
pub use Lists.*
unfoldable pub use Strings.*
pub use Find.*
unfoldable pub use Int.*
pub use Prim.Native.Nat.{ℕ, zero, suc, ◌+◌, ◌-◌, ◌*◌, ◌/◌, ◌%◌, ◌^◌, ◌≤◌, ◌<◌}
pub use mathlib.Core.Path.{◌≡◌, refl, sym, ap, ◌∙◌, subst}
pub use mathlib.Core.Logic.{◌≢◌, ◌↔◌, ◌⊎◌, inl, inr}
pub use mathlib.Core.Bool.{Bool, true, false, not, ◌&&◌, ◌||◌}
pub use mathlib.Core.Option.{Option, none, some}
pub use mathlib.Core.List.{List, [], ◌∷◌, ◌++◌, append_assoc, append-nil}
pub use native.Mathlib.Omega.{arith}
