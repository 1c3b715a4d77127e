-- ===== src/Base.antt =====
-- The names that the other modules share: the libraries', passed on, and those of the children:
-- tests and the conditional (Tests), lists over the native numbers (Lists), Go strings as lists of
-- bytes (Text), Go maps as association lists (Table), and Go errors and results (Errors).
mod Tests
mod Lists
mod Text
mod Table
mod Errors
unfoldable pub use Tests.*
pub use Lists.*
unfoldable pub use Text.*
unfoldable pub use Table.*
pub use Errors.*
pub use Prim.Native.Nat.{ℕ, zero, suc, ◌+◌, ◌-◌, ◌*◌, ◌/◌, ◌%◌, ◌^◌, ◌≤◌, ◌<◌}
pub use mathlib.Core.Path.{◌≡◌, refl, sym, ap, ap₂, ◌∙◌, subst, fun_ext}
pub use mathlib.Core.Logic.{◌≢◌, ◌↔◌, ◌⊎◌, inl, inr}
pub use mathlib.Core.Bool.{Bool, true, false, not, ◌&&◌, ◌||◌}
pub use mathlib.Core.Option.{Option, none, some}
pub use mathlib.Core.List.{
  List, [], ◌∷◌, ◌++◌, map, reverse, append-nil, append_assoc, reverse-cons, reverse-append,
  map-append,
}
pub use Prim.Native.String.{String}
pub use native.Mathlib.Omega.{arith}
