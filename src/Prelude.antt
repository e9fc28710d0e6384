-- ===== src/Prelude.antt =====
-- The names that the other modules share: library names passed on, tests on numbers, lists over
-- the native numbers, results with errors and panics, slices, machine words and hash maps.
mod Tests
mod Lists
mod Results
mod Slices
mod Words
mod Maps
pub mod Action
pub mod Outcome
pub mod Ends
pub use Tests.*
pub use Lists.*
pub use Results.*
unfoldable pub use Slices.*
pub use Words.*
unfoldable pub use Maps.*
pub use Prim.Native.Nat.{
  ℕ, zero, suc, ◌+◌, ◌-◌, ◌*◌, ◌/◌, ◌%◌, ◌^◌, ◌≤◌, ◌<◌, min, max, bit_and, bit_or,
}
pub use mathlib.Core.Path.{◌≡◌, refl, sym, ap, ap₂, subst, ◌∙◌}
pub use mathlib.Core.Logic.{◌≢◌, ◌↔◌, ◌⊎◌, inl, inr}
pub use mathlib.Core.Bool.{Bool, true, false, not, ◌&&◌, ◌||◌}
pub use mathlib.Core.Option.{Option, none, some}
pub use mathlib.Core.List.{
  List, [], ◌∷◌, ◌++◌, map, foldl, reverse, append-nil, append_assoc, reverse-append,
}
pub use native.Mathlib.Omega.{arith}
