-- ===== src/Base.antt =====
-- Names shared by every module: the libraries', passed on, and those of the children: tests on
-- numbers, lists measured by numbers, arrays as functions, results of
-- fallible kernel code, sums over a family.
mod Tests
mod Lists
mod Arrays
mod Results
mod Tally
pub use Tests.*
pub use Lists.*
pub use Arrays.*
pub use Results.*
unfoldable pub use Tally.*
pub use Prim.Native.Nat.{ℕ, zero, suc, ◌+◌, ◌-◌, ◌*◌, ◌/◌, ◌%◌, ◌^◌, ◌≤◌, ◌<◌}
pub use mathlib.Core.Path.{◌≡◌, refl, sym, ap, ◌∙◌}
pub use mathlib.Core.Logic.{◌≢◌, ◌↔◌, ◌⊎◌, inl, inr}
pub use mathlib.Core.Bool.{Bool, true, false, not, ◌&&◌, ◌||◌}
pub use mathlib.Core.Option.{Option, none, some}
pub use mathlib.Core.List.{List, [], ◌∷◌, ◌++◌, map}
pub use native.Mathlib.Omega.{arith}
unfoldable pub use native.Mathlib.Decide.{dec_lt, ℕ_discrete}
