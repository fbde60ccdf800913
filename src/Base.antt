-- ===== src/Base.antt =====
-- Names that the modules share: the libraries', passed on, and those of the children. `Tests`
-- has Boolean tests on the native numbers, `Arrays` the C arrays, `Lists` the sequences that
-- the specifications speak of, and `Outcomes` how a kernel call ends.
mod Tests
mod Arrays
mod Lists
mod Outcomes
pub use Tests.*
pub use Arrays.*
pub use Lists.*
pub use Outcomes.*
pub use Prim.Native.Nat.{ℕ, zero, suc, ◌+◌, ◌-◌, ◌*◌, ◌/◌, ◌%◌, ◌^◌, ◌≤◌, ◌<◌}
pub use mathlib.Core.Path.{◌≡◌, refl, sym, ap, ◌∙◌}
pub use mathlib.Core.Logic.{◌≢◌, ◌↔◌, ◌⊎◌, inl, inr}
pub use mathlib.Core.Bool.{Bool, true, false, ◌&&◌, ◌||◌, not}
pub use mathlib.Core.Option.{Option, none, some}
pub use mathlib.Core.List.{List, [], ◌∷◌, ◌++◌, map}
pub use native.Mathlib.Omega.{arith}
