-- ===== src/Base.antt =====
-- Names that all modules share: the libraries' names passed on, Boolean tests on numbers, lists with
-- native indices, and the wrap-around of the machine's 32-bit words.
mod Tests
mod Lists
mod Words
mod Preds
pub mod Int
pub use Tests.*
pub use Lists.*
pub use Words.*
pub use Preds.*
pub use Prim.Native.Nat.{ℕ, zero, suc, ◌+◌, ◌-◌, ◌*◌, ◌/◌, ◌%◌, ◌^◌, ◌≤◌, ◌<◌, min, max}
pub use mathlib.Core.Path.{◌≡◌, refl, sym, ap, ◌∙◌}
pub use mathlib.Core.Logic.{◌≢◌, ◌↔◌, ◌⊎◌, inl, inr}
pub use mathlib.Core.Bool.{Bool, true, false, not, ◌&&◌, ◌||◌}
pub use mathlib.Core.Option.{Option, none, some}
pub use mathlib.Core.List.{List, [], ◌∷◌, ◌++◌, map}
pub use native.Mathlib.Omega.{arith}
