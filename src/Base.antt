-- ===== src/Base.antt =====
-- Names shared by every component: the library's, passed on, and those of the modules below.
mod Tests
mod Equality
mod Lists
mod Dicts
mod Texts
mod Outcomes
mod Stores
mod Jsons
pub use Tests.*
pub use Equality.{Eq, ◌==◌, beq_refl, beq-false, list_beq_iff, list_beq_refl}
unfoldable pub use Equality.{nat_eq, list_eq, list_beq, pair_eq, pair_beq}
unfoldable pub use Lists.*
unfoldable pub use Dicts.*
unfoldable pub use Texts.*
unfoldable pub use Outcomes.*
unfoldable pub use Stores.*
unfoldable pub use Jsons.*
pub use Prim.Native.Nat.{ℕ, zero, suc, ◌+◌, ◌-◌, ◌*◌, ◌/◌, ◌%◌, ◌^◌, ◌≤◌, ◌<◌}
pub use mathlib.Core.Path.{◌≡◌, refl, sym, ap, ◌∙◌}
pub use mathlib.Core.Logic.{◌≢◌, ◌↔◌, ◌⊎◌, inl, inr}
pub use mathlib.Core.Bool.{Bool, true, false, ◌&&◌, ◌||◌, not}
pub use mathlib.Core.Option.{Option, none, some}
pub use mathlib.Core.List.{List, [], ◌∷◌, ◌++◌, map}
pub use native.Mathlib.Omega.{arith}
