-- ===== src/Base.antt =====
-- Names that the models share: the libraries', passed on, and those of the modules below.
pub mod Tests
pub mod Lists
pub mod Int
pub mod Maps
pub mod Owners
pub mod Sizes
pub mod Keys
pub use Tests.*
pub use Lists.*
pub use Owners.*
pub use Sizes.*
unfoldable pub use Keys.*
unfoldable pub use Maps.*
pub use Prim.Native.Nat.{ℕ, zero, suc, ◌+◌, ◌-◌, ◌*◌, ◌/◌, ◌%◌, ◌≤◌, ◌<◌, min, max}
pub use Prim.Native.String.{String}
pub use mathlib.Core.Path.{◌≡◌, refl, sym, ap, subst, ◌∙◌}
pub use mathlib.Core.Logic.{◌≢◌, ◌↔◌, ◌⊎◌, inl, inr}
pub use mathlib.Core.Bool.{Bool, true, false, not, ◌&&◌, ◌||◌}
pub use mathlib.Core.Option.{Option, none, some}
pub use mathlib.Core.List.{List, [], ◌∷◌, ◌++◌, map}
pub use native.Mathlib.Omega.{arith}
