-- ===== src/Prelude.antt =====
-- The names that the other modules share: the libraries', passed on, and those of the children.
mod Tests
pub mod Text
mod Lists
mod Count
mod Maps
mod Int
pub use Tests.*
pub use Text.*
pub use Lists.*
pub use Count.*
pub use Maps.*
pub use Int.*
unfoldable pub use Text.{string_discrete, ◌<>◌, decimal, join, show_list}
unfoldable pub use Count.{count}
unfoldable pub use Maps.{update}
unfoldable pub use Int.{◌-ℤ◌, ◌+ℤ◌, show_ℤ, wrap}
pub use Prim.Native.Nat.{ℕ, zero, suc, ◌+◌, ◌-◌, ◌*◌, ◌/◌, ◌%◌, ◌^◌, ◌≤◌, ◌<◌}
pub use Prim.Native.String.{String}
pub use mathlib.Core.Path.{◌≡◌, refl, sym, ap, ◌∙◌, subst, fun_ext}
pub use mathlib.Core.Logic.{◌≢◌, ◌↔◌, ◌⊎◌, inl, inr, ite, if_pos, if_neg}
pub use mathlib.Core.Bool.{Bool, true, false, not, ◌&&◌, ◌||◌}
pub use mathlib.Core.Option.{Option, none, some}
pub use mathlib.Core.List.{List, [], ◌∷◌, ◌++◌, map, append_assoc, append-nil}
pub use native.Mathlib.Omega.{arith}
