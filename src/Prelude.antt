-- ===== src/Prelude.antt =====
-- The names that the other modules share: the libraries', passed on, and those of the children.
mod Tests
mod Lists
mod Strings
mod Perms
mod Maps
mod Decimal
mod Int
mod Results
mod Floats
pub use Tests.*
pub use Lists.*
pub use Strings.*
unfoldable pub use Strings.{trim_prefix, trim_suffix, is_space, trim_space, lower}
pub use Perms.*
pub use Maps.*
unfoldable pub use Decimal.{decimal}
pub use Int.*
pub use Results.*
pub use Floats.*
unfoldable pub use Int.{show_int}
pub use Decimal.{decimal_injective}
pub use Prim.Native.Nat.{ℕ, zero, suc, ◌+◌, ◌-◌, ◌*◌, ◌/◌, ◌%◌, ◌^◌, ◌≤◌, ◌<◌}
pub use mathlib.Core.Path.{◌≡◌, refl, sym, ap, ◌∙◌, subst}
pub use mathlib.Core.Logic.{◌≢◌, ◌↔◌, ◌⊎◌, inl, inr}
pub use mathlib.Core.Bool.{Bool, true, false, not, ◌&&◌, ◌||◌}
pub use mathlib.Core.Option.{Option, none, some}
pub use mathlib.Core.List.{List, [], ◌∷◌, ◌++◌, map, append-nil, append_assoc, Perm}
pub use native.Mathlib.Omega.{arith}
