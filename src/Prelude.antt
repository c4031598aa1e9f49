-- ===== src/Prelude.antt =====
-- The names that all modules share: the libraries', passed on, and those of the children.
mod Logic
mod Lists
mod Dicts
mod Results
mod Numbers
pub use Logic.*
pub use Lists.*
pub use Dicts.{Dict, member, lookup-nil, lookup-put, lookup-erase, lookup-filter-none, values, keys}
unfoldable pub use Dicts.{lookup, put, erase}
pub use Results.*
pub use Numbers.{Floats, max, min, ℤ, pos, negsuc, ltb_int, eq_int, int_eq}
pub use Prim.Native.Nat.{ℕ, zero, suc, ◌+◌, ◌-◌, ◌*◌, ◌^◌, ◌≤◌, ◌<◌}
pub use Prim.Native.String.{String}
pub use mathlib.Core.Path.{◌≡◌, refl, sym, ap, ◌∙◌, subst}
pub use mathlib.Core.Logic.{◌≢◌, ◌↔◌, ◌⊎◌, inl, inr}
pub use mathlib.Core.Bool.{Bool, true, false, not, ◌&&◌, ◌||◌}
pub use mathlib.Core.Option.{Option, none, some}
pub use mathlib.Core.List.{List, [], ◌∷◌, ◌++◌, map, foldl}
pub use native.Mathlib.Omega.{arith}
