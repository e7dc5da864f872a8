-- ===== src/Shared.antt =====
-- The names that the other modules share: the libraries', passed on, and those of the children.
mod Tests
mod Lists
mod Errors
mod Monad
mod Store
mod Memory
mod Sorting
mod Queries
mod Counting
pub use Tests.*
pub use Lists.*
pub use Errors.*
pub use Monad.*
pub use Store.*
pub use Sorting.{In, Sorted, Strict, Distinct, Sorted-unique}
pub use Queries.{Listing}
pub use Counting.{Counts}
unfoldable pub use Counting.{id_counts}
unfoldable pub use Queries.{id_listing}
unfoldable pub use Memory.{id_rows, pair_rows}
pub use Prim.Native.Nat.{ℕ, zero, suc, ◌+◌, ◌-◌, ◌*◌, ◌/◌, ◌%◌, ◌^◌, ◌≤◌, ◌<◌}
pub use mathlib.Core.Path.{◌≡◌, refl, sym, ap, subst, ◌∙◌}
pub use mathlib.Core.Logic.{◌≢◌, ◌↔◌, ◌⊎◌, inl, inr}
pub use mathlib.Core.Bool.{Bool, true, false, not, ◌&&◌, ◌||◌}
pub use mathlib.Core.Option.{Option, none, some}
pub use mathlib.Core.List.{List, [], ◌∷◌, ◌++◌, map}
pub use native.Mathlib.Omega.{arith}
