-- ===== src/Prelude.antt =====
-- The names that the other modules share: the libraries', passed on, the tests and interfaces of
-- `Tests`, the fallible computations of `Results` and the dictionaries of `Dict`.
pub mod Tests
pub mod Results
pub mod Dict
pub mod Rows
pub mod Int
pub mod Actions
pub mod Clean
pub use Prim.Native.Nat.{ℕ, zero, suc, ◌+◌, ◌-◌, ◌*◌, ◌/◌, ◌%◌, ◌^◌, ◌≤◌, ◌<◌, min}
pub use Prim.Native.String.{String, len}
pub use mathlib.Core.Path.{◌≡◌, refl, sym, ap, ◌∙◌, subst}
pub use mathlib.Core.Logic.{◌≢◌, ◌↔◌, ◌⊎◌, inl, inr}
pub use mathlib.Core.Bool.{Bool, true, false, not, ◌&&◌, ◌||◌}
pub use mathlib.Core.Option.{Option, none, some}
pub use mathlib.Core.List.{List, [], ◌∷◌, ◌++◌, map}
pub use native.Mathlib.Omega.{arith}
pub use text.Mathlib.TextEquality.{eq_iff}
pub use Tests.{
  ltb, leb, nat_beq, str_beq, if◌then◌else◌, Bool-cases, Option-cases, is_some, Eq, ◌==◌, nat_eq,
  string_eq, pair_eq, ==_refl, ==_sound, eq-false-of-ne, ltb→lt, lt→ltb, leb→le,
}
pub use Results.{
  Result, ok, err, ◌>>=◌, ◌>>◌, guard, or_else, map_err, map_ok, >>=-eq-ok, Result-cases,
}
