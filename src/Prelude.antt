-- ===== src/Prelude.antt =====
-- The names that the other modules share: the libraries', passed on, and those of the children.
pub mod Tests
pub mod Equality
pub mod Lists
pub mod Int
pub mod Elements
pub mod Tally
pub mod Maps
pub mod Strings
pub mod Float
pub mod World
pub mod Fallible
pub use Tests.*
unfoldable pub use Lists.*
pub use Elements.*
pub use Tally.{tally-append, tally-snoc, tally-middle}
unfoldable pub use Tally.{tally, tally_one}
pub use Int.{ℤ, pos, negsuc, pos_part, neg_part, ltb_ℤ, leb_ℤ, is_nonpos, int_eq}
pub use Strings.{Text, bytes, text_eq, text_beq_iff}
pub use Maps.{
  Keyed, insert-Keyed, Among-keys, keys_missing_iff, GoMap, keys, is_some, has, lookup-insert,
  lookup-insert_self,
}
unfoldable pub use Maps.{lookup, insert, keys_missing}
pub use Float.{Float64, int_floats}
unfoldable pub use Int.{◌+ℤ◌, ◌-ℤ◌}
unfoldable pub use Strings.{text_beq}
pub use Equality.{GoEq, nat_eq, ◌==◌, ◌!=◌, eq_self, ne→beq}
pub use Prim.Native.Nat.{ℕ, zero, suc, ◌+◌, ◌-◌, ◌*◌, ◌/◌, ◌%◌, ◌^◌, ◌≤◌, ◌<◌}
pub use mathlib.Core.Path.{◌≡◌, refl, sym, ap, ◌∙◌, subst}
pub use mathlib.Core.Logic.{◌≢◌, ◌↔◌, ◌⊎◌, inl, inr}
pub use mathlib.Core.Bool.{Bool, true, false, not, ◌&&◌, ◌||◌}
pub use mathlib.Core.Option.{Option, none, some}
pub use mathlib.Core.List.{append_assoc, List, [], ◌∷◌, ◌++◌, map}
pub use native.Mathlib.Omega.{arith}
