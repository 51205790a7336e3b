-- ===== src/Base.antt =====
-- The names that every other file shares: those of the libraries, passed on, and those of the
-- children on Boolean tests, lists, bits and machine words.
mod Tests
mod Lists
pub mod Bits
pub mod Count
pub mod Cuts
pub mod Ends
pub mod Int
mod Find
pub use Tests.*
pub use Lists.*
unfoldable pub use Find.{find_index}
pub use Find.{FailBelow, Found, find_index-cases, find_index-set, FailBelow-All}
pub use Prim.Native.Nat.{
  ℕ, zero, suc, ◌+◌, ◌-◌, ◌*◌, ◌/◌, ◌%◌, ◌^◌, ◌≤◌, ◌<◌, min, max, bit_and, bit_or, bit_xor,
}
pub use mathlib.Core.Path.{◌≡◌, refl, sym, ap, ap₂, ◌∙◌, ◌≡⟨◌⟩◌, ◌∎, subst}
pub use mathlib.Core.Logic.{◌≢◌, ◌↔◌, ◌⊎◌, inl, inr}
pub use mathlib.Core.Bool.{false≢true, true≢false, Bool, true, false, not, ◌&&◌, ◌||◌}
pub use mathlib.Core.Option.{Option, none, some, some-injective, none-ne-some}
pub use mathlib.Core.List.{List, [], ◌∷◌, ◌++◌, map}
pub use native.Mathlib.Omega.{arith}
