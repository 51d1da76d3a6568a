-- ===== src/Base.antt =====
-- The names that the other modules share: those of the libraries, passed on, and those of the
-- children. Bytes and words are plain numbers; a slice or an array is a list of numbers.
mod Tests
mod Lists
mod Bytes
mod Bits
mod Words
mod Loops
mod ConstantTime
pub mod Residues
pub mod Chunks
pub mod Stream
pub mod Plain
pub use Tests.*
pub use Lists.*
unfoldable pub use Bytes.*
pub use Bits.*
pub use Words.*
unfoldable pub use Loops.*
pub use ConstantTime.{Subtle, CtOption, into}
pub use Prim.Native.Nat.{ℕ, zero, suc, ◌+◌, ◌-◌, ◌*◌, ◌/◌, ◌%◌, ◌^◌, ◌≤◌, ◌<◌, min}
pub use Prim.Native.Nat.{bit_and, bit_or, bit_xor}
pub use mathlib.Core.Path.{◌≡◌, refl, sym, ap, ap₂, subst, ◌∙◌}
pub use mathlib.Core.Logic.{◌≢◌, ◌↔◌, ◌⊎◌, inl, inr}
pub use mathlib.Core.Bool.{Bool, true, false, not, ◌&&◌, ◌||◌}
pub use mathlib.Core.Option.{Option, none, some, some-injective}
pub use mathlib.Core.List.{List, [], ◌∷◌, ◌++◌, map, foldl, reverse}
unfoldable pub use mathlib.Core.List.{flatten}
pub use mathlib.Core.List.{append-nil, append_assoc}
pub use native.Mathlib.Omega.{arith}
unfoldable pub use native.Mathlib.Decide.{dec_lt, ℕ_discrete}
