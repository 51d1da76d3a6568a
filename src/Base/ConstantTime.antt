-- ===== src/Base/ConstantTime.antt =====
-- The operations of the crate `subtle` that the program calls, with what its documentation says of
-- them. A `Choice` is the Boolean that `bool::from` makes of it, and `&` and `!` on choices are
-- those on Booleans. Only the values are stated; that the time is constant is no part of the model.
use Prim.Native.Nat.{ℕ, ◌<◌}
use mathlib.Core.Path.{◌≡◌}
use mathlib.Core.Logic.{◌↔◌}
use mathlib.Core.Bool.{Bool, true, false}
use mathlib.Core.List.{List}
use mathlib.Core.Option.{Option, none, some}
use gm_crypto_rs.Base.Tests.{if◌then◌else◌}
use gm_crypto_rs.Base.Bytes.{IsByte, IsBytes}

pub record Subtle : Type 0 where
  -- `ct_eq` and `ct_gt` on `u8`, and `ct_eq` on byte slices
  pub ct_eq : ℕ → ℕ → Bool
  pub ct_gt : ℕ → ℕ → Bool
  pub ct_eq_bytes : List ℕ → List ℕ → Bool
  -- `u8::conditional_select(a, b, choice)`
  pub conditional_select : ℕ → ℕ → Bool → ℕ
  pub ct_eq_iff : (a b : ℕ) → IsByte a → IsByte b → (ct_eq a b ≡ true) ↔ (a ≡ b)
  pub ct_gt_iff : (a b : ℕ) → IsByte a → IsByte b → (ct_gt a b ≡ true) ↔ (b < a)
  pub ct_eq_bytes_iff :
      (xs ys : List ℕ) → IsBytes xs → IsBytes ys → (ct_eq_bytes xs ys ≡ true) ↔ (xs ≡ ys)
  pub select_false : (a b : ℕ) → conditional_select a b false ≡ a
  pub select_true : (a b : ℕ) → conditional_select a b true ≡ b

-- `CtOption<T>`: a value, and whether it counts. `into` makes the `Option` of it.
pub record CtOption {ℓ} (A : Type ℓ) : Type ℓ where
  pub value : A
  pub is_some : Bool

abbrev pub into {ℓ} : {A : Type ℓ} → CtOption A → Option A
into c = if c.is_some then some c.value else none
