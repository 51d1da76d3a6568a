-- ===== src/Sm2/ScalarMul/Windows.antt =====
-- `mul_var` and `mul_g` (sm2/scalar_mul.rs) against the digits of the scalar to the base 16.
use gm_crypto_rs.Base.{ℕ, zero, suc, ◌/◌, ◌%◌, ◌^◌}
use gm_crypto_rs.Base.{length, get_or, Subtle}
use gm_crypto_rs.Base.{◌≡◌, refl}
use gm_crypto_rs.Sm2.Field.{CryptoBigint}
use gm_crypto_rs.Sm2.Point.{ProjectivePoint, identity, add}
use gm_crypto_rs.Sm2.ScalarMul.{double_window, running, multiples, window_step}

module _ ⦃big : CryptoBigint⦄ where
  open big use {Fn, fn_retrieve, to_be_bytes}

  -- The entry of the table of `q` for a digit: `q` added up that many times.
  abbrev pub multiple : ProjectivePoint → ℕ → ProjectivePoint
  multiple q digit = get_or (multiples q) digit identity

  pub length-multiples : (q : ProjectivePoint) → length (multiples q) ≡ 16
  unfolding multiples running
  length-multiples q = refl

  -- The lowest `count` digits of `x`, after a digit 1: from the highest digit on, four doublings,
  -- and the digit's multiple is added.
  unfoldable pub horner : ProjectivePoint → ℕ → ℕ → ProjectivePoint
  horner q zero x = q
  horner q (suc count) x = add (double_window (horner q count (x / 16))) (multiple q (x % 16))

  module _ ⦃subtle : Subtle⦄ where
    byte_step : ProjectivePoint → ProjectivePoint → ℕ → ProjectivePoint
    byte_step q acc byte =
        window_step (multiples q) (window_step (multiples q) acc (byte / 2 ^ 4)) (byte % 16)
