-- ===== src/Sm2/ScalarMul/Comb.antt =====
-- `mul_g` (sm2/scalar_mul.rs) and the table of sm2/comb_table.rs against the digits of the scalar.
use gm_crypto_rs.Base.{ℕ, zero, suc}
use gm_crypto_rs.Sm2.Field.{CryptoBigint}
use gm_crypto_rs.Sm2.Point.{ProjectivePoint}
use gm_crypto_rs.Sm2.ScalarMul.{double_window}

module _ ⦃big : CryptoBigint⦄ where
  open big use {Fn, fn_retrieve, to_be_bytes}

  -- `i` windows of doublings.
  unfoldable pub doubled : ℕ → ProjectivePoint → ProjectivePoint
  doubled zero q = q
  doubled (suc i) q = doubled i (double_window q)
