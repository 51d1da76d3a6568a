-- ===== src/Sm2/Keys.antt =====
-- sm2/private_key.rs and sm2/public_key.rs: the key types.
pub mod Range
use gm_crypto_rs.Base.{ℕ, Bool, not, ◌&&◌, List, Subtle, CtOption}
use gm_crypto_rs.Sm2.Field.{CryptoBigint, n}
use gm_crypto_rs.Sm2.Point.{ProjectivePoint}
use gm_crypto_rs.Sm2.ScalarMul.{mul_g}

module _ ⦃big : CryptoBigint⦄ where
  open big use {Fn, fn_new, fn_retrieve, ct_eq, ct_lt, wrapping_sub, from_be_slice, to_be_bytes}

  pub record Sm2PublicKey : Type 0 where
    pub point : ProjectivePoint

  pub record Sm2PrivateKey : Type 0 where
    pub d : Fn
    pub public : ProjectivePoint

  unfoldable pub from_point : ProjectivePoint → Sm2PublicKey
  from_point point = record { point = point }

  unfoldable pub public_key : Sm2PrivateKey → Sm2PublicKey
  public_key self = from_point self.public

  unfoldable pub to_bytes_be : Sm2PrivateKey → List ℕ
  to_bytes_be self = to_be_bytes (fn_retrieve self.d)

  module _ ⦃subtle : Subtle⦄ where
    unfoldable pub from_scalar_inner : ℕ → CtOption Sm2PrivateKey
    from_scalar_inner d =
        let n_minus_one = wrapping_sub n 1 in
        let in_range_low = not (ct_eq d 0) in
        let in_range_high = ct_lt d n_minus_one in
        let valid = in_range_low && in_range_high in
        let d_fn = fn_new d in
        let public = mul_g d_fn in
        record { value = record { d = d_fn; public = public }; is_some = valid }

    unfoldable pub from_bytes_be : List ℕ → CtOption Sm2PrivateKey
    from_bytes_be bytes = from_scalar_inner (from_be_slice bytes)
