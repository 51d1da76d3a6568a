-- ===== src/Sm2/Verify.antt =====
-- sm2/verify.rs: the test of a signature. A call that panics is `none`.
pub mod Steps
pub mod Exact
use gm_crypto_rs.Base.{
  ℕ, ltb, ◌==◌, Bool, true, false, not, ◌||◌, if◌then◌else◌, List, length, Option, none, some,
  ◌>>=◌,
}
use gm_crypto_rs.Base.{Subtle}
use gm_crypto_rs.Asn1.Sig.{decode_sig}
use gm_crypto_rs.Sm2.Field.{CryptoBigint, n}
use gm_crypto_rs.Sm2.Point.{ProjectivePoint, add, is_identity, to_affine}
use gm_crypto_rs.Sm2.ScalarMul.{mul_g, mul_var}
use gm_crypto_rs.Sm2.Keys.{Sm2PublicKey}
use gm_crypto_rs.Sm2.Sign.{max_id_len, compute_z, message_scalar}

module _ ⦃big : CryptoBigint⦄ where
  open big use {Fn, fn_new, fn_add, fn_retrieve, retrieve, ct_eq, from_be_slice}

  -- `r == 0 || s == 0` and `r >= n || s >= n`, or `r + s` is 0 modulo `n`.
  unfoldable pub out_of_range : ℕ → ℕ → Bool
  out_of_range r s =
      ((r == 0) || (s == 0))
      || ((not (ltb r n) || not (ltb s n)) || ct_eq (fn_retrieve (fn_add (fn_new r) (fn_new s))) 0)

  -- `e + x1` is `r`, with the abscissa of the sum of the two multiples.
  unfoldable pub check : Fn → ℕ → ProjectivePoint → Bool
  check e r combined = elim (to_affine combined) [
    | none ↦ false
    | some (x1, _) ↦ ct_eq (fn_retrieve (fn_add e (fn_new (retrieve x1)))) r
  ]

  module _ ⦃subtle : Subtle⦄ where
    unfoldable pub verify_scalars : Sm2PublicKey → List ℕ → List ℕ → ℕ → ℕ → Option Bool
    verify_scalars public id message r s = if out_of_range r s then some false else do
      z ← compute_z public id
      let t = fn_add (fn_new r) (fn_new s)
      let combined = add (mul_g (fn_new s)) (mul_var t public.point)
      some (check (message_scalar z message) r combined)

    unfoldable pub verify_with_id : Sm2PublicKey → List ℕ → List ℕ → List ℕ → Option Bool
    verify_with_id public id message sig_der =
        if is_identity public.point || ltb max_id_len (length id)
        then some false
        else elim (decode_sig sig_der) [
          | none ↦ some false
          | some (r_be, s_be) ↦
              verify_scalars public id message (from_be_slice r_be) (from_be_slice s_be)
        ]
