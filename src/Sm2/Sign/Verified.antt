-- ===== src/Sm2/Sign/Verified.antt =====
-- `verify_with_id` (sm2/verify.rs) on what `sign_with_id` (sm2/sign.rs) returns.
use gm_crypto_rs.Base.{ℕ, ◌+◌, ◌*◌, ◌%◌, true}
use gm_crypto_rs.Base.{List, some}
use gm_crypto_rs.Base.{◌≡◌, refl, ap, ap₂, ◌∙◌, Subtle}
use gm_crypto_rs.Base.Residues.{mod-mul-mod}
use native.Mathlib.Nat.{add-mod-mod, mod-add-mod}
use gm_crypto_rs.Asn1.Sig.{encode_sig}
use gm_crypto_rs.Asn1.Sig.Codec.{decode_sig-encode_sig}
use gm_crypto_rs.Sm2.Field.{CryptoBigint, n}
use gm_crypto_rs.Sm2.Point.{add}
use gm_crypto_rs.Sm2.ScalarMul.{mul_g, mul_var}
use gm_crypto_rs.Sm2.Keys.{Sm2PrivateKey, public_key, from_point}
use gm_crypto_rs.Sm2.Sign.{TryCryptoRng, message_scalar, sign_raw_with_id, sign_with_id}
use gm_crypto_rs.Sm2.Sign.Scalars.{IsSigned}
use gm_crypto_rs.Sm2.Sign.Accepted.{sign_raw-HasNonce}
use gm_crypto_rs.Sm2.Verify.{verify_with_id}
use gm_crypto_rs.Sm2.Verify.Steps.{
  affine_x, to_be_bytes-IsScalar, read_back, retrieve-sum, mul_g_ext, out_of_range-InRange,
  check_iff, accepts, affine_x_of,
}

module _ ⦃big : CryptoBigint⦄ where
  open big use {Fp, Fn, fn_new, fn_add, fn_mul, fn_retrieve, retrieve, to_be_bytes}

  module _ ⦃subtle : Subtle⦄ where
    -- `s + (r + s) * d` as the source computes it is the nonce.
    nonce_again :
        (key : Sm2PrivateKey) (e k x1 r s : ℕ)
        → IsSigned (fn_retrieve key.d) e k x1 r s
        → fn_retrieve (fn_add (fn_new s) (fn_mul (fn_add (fn_new r) (fn_new s)) key.d)) ≡ k
    nonce_again key e k x1 r s h =
        let d = fn_retrieve key.d in
        let t = fn_add (fn_new r) (fn_new s) in
        let product : fn_retrieve (fn_mul t key.d) ≡ ((r + s) * d) % n =
          big.fn_retrieve-mul t key.d
          ∙ ap (λ a. (a * d) % n) (retrieve-sum r s)
          ∙ mod-mul-mod n (r + s) d in
        big.fn_retrieve-add (fn_new s) (fn_mul t key.d)
        ∙ ap₂ (λ a b. (a + b) % n) (big.fn_retrieve-new s) product
        ∙ mod-add-mod s n (((r + s) * d) % n)
        ∙ add-mod-mod s ((r + s) * d) n
        ∙ h.second

    module _ {R : Type 0} ⦃source : TryCryptoRng R⦄ where
      signs :
          (key : Sm2PrivateKey) (id message sig : List ℕ) (rng rng' : R) (r s : ℕ)
          → sign_raw_with_id key id message rng ≡ some (some (r, s), rng')
          → encode_sig (to_be_bytes r) (to_be_bytes s) ≡ some sig
          → sign_with_id key id message rng ≡ some (some sig, rng')
      unfolding sign_with_id
      signs key id message sig rng rng' r s h e = rw (sign_with_id, h, e) refl

      -- If `sign_raw_with_id` returns the scalars `r` and `s`, and the point that
      -- `verify_with_id` computes from them, `s * G + (r + s) * P`, has the abscissa of `(s + (r
      -- + s) * d) * G`, then `sign_with_id` returns a DER string, without a panic, and
      -- `verify_with_id` under the public key accepts it for the same identity and message.
      pub sign_with_id-verify_with_id :
          (key : Sm2PrivateKey) (id message : List ℕ) (rng rng' : R) (r s : ℕ)
          → sign_raw_with_id key id message rng ≡ some (some (r, s), rng')
          → (affine_x (add (mul_g (fn_new s)) (mul_var (fn_add (fn_new r) (fn_new s)) key.public))
              ≡ affine_x (mul_g (fn_add (fn_new s) (fn_mul (fn_add (fn_new r) (fn_new s)) key.d))))
          → (sig : List ℕ) × (sign_with_id key id message rng ≡ some (some sig, rng'))
            × (verify_with_id (public_key key) id message sig ≡ some true)
      unfolding public_key from_point
      sign_with_id-verify_with_id key id message rng rng' r s h linear =
          let (z, at, short, has) = sign_raw-HasNonce key id message rng rng' r s h in
          let e = message_scalar z message in
          let x1 = retrieve has.x1 in
          let signed = has.signed in
          let (sig, encoded, decoded) =
            decode_sig-encode_sig (to_be_bytes r) (to_be_bytes s)
              (to_be_bytes-IsScalar r signed.r_below signed.r_nonzero)
              (to_be_bytes-IsScalar s signed.s_below signed.s_nonzero) in
          let again =
            mul_g_ext (fn_add (fn_new s) (fn_mul (fn_add (fn_new r) (fn_new s)) key.d)) has.nonce
              (nonce_again key (fn_retrieve e) (fn_retrieve has.nonce) x1 r s signed) in
          let found : affine_x
                (add (mul_g (fn_new s)) (mul_var (fn_add (fn_new r) (fn_new s)) key.public))
              ≡ some x1 =
            linear ∙ ap affine_x again ∙ affine_x_of (mul_g has.nonce) has.x1 has.y1 has.at in
          (
            sig,
            signs key id message sig rng rng' r s h encoded,
            accepts (public_key key) id message sig (to_be_bytes r) (to_be_bytes s) z r s short
                decoded (read_back r signed.r_below) (read_back s signed.s_below)
                ((out_of_range-InRange r s).1 (record {
                  r_nonzero = signed.r_nonzero;
                  s_nonzero = signed.s_nonzero;
                  r_below = signed.r_below;
                  s_below = signed.s_below;
                  sum_nonzero = signed.sum_nonzero;
                }))
                at
                ((check_iff e r
                    (add (mul_g (fn_new s)) (mul_var (fn_add (fn_new r) (fn_new s)) key.public))).1
                  (x1, found, signed.first)),
          )
