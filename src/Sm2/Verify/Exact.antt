-- ===== src/Sm2/Verify/Exact.antt =====
-- `verify_with_id` (sm2/verify.rs) against the conditions of GB/T 32918.2.
use gm_crypto_rs.Base.{
  ℕ, ◌+◌, ◌%◌, ◌^◌, ◌<◌, ◌≤◌, ltb, Bool, true, false, ◌||◌, List, length, from_be,
}
use gm_crypto_rs.Base.{none, some, IsBytes, Subtle, from_be-lt, to_be-from_be}
use gm_crypto_rs.Base.{
  ◌≡◌, ◌↔◌, refl, sym, ap, ap₂, ◌∙◌, inl, inr, arith, Bool-cases, Option-cases, some-injective,
  >>=-eq-some,
}
use gm_crypto_rs.Asn1.Sig.{encode_sig, decode_sig}
use gm_crypto_rs.Asn1.Sig.Codec.{IsScalar, decode_sig-encode_sig, decode_sig_canonical}
use gm_crypto_rs.Sm2.Field.{CryptoBigint, n}
use gm_crypto_rs.Sm2.Point.{add, is_identity}
use gm_crypto_rs.Sm2.ScalarMul.{mul_g, mul_var}
use gm_crypto_rs.Sm2.Keys.{Sm2PublicKey}
use gm_crypto_rs.Sm2.Sign.{max_id_len, compute_z, message_scalar}
use gm_crypto_rs.Sm2.Verify.{out_of_range, verify_scalars, verify_with_id}
use gm_crypto_rs.Sm2.Verify.Steps.{
  InRange, affine_x, to_be_bytes-IsScalar, read_back, out_of_range-InRange, check_iff, accepts,
}

refused : ¬ (some false ≡ some true)
refused h = cc

short_id : (a : Bool) (len : ℕ) → (a || ltb 8191 len) ≡ false → len ≤ 8191
short_id a len h = ground arith

module _ ⦃big : CryptoBigint⦄ where
  open big use {fn_new, fn_add, fn_retrieve, to_be_bytes, from_be_slice}

  module _ ⦃subtle : Subtle⦄ where
    -- What the standard asks of a signature: it is the DER form of two scalars in range, and the
    -- abscissa `x1` of `s * G + (r + s) * P` and the digest of `Z` and the message add up to `r`.
    pub record IsAccepted (public : Sm2PublicKey) (id message sig : List ℕ) : Type 0 where
      pub r : ℕ
      pub s : ℕ
      pub z : List ℕ
      pub x1 : ℕ
      pub short : length id ≤ 8191
      pub encoded : encode_sig (to_be_bytes r) (to_be_bytes s) ≡ some sig
      pub in_range : InRange r s
      pub identified : compute_z public id ≡ some z
      pub abscissa :
          affine_x (add (mul_g (fn_new s)) (mul_var (fn_add (fn_new r) (fn_new s)) public.point))
          ≡ some x1
      pub equation : r ≡ (fn_retrieve (message_scalar z message) + x1) % n

    scalars-IsAccepted :
        (public : Sm2PublicKey) (id message sig : List ℕ) (r s : ℕ)
        → length id ≤ 8191
        → encode_sig (to_be_bytes r) (to_be_bytes s) ≡ some sig
        → verify_scalars public id message r s ≡ some true
        → IsAccepted public id message sig
    unfolding verify_scalars
    scalars-IsAccepted public id message sig r s short encoded h =
        elim (Bool-cases (out_of_range r s)) [
          | inl out ↦ absurd (refused (rw out at h))
          | inr range ↦
              let (z, at, f) = >>=-eq-some (compute_z public id) _ (rw range at h) in
              let (x1, found, first) =
                (check_iff (message_scalar z message) r _).0 (some-injective _ _ f) in
              record {
                r = r;
                s = s;
                z = z;
                x1 = x1;
                short = short;
                encoded = encoded;
                in_range = (out_of_range-InRange r s).0 range;
                identified = at;
                abscissa = found;
                equation = first;
              }
        ]

    -- A scalar of 32 bytes is the number that is read from it.
    written_back : (r : List ℕ) → IsScalar r → to_be_bytes (from_be_slice r) ≡ r
    written_back r h =
        let below : from_be r < 256 ^ 32 = from_be-lt 32 r h.bytes h.width in
        ap to_be_bytes (big.from_be_slice_lem r h.width)
        ∙ big.to_be_bytes_lem (from_be r) (omega arith)
        ∙ to_be-from_be 32 r h.bytes h.width

    verify_malformed :
        (public : Sm2PublicKey) (id message sig : List ℕ)
        → (is_identity public.point || ltb max_id_len (length id)) ≡ false
        → decode_sig sig ≡ none
        → verify_with_id public id message sig ≡ some false
    unfolding verify_with_id
    verify_malformed public id message sig good e = rw (verify_with_id, good, e) refl

    verify_decoded :
        (public : Sm2PublicKey) (id message sig r_be s_be : List ℕ)
        → (is_identity public.point || ltb max_id_len (length id)) ≡ false
        → decode_sig sig ≡ some (r_be, s_be)
        → verify_with_id public id message sig
          ≡ verify_scalars public id message (from_be_slice r_be) (from_be_slice s_be)
    unfolding verify_with_id
    verify_decoded public id message sig r_be s_be good e = rw (verify_with_id, good, e) refl

    only_IsAccepted :
        (public : Sm2PublicKey) (id message sig : List ℕ)
        → IsBytes sig
        → verify_with_id public id message sig ≡ some true
        → IsAccepted public id message sig
    unfolding verify_with_id
    only_IsAccepted public id message sig bytes h =
        elim (Bool-cases (is_identity public.point || ltb max_id_len (length id))) [
          | inl bad ↦ absurd (refused (rw bad at h))
          | inr good ↦ elim (Option-cases (decode_sig sig)) [
            | inl malformed ↦
                absurd (refused (sym (verify_malformed public id message sig good malformed) ∙ h))
            | inr ((r_be, s_be), e) ↦
                let (encoded, hr, hs) = decode_sig_canonical sig r_be s_be bytes e in
                scalars-IsAccepted public id message sig (from_be_slice r_be) (from_be_slice s_be)
                  (short_id (is_identity public.point) (length id) good)
                  (ap₂ encode_sig (written_back r_be hr) (written_back s_be hs) ∙ encoded)
                  (sym (verify_decoded public id message sig r_be s_be good e) ∙ h)
          ]
        ]

    -- For every public key, identity, message and string of bytes, `verify_with_id` accepts the
    -- string exactly if it is the canonical DER form of two scalars from 1 to `n - 1` whose sum
    -- does not vanish modulo `n`, the identity has at most 8191 bytes, and the abscissa of `s * G
    -- + (r + s) * P` and the digest of `Z` and the message add up to `r` modulo `n`.
    pub verify_with_id-IsAccepted :
        (public : Sm2PublicKey) (id message sig : List ℕ)
        → IsBytes sig
        → (verify_with_id public id message sig ≡ some true) ↔ IsAccepted public id message sig
    verify_with_id-IsAccepted public id message sig bytes = (
      only_IsAccepted public id message sig bytes,
      λ h.
          let r_scalar = to_be_bytes-IsScalar h.r h.in_range.r_below h.in_range.r_nonzero in
          let s_scalar = to_be_bytes-IsScalar h.s h.in_range.s_below h.in_range.s_nonzero in
          let (sig', encoded, decoded) =
            decode_sig-encode_sig (to_be_bytes h.r) (to_be_bytes h.s) r_scalar s_scalar in
          let same : sig' ≡ sig = some-injective sig' sig (sym encoded ∙ h.encoded) in
          accepts public id message sig (to_be_bytes h.r) (to_be_bytes h.s) h.z h.r h.s h.short
            (ap decode_sig (sym same) ∙ decoded) (read_back h.r h.in_range.r_below)
            (read_back h.s h.in_range.s_below) ((out_of_range-InRange h.r h.s).1 h.in_range)
            h.identified
            ((check_iff (message_scalar h.z message) h.r _).1 (h.x1, h.abscissa, h.equation)),
    )
