-- ===== src/Sm4/Ccm/Exact.antt =====
-- CCM (sm4/mode_ccm.rs): `decrypt` against `encrypt`.
use gm_crypto_rs.Base.{ℕ, ◌+◌, ◌-◌, ◌≤◌, ltb, not, List, ◌++◌, length, take, drop}
use gm_crypto_rs.Base.{true, some, guard, some-injective, >>=-eq-some}
use gm_crypto_rs.Base.{
  guard-eq-some, not-eq-true, Subtle, IsByte, IsBytes, All-drop, ltb→le, le→ltb,
}
use gm_crypto_rs.Base.{◌≡◌, ◌↔◌, refl, sym, ap, ap₂, ◌∙◌, arith, length-append, length-drop}
use gm_crypto_rs.Base.{take_append, drop_append, take-append-drop}
use gm_crypto_rs.Sm4.Cipher.{new}
use gm_crypto_rs.Sm4.Ccm.{
  contains, valid_tag_lens, validate_params, build_a0, compute_tag, ccm_ctr_xor, encrypt,
  decrypt_with_cipher, decrypt,
}
use gm_crypto_rs.Sm4.Ccm.Tag.{
  valid_tag_len, compute_tag_lem, length-ccm_ctr_xor, ccm_ctr_xor-ccm_ctr_xor,
}

validate_params_tag :
    (nonce : List ℕ) (pt_len tag_len : ℕ) {u : Unit {0}}
    → validate_params nonce pt_len tag_len ≡ some u
    → contains valid_tag_lens tag_len ≡ true
unfolding validate_params
validate_params_tag nonce pt_len tag_len h =
    let (_, e, _) = >>=-eq-some (guard (contains valid_tag_lens tag_len)) _ h in guard-eq-some _ e

module _ ⦃subtle : Subtle⦄ where
  encrypt_accepted :
      (key nonce aad plaintext sealed : List ℕ) (tag_len : ℕ)
      → encrypt key nonce aad plaintext tag_len ≡ some sealed
      → decrypt key nonce aad sealed tag_len ≡ some plaintext
  unfolding encrypt decrypt decrypt_with_cipher
  encrypt_accepted key nonce aad plaintext sealed tag_len h =
      let cipher = new key in
      let a0 = build_a0 nonce in
      let tag = compute_tag cipher nonce aad plaintext tag_len in
      let ct = ccm_ctr_xor cipher a0 plaintext in
      let (_, e, f) = >>=-eq-some (validate_params nonce (length plaintext) tag_len) _ h in
      let form : ct ++ tag ≡ sealed = some-injective (ct ++ tag) sealed f in
      let valid = validate_params_tag nonce (length plaintext) tag_len e in
      let (tag_size, tag_bytes) =
        compute_tag_lem cipher nonce aad plaintext tag_len (valid_tag_len tag_len valid) in
      let ct_size : length ct ≡ length plaintext = length-ccm_ctr_xor cipher a0 plaintext in
      let total : length (ct ++ tag) ≡ length ct + tag_len = omega (arith, length-append ct tag) in
      let cut : length (ct ++ tag) - tag_len ≡ length ct = omega arith in
      rw
        (
          ← form,
          valid,
          le→ltb (length (ct ++ tag)) tag_len (omega arith),
          cut,
          take_append (length ct) ct tag refl,
          drop_append (length ct) ct tag refl,
          tag_size,
          ct_size,
          e,
          ccm_ctr_xor-ccm_ctr_xor cipher a0 plaintext,
          (subtle.ct_eq_bytes_iff tag tag tag_bytes tag_bytes).1 refl,
        )
        refl

  accepted_encrypt :
      (key nonce aad plaintext sealed : List ℕ) (tag_len : ℕ)
      → IsBytes sealed
      → decrypt key nonce aad sealed tag_len ≡ some plaintext
      → encrypt key nonce aad plaintext tag_len ≡ some sealed
  unfolding encrypt decrypt decrypt_with_cipher
  accepted_encrypt key nonce aad plaintext sealed tag_len h e =
      let cipher = new key in
      let a0 = build_a0 nonce in
      let split = length sealed - tag_len in
      let ct = take split sealed in
      let wire = drop split sealed in
      let found = ccm_ctr_xor cipher a0 ct in
      let (_, e1, f1) = >>=-eq-some (guard (contains valid_tag_lens tag_len)) _ e in
      let (_, e2, f2) = >>=-eq-some (guard (not (ltb (length sealed) tag_len))) _ f1 in
      let (_, e3, f3) = >>=-eq-some (validate_params nonce (length ct) (length wire)) _ f2 in
      let (_, e4, f4) =
        >>=-eq-some
          (guard (subtle.ct_eq_bytes (compute_tag cipher nonce aad found (length wire)) wire)) _
          f3 in
      let same : found ≡ plaintext = some-injective found plaintext f4 in
      let long : tag_len ≤ length sealed =
        ltb→le (length sealed) tag_len (not-eq-true _ (guard-eq-some _ e2)) in
      let wire_size : length wire ≡ tag_len = omega (arith, length-drop split sealed) in
      let small = valid_tag_len tag_len (guard-eq-some _ e1) in
      let tags : compute_tag cipher nonce aad found (length wire) ≡ wire =
        (subtle.ct_eq_bytes_iff (compute_tag cipher nonce aad found (length wire)) wire
            (compute_tag_lem cipher nonce aad found (length wire) (omega arith)).1
            (All-drop IsByte split sealed h)).0
          (guard-eq-some _ e4) in
      let size : length plaintext ≡ length ct =
        ap length (sym same) ∙ length-ccm_ctr_xor cipher a0 ct in
      let masked : ccm_ctr_xor cipher a0 plaintext ≡ ct =
        ap (ccm_ctr_xor cipher a0) (sym same) ∙ ccm_ctr_xor-ccm_ctr_xor cipher a0 ct in
      rw
        (
          size,
          ap (validate_params nonce (length ct)) (sym wire_size) ∙ e3,
          masked,
          ap₂ (compute_tag cipher nonce aad) (sym same) (sym wire_size) ∙ tags,
        )
        (ap some (take-append-drop split sealed))

  -- For every key, nonce, associated data and tag length, `decrypt` returns a plaintext from a
  -- string of bytes exactly if that string is what `encrypt` returns for this plaintext; every
  -- other string is refused.
  pub ccm_exact :
      (key nonce aad plaintext sealed : List ℕ) (tag_len : ℕ)
      → IsBytes sealed
      → (decrypt key nonce aad sealed tag_len ≡ some plaintext)
        ↔ (encrypt key nonce aad plaintext tag_len ≡ some sealed)
  ccm_exact key nonce aad plaintext sealed tag_len h = (
    accepted_encrypt key nonce aad plaintext sealed tag_len h,
    encrypt_accepted key nonce aad plaintext sealed tag_len,
  )

  -- For parameters that `validate_params` admits, `encrypt` returns a string of the length of the
  -- plaintext and the tag together, and `decrypt` gives the plaintext back from it.
  pub ccm_round_trip :
      (key nonce aad plaintext : List ℕ) (tag_len : ℕ)
      → validate_params nonce (length plaintext) tag_len ≡ some tt
      → (sealed : List ℕ) × (encrypt key nonce aad plaintext tag_len ≡ some sealed)
        × (length sealed ≡ length plaintext + tag_len)
        × (decrypt key nonce aad sealed tag_len ≡ some plaintext)
  ccm_round_trip key nonce aad plaintext tag_len h =
      let cipher = new key in
      let ct = ccm_ctr_xor cipher (build_a0 nonce) plaintext in
      let tag = compute_tag cipher nonce aad plaintext tag_len in
      let small = valid_tag_len tag_len (validate_params_tag nonce (length plaintext) tag_len h) in
      let sealed : encrypt key nonce aad plaintext tag_len ≡ some (ct ++ tag) =
        unfold encrypt in rw h refl in
      (
        ct ++ tag,
        sealed,
        omega (
          arith,
          length-append ct tag,
          length-ccm_ctr_xor cipher (build_a0 nonce) plaintext,
          (compute_tag_lem cipher nonce aad plaintext tag_len small).0,
        ),
        encrypt_accepted key nonce aad plaintext (ct ++ tag) tag_len sealed,
      )
