-- ===== src/Sm4/Gcm/Exact.antt =====
-- sm4/mode_gcm.rs: which ciphertexts and tags `decrypt` accepts.
use gm_crypto_rs.Base.{ℕ, leb, true}
use gm_crypto_rs.Base.{List, [], ◌∷◌, length, take, replicate, some, guard, Subtle, IsByte, IsBytes}
use gm_crypto_rs.Base.{
  ◌≡◌, ◌↔◌, refl, sym, ap, ap₂, ◌∙◌, arith, >>=-eq-some, some-injective, guard-eq-some, All-take,
  Bool-cases, inl, inr, take_all,
}
use gm_crypto_rs.Sm4.Cipher.{new, encrypt_block}
use gm_crypto_rs.Sm4.Cipher.Inverse.{IsBlock}
use gm_crypto_rs.Sm4.Ccm.{contains}
use gm_crypto_rs.Sm4.Gcm.{
  gcm_max_pt_bytes, gcm_tag_len, inc32, derive_j0, gctr, full_tag, encrypt, decrypt,
  encrypt_with_tag_len, decrypt_with_tag_len,
}
use gm_crypto_rs.Sm4.Gcm.Mask.{length-gctr, gctr-gctr, full_tag-IsBlock}

gcm_tag_len_inv : (n t : ℕ) → gcm_tag_len n ≡ some t → t ≡ n
unfolding gcm_tag_len
gcm_tag_len_inv n t h =
    let (_, _, f) = >>=-eq-some (guard (contains (4 ∷ 8 ∷ 12 ∷ 13 ∷ 14 ∷ 15 ∷ 16 ∷ []) n)) _ h in
    sym (some-injective _ _ f)

module _ ⦃subtle : Subtle⦄ where
  -- The parts of the two directions.
  pub h_of : List ℕ → List ℕ
  h_of key = encrypt_block (new key) (replicate 16 0)

  pub stream_of : List ℕ → List ℕ → List ℕ → List ℕ
  stream_of key nonce input = gctr (new key) (inc32 (derive_j0 (h_of key) nonce)) input

  pub tag_of : List ℕ → List ℕ → List ℕ → List ℕ → List ℕ
  tag_of key nonce aad ciphertext =
      full_tag (new key) (h_of key) (derive_j0 (h_of key) nonce) aad ciphertext

  pub tag_of-IsBlock :
      (key nonce aad ciphertext : List ℕ) → IsBlock (tag_of key nonce aad ciphertext)
  unfolding tag_of
  tag_of-IsBlock key nonce aad ciphertext =
      full_tag-IsBlock (new key) (h_of key) (derive_j0 (h_of key) nonce) aad ciphertext

  -- With all the sixteen bytes of the tag nothing is cut off.
  pub decrypt_with_tag_len-decrypt :
      (key nonce aad ciphertext tag : List ℕ)
      → length tag ≡ 16
      → decrypt_with_tag_len key nonce aad ciphertext tag ≡ decrypt key nonce aad ciphertext tag
  unfolding decrypt_with_tag_len decrypt h_of tag_of
  decrypt_with_tag_len-decrypt key nonce aad ciphertext tag size =
      let valid : gcm_tag_len (length tag) ≡ some 16 =
        ap gcm_tag_len size ∙ (unfold gcm_tag_len in refl) in
      let whole : take 16 (tag_of key nonce aad ciphertext) ≡ tag_of key nonce aad ciphertext =
        take_all 16 _ (omega (arith, (tag_of-IsBlock key nonce aad ciphertext).width)) in
      elim (Bool-cases (leb (length ciphertext) gcm_max_pt_bytes)) [
        | inl within ↦ rw (within, valid, whole) refl
        | inr over ↦ rw over refl
      ]

  pub encrypt_within :
      (key nonce aad plaintext : List ℕ)
      → leb (length plaintext) gcm_max_pt_bytes ≡ true
      → encrypt key nonce aad plaintext
        ≡ some (stream_of key nonce plaintext, tag_of key nonce aad (stream_of key nonce plaintext))
  unfolding encrypt h_of stream_of tag_of
  encrypt_within key nonce aad plaintext h = rw h refl

  -- A tag of bytes passes the comparison exactly if it is the tag.
  tag-ct_eq_bytes :
      (key nonce aad ciphertext tag : List ℕ) (t : ℕ)
      → IsBytes tag
      → (subtle.ct_eq_bytes (take t (tag_of key nonce aad ciphertext)) tag ≡ true)
        ↔ (take t (tag_of key nonce aad ciphertext) ≡ tag)
  unfolding tag_of
  tag-ct_eq_bytes key nonce aad ciphertext tag t h =
      subtle.ct_eq_bytes_iff _ tag
        (All-take IsByte t _
          (full_tag-IsBlock (new key) (h_of key) (derive_j0 (h_of key) nonce) aad ciphertext).bytes)
        h

  encrypt_inv :
      (key nonce aad plaintext ciphertext tag : List ℕ)
      → encrypt key nonce aad plaintext ≡ some (ciphertext, tag)
      → (leb (length plaintext) gcm_max_pt_bytes ≡ true)
        × (stream_of key nonce plaintext ≡ ciphertext)
        × (tag_of key nonce aad ciphertext ≡ tag)
  unfolding encrypt
  encrypt_inv key nonce aad plaintext ciphertext tag h =
      let (_, e, _) = >>=-eq-some (guard (leb (length plaintext) gcm_max_pt_bytes)) _ h in
      let within = guard-eq-some _ e in
      let same = some-injective _ _ (sym (encrypt_within key nonce aad plaintext within) ∙ h) in
      let masked = ap (λ (p : List ℕ × List ℕ). p.0) same in
      (
        within,
        masked,
        ap (tag_of key nonce aad) (sym masked) ∙ ap (λ (p : List ℕ × List ℕ). p.1) same,
      )

  pub stream_of-stream_of :
      (key nonce input : List ℕ) → stream_of key nonce (stream_of key nonce input) ≡ input
  unfolding stream_of
  stream_of-stream_of key nonce input =
      gctr-gctr (new key) (inc32 (derive_j0 (h_of key) nonce)) input

  pub length-stream_of :
      (key nonce input : List ℕ) → length (stream_of key nonce input) ≡ length input
  unfolding stream_of
  length-stream_of key nonce input =
      length-gctr (new key) (inc32 (derive_j0 (h_of key) nonce)) input

  -- A tag cut to `t` bytes, for a plaintext within the limit.
  pub decrypt_with_tag_len_lem :
      (key nonce aad ciphertext tag : List ℕ)
      → leb (length ciphertext) gcm_max_pt_bytes ≡ true
      → gcm_tag_len (length tag) ≡ some (length tag)
      → IsBytes tag
      → take (length tag) (tag_of key nonce aad ciphertext) ≡ tag
      → decrypt_with_tag_len key nonce aad ciphertext tag ≡ some (stream_of key nonce ciphertext)
  unfolding decrypt_with_tag_len h_of stream_of tag_of
  decrypt_with_tag_len_lem key nonce aad ciphertext tag within valid h same =
      rw (within, valid, (tag-ct_eq_bytes key nonce aad ciphertext tag (length tag) h).1 same) refl

  decrypt_with_tag_len_inv :
      (key nonce aad plaintext ciphertext tag : List ℕ)
      → IsBytes tag
      → decrypt_with_tag_len key nonce aad ciphertext tag ≡ some plaintext
      → (leb (length ciphertext) gcm_max_pt_bytes ≡ true)
        × (gcm_tag_len (length tag) ≡ some (length tag))
        × (take (length tag) (tag_of key nonce aad ciphertext) ≡ tag)
        × (stream_of key nonce ciphertext ≡ plaintext)
  unfolding decrypt_with_tag_len h_of stream_of tag_of
  decrypt_with_tag_len_inv key nonce aad plaintext ciphertext tag h e =
      let (_, e1, f1) = >>=-eq-some (guard (leb (length ciphertext) gcm_max_pt_bytes)) _ e in
      let (t, e2, f2) = >>=-eq-some (gcm_tag_len (length tag)) _ f1 in
      let (_, e3, f3) =
        >>=-eq-some (guard (subtle.ct_eq_bytes (take t (tag_of key nonce aad ciphertext)) tag)) _
          f2 in
      let size : t ≡ length tag = gcm_tag_len_inv (length tag) t e2 in
      (
        guard-eq-some _ e1,
        e2 ∙ ap some size,
        ap (λ n. take n (tag_of key nonce aad ciphertext)) (sym size)
            ∙ (tag-ct_eq_bytes key nonce aad ciphertext tag t h).0 (guard-eq-some _ e3),
        some-injective _ _ f3,
      )

  pub encrypt_with_tag_len_lem :
      (key nonce aad plaintext : List ℕ) (t : ℕ)
      → leb (length plaintext) gcm_max_pt_bytes ≡ true
      → encrypt_with_tag_len key nonce aad plaintext t
        ≡ some (
          stream_of key nonce plaintext,
          take t (tag_of key nonce aad (stream_of key nonce plaintext)),
        )
  unfolding encrypt_with_tag_len
  encrypt_with_tag_len_lem key nonce aad plaintext t within =
      rw (within, encrypt_within key nonce aad plaintext within) refl

  encrypt_with_tag_len_inv :
      (key nonce aad plaintext ciphertext tag : List ℕ) (t : ℕ)
      → encrypt_with_tag_len key nonce aad plaintext t ≡ some (ciphertext, tag)
      → (leb (length plaintext) gcm_max_pt_bytes ≡ true)
        × (stream_of key nonce plaintext ≡ ciphertext)
        × (take t (tag_of key nonce aad ciphertext) ≡ tag)
  unfolding encrypt_with_tag_len
  encrypt_with_tag_len_inv key nonce aad plaintext ciphertext tag t h =
      let (_, e, _) = >>=-eq-some (guard (leb (length plaintext) gcm_max_pt_bytes)) _ h in
      let within = guard-eq-some _ e in
      let same =
        some-injective _ _ (sym (encrypt_with_tag_len_lem key nonce aad plaintext t within) ∙ h) in
      let masked = ap (λ (p : List ℕ × List ℕ). p.0) same in
      (
        within,
        masked,
        ap (λ c. take t (tag_of key nonce aad c)) (sym masked)
            ∙ ap (λ (p : List ℕ × List ℕ). p.1) same,
      )

  -- For every key, nonce and associated data, `decrypt_with_tag_len` returns a plaintext from a
  -- ciphertext and a tag of bytes exactly if the tag has a length that `GcmTagLen::new` admits
  -- and the two are what `encrypt_with_tag_len` returns for the plaintext at that length.
  pub gcm_tag_len_exact :
      (key nonce aad plaintext ciphertext tag : List ℕ)
      → IsBytes tag
      → (decrypt_with_tag_len key nonce aad ciphertext tag ≡ some plaintext) ↔ (
          (gcm_tag_len (length tag) ≡ some (length tag))
          × (encrypt_with_tag_len key nonce aad plaintext (length tag) ≡ some (ciphertext, tag)))
  gcm_tag_len_exact key nonce aad plaintext ciphertext tag h = (
    (λ e.
        let (within, valid, same, masked) =
          decrypt_with_tag_len_inv key nonce aad plaintext ciphertext tag h e in
        let back : stream_of key nonce plaintext ≡ ciphertext =
          ap (stream_of key nonce) (sym masked) ∙ stream_of-stream_of key nonce ciphertext in
        let size : length ciphertext ≡ length plaintext =
          ap length (sym back) ∙ length-stream_of key nonce plaintext in
        (
          valid,
          encrypt_with_tag_len_lem key nonce aad plaintext (length tag)
                (ap (λ n. leb n gcm_max_pt_bytes) (sym size) ∙ within)
              ∙ ap₂ (λ c g. some (c, g)) back
                  (ap (λ c. take (length tag) (tag_of key nonce aad c)) back ∙ same),
        )),
    (λ p.
        let (valid, e) = p in
        let (within, masked, same) =
          encrypt_with_tag_len_inv key nonce aad plaintext ciphertext tag (length tag) e in
        let size : length ciphertext ≡ length plaintext =
          ap length (sym masked) ∙ length-stream_of key nonce plaintext in
        decrypt_with_tag_len_lem key nonce aad ciphertext tag
          (ap (λ n. leb n gcm_max_pt_bytes) size ∙ within) valid h same
        ∙ ap some
            (ap (stream_of key nonce) (sym masked) ∙ stream_of-stream_of key nonce plaintext)),
  )
