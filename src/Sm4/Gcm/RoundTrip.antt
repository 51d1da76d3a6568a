-- ===== src/Sm4/Gcm/RoundTrip.antt =====
-- sm4/mode_gcm.rs: `decrypt` on what `encrypt` returns.
use gm_crypto_rs.Base.{ℕ, ◌≤◌, leb, true, List, [], ◌∷◌, length, take, some, guard, Subtle, IsByte}
use gm_crypto_rs.Base.{
  ◌≡◌, refl, sym, ap, ◌∙◌, arith, length-take, take_all, All-take, >>=-eq-some, guard-eq-some,
  Bool-cases, inl, inr,
}
use gm_crypto_rs.Sm4.Ccm.{contains}
use gm_crypto_rs.Sm4.Gcm.{
  gcm_max_pt_bytes, gcm_tag_len, encrypt, decrypt, encrypt_with_tag_len, decrypt_with_tag_len,
}
use gm_crypto_rs.Sm4.Gcm.Exact.{
  stream_of, tag_of, tag_of-IsBlock, encrypt_within, stream_of-stream_of, length-stream_of,
  decrypt_with_tag_len_lem, encrypt_with_tag_len_lem, decrypt_with_tag_len-decrypt,
}

gcm_tag_len-le : (t : ℕ) → gcm_tag_len t ≡ some t → t ≤ 16
unfolding gcm_tag_len
gcm_tag_len-le t h =
    let (_, e, _) = >>=-eq-some (guard (contains (4 ∷ 8 ∷ 12 ∷ 13 ∷ 14 ∷ 15 ∷ 16 ∷ []) t)) _ h in
    listed t (guard-eq-some _ e)
  where
    listed : (t : ℕ) → contains (4 ∷ 8 ∷ 12 ∷ 13 ∷ 14 ∷ 15 ∷ 16 ∷ []) t ≡ true → t ≤ 16
    listed t h = ground arith

below : (n m : ℕ) → n ≤ m → leb n m ≡ true
below n m h = ground arith

module _ ⦃subtle : Subtle⦄ where
  -- For every key, nonce and associated data, a plaintext within the limit and an admitted tag
  -- length, `encrypt_with_tag_len` returns a ciphertext of the length of the plaintext and a tag
  -- of that length, from which `decrypt_with_tag_len` returns the plaintext.
  pub gcm_round_trip :
      (key nonce aad plaintext : List ℕ) (t : ℕ)
      → length plaintext ≤ gcm_max_pt_bytes
      → gcm_tag_len t ≡ some t
      → (ciphertext : List ℕ) × (tag : List ℕ) × (encrypt_with_tag_len key nonce aad plaintext t
          ≡ some (ciphertext, tag))
        × (length ciphertext ≡ length plaintext)
        × (length tag ≡ t)
        × (decrypt_with_tag_len key nonce aad ciphertext tag ≡ some plaintext)
  gcm_round_trip key nonce aad plaintext t h valid =
      let ciphertext = stream_of key nonce plaintext in
      let full = tag_of key nonce aad ciphertext in
      let block = tag_of-IsBlock key nonce aad ciphertext in
      let within = below (length plaintext) gcm_max_pt_bytes h in
      let size : length ciphertext ≡ length plaintext = length-stream_of key nonce plaintext in
      let cut : length (take t full) ≡ t =
        omega (arith, length-take t full, block.width, gcm_tag_len-le t valid) in
      (
        ciphertext,
        take t full,
        encrypt_with_tag_len_lem key nonce aad plaintext t within,
        size,
        cut,
        decrypt_with_tag_len_lem key nonce aad ciphertext (take t full)
              (ap (λ n. leb n gcm_max_pt_bytes) size ∙ within)
              (ap gcm_tag_len cut ∙ valid ∙ ap some (sym cut)) (All-take IsByte t full block.bytes)
              (ap (λ n. take n full) cut)
            ∙ ap some (stream_of-stream_of key nonce plaintext),
      )

  -- With a tag of 16 bytes, the variants that take the length of the tag return what `encrypt`
  -- and `decrypt` return.
  pub gcm_full_tag :
      (key nonce aad plaintext ciphertext tag : List ℕ)
      → length tag ≡ 16
      → (encrypt_with_tag_len key nonce aad plaintext 16 ≡ encrypt key nonce aad plaintext)
        × (decrypt_with_tag_len key nonce aad ciphertext tag ≡ decrypt key nonce aad ciphertext tag)
  unfolding encrypt_with_tag_len encrypt
  gcm_full_tag key nonce aad plaintext ciphertext tag size =
      let full = tag_of key nonce aad (stream_of key nonce plaintext) in
      let whole : take 16 full ≡ full =
        take_all 16 full
          (omega (arith, (tag_of-IsBlock key nonce aad (stream_of key nonce plaintext)).width)) in
      (
        elim (Bool-cases (leb (length plaintext) gcm_max_pt_bytes)) [
          | inl within ↦
              encrypt_with_tag_len_lem key nonce aad plaintext 16 within
              ∙ ap (λ g. some (stream_of key nonce plaintext, g)) whole
              ∙ sym (encrypt_within key nonce aad plaintext within)
          | inr over ↦ rw over refl
        ],
        decrypt_with_tag_len-decrypt key nonce aad ciphertext tag size,
      )
