-- ===== src/Sm4/CcmStreaming/Verify.antt =====
-- The buffering decryptor of CCM (sm4/ccm_streaming.rs) against the one-shot `mode_ccm::decrypt`.
use gm_crypto_rs.Base.{ℕ, zero, suc, ◌+◌, ◌-◌, ◌^◌, ◌<◌, ◌≤◌, ltb, leb, Bool, true, false}
use gm_crypto_rs.Base.{
  not, ◌||◌, List, [], ◌∷◌, ◌++◌, length, take, drop, replicate, foldl, flatten,
}
use gm_crypto_rs.Base.{some, none, ◌>>◌, guard, Subtle, Bool-cases, inl, inr, ◌⊎◌, le→ltb}
use gm_crypto_rs.Base.{
  ◌≡◌, refl, sym, ap, subst, ◌∙◌, arith, append-nil, append_assoc, length-append,
}
use gm_crypto_rs.Base.{take_append, drop_append}
use gm_crypto_rs.Base.Stream.{copy_into}
use gm_crypto_rs.Sm4.Cipher
use gm_crypto_rs.Sm4.Ccm
use gm_crypto_rs.Sm4.Ccm.{
  contains, valid_tag_lens, payload_ceiling, validate_params, decrypt_with_cipher,
}
use gm_crypto_rs.Sm4.CcmStreaming
use gm_crypto_rs.Sm4.CcmStreaming.{Sm4CcmDecryptor, within_ceiling, update, finalize_verify}

pub payload_ceiling-le : (q : ℕ) → payload_ceiling q ≤ 2 ^ 64 - 1
unfolding payload_ceiling
payload_ceiling-le zero = omega arith
payload_ceiling-le (suc zero) = omega arith
payload_ceiling-le (suc (suc zero)) = omega arith
payload_ceiling-le (suc (suc (suc zero))) = omega arith
payload_ceiling-le (suc (suc (suc (suc zero)))) = omega arith
payload_ceiling-le (suc (suc (suc (suc (suc zero))))) = omega arith
payload_ceiling-le (suc (suc (suc (suc (suc (suc zero)))))) = omega arith
payload_ceiling-le (suc (suc (suc (suc (suc (suc (suc zero))))))) = omega arith
payload_ceiling-le (suc (suc (suc (suc (suc (suc (suc (suc q)))))))) =
    let large : leb 8 (suc (suc (suc (suc (suc (suc (suc (suc q)))))))) ≡ true =
      is_le 8 _ (omega arith) in
    rw large (omega arith)
  where
    is_le : (a b : ℕ) → a ≤ b → leb a b ≡ true
    is_le a b h = ground arith

leb-cases : (a b : ℕ) → ((leb a b ≡ true) × (a ≤ b)) ⊎ ((leb a b ≡ false) × (b < a))
leb-cases a b = ground arith

module _ ⦃subtle : Subtle⦄ (key nonce aad : List ℕ) where
  limit : ℕ
  limit = payload_ceiling (15 - length nonce)

  abbrev standing : List ℕ → Bool → Sm4CcmDecryptor
  unfolding limit
  standing buf overflowed = record {
    cipher = Cipher.new key;
    nonce = copy_into (replicate 13 0) 0 nonce;
    nonce_len = length nonce;
    aad = aad;
    buf = buf;
    ceiling = limit;
    overflowed = overflowed;
  }

  -- The whole text is in the buffer, or it is too long and the overflow is latched.
  Holds : List ℕ → Sm4CcmDecryptor → Type 0
  Holds text d =
      (d ≡ standing text false) ⊎ ((buf : List ℕ) × (d ≡ standing buf true) × (limit < length text))

  update-Holds :
      (text chunk : List ℕ) (d : Sm4CcmDecryptor)
      → Holds text d
      → Holds (text ++ chunk) (update d chunk)
  unfolding Holds update within_ceiling limit
  update-Holds text chunk d (inr (buf, e, long)) =
      inr (buf, ap (λ d. update d chunk) e, omega (arith, length-append text chunk))
  update-Holds text chunk d (inl e) =
      let n = length text + length chunk in
      let whole : length (text ++ chunk) ≡ n = length-append text chunk in
      let small : limit ≤ 2 ^ 64 - 1 = payload_ceiling-le (15 - length nonce) in
      rw e (elim (leb-cases n (2 ^ 64 - 1)) [
        | inr (wraps, large) ↦ rw wraps (inr (text, refl, omega arith))
        | inl (fits, _) ↦ elim (leb-cases n limit) [
          | inr (over, large) ↦ rw (fits, over) (inr (text, refl, omega arith))
          | inl (under, _) ↦ rw (fits, under) (inl refl)
        ]
      ])

  updates-Holds :
      (pieces : List (List ℕ)) (text : List ℕ) (d : Sm4CcmDecryptor)
      → Holds text d
      → Holds (text ++ flatten pieces) (foldl update d pieces)
  unfolding flatten
  updates-Holds [] text d h = subst (λ t. Holds t d) (sym (append-nil text)) h
  updates-Holds (piece ∷ pieces) text d h =
      subst (λ t. Holds t (foldl update d (piece ∷ pieces)))
        (append_assoc text piece (flatten pieces))
        (updates-Holds pieces (text ++ piece) (update d piece) (update-Holds text piece d h))

  -- The one-shot function on a text and a tag.
  decrypt-append :
      (text tag : List ℕ)
      → Ccm.decrypt key nonce aad (text ++ tag) (length tag) ≡ (do
        guard (contains valid_tag_lens (length tag))
        decrypt_with_cipher (Cipher.new key) nonce aad text tag)
  unfolding Ccm.decrypt
  decrypt-append text tag =
      let total : length (text ++ tag) ≡ length text + length tag = length-append text tag in
      let split : length (text ++ tag) - length tag ≡ length text = omega arith in
      rw
        (
          le→ltb (length (text ++ tag)) (length tag) (omega arith),
          split,
          take_append (length text) text tag refl,
          drop_append (length text) text tag refl,
        )
        refl

  too_long :
      (text tag : List ℕ)
      → limit < length text
      → decrypt_with_cipher (Cipher.new key) nonce aad text tag ≡ none
  unfolding decrypt_with_cipher validate_params limit
  too_long text tag h =
      let over : leb (length text) (payload_ceiling (15 - length nonce)) ≡ false =
        is_over (length text) (payload_ceiling (15 - length nonce)) h in
      rw over (elim (Bool-cases (contains valid_tag_lens (length tag))) [
        | inr bad ↦ rw bad refl
        | inl good ↦ elim (Bool-cases (not (ltb (length nonce) 7 || ltb 13 (length nonce)))) [
          | inr bad ↦ rw (good, bad) refl
          | inl fine ↦ rw (good, fine) refl
        ]
      ])
    where
      is_over : (a b : ℕ) → b < a → leb a b ≡ false
      is_over a b h = ground arith

  finalize-Holds :
      (text tag : List ℕ) (d : Sm4CcmDecryptor)
      → Holds text d
      → finalize_verify d tag ≡ Ccm.decrypt key nonce aad (text ++ tag) (length tag)
  unfolding finalize_verify Holds standing decrypt_with_cipher
  finalize-Holds text tag d (inr (buf, e, long)) =
      ap (λ d. finalize_verify d tag) e
      ∙ rw (decrypt-append text tag, too_long text tag long)
          (elim (Bool-cases (contains valid_tag_lens (length tag))) [
            | inl good ↦ rw good refl
            | inr bad ↦ rw bad refl
          ])
  finalize-Holds text tag d (inl e) =
      let kept : take (length nonce) (copy_into (replicate 13 0) 0 nonce) ≡ nonce =
        take_append (length nonce) nonce (drop (0 + length nonce) (replicate 13 0)) refl in
      ap (λ d. finalize_verify d tag) e
      ∙ rw (decrypt-append text tag, kept)
          (elim (Bool-cases (contains valid_tag_lens (length tag))) [
            | inl good ↦ rw good refl
            | inr bad ↦ rw bad refl
          ])

  -- For a nonce of 7 to 13 bytes `new` returns a decryptor, and whatever pieces it is fed,
  -- `finalize_verify` on a tag returns what the one-shot `decrypt` returns on the pieces and the
  -- tag together; so an overflow is refused by both.
  pub ccm_pieces :
      (pieces : List (List ℕ)) (tag : List ℕ)
      → 7 ≤ length nonce
      → length nonce ≤ 13
      → (d : Sm4CcmDecryptor) × (CcmStreaming.new key nonce aad ≡ some d)
        × (finalize_verify (foldl update d pieces) tag
            ≡ Ccm.decrypt key nonce aad (flatten pieces ++ tag) (length tag))
  unfolding CcmStreaming.new Holds limit
  ccm_pieces pieces tag lo hi =
      let d = standing [] false in
      (
        d,
        rw (le→ltb (length nonce) 7 lo, le→ltb 13 (length nonce) hi) refl,
        finalize-Holds (flatten pieces) tag (foldl update d pieces)
            (updates-Holds pieces [] d (inl refl)),
      )
