-- ===== src/Sm4/CcmStreaming/Encryptor/Fed.antt =====
-- The streaming encryptor of CCM (sm4/ccm_streaming.rs) while it is fed within its commitment.
use gm_crypto_rs.Base.{
  ℕ, ◌+◌, ◌-◌, ◌^◌, ◌<◌, ◌≤◌, leb, ltb, if◌then◌else◌, Bool, true, false, not, ◌&&◌, ◌||◌,
}
use gm_crypto_rs.Base.{
  List, [], ◌∷◌, ◌++◌, length, flatten, Option, none, some, ◌>>=◌, guard, Subtle,
}
use gm_crypto_rs.Base.{
  ◌≡◌, refl, sym, ap, ap₂, subst, ◌∙◌, arith, append_assoc, append-nil, length-append, >>=-eq-some,
  guard-eq-some,
}
use gm_crypto_rs.Sm4.Ccm.{contains, valid_tag_lens, validate_params, payload_ceiling}
use gm_crypto_rs.Sm4.Ccm.Tag.{valid_tag_len}
use gm_crypto_rs.Sm4.CcmStreaming.Verify.{payload_ceiling-le}
use gm_crypto_rs.Sm4.Masking.{masked, masked-append}
use gm_crypto_rs.Sm4.CcmStreaming.Encryptor.{
  Sm4CcmEncryptor, within_commitment, mac_absorb, mask_chunk, fed, update,
}
use gm_crypto_rs.Sm4.CcmStreaming.Encryptor.Mac.{
  IsAbsorbed, IsAbsorbed-same, mac_absorb-IsAbsorbed, mac_absorb_only,
}
use gm_crypto_rs.Sm4.CcmStreaming.Encryptor.Position.{
  key_block, StandsAt, StandsAt-same, mask_chunk-IsMasked,
}

-- What `validate_params` has tested.
pub record IsValid (nonce : List ℕ) (len tag_len : ℕ) : Type 0 where
  pub low : 7 ≤ length nonce
  pub high : length nonce ≤ 13
  pub tag : tag_len ≤ 16
  pub small : len ≤ 2 ^ 64 - 1

pub params :
    (nonce : List ℕ) (len tag_len : ℕ)
    → validate_params nonce len tag_len ≡ some tt
    → IsValid nonce len tag_len
unfolding validate_params
params nonce len tag_len h =
    let (_, e1, f1) = >>=-eq-some (guard (contains valid_tag_lens tag_len)) _ h in
    let (_, e2, f2) =
      >>=-eq-some (guard (not (ltb (length nonce) 7 || ltb 13 (length nonce)))) _ f1 in
    let (_, e3, f3) = >>=-eq-some (guard (leb len (payload_ceiling (15 - length nonce)))) _ f2 in
    let (lo, hi) = width (length nonce) (guard-eq-some _ e2) in
    record {
      low = lo;
      high = hi;
      tag = valid_tag_len tag_len (guard-eq-some _ e1);
      small = omega (
        arith,
        at_most len (payload_ceiling (15 - length nonce)) (guard-eq-some _ e3),
        payload_ceiling-le (15 - length nonce),
      );
    }
  where
    width : (k : ℕ) → not (ltb k 7 || ltb 13 k) ≡ true → (7 ≤ k) × (k ≤ 13)
    width k h = ground arith

    at_most : (a b : ℕ) → leb a b ≡ true → a ≤ b
    at_most a b h = ground arith

pub second {ℓ} :
    {A : Type ℓ} (p w : Bool) (x y z : A)
    → p ≡ false
    → w ≡ true
    → (if p then x else if w then y else z) ≡ y
second p w x y z hp hw = rw (hp, hw) refl

module _ ⦃subtle : Subtle⦄ where
  -- One call for each piece: the encryptor behind them, and all the outputs if no call refused.
  unfoldable pub feed : Sm4CcmEncryptor → List (List ℕ) → Sm4CcmEncryptor × Option (List ℕ)
  feed e [] = (e, some [])
  feed e (piece ∷ pieces) =
      let (e1, out) = update e piece in
      let (e2, outs) = feed e1 pieces in (e2, do o ← out; os ← outs; some (o ++ os))

  -- The encryptor made by `e0` has taken in the text.
  pub record IsOpen (e0 : Sm4CcmEncryptor) (text : List ℕ) (e : Sm4CcmEncryptor) : Type 0 where
    pub stands : StandsAt (length text) e
    pub absorbed : IsAbsorbed e0.mac text e
    pub counted : e.fed_len ≡ length text
    pub keyed : e.cipher ≡ e0.cipher
    pub based : e.a0 ≡ e0.a0
    pub committed : e.declared_len ≡ e0.declared_len
    pub sized : e.tag_len ≡ e0.tag_len
    pub clean : e.poisoned ≡ false

  fed-IsOpen :
      (e0 e : Sm4CcmEncryptor) (text chunk : List ℕ)
      → IsOpen e0 text e
      → length text + length chunk < 2 ^ 64
      → IsOpen e0 (text ++ chunk) (fed e chunk).0
        × ((fed e chunk).1 ≡ some (masked (key_block e0.cipher e0.a0) (length text) chunk))
  unfolding fed
  fed-IsOpen e0 e text chunk h bound =
      let e1 = (mask_chunk e chunk).0 in
      let m = mask_chunk-IsMasked (length text) e chunk h.stands bound in
      let e2 = mac_absorb e1 chunk in
      let only = mac_absorb_only e1 chunk in
      let absorbed = mac_absorb-IsAbsorbed e0.mac text chunk e1 (
        IsAbsorbed-same e0.mac text e e1 (ap (λ x. x.cipher) m.same) (ap (λ x. x.mac) m.same)
          (ap (λ x. x.mac_block) m.same) (ap (λ x. x.mac_block_len) m.same) h.absorbed) in
      let e3 : Sm4CcmEncryptor = record e2 { fed_len = e.fed_len + length chunk } in
      let whole : length (text ++ chunk) ≡ length text + length chunk = length-append text chunk in
      (
        record {
          stands =
              subst (λ n. StandsAt n e3) (sym whole)
                (StandsAt-same (length text + length chunk) e1 e3 (ap (λ x. x.cipher) only)
                  (ap (λ x. x.a0) only) (ap (λ x. x.ks) only) (ap (λ x. x.ks_pos) only)
                  (ap (λ x. x.next_block) only) m.stands);
          absorbed = IsAbsorbed-same e0.mac (text ++ chunk) e2 e3 refl refl refl refl absorbed;
          counted = omega (arith, h.counted);
          keyed = ap (λ x. x.cipher) only ∙ ap (λ x. x.cipher) m.same ∙ h.keyed;
          based = ap (λ x. x.a0) only ∙ ap (λ x. x.a0) m.same ∙ h.based;
          committed = ap (λ x. x.declared_len) only ∙ ap (λ x. x.declared_len) m.same ∙ h.committed;
          sized = ap (λ x. x.tag_len) only ∙ ap (λ x. x.tag_len) m.same ∙ h.sized;
          clean = ap (λ x. x.poisoned) only ∙ ap (λ x. x.poisoned) m.same ∙ h.clean;
        },
        ap some (m.text ∙ ap₂ (λ c a. masked (key_block c a) (length text) chunk) h.keyed h.based),
      )

  -- A chunk that keeps to the commitment is not refused.
  update-IsOpen :
      (e0 e : Sm4CcmEncryptor) (text chunk : List ℕ)
      → IsOpen e0 text e
      → length text + length chunk ≤ e0.declared_len
      → e0.declared_len < 2 ^ 64
      → IsOpen e0 (text ++ chunk) (update e chunk).0
        × ((update e chunk).1 ≡ some (masked (key_block e0.cipher e0.a0) (length text) chunk))
  unfolding update within_commitment
  update-IsOpen e0 e text chunk h fits bound =
      let room =
        within (e.fed_len + length chunk) e.declared_len (omega (arith, h.counted, h.committed))
          (omega (arith, h.committed)) in
      subst
        (λ r.
          IsOpen e0 (text ++ chunk) r.0
          × (r.1 ≡ some (masked (key_block e0.cipher e0.a0) (length text) chunk)))
        (sym (second e.poisoned _ (e, none) (fed e chunk) _ h.clean room))
        (fed-IsOpen e0 e text chunk h (omega arith))
    where
      within : (n m : ℕ) → n ≤ m → m < 2 ^ 64 → (leb n (2 ^ 64 - 1) && leb n m) ≡ true
      within n m h b = ground arith

  pub feed-IsOpen :
      (e0 e : Sm4CcmEncryptor) (text : List ℕ) (pieces : List (List ℕ))
      → IsOpen e0 text e
      → length text + length (flatten pieces) ≤ e0.declared_len
      → e0.declared_len < 2 ^ 64
      → IsOpen e0 (text ++ flatten pieces) (feed e pieces).0
        × ((feed e pieces).1
            ≡ some (masked (key_block e0.cipher e0.a0) (length text) (flatten pieces)))
  unfolding feed flatten
  feed-IsOpen e0 e text [] h fits bound =
      (subst (λ t. IsOpen e0 t e) (sym (append-nil text)) h, unfold masked in refl)
  feed-IsOpen e0 e text (piece ∷ pieces) h fits bound =
      let kb = key_block e0.cipher e0.a0 in
      let total : length (piece ++ flatten pieces) ≡ length piece + length (flatten pieces) =
        length-append piece (flatten pieces) in
      let (opened, out) = update-IsOpen e0 e text piece h (omega arith) bound in
      let whole : length (text ++ piece) ≡ length text + length piece = length-append text piece in
      let (opened', outs) =
        feed-IsOpen e0 (update e piece).0 (text ++ piece) pieces opened (omega arith) bound in
      (
        subst (λ t. IsOpen e0 t (feed e (piece ∷ pieces)).0)
            (append_assoc text piece (flatten pieces)) opened',
        rw (out, outs)
            (ap some (
              ap (λ n. masked kb (length text) piece ++ masked kb n (flatten pieces)) whole
              ∙ sym (masked-append kb piece (flatten pieces) (length text)))),
      )
