-- ===== src/Sm4/CcmStreaming/Encryptor/Commitment.antt =====
-- The commitment of the streaming encryptor of CCM (sm4/ccm_streaming.rs) to a length: which
-- streams get a tag.
use gm_crypto_rs.Base.{ℕ, ◌/◌, ◌==◌, ltb, if◌then◌else◌, Bool, true, false, not, ◌||◌}
use gm_crypto_rs.Base.{
  List, [], ◌∷◌, ◌++◌, length, flatten, Option, none, some, ◌>>◌, guard, Subtle,
}
use gm_crypto_rs.Base.{
  ◌≡◌, ◌≢◌, refl, sym, ap, subst, ◌∙◌, ◌⊎◌, inl, inr, arith, Bool-cases, append_assoc, append-nil,
  length-append, >>=-eq-some, some-injective,
}
use gm_crypto_rs.Sm4.CtrStreaming.{drain_leftover}
use gm_crypto_rs.Sm4.Ccm.{validate_params}
use gm_crypto_rs.Sm4.CcmStreaming.Encryptor
use gm_crypto_rs.Sm4.CcmStreaming.Encryptor.{
  Sm4CcmEncryptor, within_commitment, whole_blocks, last_bytes, mask_chunk, mac_absorb, fed, update,
  finalize,
}
use gm_crypto_rs.Sm4.CcmStreaming.Encryptor.Mac.{mac_absorb_only}
use gm_crypto_rs.Sm4.CcmStreaming.Encryptor.Position.{kept}
use gm_crypto_rs.Sm4.CcmStreaming.Encryptor.Fed.{feed, second}

first {ℓ} : {A : Type ℓ} (p : Bool) (x y : A) → p ≡ true → (if p then x else y) ≡ x
first p x y h = rw h refl

third {ℓ} :
    {A : Type ℓ} (p w : Bool) (x y z : A)
    → p ≡ false
    → w ≡ false
    → (if p then x else if w then y else z) ≡ z
third p w x y z hp hw = rw (hp, hw) refl

refuses : (p : Bool) (n m : ℕ) → n ≢ m → not (p || not (n == m)) ≡ false
refuses p n m h = ground arith

guarded : (g : Bool) (x : Option (List ℕ)) → g ≡ false → (guard g >> x) ≡ none
guarded g x h = rw h refl

module _ ⦃subtle : Subtle⦄ where
  last_bytes_only :
      (e : Sm4CcmEncryptor) (input : List ℕ)
      → (last_bytes e input).0 ≡ kept e (last_bytes e input).0
  unfolding last_bytes
  last_bytes_only e [] = refl
  last_bytes_only e (b ∷ input) = refl

  whole_blocks_only :
      (e : Sm4CcmEncryptor) (input : List ℕ)
      → (whole_blocks e input).0 ≡ kept e (whole_blocks e input).0
  unfolding whole_blocks
  whole_blocks_only e input = elim (Bool-cases (ltb 0 (length input / 16))) [
    | inl some_blocks ↦ rw some_blocks refl
    | inr nothing ↦ rw nothing refl
  ]

  mask_chunk_only :
      (e : Sm4CcmEncryptor) (chunk : List ℕ)
      → (mask_chunk e chunk).0 ≡ kept e (mask_chunk e chunk).0
  unfolding mask_chunk
  mask_chunk_only e chunk =
      let (_, pos, rest) = drain_leftover e.ks e.ks_pos chunk in
      let e1 : Sm4CcmEncryptor = record e { ks_pos = pos } in
      let (e2, _, rest2) = whole_blocks e1 rest in
      last_bytes_only e2 rest2
      ∙ ap (λ x. kept x (last_bytes e2 rest2).0) (whole_blocks_only e1 rest)

  -- The count and the commitment, as long as no call was refused; a refusal is never taken back.
  IsCounted : ℕ → List ℕ → Sm4CcmEncryptor → Type 0
  IsCounted len text e =
      (e.poisoned ≡ true)
      ⊎ ((e.poisoned ≡ false) × (e.fed_len ≡ length text) × (e.declared_len ≡ len))

  fed-IsCounted :
      (len : ℕ) (text chunk : List ℕ) (e : Sm4CcmEncryptor)
      → e.poisoned ≡ false
      → e.fed_len ≡ length text
      → e.declared_len ≡ len
      → IsCounted len (text ++ chunk) (fed e chunk).0
  unfolding fed IsCounted
  fed-IsCounted len text chunk e clean counted committed =
      let only = mac_absorb_only (mask_chunk e chunk).0 chunk in
      let masks = mask_chunk_only e chunk in
      inr (
        ap (λ x. x.poisoned) only ∙ ap (λ x. x.poisoned) masks ∙ clean,
        omega (arith, counted, length-append text chunk),
        ap (λ x. x.declared_len) only ∙ ap (λ x. x.declared_len) masks ∙ committed,
      )

  update_poisoned :
      (e : Sm4CcmEncryptor) (chunk : List ℕ) → e.poisoned ≡ true → update e chunk ≡ (e, none)
  unfolding update
  update_poisoned e chunk h = first e.poisoned _ _ h

  update-fed :
      (e : Sm4CcmEncryptor) (chunk : List ℕ)
      → e.poisoned ≡ false
      → within_commitment e chunk ≡ true
      → update e chunk ≡ fed e chunk
  unfolding update
  update-fed e chunk h w =
      second e.poisoned (within_commitment e chunk) (e, none) (fed e chunk) _ h w

  update_over :
      (e : Sm4CcmEncryptor) (chunk : List ℕ)
      → e.poisoned ≡ false
      → within_commitment e chunk ≡ false
      → update e chunk ≡ (record e { poisoned = true }, none)
  unfolding update
  update_over e chunk h w =
      third e.poisoned (within_commitment e chunk) (e, none) (fed e chunk) _ h w

  update-IsCounted :
      (len : ℕ) (text chunk : List ℕ) (e : Sm4CcmEncryptor)
      → IsCounted len text e
      → IsCounted len (text ++ chunk) (update e chunk).0
  unfolding IsCounted
  update-IsCounted len text chunk e (inl poisoned) = inl (
      ap (λ (r : Sm4CcmEncryptor × Option (List ℕ)). r.0.poisoned)
        (update_poisoned e chunk poisoned)
      ∙ poisoned)
  update-IsCounted len text chunk e (inr (clean, counted, committed)) =
      elim (Bool-cases (within_commitment e chunk)) [
        | inl room ↦
            subst (λ r. IsCounted len (text ++ chunk) r.0) (sym (update-fed e chunk clean room))
              (fed-IsCounted len text chunk e clean counted committed)
        | inr over ↦ inl (
            ap (λ (r : Sm4CcmEncryptor × Option (List ℕ)). r.0.poisoned)
              (update_over e chunk clean over))
      ]

  feed-IsCounted :
      (len : ℕ) (text : List ℕ) (pieces : List (List ℕ)) (e : Sm4CcmEncryptor)
      → IsCounted len text e
      → IsCounted len (text ++ flatten pieces) (feed e pieces).0
  unfolding feed flatten
  feed-IsCounted len text [] e h = subst (λ t. IsCounted len t e) (sym (append-nil text)) h
  feed-IsCounted len text (piece ∷ pieces) e h =
      subst (λ t. IsCounted len t (feed e (piece ∷ pieces)).0)
        (append_assoc text piece (flatten pieces))
        (feed-IsCounted len (text ++ piece) pieces (update e piece).0
          (update-IsCounted len text piece e h))

  finalize-IsCounted :
      (len : ℕ) (text : List ℕ) (e : Sm4CcmEncryptor)
      → IsCounted len text e
      → length text ≢ len
      → finalize e ≡ none
  unfolding IsCounted finalize
  finalize-IsCounted len text e h differs = guarded _ _ (fails h)
    where
      fails : IsCounted len text e → not (e.poisoned || not (e.fed_len == e.declared_len)) ≡ false
      fails (inl poisoned) = ap (λ p. not (p || not (e.fed_len == e.declared_len))) poisoned
      fails (inr (clean, counted, committed)) =
          refuses e.poisoned e.fed_len e.declared_len
            (λ same. differs (sym counted ∙ same ∙ committed))

  -- An encryptor that `new` returns for a length gives no tag after pieces that have another
  -- length together, be it a smaller or a greater one.
  pub incomplete_rejected :
      (key nonce aad : List ℕ) (len tag_len : ℕ) (e : Sm4CcmEncryptor) (pieces : List (List ℕ))
      → Encryptor.new key nonce aad len tag_len ≡ some e
      → length (flatten pieces) ≢ len
      → finalize (feed e pieces).0 ≡ none
  unfolding Encryptor.new IsCounted
  incomplete_rejected key nonce aad len tag_len e pieces h differs =
      let (_, _, f) = >>=-eq-some (validate_params nonce len tag_len) _ h in
      let same = some-injective _ e f in
      finalize-IsCounted len (flatten pieces) (feed e pieces).0
        (feed-IsCounted len [] pieces e (
          inr (
            ap (λ x. x.poisoned) (sym same),
            ap (λ x. x.fed_len) (sym same),
            ap (λ x. x.declared_len) (sym same),
          )))
        differs

  refused_poisoned :
      (e : Sm4CcmEncryptor) (chunk : List ℕ)
      → (update e chunk).1 ≡ none
      → (update e chunk).0.poisoned ≡ true
  refused_poisoned e chunk h = elim (Bool-cases e.poisoned) [
    | inl poisoned ↦
        ap (λ (r : Sm4CcmEncryptor × Option (List ℕ)). r.0.poisoned)
          (update_poisoned e chunk poisoned)
        ∙ poisoned
    | inr clean ↦ elim (Bool-cases (within_commitment e chunk)) [
      | inl room ↦ absurd (
          emits e chunk (
            sym
              (ap (λ (r : Sm4CcmEncryptor × Option (List ℕ)). r.1) (update-fed e chunk clean room))
            ∙ h))
      | inr over ↦
          ap (λ (r : Sm4CcmEncryptor × Option (List ℕ)). r.0.poisoned)
            (update_over e chunk clean over)
    ]
  ]
    where
      emits : (e : Sm4CcmEncryptor) (chunk : List ℕ) → ¬ ((fed e chunk).1 ≡ none)
      emits e chunk h = unfold fed in cc

  feed_poisoned :
      (e : Sm4CcmEncryptor) (pieces : List (List ℕ))
      → e.poisoned ≡ true
      → (feed e pieces).0.poisoned ≡ true
  unfolding feed
  feed_poisoned e [] h = h
  feed_poisoned e (piece ∷ pieces) h =
      feed_poisoned (update e piece).0 pieces (
        ap (λ (r : Sm4CcmEncryptor × Option (List ℕ)). r.0.poisoned) (update_poisoned e piece h)
        ∙ h)

  -- Whenever `update` refuses a chunk, every later `update`, after any further pieces, refuses
  -- its chunk too, and `finalize` gives no tag.
  pub refused_for_good :
      (e : Sm4CcmEncryptor) (chunk : List ℕ) (pieces : List (List ℕ)) (later : List ℕ)
      → (update e chunk).1 ≡ none
      → ((update (feed (update e chunk).0 pieces).0 later).1 ≡ none)
        × (finalize (feed (update e chunk).0 pieces).0 ≡ none)
  unfolding finalize
  refused_for_good e chunk pieces later h =
      let e' = (feed (update e chunk).0 pieces).0 in
      let poisoned : e'.poisoned ≡ true =
        feed_poisoned (update e chunk).0 pieces (refused_poisoned e chunk h) in
      (
        ap (λ (r : Sm4CcmEncryptor × Option (List ℕ)). r.1) (update_poisoned e' later poisoned),
        guarded _ _ (ap (λ p. not (p || not (e'.fed_len == e'.declared_len))) poisoned),
      )
