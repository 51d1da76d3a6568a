-- ===== src/Sm4/CcmStreaming/Encryptor/Position.antt =====
-- The position of `Sm4CcmEncryptor` (sm4/ccm_streaming.rs) in its keystream.
use gm_crypto_rs.Base.{ℕ, zero, suc, ◌+◌, ◌-◌, ◌*◌, ◌/◌, ◌%◌, ◌^◌, ◌<◌, ◌≤◌, ltb}
use gm_crypto_rs.Base.{List, [], ◌∷◌, ◌++◌, length, drop, Subtle, Bool-cases, inl, inr, ◌⊎◌}
use gm_crypto_rs.Base.{◌≡◌, refl, sym, ap, ap₂, subst, ◌∙◌, arith, ltb→le, length-drop}
use gm_crypto_rs.Sm4.Cipher.{Sm4Cipher, encrypt_block, encrypt_blocks}
use gm_crypto_rs.Sm4.CtrStreaming.{mask_lanes, drain_leftover, mask_blocks}
use gm_crypto_rs.Sm4.Ccm.{counter_block}
use gm_crypto_rs.Sm4.Masking.{
  masked, key_blocks, mask_lanes-masked, drain_full, drain-IsDrained, mask_blocks-masked,
}
use gm_crypto_rs.Sm4.CcmStreaming.Encryptor.{
  Sm4CcmEncryptor, counters, whole_blocks, last_bytes, mask_chunk,
}

module _ ⦃subtle : Subtle⦄ where
  -- The keystream: the first block is that of the counter 1.
  abbrev pub key_block : Sm4Cipher → List ℕ → ℕ → List ℕ
  key_block cipher a0 q = encrypt_block cipher (counter_block a0 (q + 1))

  abbrev pub stream : Sm4CcmEncryptor → ℕ → List ℕ
  stream e = key_block e.cipher e.a0

  -- At the end of a block, or inside the block `q`.
  record IsReady (n : ℕ) (e : Sm4CcmEncryptor) : Type 0 where
    q : ℕ
    at : n ≡ q * 16
    used_up : e.ks_pos ≡ 16
    counts : e.next_block ≡ q + 1

  record IsInside (n : ℕ) (e : Sm4CcmEncryptor) : Type 0 where
    q : ℕ
    at : n ≡ q * 16 + e.ks_pos
    within : e.ks_pos ≤ 16
    holds : e.ks ≡ stream e q
    counts : e.next_block ≡ q + 2

  pub StandsAt : ℕ → Sm4CcmEncryptor → Type 0
  StandsAt n e = IsReady n e ⊎ IsInside n e

  -- What the steps leave alone.
  abbrev pub kept : Sm4CcmEncryptor → Sm4CcmEncryptor → Sm4CcmEncryptor
  kept e e' = record e { ks = e'.ks; ks_pos = e'.ks_pos; next_block = e'.next_block }

  -- What the rest of a call does with the input that step 1 leaves.
  pub record IsMasked (n : ℕ) (input : List ℕ) (e e' : Sm4CcmEncryptor) (out : List ℕ)
      : Type 0 where
    pub stands : StandsAt (n + length input) e'
    pub text : out ≡ masked (stream e) n input
    pub same : e' ≡ kept e e'

  counters-key_blocks :
      (cipher : Sm4Cipher) (a0 : List ℕ) (q k whole : ℕ)
      → q + 1 + k + whole ≤ 2 ^ 64
      → encrypt_blocks cipher (counters a0 (q + 1) k whole)
        ≡ key_blocks (key_block cipher a0) (q + k) whole
  unfolding encrypt_blocks counters key_blocks
  counters-key_blocks cipher a0 q k zero h = refl
  counters-key_blocks cipher a0 q k (suc whole) h =
      ap₂ ◌∷◌ (ap (λ i. encrypt_block cipher (counter_block a0 i)) (omega arith)) (
        counters-key_blocks cipher a0 q (suc k) whole (omega arith)
        ∙ ap (λ j. key_blocks (key_block cipher a0) j whole) (omega arith))

  last-IsMasked :
      (n : ℕ) (e : Sm4CcmEncryptor) (input : List ℕ)
      → IsReady n e
      → length input < 16
      → n + length input < 2 ^ 64
      → IsMasked n input e (last_bytes e input).0 (last_bytes e input).1
  unfolding last_bytes masked StandsAt
  last-IsMasked n e [] h l bound = record {
    stands = subst (λ m. StandsAt m e) (omega arith) (inl h);
    text = refl;
    same = refl;
  }
  last-IsMasked n e (b ∷ input) h l bound = record {
    stands = inr (record {
      q = h.q;
      at = omega (arith, h.at);
      within = omega arith;
      holds = ap (λ i. encrypt_block e.cipher (counter_block e.a0 i)) h.counts;
      counts = omega (arith, h.counts, h.at);
    });
    text =
        ap (λ i. mask_lanes (encrypt_block e.cipher (counter_block e.a0 i)) 0 (b ∷ input)) h.counts
        ∙ mask_lanes-masked (stream e) h.q 0 (b ∷ input) (omega arith)
        ∙ ap (λ m. masked (stream e) m (b ∷ input)) (omega (arith, h.at));
    same = refl;
  }

  -- Steps 2 and 3.
  blocks-IsMasked :
      (n : ℕ) (e : Sm4CcmEncryptor) (input : List ℕ)
      → IsReady n e
      → n + length input < 2 ^ 64
      → let (e2, out2, rest) = whole_blocks e input in
        let (e3, out3) = last_bytes e2 rest in IsMasked n input e e3 (out2 ++ out3)
  unfolding whole_blocks
  blocks-IsMasked n e input h bound = elim (Bool-cases (ltb 0 (length input / 16))) [
    | inr nothing ↦
        rw nothing
          (last-IsMasked n e input h (omega (arith, ltb→le 0 (length input / 16) nothing)) bound)
    | inl some_blocks ↦
        let whole = length input / 16 in
        let rest = drop (whole * 16) input in
        let e2 : Sm4CcmEncryptor = record e { next_block = (e.next_block + whole) % 2 ^ 64 } in
        let ready : IsReady (n + whole * 16) e2 = record {
          q = h.q + whole;
          at = omega (arith, h.at);
          used_up = h.used_up;
          counts = omega (arith, h.counts, h.at);
        } in
        let size : length rest ≡ length input - whole * 16 = length-drop (whole * 16) input in
        let last = last-IsMasked (n + whole * 16) e2 rest ready (omega arith) (omega arith) in
        rw some_blocks (record {
          stands = subst (λ m. StandsAt m (last_bytes e2 rest).0) (omega arith) last.stands;
          text =
              ap₂ (λ keys t. mask_blocks keys input ++ t)
                (ap (λ i. encrypt_blocks e.cipher (counters e.a0 i 0 whole)) h.counts
                  ∙ counters-key_blocks e.cipher e.a0 h.q 0 whole (omega (arith, h.at))
                  ∙ ap (λ j. key_blocks (stream e) j whole) (omega arith))
                (last.text ∙ ap (λ m. masked (stream e) m rest) (omega (arith, h.at)))
              ∙ mask_blocks-masked (stream e) h.q whole input (omega arith)
              ∙ ap (λ m. masked (stream e) m input) (sym h.at);
          same = last.same;
        })
  ]

  -- All three steps.
  pub mask_chunk-IsMasked :
      (n : ℕ) (e : Sm4CcmEncryptor) (chunk : List ℕ)
      → StandsAt n e
      → n + length chunk < 2 ^ 64
      → IsMasked n chunk e (mask_chunk e chunk).0 (mask_chunk e chunk).1
  unfolding mask_chunk StandsAt
  mask_chunk-IsMasked n e chunk (inl h) bound =
      let e1 : Sm4CcmEncryptor = record e { ks_pos = 16 } in
      let m =
        blocks-IsMasked n e1 chunk
          (record { q = h.q; at = h.at; used_up = refl; counts = h.counts }) bound in
      rw (h.used_up, drain_full (stream e) e.ks chunk)
        (record { stands = m.stands; text = m.text; same = m.same })
  mask_chunk-IsMasked n e chunk (inr h) bound =
      let kb = stream e in
      let r = drain_leftover (kb h.q) e.ks_pos chunk in
      let d = drain-IsDrained kb h.q e.ks_pos chunk h.within in
      let e0 : Sm4CcmEncryptor = record e { ks = kb h.q } in
      let e1 : Sm4CcmEncryptor = record e { ks = kb h.q; ks_pos = r.1 } in
      let step2 = λ (t : List ℕ). whole_blocks e1 t in
      let step3 = λ (t : List ℕ). last_bytes (step2 t).0 (step2 t).2 in
      rw h.holds (elim d.ends [
        | inl empty ↦
            subst (λ t. IsMasked n chunk e0 (step3 t).0 (r.0 ++ ((step2 t).1 ++ (step3 t).1)))
              (sym empty)
              (unfold whole_blocks last_bytes in
                record {
                  stands = inr (record {
                    q = h.q;
                    at = omega (arith, d.count, h.at, ap length empty);
                    within = d.within;
                    holds = refl;
                    counts = h.counts;
                  });
                  text =
                      unfold masked in
                      ap (λ t. r.0 ++ masked kb (h.q * 16 + r.1) t) (sym empty)
                      ∙ d.text
                      ∙ ap (λ m. masked kb m chunk) (sym h.at);
                  same = refl;
                })
        | inr full ↦
            let n1 = suc h.q * 16 in
            let m =
              blocks-IsMasked n1 e1 r.2
                (record {
                  q = suc h.q;
                  at = refl;
                  used_up = full;
                  counts = omega (arith, h.counts);
                })
                (omega (arith, d.count, h.at)) in
            record {
              stands =
                  subst (λ k. StandsAt k (step3 r.2).0) (omega (arith, d.count, h.at)) m.stands;
              text =
                  ap (λ t. r.0 ++ t) (m.text ∙ ap (λ k. masked kb k r.2) (omega (arith, full)))
                  ∙ d.text
                  ∙ ap (λ k. masked kb k chunk) (sym h.at);
              same = m.same;
            }
      ])

  -- The position is a matter of five fields.
  pub StandsAt-same :
      (n : ℕ) (e e' : Sm4CcmEncryptor)
      → e'.cipher ≡ e.cipher
      → e'.a0 ≡ e.a0
      → e'.ks ≡ e.ks
      → e'.ks_pos ≡ e.ks_pos
      → e'.next_block ≡ e.next_block
      → StandsAt n e
      → StandsAt n e'
  unfolding StandsAt
  StandsAt-same n e e' cipher a0 ks ks_pos next_block (inl h) =
      inl (record {
        q = h.q;
        at = h.at;
        used_up = ks_pos ∙ h.used_up;
        counts = next_block ∙ h.counts;
      })
  StandsAt-same n e e' cipher a0 ks ks_pos next_block (inr h) = inr (record {
    q = h.q;
    at = omega (arith, h.at, ks_pos);
    within = omega (arith, h.within, ks_pos);
    holds = ks ∙ h.holds ∙ ap₂ (λ c a. key_block c a h.q) (sym cipher) (sym a0);
    counts = next_block ∙ h.counts;
  })

  -- A new encryptor stands at the start.
  pub StandsAt-start : (e : Sm4CcmEncryptor) → e.ks_pos ≡ 16 → e.next_block ≡ 1 → StandsAt 0 e
  unfolding StandsAt
  StandsAt-start e used_up counts =
      inl (record { q = 0; at = refl; used_up = used_up; counts = counts })
