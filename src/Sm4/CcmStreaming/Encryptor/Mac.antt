-- ===== src/Sm4/CcmStreaming/Encryptor/Mac.antt =====
-- The incremental CBC-MAC of `Sm4CcmEncryptor` (sm4/ccm_streaming.rs) against the loop over blocks.
use gm_crypto_rs.Base.{ℕ, zero, suc, ◌+◌, ◌-◌, ◌<◌, ◌≤◌, ◌==◌, if◌then◌else◌, false}
use gm_crypto_rs.Base.{List, [], ◌∷◌, ◌++◌, length, set, replicate, xor_bytes, Subtle}
use gm_crypto_rs.Base.{
  ◌≡◌, ◌≢◌, subst, refl, sym, ap, ap₂, ◌∙◌, inl, inr, arith, Bool-cases, ==_iff, length-append,
  append_assoc, append-nil,
}
use gm_crypto_rs.Base.Chunks.{blocks, blocks_short, blocks_step, blocks-append, blocks_rest}
use gm_crypto_rs.Sm4.Cipher.{Sm4Cipher, encrypt_block}
use gm_crypto_rs.Sm4.CcmStreaming.Encryptor.{Sm4CcmEncryptor, mac_fold, mac_absorb}

module _ ⦃subtle : Subtle⦄ where
  -- One block of the CBC-MAC.
  abbrev pub mac_step : Sm4Cipher → List ℕ → List ℕ → List ℕ
  mac_step cipher t block = encrypt_block cipher (xor_bytes t block)

  -- The MAC of the whole blocks of the text, and the bytes behind them.
  abbrev pub mac_of : Sm4Cipher → List ℕ → List ℕ → List ℕ × List ℕ
  mac_of cipher start text = blocks 16 (mac_step cipher) start text

  -- The encryptor has absorbed the text, from the MAC `start` on.
  pub record IsAbsorbed (start text : List ℕ) (e : Sm4CcmEncryptor) : Type 0 where
    pub running : e.mac ≡ (mac_of e.cipher start text).0
    pub partial : e.mac_block ≡ (mac_of e.cipher start text).1 ++ replicate (16 - e.mac_block_len) 0
    pub width : e.mac_block_len ≡ length (mac_of e.cipher start text).1

  set_next :
      (xs : List ℕ) (k b : ℕ)
      → 0 < k
      → set (xs ++ replicate k 0) (length xs) b ≡ (xs ++ (b ∷ [])) ++ replicate (k - 1) 0
  set_next [] zero b h = absurd (omega arith)
  set_next [] (suc k) b h = ap (λ m. b ∷ replicate m 0) (omega arith)
  set_next (x ∷ xs) k b h = ap (λ t. x ∷ t) (set_next xs k b h)

  -- One more byte.
  mac_of_byte :
      (cipher : Sm4Cipher) (start text : List ℕ) (b : ℕ)
      → mac_of cipher start (text ++ (b ∷ []))
        ≡ (let (t, rest) = mac_of cipher start text in mac_of cipher t (rest ++ (b ∷ [])))
  mac_of_byte cipher start text b =
      blocks-append 16 (mac_step cipher) (omega arith) start text (b ∷ [])

  macs : List ℕ × List ℕ → List ℕ
  macs r = r.0

  rests : List ℕ × List ℕ → List ℕ
  rests r = r.1

  pub one_block :
      (cipher : Sm4Cipher) (t block : List ℕ)
      → length block ≡ 16
      → mac_of cipher t block ≡ (mac_step cipher t block, [])
  one_block cipher t block h =
      ap (mac_of cipher t) (sym (append-nil block))
      ∙ blocks_step 16 (mac_step cipher) (omega arith) t block [] h
      ∙ blocks_short 16 (mac_step cipher) (omega arith) (mac_step cipher t block) [] (omega arith)

  absorb_byte : Sm4CcmEncryptor → ℕ → Sm4CcmEncryptor
  absorb_byte e b =
      let e' : Sm4CcmEncryptor = record e {
        mac_block = set e.mac_block e.mac_block_len b;
        mac_block_len = e.mac_block_len + 1;
      } in
      if e'.mac_block_len == 16 then mac_fold e' else e'

  absorb_byte-IsAbsorbed :
      (start text : List ℕ) (e : Sm4CcmEncryptor) (b : ℕ)
      → IsAbsorbed start text e
      → IsAbsorbed start (text ++ (b ∷ [])) (absorb_byte e b)
  unfolding absorb_byte mac_fold macs rests
  absorb_byte-IsAbsorbed start text e b h =
      let (t, rest) = mac_of e.cipher start text in
      let short : length rest < 16 = blocks_rest 16 (mac_step e.cipher) (omega arith) start text in
      let more : length (rest ++ (b ∷ [])) ≡ length rest + 1 = length-append rest (b ∷ []) in
      let next = mac_of_byte e.cipher start text b in
      let pend = rest ++ (b ∷ []) in
      let filled : set e.mac_block e.mac_block_len b
          ≡ pend ++ replicate (16 - (e.mac_block_len + 1)) 0 =
        ap₂ (λ xs i. set xs i b) (h.partial ∙ ap (λ k. rest ++ replicate (16 - k) 0) h.width)
          h.width
        ∙ set_next rest (16 - length rest) b (omega arith)
        ∙ ap (λ k. pend ++ replicate k 0) (omega (arith, h.width)) in
      elim (Bool-cases (e.mac_block_len + 1 == 16)) [
        | inl full ↦
            let size = (==_iff (e.mac_block_len + 1) 16).0 full in
            let none_left : 16 - (e.mac_block_len + 1) ≡ 0 = omega arith in
            let ended = next ∙ one_block e.cipher t pend (omega (arith, h.width)) in
            rw full (record {
              running =
                  ap₂ (mac_step e.cipher) h.running
                    (filled ∙ ap (λ k. pend ++ replicate k 0) none_left ∙ append-nil pend)
                  ∙ sym (ap macs ended);
              partial = ap (λ r. r ++ replicate 16 0) (sym (ap rests ended));
              width = ap length (sym (ap rests ended));
            })
        | inr open_block ↦
            let size = not_full (e.mac_block_len + 1) open_block in
            let ended =
              next
              ∙ blocks_short 16 (mac_step e.cipher) (omega arith) t pend (
                  below (length pend) (e.mac_block_len + 1) (omega (arith, h.width)) size
                    (omega (arith, h.width))) in
            rw open_block (record {
              running = h.running ∙ sym (ap macs ended);
              partial =
                  filled
                  ∙ ap (λ r. r ++ replicate (16 - (e.mac_block_len + 1)) 0) (sym (ap rests ended));
              width = omega (arith, more, h.width, ap length (sym (ap rests ended)));
            })
      ]
    where
      not_full : (k : ℕ) → (k == 16) ≡ false → k ≢ 16
      not_full k h e = ground arith

      below : (k m : ℕ) → k ≡ m → m ≢ 16 → m ≤ 16 → k < 16
      below k m e h l = grind arith

  -- `mac_absorb`, whatever the bytes.
  pub mac_absorb-IsAbsorbed :
      (start text input : List ℕ) (e : Sm4CcmEncryptor)
      → IsAbsorbed start text e
      → IsAbsorbed start (text ++ input) (mac_absorb e input)
  unfolding mac_absorb absorb_byte
  mac_absorb-IsAbsorbed start text [] e h =
      subst (λ t. IsAbsorbed start t e) (sym (append-nil text)) h
  mac_absorb-IsAbsorbed start text (b ∷ input) e h =
      subst (λ t. IsAbsorbed start t (mac_absorb e (b ∷ input))) (append_assoc text (b ∷ []) input)
        (mac_absorb-IsAbsorbed start (text ++ (b ∷ [])) input (absorb_byte e b)
          (absorb_byte-IsAbsorbed start text e b h))

  -- The MAC of a text is a matter of four fields.
  pub IsAbsorbed-same :
      (start text : List ℕ) (e e' : Sm4CcmEncryptor)
      → e'.cipher ≡ e.cipher
      → e'.mac ≡ e.mac
      → e'.mac_block ≡ e.mac_block
      → e'.mac_block_len ≡ e.mac_block_len
      → IsAbsorbed start text e
      → IsAbsorbed start text e'
  IsAbsorbed-same start text e e' cipher mac mac_block mac_block_len h = record {
    running = mac ∙ h.running ∙ ap (λ c. (mac_of c start text).0) (sym cipher);
    partial =
        mac_block
        ∙ h.partial
        ∙ ap₂ (λ c k. (mac_of c start text).1 ++ replicate (16 - k) 0) (sym cipher)
            (sym mac_block_len);
    width = mac_block_len ∙ h.width ∙ ap (λ c. length (mac_of c start text).1) (sym cipher);
  }

  -- `mac_absorb` touches the MAC alone.
  abbrev pub mac_only : Sm4CcmEncryptor → Sm4CcmEncryptor → Sm4CcmEncryptor
  mac_only e e' = record e {
    mac = e'.mac;
    mac_block = e'.mac_block;
    mac_block_len = e'.mac_block_len;
  }

  absorb_byte_only : (e : Sm4CcmEncryptor) (b : ℕ) → absorb_byte e b ≡ mac_only e (absorb_byte e b)
  unfolding absorb_byte mac_fold
  absorb_byte_only e b = elim (Bool-cases (e.mac_block_len + 1 == 16)) [
    | inl full ↦ rw full refl
    | inr partial ↦ rw partial refl
  ]

  pub mac_absorb_only :
      (e : Sm4CcmEncryptor) (input : List ℕ) → mac_absorb e input ≡ mac_only e (mac_absorb e input)
  unfolding mac_absorb absorb_byte
  mac_absorb_only e [] = refl
  mac_absorb_only e (b ∷ input) =
      mac_absorb_only (absorb_byte e b) input
      ∙ ap (λ x. mac_only x (mac_absorb e (b ∷ input))) (absorb_byte_only e b)
