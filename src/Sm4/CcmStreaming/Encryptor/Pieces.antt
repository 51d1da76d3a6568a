-- ===== src/Sm4/CcmStreaming/Encryptor/Pieces.antt =====
-- The streaming encryptor of CCM (sm4/ccm_streaming.rs) against the one-shot `mode_ccm::encrypt`.
use gm_crypto_rs.Base.{ℕ, ◌-◌, ◌==◌, if◌then◌else◌, Bool, true, false, not, ◌||◌}
use gm_crypto_rs.Base.{List, [], ◌++◌, length, replicate, flatten, some, ◌>>◌, guard, Subtle}
use gm_crypto_rs.Base.{◌≡◌, refl, sym, ap, ap₂, ◌∙◌, inl, inr, arith, Bool-cases}
use gm_crypto_rs.Sm4.Cipher
use gm_crypto_rs.Sm4.Cipher.{Sm4Cipher, encrypt_block}
use gm_crypto_rs.Sm4.Ccm
use gm_crypto_rs.Sm4.Ccm.{
  contains, valid_tag_lens, validate_params, build_a0, build_b0, cbc_mac, ccm_ctr_xor, compute_tag,
  zero_pad, payload_ceiling,
}
use gm_crypto_rs.Base.Chunks.{blocks_short}
use gm_crypto_rs.Sm4.Cipher.Inverse.{encrypt_block-IsBlock}
use gm_crypto_rs.Sm4.Ccm.Tag.{cbc_mac-IsBlock}
use gm_crypto_rs.Sm4.CcmStreaming.Encryptor.Prefix.{prefix, length-prefix}
use gm_crypto_rs.Sm4.CcmStreaming.Encryptor.OneShot.{
  ccm_ctr_xor-masked, cbc_mac-zero_pad, mask_tag-tag_bytes,
}
use gm_crypto_rs.Sm4.Masking.{masked}
use gm_crypto_rs.Sm4.CcmStreaming.Encryptor
use gm_crypto_rs.Sm4.CcmStreaming.Encryptor.{
  Sm4CcmEncryptor, within_commitment, tag_bytes, mac_fold, mac_absorb, mask_chunk, fed, update,
  finalize,
}
use gm_crypto_rs.Sm4.CcmStreaming.Encryptor.Mac.{IsAbsorbed, mac_of, mac_step}
use gm_crypto_rs.Sm4.CcmStreaming.Encryptor.Position.{key_block, StandsAt-start}
use gm_crypto_rs.Sm4.CcmStreaming.Encryptor.Fed.{params, feed, IsOpen, feed-IsOpen}

module _ ⦃subtle : Subtle⦄ where
  -- The MAC of the padded text.
  abbrev final_mac : Sm4Cipher → List ℕ → List ℕ → List ℕ
  final_mac cipher start text =
      let (t, rest) = mac_of cipher start text in
      if length rest == 0 then t else mac_step cipher t (rest ++ replicate (16 - length rest) 0)

  folded : Sm4CcmEncryptor → Sm4CcmEncryptor
  folded e = if e.mac_block_len == 0 then e else mac_fold e

  folded_mac :
      (start text : List ℕ) (e : Sm4CcmEncryptor)
      → IsAbsorbed start text e
      → ((folded e).mac ≡ final_mac e.cipher start text)
        × ((folded e).cipher ≡ e.cipher)
        × ((folded e).a0 ≡ e.a0)
        × ((folded e).tag_len ≡ e.tag_len)
  unfolding folded mac_fold
  folded_mac start text e h =
      let rest = (mac_of e.cipher start text).1 in
      elim (Bool-cases (length rest == 0)) [
        | inl whole ↦
            let same : (e.mac_block_len == 0) ≡ true = ap (λ k. k == 0) h.width ∙ whole in
            rw (whole, same) (h.running, refl, refl, refl)
        | inr partial ↦
            let same : (e.mac_block_len == 0) ≡ false = ap (λ k. k == 0) h.width ∙ partial in
            rw (partial, same)
              (
                ap₂ (mac_step e.cipher) h.running
                    (h.partial ∙ ap (λ k. rest ++ replicate (16 - k) 0) h.width),
                refl,
                refl,
                refl,
              )
      ]

  -- The tag of a stream that is complete.
  finalize-IsOpen :
      (e0 e : Sm4CcmEncryptor) (text : List ℕ)
      → IsOpen e0 text e
      → length text ≡ e0.declared_len
      → finalize e
        ≡ some
            (tag_bytes (encrypt_block e0.cipher e0.a0) (final_mac e0.cipher e0.mac text) e0.tag_len)
  unfolding finalize folded
  finalize-IsOpen e0 e text h complete =
      let (mac, cipher, a0, tag_len) = folded_mac e0.mac text e h.absorbed in
      let go =
        passes e.poisoned e.fed_len e.declared_len h.clean
          (h.counted ∙ complete ∙ sym h.committed) in
      let f = folded e in
      ap (λ g. guard g >> some (tag_bytes (encrypt_block f.cipher f.a0) f.mac f.tag_len)) go
      ∙ ap some (
          ap₂ (λ s0 (r : List ℕ × ℕ). tag_bytes s0 r.0 r.1)
            (ap₂ encrypt_block (cipher ∙ h.keyed) (a0 ∙ h.based))
            (ap₂ (λ m n. (m, n)) (mac ∙ ap (λ c. final_mac c e0.mac text) h.keyed)
              (tag_len ∙ h.sized)))
    where
      passes : (p : Bool) (n m : ℕ) → p ≡ false → n ≡ m → not (p || not (n == m)) ≡ true
      passes p n m hp e = ground arith

  unfoldable pub made : List ℕ → List ℕ → List ℕ → ℕ → ℕ → Sm4CcmEncryptor
  made key nonce aad len tag_len = record {
    cipher = Cipher.new key;
    a0 = build_a0 nonce;
    mac = cbc_mac (Cipher.new key) (prefix nonce aad len tag_len);
    mac_block = replicate 16 0;
    mac_block_len = 0;
    ks = replicate 16 0;
    ks_pos = 16;
    next_block = 1;
    declared_len = len;
    fed_len = 0;
    tag_len = tag_len;
    poisoned = false;
  }

  made-IsOpen :
      (key nonce aad : List ℕ) (len tag_len : ℕ)
      → IsOpen (made key nonce aad len tag_len) [] (made key nonce aad len tag_len)
  unfolding made
  made-IsOpen key nonce aad len tag_len =
      let cipher = Cipher.new key in
      let start = cbc_mac cipher (prefix nonce aad len tag_len) in
      let nothing = blocks_short 16 (mac_step cipher) (omega arith) start [] (omega arith) in
      record {
        stands = StandsAt-start (made key nonce aad len tag_len) refl refl;
        absorbed = record {
          running = ap (λ (r : List ℕ × List ℕ). r.0) (sym nothing);
          partial = ap (λ (r : List ℕ × List ℕ). r.1 ++ replicate 16 0) (sym nothing);
          width = ap (λ (r : List ℕ × List ℕ). length r.1) (sym nothing);
        };
        counted = refl;
        keyed = refl;
        based = refl;
        committed = refl;
        sized = refl;
        clean = refl;
      }

  -- The one-shot mode in the same terms.
  encrypt-final_mac :
      (key nonce aad plaintext : List ℕ) (tag_len : ℕ)
      → validate_params nonce (length plaintext) tag_len ≡ some tt
      → let cipher = Cipher.new key in
        let start = cbc_mac cipher (prefix nonce aad (length plaintext) tag_len) in
        Ccm.encrypt key nonce aad plaintext tag_len
        ≡ some (
            masked (key_block cipher (build_a0 nonce)) 0 plaintext
            ++ tag_bytes
                (encrypt_block cipher (build_a0 nonce))
                (final_mac cipher start plaintext)
                tag_len)
  unfolding Ccm.encrypt compute_tag
  encrypt-final_mac key nonce aad plaintext tag_len h =
      let cipher = Cipher.new key in
      let a0 = build_a0 nonce in
      let pre = prefix nonce aad (length plaintext) tag_len in
      let p = params nonce (length plaintext) tag_len h in
      let t = cbc_mac cipher (zero_pad 15 (pre ++ plaintext)) in
      rw h (
        ap some (
          ap₂ ◌++◌ (ccm_ctr_xor-masked cipher a0 plaintext) (
            mask_tag-tag_bytes (encrypt_block cipher a0) t tag_len
              (encrypt_block-IsBlock cipher a0).width (cbc_mac-IsBlock cipher _).width p.tag
            ∙ ap (λ m. tag_bytes (encrypt_block cipher a0) m tag_len)
                (cbc_mac-zero_pad cipher pre plaintext
                  (length-prefix nonce aad (length plaintext) tag_len p.low p.high)))))

  -- For parameters that `validate_params` admits at the length of all the pieces together, `new`
  -- returns an encryptor that gives a ciphertext for every piece and then a tag, and the
  -- ciphertexts one behind the other followed by the tag are what the one-shot `encrypt` returns
  -- for all the pieces together.
  pub encryptor_pieces :
      (key nonce aad : List ℕ) (pieces : List (List ℕ)) (tag_len : ℕ)
      → validate_params nonce (length (flatten pieces)) tag_len ≡ some tt
      → (e : Sm4CcmEncryptor) × (Encryptor.new key nonce aad (length (flatten pieces)) tag_len
          ≡ some e)
        × (ct : List ℕ) × ((feed e pieces).1 ≡ some ct)
        × (tag : List ℕ) × (finalize (feed e pieces).0 ≡ some tag)
        × (Ccm.encrypt key nonce aad (flatten pieces) tag_len ≡ some (ct ++ tag))
  unfolding Encryptor.new made
  encryptor_pieces key nonce aad pieces tag_len h =
      let text = flatten pieces in
      let e0 = made key nonce aad (length text) tag_len in
      let p = params nonce (length text) tag_len h in
      let (opened, out) =
        feed-IsOpen e0 e0 [] pieces (made-IsOpen key nonce aad (length text) tag_len) (omega arith)
          (omega (arith, p.small)) in
      (
        e0,
        rw h refl,
        _,
        out,
        _,
        finalize-IsOpen e0 (feed e0 pieces).0 text opened refl,
        encrypt-final_mac key nonce aad text tag_len h,
      )
