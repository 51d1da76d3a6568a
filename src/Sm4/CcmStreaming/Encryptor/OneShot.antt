-- ===== src/Sm4/CcmStreaming/Encryptor/OneShot.antt =====
-- The one-shot CCM (sm4/mode_ccm.rs) in the terms of the streaming encryptor.
use gm_crypto_rs.Base.{ℕ, zero, suc, ◌+◌, ◌-◌, ◌/◌, ◌%◌, ◌<◌, ◌≤◌, ◌⊕◌, ◌==◌, if◌then◌else◌, false}
use gm_crypto_rs.Base.{
  List, [], ◌∷◌, ◌++◌, length, set, get_or, take, replicate, xor_bytes, for_range, for_range_last,
  for_range_inv, Subtle,
}
use gm_crypto_rs.Base.{
  ◌≡◌, refl, sym, ap, ap₂, ◌∙◌, inl, inr, arith, Bool-cases, ==_iff, append_assoc, append-nil,
  length-append, length-set, length-replicate, take-set,
}
use gm_crypto_rs.Base.Chunks.{blocks-append, blocks_rest, blocks_count, blocks_short}
use gm_crypto_rs.Sm4.Cipher.{Sm4Cipher, encrypt_block, encrypt_blocks}
use gm_crypto_rs.Sm4.Ccm.{counter_block, counter_stream, zero_pad, mask_tag, cbc_mac, ccm_ctr_xor}
use gm_crypto_rs.Sm4.Ctr.{mask_bytes}
use gm_crypto_rs.Sm4.Masking.{masked, key_blocks, mask_bytes-masked}
use gm_crypto_rs.Sm4.CcmStreaming.Encryptor.{tag_bytes}
use gm_crypto_rs.Sm4.CcmStreaming.Encryptor.Mac.{mac_step, mac_of, one_block}
use gm_crypto_rs.Sm4.CcmStreaming.Encryptor.Position.{key_block}

-- One more byte of the tag.
take-xor_bytes :
    (s0 t : List ℕ) (k : ℕ)
    → k < length s0
    → k < length t
    → take (suc k) (xor_bytes s0 t)
      ≡ take k (xor_bytes s0 t) ++ ((get_or s0 k 0 ⊕ get_or t k 0) ∷ [])
take-xor_bytes [] t k h l = absurd (omega arith)
take-xor_bytes (x ∷ s0) [] k h l = absurd (omega arith)
take-xor_bytes (x ∷ s0) (y ∷ t) zero h l = refl
take-xor_bytes (x ∷ s0) (y ∷ t) (suc k) h l =
    ap (λ r. (x ⊕ y) ∷ r) (take-xor_bytes s0 t k (omega arith) (omega arith))

-- The tag of the one-shot mode, byte by byte.
mask_tag_below :
    (s0 t : List ℕ) (k : ℕ)
    → length s0 ≡ 16
    → length t ≡ 16
    → k ≤ 16
    → take k (for_range k 0 (λ i tag. set tag i (get_or s0 i 0 ⊕ get_or t i 0)) (replicate 16 0))
      ≡ take k (xor_bytes s0 t)
mask_tag_below s0 t zero hs ht h = refl
mask_tag_below s0 t (suc k) hs ht h =
    let body : ℕ → List ℕ → List ℕ = λ i tag. set tag i (get_or s0 i 0 ⊕ get_or t i 0) in
    let before = for_range k 0 body (replicate 16 0) in
    let size : length before ≡ 16 =
      for_range_inv body (λ tag. length tag ≡ 16)
        (λ i tag e. length-set tag i (get_or s0 i 0 ⊕ get_or t i 0) ∙ e) k 0 (replicate 16 0)
        refl in
    ap (take (suc k)) (for_range_last body k 0 k (replicate 16 0) (omega arith))
    ∙ take-set before k (get_or s0 k 0 ⊕ get_or t k 0) (omega arith)
    ∙ ap (λ r. r ++ ((get_or s0 k 0 ⊕ get_or t k 0) ∷ []))
        (mask_tag_below s0 t k hs ht (omega arith))
    ∙ sym (take-xor_bytes s0 t k (omega arith) (omega arith))

pub mask_tag-tag_bytes :
    (s0 t : List ℕ) (tag_len : ℕ)
    → length s0 ≡ 16
    → length t ≡ 16
    → tag_len ≤ 16
    → mask_tag s0 t tag_len ≡ tag_bytes s0 t tag_len
unfolding mask_tag tag_bytes
mask_tag-tag_bytes s0 t tag_len hs ht h = mask_tag_below s0 t tag_len hs ht h

-- The zeros that fill up the last block.
abbrev pub lacking : ℕ → ℕ
lacking len = (16 - len % 16) % 16

lacks_some : (n : ℕ) → 0 ≡ lacking n → (n % 16 == 0) ≡ false → ⊥
lacks_some n h short = ground arith

lacks : (n k : ℕ) → suc k ≡ lacking n → (n % 16 == 0) ≡ false
lacks n k h = ground arith

lacks_fewer : (n m k : ℕ) → m ≡ n + 1 → suc k ≡ lacking n → k ≡ lacking m
lacks_fewer n m k e h = omega arith

zero_pad-replicate :
    (fuel k : ℕ) (out : List ℕ)
    → k ≤ fuel
    → k ≡ lacking (length out)
    → zero_pad fuel out ≡ out ++ replicate k 0
unfolding zero_pad
zero_pad-replicate zero zero out l h = sym (append-nil out)
zero_pad-replicate zero (suc k) out l h = absurd (omega arith)
zero_pad-replicate (suc fuel) zero out l h = elim (Bool-cases (length out % 16 == 0)) [
  | inl whole ↦ rw whole (sym (append-nil out))
  | inr short ↦ absurd (lacks_some (length out) h short)
]
zero_pad-replicate (suc fuel) (suc k) out l h =
    let more : length (out ++ (0 ∷ [])) ≡ length out + 1 = length-append out (0 ∷ []) in
    rw (lacks (length out) k h) (
      zero_pad-replicate fuel k (out ++ (0 ∷ [])) (omega arith)
        (lacks_fewer (length out) (length (out ++ (0 ∷ []))) k more h)
      ∙ append_assoc out (0 ∷ []) (replicate k 0))

module _ ⦃subtle : Subtle⦄ where
  counter_stream-key_blocks :
      (cipher : Sm4Cipher) (a0 : List ℕ) (j count : ℕ)
      → encrypt_blocks cipher (counter_stream a0 (suc j) count)
        ≡ key_blocks (key_block cipher a0) j count
  unfolding encrypt_blocks counter_stream key_blocks
  counter_stream-key_blocks cipher a0 j zero = refl
  counter_stream-key_blocks cipher a0 j (suc count) =
      ap₂ ◌∷◌ (ap (λ i. encrypt_block cipher (counter_block a0 i)) (omega arith))
        (counter_stream-key_blocks cipher a0 (suc j) count)

  pub ccm_ctr_xor-masked :
      (cipher : Sm4Cipher) (a0 input : List ℕ)
      → ccm_ctr_xor cipher a0 input ≡ masked (key_block cipher a0) 0 input
  unfolding ccm_ctr_xor
  ccm_ctr_xor-masked cipher a0 [] = unfold masked in refl
  ccm_ctr_xor-masked cipher a0 (b ∷ input) =
      let count = (length (b ∷ input) + 15) / 16 in
      ap (λ ks. mask_bytes ks 0 (b ∷ input)) (counter_stream-key_blocks cipher a0 0 count)
      ∙ mask_bytes-masked (key_block cipher a0) count 0 (b ∷ input) (omega arith)

  -- Whole blocks leave nothing behind.
  mac_of_whole :
      (cipher : Sm4Cipher) (pre : List ℕ)
      → length pre % 16 ≡ 0
      → mac_of cipher (replicate 16 0) pre ≡ (cbc_mac cipher pre, [])
  unfolding cbc_mac
  mac_of_whole cipher pre h =
      let zeros : List ℕ = replicate 16 0 in
      let short = blocks_rest 16 (mac_step cipher) (omega arith) zeros pre in
      let (q, count) = blocks_count 16 (mac_step cipher) (omega arith) zeros pre in
      ap (λ r. ((mac_of cipher zeros pre).0, r)) (nothing (mac_of cipher zeros pre).1 (omega arith))
    where
      nothing : (xs : List ℕ) → length xs ≡ 0 → xs ≡ []
      nothing [] h = refl
      nothing (x ∷ xs) h = absurd (omega arith)

  fold_last :
      (cipher : Sm4Cipher) (t rest : List ℕ) (k : ℕ)
      → length rest < 16
      → k ≡ (16 - length rest) % 16
      → (mac_of cipher t (rest ++ replicate k 0)).0 ≡ (
          if length rest == 0
          then t
          else mac_step cipher t (rest ++ replicate (16 - length rest) 0))
  fold_last cipher t rest k short h = elim (Bool-cases (length rest == 0)) [
    | inl whole ↦
        let none_left : k ≡ 0 = omega (arith, (==_iff (length rest) 0).0 whole) in
        rw (whole, none_left)
          (ap (λ (r : List ℕ × List ℕ). r.0)
            (blocks_short 16 (mac_step cipher) (omega arith) t (rest ++ [])
              (omega (arith, length-append {A = ℕ} rest []))))
    | inr partial ↦
        let left : k ≡ 16 - length rest = lacks_rest (length rest) k short h partial in
        let block = rest ++ replicate (16 - length rest) 0 in
        let size : length block ≡ 16 = omega (
          arith,
          length-append rest (replicate (16 - length rest) 0),
          length-replicate {A = ℕ} (16 - length rest) 0,
        ) in
        rw (partial, left) (ap (λ (r : List ℕ × List ℕ). r.0) (one_block cipher t block size))
  ]
    where
      lacks_rest : (n k : ℕ) → n < 16 → k ≡ (16 - n) % 16 → (n == 0) ≡ false → k ≡ 16 - n
      lacks_rest n k short h partial = ground arith

  cbc_mac-mac_of :
      (cipher : Sm4Cipher) (text : List ℕ)
      → cbc_mac cipher text ≡ (mac_of cipher (replicate 16 0) text).0
  unfolding cbc_mac
  cbc_mac-mac_of cipher text = refl

  -- The MAC of the padded text from the MAC of the prefix on.
  pub cbc_mac-zero_pad :
      (cipher : Sm4Cipher) (pre text : List ℕ)
      → length pre % 16 ≡ 0
      → cbc_mac cipher (zero_pad 15 (pre ++ text)) ≡ (
          let (t, rest) = mac_of cipher (cbc_mac cipher pre) text in
          if length rest == 0
          then t
          else mac_step cipher t (rest ++ replicate (16 - length rest) 0))
  cbc_mac-zero_pad cipher pre text h =
      let zeros : List ℕ = replicate 16 0 in
      let start = cbc_mac cipher pre in
      let (t, rest) = mac_of cipher start text in
      let short = blocks_rest 16 (mac_step cipher) (omega arith) start text in
      let (q, count) = blocks_count 16 (mac_step cipher) (omega arith) start text in
      let all : length (pre ++ text) ≡ length pre + length text = length-append pre text in
      let k = lacking (length (pre ++ text)) in
      ap (cbc_mac cipher) (zero_pad-replicate 15 k (pre ++ text) (omega arith) refl)
      ∙ cbc_mac-mac_of cipher ((pre ++ text) ++ replicate k 0)
      ∙ ap (λ (r : List ℕ × List ℕ). r.0)
          (blocks-append 16 (mac_step cipher) (omega arith) zeros (pre ++ text) (replicate k 0)
            ∙ ap (λ (r : List ℕ × List ℕ). mac_of cipher r.0 (r.1 ++ replicate k 0))
                (blocks-append 16 (mac_step cipher) (omega arith) zeros pre text
                  ∙ ap (λ (r : List ℕ × List ℕ). mac_of cipher r.0 (r.1 ++ text))
                      (mac_of_whole cipher pre h)))
      ∙ fold_last cipher t rest k short (omega arith)
