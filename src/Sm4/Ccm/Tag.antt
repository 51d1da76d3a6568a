-- ===== src/Sm4/Ccm/Tag.antt =====
-- The pieces of CCM (sm4/mode_ccm.rs): the padding loop, the masking and the tag.
use gm_crypto_rs.Base.{ℕ, zero, suc, ◌+◌, ◌-◌, ◌/◌, ◌%◌, ◌<◌, ◌≤◌, ◌⊕◌, ◌==◌}
use gm_crypto_rs.Base.{true, false, List, [], ◌∷◌, ◌++◌, length, get_or, set, replicate}
use gm_crypto_rs.Base.{
  Subtle, IsByte, IsBytes, All-take, All-replicate, for_range, for_range_inv, Bool-cases, inl, inr,
}
use gm_crypto_rs.Base.{
  ◌≡◌, refl, ap, ap₂, ◌∙◌, arith, length-append, length-take, length-set, ==_iff,
}
use gm_crypto_rs.Base.{get_or-IsByte, xor-lt, xor_cancel, xor_bytes}
use gm_crypto_rs.Base.Chunks.{blocks_inv}
use gm_crypto_rs.Sm4.Cipher.{Sm4Cipher, encrypt_block, encrypt_blocks}
use gm_crypto_rs.Sm4.Cipher.Inverse.{IsBlock, encrypt_block-IsBlock}
use gm_crypto_rs.Sm4.Ctr.{mask_bytes}
use gm_crypto_rs.Sm4.Ccm.{
  contains, valid_tag_lens, zero_pad, counter_stream, mask_tag, cbc_mac, ccm_ctr_xor, compute_tag,
  build_a0,
}

-- With enough rounds the padded text is whole blocks.
pub zero_pad_whole :
    (fuel : ℕ) (out : List ℕ)
    → (16 - length out % 16) % 16 ≤ fuel
    → length (zero_pad fuel out) % 16 ≡ 0
unfolding zero_pad
zero_pad_whole zero out h = omega arith
zero_pad_whole (suc fuel) out h = elim (Bool-cases (length out % 16 == 0)) [
  | inl whole ↦ rw whole ((==_iff (length out % 16) 0).0 whole)
  | inr short ↦
      let more : length (out ++ (0 ∷ [])) ≡ length out + 1 = length-append out (0 ∷ []) in
      rw short (
        zero_pad_whole fuel (out ++ (0 ∷ []))
          (shrinks (length out) (length (out ++ (0 ∷ []))) fuel more h short))
]
  where
    shrinks :
        (n m fuel : ℕ)
        → m ≡ n + 1
        → (16 - n % 16) % 16 ≤ suc fuel
        → (n % 16 == 0) ≡ false
        → (16 - m % 16) % 16 ≤ fuel
    shrinks n m fuel e h short = ground arith

length-mask_bytes :
    (ks : List (List ℕ)) (i : ℕ) (xs : List ℕ) → length (mask_bytes ks i xs) ≡ length xs
unfolding mask_bytes
length-mask_bytes ks i [] = refl
length-mask_bytes ks i (x ∷ xs) = ap suc (length-mask_bytes ks (suc i) xs)

mask_bytes-mask_bytes :
    (ks : List (List ℕ)) (i : ℕ) (xs : List ℕ) → mask_bytes ks i (mask_bytes ks i xs) ≡ xs
unfolding mask_bytes
mask_bytes-mask_bytes ks i [] = refl
mask_bytes-mask_bytes ks i (x ∷ xs) =
    ap₂ ◌∷◌ (xor_cancel x (get_or (get_or ks (i / 16) []) (i % 16) 0))
      (mask_bytes-mask_bytes ks (suc i) xs)

set-IsBytes : (xs : List ℕ) (i v : ℕ) → IsBytes xs → v < 256 → IsBytes (set xs i v)
set-IsBytes [] i v h l = h
set-IsBytes (x ∷ xs) zero v (hx, h) l = (l, h)
set-IsBytes (x ∷ xs) (suc i) v (hx, h) l = (hx, set-IsBytes xs i v h l)

-- A tag of a length up to 16 has that length.
mask_tag_lem :
    (s0 t : List ℕ) (tag_len : ℕ)
    → IsBytes s0
    → IsBytes t
    → tag_len ≤ 16
    → (length (mask_tag s0 t tag_len) ≡ tag_len) × IsBytes (mask_tag s0 t tag_len)
unfolding mask_tag
mask_tag_lem s0 t tag_len h0 ht l =
    let body : ℕ → List ℕ → List ℕ = λ i tag. set tag i (get_or s0 i 0 ⊕ get_or t i 0) in
    let full = for_range tag_len 0 body (replicate 16 0) in
    let (size, bytes) =
      for_range_inv body (λ tag. (length tag ≡ 16) × IsBytes tag)
        (λ i tag h. (
          length-set tag i (get_or s0 i 0 ⊕ get_or t i 0) ∙ h.0,
          set-IsBytes tag i (get_or s0 i 0 ⊕ get_or t i 0) h.1 (
              xor-lt 8 (get_or s0 i 0) (get_or t i 0) (get_or-IsByte s0 i h0)
                (get_or-IsByte t i ht)),
        ))
        tag_len 0 (replicate 16 0) (refl, All-replicate IsByte 16 0 (omega arith)) in
    (omega (arith, length-take tag_len full), All-take IsByte tag_len full bytes)

pub valid_tag_len : (n : ℕ) → contains valid_tag_lens n ≡ true → n ≤ 16
valid_tag_len n h = ground arith

module _ ⦃subtle : Subtle⦄ where
  pub cbc_mac-IsBlock : (cipher : Sm4Cipher) (auth : List ℕ) → IsBlock (cbc_mac cipher auth)
  unfolding cbc_mac
  cbc_mac-IsBlock cipher auth =
      blocks_inv 16 (λ t block. encrypt_block cipher (xor_bytes t block)) (omega arith) IsBlock
        (λ t block h e. encrypt_block-IsBlock cipher (xor_bytes t block)) (replicate 16 0) auth
        (record { width = refl; bytes = All-replicate IsByte 16 0 (omega arith) })

  pub compute_tag_lem :
      (cipher : Sm4Cipher) (nonce aad plaintext : List ℕ) (tag_len : ℕ)
      → tag_len ≤ 16
      → (length (compute_tag cipher nonce aad plaintext tag_len) ≡ tag_len)
        × IsBytes (compute_tag cipher nonce aad plaintext tag_len)
  unfolding compute_tag
  compute_tag_lem cipher nonce aad plaintext tag_len l =
      mask_tag_lem _ _ tag_len (encrypt_block-IsBlock cipher (build_a0 nonce)).bytes
        (cbc_mac-IsBlock cipher _).bytes l

  pub length-ccm_ctr_xor :
      (cipher : Sm4Cipher) (a0 input : List ℕ) → length (ccm_ctr_xor cipher a0 input) ≡ length input
  unfolding ccm_ctr_xor
  length-ccm_ctr_xor cipher a0 [] = refl
  length-ccm_ctr_xor cipher a0 (b ∷ input) = length-mask_bytes _ 0 (b ∷ input)

  -- Masking twice under the same first counter block gives the text back.
  pub ccm_ctr_xor-ccm_ctr_xor :
      (cipher : Sm4Cipher) (a0 input : List ℕ)
      → ccm_ctr_xor cipher a0 (ccm_ctr_xor cipher a0 input) ≡ input
  unfolding ccm_ctr_xor mask_bytes
  ccm_ctr_xor-ccm_ctr_xor cipher a0 [] = refl
  ccm_ctr_xor-ccm_ctr_xor cipher a0 (b ∷ input) =
      let ks = λ (n : ℕ). encrypt_blocks cipher (counter_stream a0 1 ((n + 15) / 16)) in
      ap (λ n. mask_bytes (ks n) 0 (mask_bytes (ks (length (b ∷ input))) 0 (b ∷ input)))
        (length-mask_bytes (ks (length (b ∷ input))) 0 (b ∷ input))
      ∙ mask_bytes-mask_bytes (ks (length (b ∷ input))) 0 (b ∷ input)
