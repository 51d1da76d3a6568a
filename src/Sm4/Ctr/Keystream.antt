-- ===== src/Sm4/Ctr/Keystream.antt =====
-- Counter mode (sm4/mode_ctr.rs) against the keystream taken byte by byte.
use gm_crypto_rs.Base.{ℕ, zero, suc, ◌+◌, ◌/◌, ◌%◌, ◌^◌, ◌<◌, List, ◌∷◌}
use gm_crypto_rs.Base.{length, to_be, from_be, Subtle, from_be-to_be, to_be-from_be}
use gm_crypto_rs.Base.{from_be-lt, ◌≡◌, refl, ap, ap₂, ◌∙◌, arith}
use gm_crypto_rs.Sm4.Cipher.{Sm4Cipher, new, encrypt_block, encrypt_blocks}
use gm_crypto_rs.Sm4.Cipher.Inverse.{IsBlock}
use gm_crypto_rs.Sm4.Masking.{masked, key_blocks, masked-masked, length-masked, mask_bytes-masked}
use gm_crypto_rs.Sm4.Ctr.{
  counter_add, counter_blocks, mask_bytes, apply_keystream, encrypt, decrypt,
}

-- The counter of the block `a + b` is `b` steps after that of the block `a`.
pub counter_add_add :
    (counter : List ℕ) (a b : ℕ)
    → counter_add (counter_add counter a) b ≡ counter_add counter (a + b)
unfolding counter_add
counter_add_add counter a b =
    let m = (from_be counter + a) % 2 ^ 128 in
    let back : from_be (to_be 16 m) ≡ m = from_be-to_be 16 m (omega arith) in
    rw back (ap (to_be 16) (omega arith))

pub counter_add_zero : (counter : List ℕ) → IsBlock counter → counter_add counter 0 ≡ counter
unfolding counter_add
counter_add_zero counter h =
    let bound : from_be counter < 256 ^ 16 = from_be-lt 16 counter h.bytes h.width in
    let same : (from_be counter + 0) % 2 ^ 128 ≡ from_be counter = omega arith in
    ap (to_be 16) same ∙ to_be-from_be 16 counter h.bytes h.width

module _ ⦃subtle : Subtle⦄ where
  -- The keystream's block with index `q`.
  abbrev pub key_block : Sm4Cipher → List ℕ → ℕ → List ℕ
  key_block cipher start q = encrypt_block cipher (counter_add start q)

  pub counter_blocks-key_blocks :
      (cipher : Sm4Cipher) (start : List ℕ) (q j count : ℕ)
      → encrypt_blocks cipher (counter_blocks (counter_add start q) j count)
        ≡ key_blocks (key_block cipher start) (q + j) count
  unfolding encrypt_blocks counter_blocks key_blocks
  counter_blocks-key_blocks cipher start q j zero = refl
  counter_blocks-key_blocks cipher start q j (suc count) =
      ap₂ ◌∷◌ (ap (encrypt_block cipher) (counter_add_add start q j)) (
        counter_blocks-key_blocks cipher start q (suc j) count
        ∙ ap (λ i. key_blocks (key_block cipher start) i count) (omega arith))

  -- The same from the counter itself on.
  first_blocks :
      (cipher : Sm4Cipher) (start : List ℕ) (j count : ℕ)
      → encrypt_blocks cipher (counter_blocks start j count)
        ≡ key_blocks (key_block cipher start) j count
  unfolding encrypt_blocks counter_blocks key_blocks
  first_blocks cipher start j zero = refl
  first_blocks cipher start j (suc count) =
      ap (λ bs. key_block cipher start j ∷ bs) (first_blocks cipher start (suc j) count)

  pub apply_keystream-masked :
      (key counter input : List ℕ)
      → apply_keystream key counter input ≡ masked (key_block (new key) counter) 0 input
  unfolding apply_keystream
  apply_keystream-masked key counter input =
      let count = (length input + 15) / 16 in
      ap (λ ks. mask_bytes ks 0 input) (first_blocks (new key) counter 0 count)
      ∙ mask_bytes-masked (key_block (new key) counter) count 0 input (omega arith)

  -- For every key, counter and plaintext, counter-mode `decrypt` undoes `encrypt`, and the
  -- ciphertext is as long as the plaintext.
  pub ctr_round_trip :
      (key counter plaintext : List ℕ)
      → (decrypt key counter (encrypt key counter plaintext) ≡ plaintext)
        × (length (encrypt key counter plaintext) ≡ length plaintext)
  unfolding encrypt decrypt
  ctr_round_trip key counter plaintext =
      let enc = apply_keystream-masked key counter plaintext in
      (
        apply_keystream-masked key counter (apply_keystream key counter plaintext)
            ∙ ap (masked (key_block (new key) counter) 0) enc
            ∙ masked-masked (key_block (new key) counter) 0 plaintext,
        ap length enc ∙ length-masked (key_block (new key) counter) 0 plaintext,
      )
