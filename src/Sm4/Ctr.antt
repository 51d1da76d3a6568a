-- ===== src/Sm4/Ctr.antt =====
-- sm4/mode_ctr.rs: counter mode, in one call.
pub mod Keystream
use gm_crypto_rs.Base.{
  ℕ, zero, suc, ◌+◌, ◌/◌, ◌%◌, ◌^◌, ◌⊕◌, List, [], ◌∷◌, length, get_or, to_be, from_be,
}
use gm_crypto_rs.Base.{Subtle}
use gm_crypto_rs.Sm4.Cipher.{Sm4Cipher, new, encrypt_blocks}

-- `u128::from_be_bytes(*counter).wrapping_add(offset).to_be_bytes()`
unfoldable pub counter_add : List ℕ → ℕ → List ℕ
counter_add counter offset = to_be 16 ((from_be counter + offset) % 2 ^ 128)

-- `(j..j + n).map(|i| counter_add(counter, i as u128))`
unfoldable pub counter_blocks : List ℕ → ℕ → ℕ → List (List ℕ)
counter_blocks counter j zero = []
counter_blocks counter j (suc n) = counter_add counter j ∷ counter_blocks counter (suc j) n

-- From the byte with index `i` on, `b ^ keystream[i / BLOCK_SIZE][i % BLOCK_SIZE]`.
unfoldable pub mask_bytes : List (List ℕ) → ℕ → List ℕ → List ℕ
mask_bytes keystream i [] = []
mask_bytes keystream i (b ∷ input) =
    (b ⊕ get_or (get_or keystream (i / 16) []) (i % 16) 0) ∷ mask_bytes keystream (suc i) input

module _ ⦃subtle : Subtle⦄ where
  unfoldable pub apply_keystream : List ℕ → List ℕ → List ℕ → List ℕ
  apply_keystream key counter input =
      let cipher = new key in
      let block_count = (length input + 15) / 16 in
      let keystream = encrypt_blocks cipher (counter_blocks counter 0 block_count) in
      mask_bytes keystream 0 input

  unfoldable pub encrypt : List ℕ → List ℕ → List ℕ → List ℕ
  encrypt key counter plaintext = apply_keystream key counter plaintext

  unfoldable pub decrypt : List ℕ → List ℕ → List ℕ → List ℕ
  decrypt key counter ciphertext = apply_keystream key counter ciphertext
