-- ===== src/Sm4/Gcm/Mask.antt =====
-- sm4/mode_gcm.rs: the mask of `gctr`, which undoes itself, and the width of what `ghash` returns.
use gm_crypto_rs.Base.{ℕ, zero, suc, ◌+◌, ◌/◌, ◌%◌}
use gm_crypto_rs.Base.{List, [], ◌∷◌, length, replicate, get_or, xor_bytes, All, Subtle, IsBytes}
use gm_crypto_rs.Base.{◌≡◌, refl, ap, ap₂, ◌∙◌, arith, xor_cancel, xor-lt, get_or-IsByte}
use gm_crypto_rs.Base.Chunks.{blocks_inv}
use gm_crypto_rs.Sm4.Cipher.{Sm4Cipher, encrypt_blocks}
use gm_crypto_rs.Sm4.Cipher.Inverse.{IsBlock, encrypt_block-IsBlock}
use gm_crypto_rs.Sm4.Ctr.{mask_bytes}
use gm_crypto_rs.Sm4.Ghash.{ghash_mul_software, ghash_mul_software-IsBlock}
use gm_crypto_rs.Sm4.Gcm.{counter_run, ghash, ghash_a_c_lens, gctr, full_tag}

-- The mask of `gctr` on its own output.
mask_bytes_undone :
    (keystream : List (List ℕ)) (i : ℕ) (input : List ℕ)
    → mask_bytes keystream i (mask_bytes keystream i input) ≡ input
unfolding mask_bytes
mask_bytes_undone keystream i [] = refl
mask_bytes_undone keystream i (b ∷ input) =
    ap₂ ◌∷◌ (xor_cancel b (get_or (get_or keystream (i / 16) []) (i % 16) 0))
      (mask_bytes_undone keystream (suc i) input)

length-mask_bytes :
    (keystream : List (List ℕ)) (i : ℕ) (input : List ℕ)
    → length (mask_bytes keystream i input) ≡ length input
unfolding mask_bytes
length-mask_bytes keystream i [] = refl
length-mask_bytes keystream i (b ∷ input) = ap suc (length-mask_bytes keystream (suc i) input)

block-IsBytes :
    (keystream : List (List ℕ)) (i : ℕ) → All IsBytes keystream → IsBytes (get_or keystream i [])
block-IsBytes [] i h = tt
block-IsBytes (block ∷ keystream) zero (hb, _) = hb
block-IsBytes (block ∷ keystream) (suc i) (_, h) = block-IsBytes keystream i h

mask_bytes-IsBytes :
    (keystream : List (List ℕ)) (i : ℕ) (input : List ℕ)
    → All IsBytes keystream
    → IsBytes input
    → IsBytes (mask_bytes keystream i input)
unfolding mask_bytes
mask_bytes-IsBytes keystream i [] h k = tt
mask_bytes-IsBytes keystream i (b ∷ input) h (hb, k) = (
  xor-lt 8 b (get_or (get_or keystream (i / 16) []) (i % 16) 0) hb
      (get_or-IsByte (get_or keystream (i / 16) []) (i % 16) (block-IsBytes keystream (i / 16) h)),
  mask_bytes-IsBytes keystream (suc i) input h k,
)

ghash-IsBlock : (h_block input : List ℕ) → IsBlock (ghash h_block input)
unfolding ghash
ghash-IsBlock h_block input =
    blocks_inv 16 (λ y x. ghash_mul_software h_block (xor_bytes y x)) (omega arith) IsBlock
      (λ y x _ _. ghash_mul_software-IsBlock h_block (xor_bytes y x)) (replicate 16 0) input
      (record { width = refl; bytes = omega arith })

module _ ⦃subtle : Subtle⦄ where
  encrypt_blocks-IsBytes :
      (cipher : Sm4Cipher) (input : List (List ℕ)) → All IsBytes (encrypt_blocks cipher input)
  unfolding encrypt_blocks
  encrypt_blocks-IsBytes cipher [] = tt
  encrypt_blocks-IsBytes cipher (block ∷ input) =
      ((encrypt_block-IsBlock cipher block).bytes, encrypt_blocks-IsBytes cipher input)

  pub length-gctr :
      (cipher : Sm4Cipher) (icb input : List ℕ) → length (gctr cipher icb input) ≡ length input
  unfolding gctr
  length-gctr cipher icb input = length-mask_bytes _ 0 input

  pub gctr-gctr :
      (cipher : Sm4Cipher) (icb input : List ℕ) → gctr cipher icb (gctr cipher icb input) ≡ input
  unfolding gctr
  gctr-gctr cipher icb input =
      let keystream = λ (n : ℕ). encrypt_blocks cipher (counter_run icb ((n + 15) / 16)) in
      ap (λ n. mask_bytes (keystream n) 0 (mask_bytes (keystream (length input)) 0 input))
        (length-mask_bytes (keystream (length input)) 0 input)
      ∙ mask_bytes_undone (keystream (length input)) 0 input

  pub full_tag-IsBlock :
      (cipher : Sm4Cipher) (h_block j0 aad ciphertext : List ℕ)
      → IsBlock (full_tag cipher h_block j0 aad ciphertext)
  unfolding full_tag ghash_a_c_lens gctr
  full_tag-IsBlock cipher h_block j0 aad ciphertext =
      let s = ghash-IsBlock h_block _ in
      record {
        width = length-mask_bytes _ 0 _ ∙ s.width;
        bytes = mask_bytes-IsBytes _ 0 _ (encrypt_blocks-IsBytes cipher _) s.bytes;
      }
