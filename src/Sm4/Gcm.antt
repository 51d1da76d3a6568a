-- ===== src/Sm4/Gcm.antt =====
-- sm4/mode_gcm.rs: GCM, in one call.
pub mod Mask
pub mod Exact
pub mod RoundTrip
use gm_crypto_rs.Base.{ℕ, zero, suc, ◌+◌, ◌-◌, ◌*◌, ◌/◌, ◌%◌, ◌^◌, leb, ◌==◌, min}
use gm_crypto_rs.Base.{
  if◌then◌else◌, Bool, not, List, [], ◌∷◌, ◌++◌, length, set, take, drop, replicate, to_be, from_be,
  xor_bytes,
}
use gm_crypto_rs.Base.{Option, none, some, ◌>>=◌, ◌>>◌, guard, Subtle}
use gm_crypto_rs.Base.Chunks.{blocks}
use gm_crypto_rs.Base.Stream.{copy_into}
use gm_crypto_rs.Sm4.Cipher.{Sm4Cipher, new, encrypt_block, encrypt_blocks}
use gm_crypto_rs.Sm4.Ccm.{zero_pad, contains}
use gm_crypto_rs.Sm4.Ctr.{mask_bytes}
use gm_crypto_rs.Sm4.Ghash.{ghash_mul_software}

abbrev pub gcm_max_pt_bytes : ℕ
gcm_max_pt_bytes = 2 ^ 36 - 32

-- `GcmTagLen::new`, with the length that `as_usize` gives back.
unfoldable pub gcm_tag_len : ℕ → Option ℕ
gcm_tag_len bytes = do guard (contains (4 ∷ 8 ∷ 12 ∷ 13 ∷ 14 ∷ 15 ∷ 16 ∷ []) bytes); some bytes

unfoldable pub inc32 : List ℕ → List ℕ
inc32 b = take 12 b ++ to_be 4 ((from_be (drop 12 b) + 1) % 2 ^ 32)

-- `(icb, inc32(icb), inc32(inc32(icb)), ...)`
unfoldable pub counter_run : List ℕ → ℕ → List (List ℕ)
counter_run cb zero = []
counter_run cb (suc n) = cb ∷ counter_run (inc32 cb) n

-- The length in bits, `u64::try_from(n).unwrap_or(u64::MAX).saturating_mul(8)`.
unfoldable pub bit_len : ℕ → ℕ
bit_len n = min (min n (2 ^ 64 - 1) * 8) (2 ^ 64 - 1)

unfoldable pub ghash : List ℕ → List ℕ → List ℕ
ghash h_block input =
    (blocks 16 (λ y x. ghash_mul_software h_block (xor_bytes y x)) (replicate 16 0) input).0

unfoldable pub derive_j0 : List ℕ → List ℕ → List ℕ
derive_j0 h_block nonce =
    if length nonce == 12
    then set (copy_into (replicate 16 0) 0 nonce) 15 1
    else ghash h_block (zero_pad 15 nonce ++ (replicate 8 0 ++ to_be 8 (bit_len (length nonce))))

unfoldable pub ghash_a_c_lens : List ℕ → List ℕ → List ℕ → List ℕ
ghash_a_c_lens h_block aad ct = ghash h_block (
    zero_pad 15 (zero_pad 15 aad ++ ct)
    ++ (to_be 8 (bit_len (length aad)) ++ to_be 8 (bit_len (length ct))))

module _ ⦃subtle : Subtle⦄ where
  -- On no input there are no blocks, and no output.
  unfoldable pub gctr : Sm4Cipher → List ℕ → List ℕ → List ℕ
  gctr cipher icb input =
      let block_count = (length input + 15) / 16 in
      let keystream = encrypt_blocks cipher (counter_run icb block_count) in
      mask_bytes keystream 0 input

  -- The tag of a ciphertext, which both directions compute.
  unfoldable pub full_tag : Sm4Cipher → List ℕ → List ℕ → List ℕ → List ℕ → List ℕ
  full_tag cipher h_block j0 aad ciphertext = gctr cipher j0 (ghash_a_c_lens h_block aad ciphertext)

  unfoldable pub encrypt : List ℕ → List ℕ → List ℕ → List ℕ → Option (List ℕ × List ℕ)
  encrypt key nonce aad plaintext = do
    guard (leb (length plaintext) gcm_max_pt_bytes)
    let cipher = new key
    let h_block = encrypt_block cipher (replicate 16 0)
    let j0 = derive_j0 h_block nonce
    let ciphertext = gctr cipher (inc32 j0) plaintext
    some (ciphertext, full_tag cipher h_block j0 aad ciphertext)

  unfoldable pub decrypt : List ℕ → List ℕ → List ℕ → List ℕ → List ℕ → Option (List ℕ)
  decrypt key nonce aad ciphertext tag = do
    guard (leb (length ciphertext) gcm_max_pt_bytes)
    let cipher = new key
    let h_block = encrypt_block cipher (replicate 16 0)
    let j0 = derive_j0 h_block nonce
    guard (subtle.ct_eq_bytes (full_tag cipher h_block j0 aad ciphertext) tag)
    some (gctr cipher (inc32 j0) ciphertext)

  unfoldable pub encrypt_with_tag_len :
      List ℕ → List ℕ → List ℕ → List ℕ → ℕ → Option (List ℕ × List ℕ)
  encrypt_with_tag_len key nonce aad plaintext tag_len = do
    guard (leb (length plaintext) gcm_max_pt_bytes)
    (ciphertext, tag) ← encrypt key nonce aad plaintext
    some (ciphertext, take tag_len tag)

  unfoldable pub decrypt_with_tag_len : List ℕ → List ℕ → List ℕ → List ℕ → List ℕ → Option (List ℕ)
  decrypt_with_tag_len key nonce aad ciphertext tag = do
    guard (leb (length ciphertext) gcm_max_pt_bytes)
    t ← gcm_tag_len (length tag)
    let cipher = new key
    let h_block = encrypt_block cipher (replicate 16 0)
    let j0 = derive_j0 h_block nonce
    guard (subtle.ct_eq_bytes (take t (full_tag cipher h_block j0 aad ciphertext)) tag)
    some (gctr cipher (inc32 j0) ciphertext)
