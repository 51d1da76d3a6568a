-- ===== src/Sm4/Cbc.antt =====
-- sm4/mode_cbc.rs: CBC with PKCS#7 padding, in one call.
pub mod Padding
pub mod Strip
pub mod Loop
pub mod RoundTrip
use gm_crypto_rs.Base.{ℕ, ◌+◌, ◌-◌, ◌%◌, ◌==◌, ◌⊕◌, bit_or, if◌then◌else◌, Bool, not, ◌&&◌, ◌||◌}
use gm_crypto_rs.Base.{List, [], ◌++◌, length, get_or, take, drop, replicate, xor_bytes, for_range}
use gm_crypto_rs.Base.{Option, none, some, ◌>>=◌, ◌>>◌, guard, Subtle}
use gm_crypto_rs.Base.Chunks.{blocks}
use gm_crypto_rs.Sm4.Cipher.{Sm4Cipher, new, encrypt_block, decrypt_block}

-- The chaining block and the output so far.
abbrev pub Chain : Type 0
Chain = List ℕ × List ℕ

-- PKCS#7: `pad_len` copies of `pad_len`.
unfoldable pub pad : List ℕ → List ℕ
pad plaintext =
    let pad_len = 16 - length plaintext % 16 in plaintext ++ replicate pad_len (pad_len % 256)

module _ ⦃subtle : Subtle⦄ where
  open subtle use {ct_eq, ct_gt, conditional_select}

  unfoldable pub encrypt_step : Sm4Cipher → Chain → List ℕ → Chain
  encrypt_step cipher (prev, out) block =
      let c = encrypt_block cipher (xor_bytes block prev) in (c, out ++ c)

  unfoldable pub encrypt : List ℕ → List ℕ → List ℕ → List ℕ
  encrypt key iv plaintext =
      let ((prev, out), rest) = blocks 16 (encrypt_step (new key)) (iv, []) (pad plaintext) in
      out ++ rest

  unfoldable pub decrypt_step : Sm4Cipher → Chain → List ℕ → Chain
  decrypt_step cipher (prev, out) block =
      (block, out ++ xor_bytes (decrypt_block cipher block) prev)

  -- The scan over the final block: disagreements inside the padding are gathered in `acc`.
  unfoldable pub scan_padding : List ℕ → ℕ → ℕ → ℕ → ℕ
  scan_padding block last i acc =
      let pos_from_end = (16 - i) % 256 in
      let in_padding = not (ct_gt pos_from_end last) in
      bit_or acc (conditional_select 0 (get_or block i 0 ⊕ last) in_padding)

  unfoldable pub strip_pkcs7_block : List ℕ → Option ℕ
  strip_pkcs7_block block =
      let last = get_or block (16 - 1) 0 in
      let pad_nonzero = not (ct_eq last 0) in
      let pad_le_block = not (ct_gt last 16) in
      let pad_in_range = pad_nonzero && pad_le_block in
      let acc_zero = ct_eq (for_range 16 0 (scan_padding block last) 0) 0 in
      if pad_in_range && acc_zero then some (16 - last) else none

  -- The stripped buffer, `buf.truncate(n - BLOCK_SIZE + kept)`.
  unfoldable pub strip_pkcs7_ct : List ℕ → Option (List ℕ)
  strip_pkcs7_ct buf = do
    let n = length buf
    guard (not (n == 0 || not (n % 16 == 0)))
    kept ← strip_pkcs7_block (drop (n - 16) buf)
    some (take (n - 16 + kept) buf)

  unfoldable pub decrypt : List ℕ → List ℕ → List ℕ → Option (List ℕ)
  decrypt key iv ciphertext = do
    let n = length ciphertext
    guard (not (n == 0 || not (n % 16 == 0)))
    let result = blocks 16 (decrypt_step (new key)) (iv, []) ciphertext
    strip_pkcs7_ct (result.0.1 ++ result.1)
