-- ===== src/Sm4/Cbc/RoundTrip.antt =====
-- sm4/mode_cbc.rs: `decrypt` on what `encrypt` returns.
use gm_crypto_rs.Base.{ℕ, ◌+◌, ◌-◌, ◌*◌, ◌/◌, ◌%◌, ◌==◌, not, ◌||◌}
use gm_crypto_rs.Base.{true, List, [], ◌++◌, length, take, drop, replicate}
use gm_crypto_rs.Base.{some, Subtle, IsBytes}
use gm_crypto_rs.Base.{◌≡◌, ap, ◌∙◌, arith, append-nil, take_append}
use gm_crypto_rs.Base.{length-drop, All-drop, IsByte}
use gm_crypto_rs.Sm4.Cipher.{new}
use gm_crypto_rs.Sm4.Cipher.Inverse.{IsBlock}
use gm_crypto_rs.Sm4.Cbc.{pad, encrypt, decrypt, strip_pkcs7_ct}
use gm_crypto_rs.Sm4.Cbc.Strip.{strip_pkcs7_block_iff}
use gm_crypto_rs.Sm4.Cbc.Loop.{
  cbc_blocks, encrypt_loop, length-cbc_blocks, decrypt_loop, length-pad, pad-IsBytes, pad-IsPadded,
}

-- `!(n == 0 || !n.is_multiple_of(16))`
whole_blocks : (n q : ℕ) → n ≡ (q + 1) * 16 → not (n == 0 || not (n % 16 == 0)) ≡ true
whole_blocks n q e = ground arith

module _ ⦃subtle : Subtle⦄ where
  -- Stripping a padded plaintext.
  strip_pkcs7_ct-pad : (pt : List ℕ) → IsBytes pt → strip_pkcs7_ct (pad pt) ≡ some pt
  unfolding strip_pkcs7_ct
  strip_pkcs7_ct-pad pt h =
      let q = length pt / 16 in
      let k = length pt % 16 in
      let n = length (pad pt) in
      let last : n - 16 ≡ q * 16 = omega (arith, length-pad pt) in
      let final : IsBlock (drop (q * 16) (pad pt)) = record {
        width = omega (arith, length-drop (q * 16) (pad pt), length-pad pt);
        bytes = All-drop IsByte (q * 16) (pad pt) (pad-IsBytes pt h);
      } in
      rw
        (
          whole_blocks n q (length-pad pt),
          last,
          (strip_pkcs7_block_iff (drop (q * 16) (pad pt)) k final).1 (pad-IsPadded pt),
        )
        (ap some (unpad pt (q * 16 + k) (omega arith)))
    where
      unpad : (text : List ℕ) (m : ℕ) → length text ≡ m → take m (pad text) ≡ text
      unpad text m e =
          unfold pad in
          take_append m text (replicate (16 - length text % 16) ((16 - length text % 16) % 256)) e

  -- For every key, every IV of 16 bytes and every plaintext of bytes, `decrypt` returns the
  -- plaintext from what `encrypt` returns, whose length is that of the plaintext rounded up to
  -- the next whole block.
  pub decrypt-encrypt :
      (key iv plaintext : List ℕ)
      → IsBlock iv
      → IsBytes plaintext
      → (decrypt key iv (encrypt key iv plaintext) ≡ some plaintext)
        × (length (encrypt key iv plaintext) ≡ (length plaintext / 16 + 1) * 16)
  unfolding encrypt decrypt
  decrypt-encrypt key iv plaintext hiv h =
      let cipher = new key in
      let n = length plaintext / 16 + 1 in
      let buf = pad plaintext in
      let ct = cbc_blocks cipher n iv buf in
      let enc : encrypt key iv plaintext ≡ ct =
        ap (λ r. r.0.1 ++ r.1) (encrypt_loop cipher n iv [] buf (length-pad plaintext))
        ∙ append-nil ct in
      let size : length ct ≡ n * 16 = length-cbc_blocks cipher n iv buf in
      (
        ap (decrypt key iv) enc
            ∙ rw
                (
                  whole_blocks (length ct) (length plaintext / 16) size,
                  decrypt_loop cipher n iv [] buf (pad-IsBytes plaintext h) hiv
                      (length-pad plaintext),
                  append-nil buf,
                )
                (strip_pkcs7_ct-pad plaintext h),
        ap length enc ∙ size,
      )
