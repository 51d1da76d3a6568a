-- ===== src/Sm4/Cbc/Loop.antt =====
-- The loops of sm4/mode_cbc.rs over whole blocks, and the padded plaintext.
use gm_crypto_rs.Base.{ℕ, zero, suc, ◌+◌, ◌-◌, ◌*◌, ◌/◌, ◌%◌}
use gm_crypto_rs.Base.{List, [], ◌∷◌, ◌++◌, length, take, drop, replicate, xor_bytes}
use gm_crypto_rs.Base.{Subtle, IsByte, IsBytes}
use gm_crypto_rs.Base.{◌≡◌, sym, ap, ◌∙◌, arith, append-nil, append_assoc}
use gm_crypto_rs.Base.{length-append, length-take, length-drop, length-replicate, take-append-drop}
use gm_crypto_rs.Base.{take_append, drop_append, All-append, All-take, All-drop, All-replicate}
use gm_crypto_rs.Base.{xor_bytes_cancel, xor_bytes-IsBytes, length-xor_bytes}
use gm_crypto_rs.Base.Chunks.{blocks, blocks_short, blocks_step}
use gm_crypto_rs.Sm4.Cipher.{Sm4Cipher, encrypt_block, decrypt_block}
use gm_crypto_rs.Sm4.Cipher.Inverse.{IsBlock, encrypt_block-IsBlock, decrypt_block-encrypt_block}
use gm_crypto_rs.Sm4.Cbc.{pad, encrypt_step, decrypt_step}
use gm_crypto_rs.Sm4.Cbc.Strip.{IsPadded}

xor-IsBlock : (b prev : List ℕ) → IsBlock b → IsBlock prev → IsBlock (xor_bytes b prev)
xor-IsBlock b prev hb hp = record {
  width = length-xor_bytes b prev ∙ hb.width;
  bytes = xor_bytes-IsBytes b prev hb.bytes hp.bytes;
}

-- The first block of a buffer of whole blocks, and the rest.
first-IsBlock :
    (n : ℕ) (buf : List ℕ) → IsBytes buf → length buf ≡ suc n * 16 → IsBlock (take 16 buf)
first-IsBlock n buf h e = record {
  width = omega (arith, length-take 16 buf);
  bytes = All-take IsByte 16 buf h;
}

length-rest : (n : ℕ) (buf : List ℕ) → length buf ≡ suc n * 16 → length (drop 16 buf) ≡ n * 16
length-rest n buf e = omega (arith, length-drop 16 buf)

module _ ⦃subtle : Subtle⦄ (cipher : Sm4Cipher) where
  -- CBC by recursion on the number of blocks.
  pub cbc_blocks : ℕ → List ℕ → List ℕ → List ℕ
  cbc_blocks zero prev buf = []
  cbc_blocks (suc n) prev buf =
      let c = encrypt_block cipher (xor_bytes (take 16 buf) prev) in
      c ++ cbc_blocks n c (drop 16 buf)

  pub last_chain : ℕ → List ℕ → List ℕ → List ℕ
  last_chain zero prev buf = prev
  last_chain (suc n) prev buf =
      last_chain n (encrypt_block cipher (xor_bytes (take 16 buf) prev)) (drop 16 buf)

  pub encrypt_loop :
      (n : ℕ) (prev out buf : List ℕ)
      → length buf ≡ n * 16
      → blocks 16 (encrypt_step cipher) (prev, out) buf
        ≡ ((last_chain n prev buf, out ++ cbc_blocks n prev buf), [])
  unfolding cbc_blocks last_chain encrypt_step
  encrypt_loop zero prev out [] e =
      blocks_short 16 (encrypt_step cipher) (omega arith) (prev, out) [] (omega arith)
      ∙ ap (λ t. ((prev, t), [])) (sym (append-nil out))
  encrypt_loop zero prev out (x ∷ buf) e = absurd (omega arith)
  encrypt_loop (suc n) prev out buf e =
      let c = encrypt_block cipher (xor_bytes (take 16 buf) prev) in
      ap (blocks 16 (encrypt_step cipher) (prev, out)) (sym (take-append-drop 16 buf))
      ∙ blocks_step 16 (encrypt_step cipher) (omega arith) (prev, out) (take 16 buf) (drop 16 buf)
          (omega (arith, length-take 16 buf))
      ∙ encrypt_loop n c (out ++ c) (drop 16 buf) (length-rest n buf e)
      ∙ ap (λ t. ((last_chain n c (drop 16 buf), t), []))
          (append_assoc out c (cbc_blocks n c (drop 16 buf)))

  pub length-cbc_blocks : (n : ℕ) (prev buf : List ℕ) → length (cbc_blocks n prev buf) ≡ n * 16
  unfolding cbc_blocks
  length-cbc_blocks zero prev buf = omega arith
  length-cbc_blocks (suc n) prev buf =
      let c = encrypt_block cipher (xor_bytes (take 16 buf) prev) in
      let c_block : length c ≡ 16 =
        (encrypt_block-IsBlock cipher (xor_bytes (take 16 buf) prev)).width in
      omega (
        arith,
        length-append c (cbc_blocks n c (drop 16 buf)),
        c_block,
        length-cbc_blocks n c (drop 16 buf),
      )

  pub decrypt_loop :
      (n : ℕ) (prev out buf : List ℕ)
      → IsBytes buf
      → IsBlock prev
      → length buf ≡ n * 16
      → blocks 16 (decrypt_step cipher) (prev, out) (cbc_blocks n prev buf)
        ≡ ((last_chain n prev buf, out ++ buf), [])
  unfolding cbc_blocks last_chain decrypt_step
  decrypt_loop zero prev out [] h p e =
      blocks_short 16 (decrypt_step cipher) (omega arith) (prev, out) [] (omega arith)
      ∙ ap (λ t. ((prev, t), [])) (sym (append-nil out))
  decrypt_loop zero prev out (x ∷ buf) h p e = absurd (omega arith)
  decrypt_loop (suc n) prev out buf h p e =
      let b = take 16 buf in
      let c = encrypt_block cipher (xor_bytes b prev) in
      let block : IsBlock (xor_bytes b prev) = xor-IsBlock b prev (first-IsBlock n buf h e) p in
      let plain : xor_bytes (decrypt_block cipher c) prev ≡ b =
        ap (λ t. xor_bytes t prev) (decrypt_block-encrypt_block cipher (xor_bytes b prev) block).0
        ∙ xor_bytes_cancel b prev in
      let c_block = encrypt_block-IsBlock cipher (xor_bytes b prev) in
      blocks_step 16 (decrypt_step cipher) (omega arith) (prev, out) c
        (cbc_blocks n c (drop 16 buf)) c_block.width
      ∙ ap (λ t. blocks 16 (decrypt_step cipher) (c, out ++ t) (cbc_blocks n c (drop 16 buf))) plain
      ∙ decrypt_loop n c (out ++ b) (drop 16 buf) (All-drop IsByte 16 buf h) c_block
          (length-rest n buf e)
      ∙ ap (λ t. ((last_chain n c (drop 16 buf), t), []))
          (append_assoc out b (drop 16 buf) ∙ ap (λ t. out ++ t) (take-append-drop 16 buf))

-- The padded plaintext.
pub length-pad : (pt : List ℕ) → length (pad pt) ≡ (length pt / 16 + 1) * 16
unfolding pad
length-pad pt =
    let p = 16 - length pt % 16 in
    omega (arith, length-append pt (replicate p (p % 256)), length-replicate {A = ℕ} p (p % 256))

pub pad-IsBytes : (pt : List ℕ) → IsBytes pt → IsBytes (pad pt)
unfolding pad
pad-IsBytes pt h =
    let p = 16 - length pt % 16 in
    All-append IsByte pt (replicate p (p % 256)) h (All-replicate IsByte p (p % 256) (omega arith))

-- The last block of a padded plaintext, and what it keeps.
pub drop-pad :
    (pt : List ℕ)
    → let q = length pt / 16 * 16 in
      let p = 16 - length pt % 16 in drop q (pad pt) ≡ drop q pt ++ replicate p p
unfolding pad
drop-pad pt =
    let q = length pt / 16 * 16 in
    let p = 16 - length pt % 16 in
    let byte : p % 256 ≡ p = omega arith in
    let cut : pt ≡ take q pt ++ drop q pt = sym (take-append-drop q pt) in
    ap (λ v. drop q (pt ++ replicate p v)) byte
    ∙ ap (λ t. drop q (t ++ replicate p p)) cut
    ∙ ap (drop q) (append_assoc (take q pt) (drop q pt) (replicate p p))
    ∙ drop_append q (take q pt) (drop q pt ++ replicate p p) (omega (arith, length-take q pt))

pub pad-IsPadded :
    (pt : List ℕ) → let q = length pt / 16 * 16 in IsPadded (drop q (pad pt)) (length pt % 16)
pad-IsPadded pt =
    let q = length pt / 16 * 16 in
    let k = length pt % 16 in
    let tail : List ℕ = replicate (16 - k) (16 - k) in
    let kept : take k (drop q pt ++ tail) ≡ drop q pt =
      take_append k (drop q pt) tail (omega (arith, length-drop q pt)) in
    rw (drop-pad pt) (record { within = omega arith; ends = sym (ap (λ t. t ++ tail) kept) })
