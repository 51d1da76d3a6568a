-- ===== src/Sm4/Xts/RoundTrip.antt =====
-- sm4/mode_xts.rs: `decrypt` on what `encrypt` returns, with ciphertext stealing.
use gm_crypto_rs.Base.{ℕ, ◌+◌, ◌*◌, ◌%◌, ◌≤◌, ◌==◌, leb, if◌then◌else◌, true, false, ◌&&◌}
use gm_crypto_rs.Base.{List, [], ◌++◌, length, take, drop}
use gm_crypto_rs.Base.{some, Subtle, IsBytes, IsByte}
use gm_crypto_rs.Base.{
  ◌≡◌, ◌≢◌, refl, sym, ap, ap₂, ◌∙◌, inl, inr, arith, Bool-cases, ==_iff, append-nil, length-append,
  length-drop, take-append-drop, drop_append, take_all, All-take, All-drop,
}
use gm_crypto_rs.Sm4.Cipher.{
  Sm4Cipher, new, encrypt_block, decrypt_block, encrypt_blocks, decrypt_blocks,
}
use gm_crypto_rs.Sm4.Cipher.Inverse.{IsBlock, encrypt_block-IsBlock}
use gm_crypto_rs.Sm4.Xts.{
  max_len, normal_blocks, split_keys, encrypt_steal, decrypt_steal, xts_encrypt, xts_decrypt,
  encrypt, decrypt,
}
use gm_crypto_rs.Sm4.Xts.Units.{
  tweaked_all, tweaked_all_undone, length-tweaked_all, nth_tweak, nth_tweak-IsBlock,
  mask_units-tweaked_all, mask_units-nth_tweak,
}
use gm_crypto_rs.Sm4.Xts.Steal.{
  encrypt_block-IsInverse, length-encrypt_steal, decrypt_steal-encrypt_steal,
}

-- How long a data unit is, next to the blocks that no byte is stolen from.
normal_blocks_whole : (len : ℕ) → (len % 16 == 0) ≡ true → normal_blocks len * 16 ≡ len
unfolding normal_blocks
normal_blocks_whole len h =
    let even : len % 16 ≡ 0 = (==_iff (len % 16) 0).0 h in rw h (omega arith)

normal_blocks_stealing :
    (len : ℕ) → 16 ≤ len → (len % 16 == 0) ≡ false → normal_blocks len * 16 + (16 + len % 16) ≡ len
unfolding normal_blocks
normal_blocks_stealing len l h = rw h (omega arith)

module _ ⦃subtle : Subtle⦄ where
  -- The two directions on a data unit of the length `len`, from the first tweak on.
  abbrev encrypt_at : ℕ → Sm4Cipher → List ℕ → List ℕ → List ℕ
  encrypt_at len c t input =
      let normal = normal_blocks len in
      let out = tweaked_all (encrypt_block c) normal t input in
      if len % 16 == 0
      then out
      else out ++ encrypt_steal c (nth_tweak normal t) (len % 16) (drop (normal * 16) input)

  abbrev decrypt_at : ℕ → Sm4Cipher → List ℕ → List ℕ → List ℕ
  decrypt_at len c t input =
      let normal = normal_blocks len in
      let out = tweaked_all (decrypt_block c) normal t input in
      if len % 16 == 0
      then out
      else out ++ decrypt_steal c (nth_tweak normal t) (len % 16) (drop (normal * 16) input)

  xts_encrypt-encrypt_at :
      (c1 c2 : Sm4Cipher) (tweak input : List ℕ)
      → xts_encrypt c1 c2 tweak input ≡ encrypt_at (length input) c1 (encrypt_block c2 tweak) input
  unfolding xts_encrypt encrypt_blocks
  xts_encrypt-encrypt_at c1 c2 tweak input =
      let len = length input in
      let normal = normal_blocks len in
      let t = encrypt_block c2 tweak in
      ap₂
        (λ out last.
          if len % 16 == 0
          then out
          else out ++ encrypt_steal c1 last (len % 16) (drop (normal * 16) input))
        (mask_units-tweaked_all (encrypt_block c1) normal t input)
        (mask_units-nth_tweak normal t input)

  xts_decrypt-decrypt_at :
      (c1 c2 : Sm4Cipher) (tweak input : List ℕ)
      → xts_decrypt c1 c2 tweak input ≡ decrypt_at (length input) c1 (encrypt_block c2 tweak) input
  unfolding xts_decrypt decrypt_blocks
  xts_decrypt-decrypt_at c1 c2 tweak input =
      let len = length input in
      let normal = normal_blocks len in
      let t = encrypt_block c2 tweak in
      ap₂
        (λ out last.
          if len % 16 == 0
          then out
          else out ++ decrypt_steal c1 last (len % 16) (drop (normal * 16) input))
        (mask_units-tweaked_all (decrypt_block c1) normal t input)
        (mask_units-nth_tweak normal t input)

  length-encrypt_at :
      (c : Sm4Cipher) (t input : List ℕ)
      → IsBlock t
      → 16 ≤ length input
      → length (encrypt_at (length input) c t input) ≡ length input
  length-encrypt_at c t input h l =
      let len = length input in
      let normal = normal_blocks len in
      let inverse = encrypt_block-IsInverse c in
      let out = tweaked_all (encrypt_block c) normal t input in
      let size : length out ≡ normal * 16 = length-tweaked_all _ _ normal t input inverse in
      elim (Bool-cases (len % 16 == 0)) [
        | inl even ↦ rw even (size ∙ normal_blocks_whole len even)
        | inr odd ↦
            let rest = encrypt_steal c (nth_tweak normal t) (len % 16) (drop (normal * 16) input) in
            rw odd (
              length-append out rest
              ∙ ap₂ ◌+◌ size (
                  length-encrypt_steal c (nth_tweak normal t) (len % 16) (drop (normal * 16) input)
                    (nth_tweak-IsBlock normal t h) (omega arith))
              ∙ normal_blocks_stealing len l odd)
      ]

  decrypt_at-encrypt_at :
      (c : Sm4Cipher) (t input : List ℕ)
      → IsBlock t
      → IsBytes input
      → 16 ≤ length input
      → decrypt_at (length input) c t (encrypt_at (length input) c t input) ≡ input
  decrypt_at-encrypt_at c t input h k l =
      let len = length input in
      let normal = normal_blocks len in
      let f = encrypt_block c in
      let g = decrypt_block c in
      let inverse = encrypt_block-IsInverse c in
      let out = tweaked_all f normal t input in
      let size : length out ≡ normal * 16 = length-tweaked_all f g normal t input inverse in
      elim (Bool-cases (len % 16 == 0)) [
        | inl even ↦
            let all : normal * 16 ≡ len = normal_blocks_whole len even in
            rw even (
              ap (tweaked_all g normal t) (sym (append-nil out))
              ∙ tweaked_all_undone f g normal t input [] inverse h k (omega (arith, all))
              ∙ take_all (normal * 16) input (omega (arith, all)))
        | inr odd ↦
            let last = nth_tweak normal t in
            let rest = drop (normal * 16) input in
            let stolen = encrypt_steal c last (len % 16) rest in
            let all = normal_blocks_stealing len l odd in
            rw odd (
              ap₂ (λ x y. x ++ decrypt_steal c last (len % 16) y)
                (tweaked_all_undone f g normal t input stolen inverse h k (omega (arith, all)))
                (drop_append (normal * 16) out stolen size)
              ∙ ap (λ y. take (normal * 16) input ++ y)
                  (decrypt_steal-encrypt_steal c last (len % 16) rest (nth_tweak-IsBlock normal t h)
                    (All-drop IsByte (normal * 16) input k)
                    (omega (arith, all, length-drop (normal * 16) input)) (omega arith))
              ∙ take-append-drop (normal * 16) input)
      ]

  pub length-xts_encrypt :
      (c1 c2 : Sm4Cipher) (tweak input : List ℕ)
      → 16 ≤ length input
      → length (xts_encrypt c1 c2 tweak input) ≡ length input
  length-xts_encrypt c1 c2 tweak input l =
      ap length (xts_encrypt-encrypt_at c1 c2 tweak input)
      ∙ length-encrypt_at c1 (encrypt_block c2 tweak) input (encrypt_block-IsBlock c2 tweak) l

  pub xts_decrypt-xts_encrypt :
      (c1 c2 : Sm4Cipher) (tweak input : List ℕ)
      → IsBytes input
      → 16 ≤ length input
      → xts_decrypt c1 c2 tweak (xts_encrypt c1 c2 tweak input) ≡ input
  xts_decrypt-xts_encrypt c1 c2 tweak input k l =
      let t = encrypt_block c2 tweak in
      xts_decrypt-decrypt_at c1 c2 tweak (xts_encrypt c1 c2 tweak input)
      ∙ ap₂ (λ n x. decrypt_at n c1 t x) (length-xts_encrypt c1 c2 tweak input l)
          (xts_encrypt-encrypt_at c1 c2 tweak input)
      ∙ decrypt_at-encrypt_at c1 t input (encrypt_block-IsBlock c2 tweak) k l

  -- The key halves.
  pub split_keys_differ :
      (key : List ℕ) (len : ℕ)
      → IsBytes key
      → take 16 key ≢ drop 16 key
      → 16 ≤ len
      → len ≤ max_len
      → split_keys key len ≡ some (new (take 16 key), new (drop 16 key))
  unfolding split_keys
  split_keys_differ key len h differ lo hi =
      elim (Bool-cases (subtle.ct_eq_bytes (take 16 key) (drop 16 key))) [
        | inl equal ↦ absurd (
            differ (
              (subtle.ct_eq_bytes_iff (take 16 key) (drop 16 key) (All-take IsByte 16 key h)
                  (All-drop IsByte 16 key h)).0
                equal))
        | inr differs ↦ rw (in_range len lo hi, differs) refl
      ]
    where
      in_range : (n : ℕ) → 16 ≤ n → n ≤ max_len → (leb 16 n && leb n max_len) ≡ true
      in_range n lo hi = ground arith

  -- For key bytes whose first sixteen differ from the rest, every tweak, and a data unit of 16 to
  -- 2^24 bytes, a whole number of blocks or not, `encrypt` returns as many bytes, from which
  -- `decrypt` returns the data unit.
  pub xts_round_trip :
      (key tweak data_unit : List ℕ)
      → IsBytes key
      → IsBytes data_unit
      → take 16 key ≢ drop 16 key
      → 16 ≤ length data_unit
      → length data_unit ≤ max_len
      → (sealed : List ℕ) × (encrypt key tweak data_unit ≡ some sealed)
        × (length sealed ≡ length data_unit)
        × (decrypt key tweak sealed ≡ some data_unit)
  unfolding encrypt decrypt
  xts_round_trip key tweak data_unit hk hd differ lo hi =
      let c1 = new (take 16 key) in
      let c2 = new (drop 16 key) in
      let sealed = xts_encrypt c1 c2 tweak data_unit in
      let keys = split_keys_differ key (length data_unit) hk differ lo hi in
      let size = length-xts_encrypt c1 c2 tweak data_unit lo in
      let keys' : split_keys key (length sealed) ≡ some (c1, c2) =
        ap (split_keys key) size ∙ keys in
      (
        sealed,
        rw keys refl,
        size,
        rw keys' (ap some (xts_decrypt-xts_encrypt c1 c2 tweak data_unit hd lo)),
      )
