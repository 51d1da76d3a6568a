-- ===== src/Sm4/Masking.antt =====
-- Text masked by a keystream given block by block: what the streaming ciphers do in their three
-- steps (sm4/ctr_streaming.rs, sm4/ccm_streaming.rs) and the one-shot modes in one.
use gm_crypto_rs.Base.{ℕ, zero, suc, ◌+◌, ◌*◌, ◌/◌, ◌%◌, ◌<◌, ◌≤◌, ◌⊕◌, ltb}
use gm_crypto_rs.Base.{List, [], ◌∷◌, ◌++◌, length, get_or, take, drop}
use gm_crypto_rs.Base.{xor_cancel, Bool-cases, inl, inr, ◌⊎◌}
use gm_crypto_rs.Base.{◌≡◌, refl, sym, ap, ap₂, ◌∙◌, arith, append_assoc}
use gm_crypto_rs.Base.{ltb→lt, ltb→le, length-take, length-drop, take-append-drop, drop-drop}
use gm_crypto_rs.Sm4.Ctr.{mask_bytes}
use gm_crypto_rs.Sm4.CtrStreaming.{mask_lanes, drain_leftover, mask_blocks}

module _ (key_block : ℕ → List ℕ) where
  -- The text masked from the position `n` of the keystream on.
  unfoldable pub masked : ℕ → List ℕ → List ℕ
  masked n [] = []
  masked n (b ∷ input) = (b ⊕ get_or (key_block (n / 16)) (n % 16) 0) ∷ masked (suc n) input

  -- The blocks from the index `j` on.
  unfoldable pub key_blocks : ℕ → ℕ → List (List ℕ)
  key_blocks j zero = []
  key_blocks j (suc count) = key_block j ∷ key_blocks (suc j) count

  pub masked-append :
      (xs ys : List ℕ) (n : ℕ) → masked n (xs ++ ys) ≡ masked n xs ++ masked (n + length xs) ys
  unfolding masked
  masked-append [] ys n = ap (λ m. masked m ys) (omega arith)
  masked-append (x ∷ xs) ys n =
      ap (λ t. (x ⊕ get_or (key_block (n / 16)) (n % 16) 0) ∷ t)
        (masked-append xs ys (suc n) ∙ ap (λ m. masked (suc n) xs ++ masked m ys) (omega arith))

  pub masked-masked : (n : ℕ) (input : List ℕ) → masked n (masked n input) ≡ input
  unfolding masked
  masked-masked n [] = refl
  masked-masked n (b ∷ input) =
      ap₂ ◌∷◌ (xor_cancel b (get_or (key_block (n / 16)) (n % 16) 0)) (masked-masked (suc n) input)

  pub length-masked : (n : ℕ) (input : List ℕ) → length (masked n input) ≡ length input
  unfolding masked
  length-masked n [] = refl
  length-masked n (b ∷ input) = ap suc (length-masked (suc n) input)

  pub mask_lanes-masked :
      (q lane : ℕ) (bs : List ℕ)
      → lane + length bs ≤ 16
      → mask_lanes (key_block q) lane bs ≡ masked (q * 16 + lane) bs
  unfolding mask_lanes masked
  mask_lanes-masked q lane [] h = refl
  mask_lanes-masked q lane (b ∷ bs) h =
      ap₂ ◌∷◌ (ap₂ (λ i j. b ⊕ get_or (key_block i) j 0) (omega arith) (omega arith))
        (mask_lanes-masked q (suc lane) bs (omega arith) ∙ ap (λ n. masked n bs) (omega arith))

  pub drain_full : (leftover input : List ℕ) → drain_leftover leftover 16 input ≡ ([], 16, input)
  unfolding drain_leftover
  drain_full leftover [] = refl
  drain_full leftover (b ∷ input) = refl

  -- What step 1 does inside the block `q`.
  pub record IsDrained (q pos : ℕ) (input : List ℕ) (r : List ℕ × ℕ × List ℕ) : Type 0 where
    pub within : r.1 ≤ 16
    pub count : r.1 + length r.2 ≡ pos + length input
    pub ends : (r.2 ≡ []) ⊎ (r.1 ≡ 16)
    pub text : r.0 ++ masked (q * 16 + r.1) r.2 ≡ masked (q * 16 + pos) input

  pub drain-IsDrained :
      (q pos : ℕ) (input : List ℕ)
      → pos ≤ 16
      → IsDrained q pos input (drain_leftover (key_block q) pos input)
  unfolding drain_leftover masked
  drain-IsDrained q pos [] h = record { within = h; count = refl; ends = inl refl; text = refl }
  drain-IsDrained q pos (b ∷ input) h = elim (Bool-cases (ltb pos 16)) [
    | inr full ↦ rw full (record {
      within = h;
      count = refl;
      ends = inr (omega (arith, ltb→le pos 16 full));
      text = refl;
    })
    | inl room ↦
        let below : pos < 16 = ltb→lt pos 16 room in
        let ih = drain-IsDrained q (suc pos) input (omega arith) in
        rw room (record {
          within = ih.within;
          count = omega (arith, ih.count);
          ends = ih.ends;
          text =
              ap₂ ◌∷◌ (ap₂ (λ i j. b ⊕ get_or (key_block i) j 0) (omega arith) (omega arith))
                (ih.text ∙ ap (λ n. masked n input) (omega arith));
        })
  ]

  pub mask_blocks-masked :
      (j count : ℕ) (input : List ℕ)
      → count * 16 ≤ length input
      → mask_blocks (key_blocks j count) input
          ++ masked ((j + count) * 16) (drop (count * 16) input)
        ≡ masked (j * 16) input
  unfolding mask_blocks key_blocks
  mask_blocks-masked j zero input h = ap₂ masked (omega arith) refl
  mask_blocks-masked j (suc count) input h =
      let first = take 16 input in
      let rest = drop 16 input in
      let width : length first ≡ 16 = omega (arith, length-take 16 input) in
      let behind : drop (suc count * 16) input ≡ drop (count * 16) rest =
        ap (λ n. drop n input) (omega arith) ∙ sym (drop-drop (count * 16) 16 input) in
      let keyed : mask_lanes (key_block j) 0 first ≡ masked (j * 16) first =
        mask_lanes-masked j 0 first (omega arith) ∙ ap (λ n. masked n first) (omega arith) in
      append_assoc (mask_lanes (key_block j) 0 first) (mask_blocks (key_blocks (suc j) count) rest)
        (masked ((j + suc count) * 16) (drop (suc count * 16) input))
      ∙ ap₂ ◌++◌ keyed (
          ap₂ (λ n t. mask_blocks (key_blocks (suc j) count) rest ++ masked n t) (omega arith)
            behind
          ∙ mask_blocks-masked (suc j) count rest (omega (arith, length-drop 16 input))
          ∙ ap (λ n. masked n rest) (omega (arith, width)))
      ∙ sym (masked-append first rest (j * 16))
      ∙ ap (masked (j * 16)) (take-append-drop 16 input)

  get_or-key_blocks :
      (count j i : ℕ) → i < count → get_or (key_blocks j count) i [] ≡ key_block (j + i)
  unfolding key_blocks
  get_or-key_blocks zero j i h = absurd (omega arith)
  get_or-key_blocks (suc count) j zero h = ap key_block (omega arith)
  get_or-key_blocks (suc count) j (suc i) h =
      get_or-key_blocks count (suc j) i (omega arith) ∙ ap key_block (omega arith)

  -- The one-shot masking by the first blocks.
  pub mask_bytes-masked :
      (count i : ℕ) (input : List ℕ)
      → i + length input ≤ count * 16
      → mask_bytes (key_blocks 0 count) i input ≡ masked i input
  unfolding mask_bytes masked
  mask_bytes-masked count i [] h = refl
  mask_bytes-masked count i (b ∷ input) h =
      ap₂ ◌∷◌
        (ap (λ block. b ⊕ get_or block (i % 16) 0)
          (get_or-key_blocks count 0 (i / 16) (omega arith) ∙ ap key_block (zero_plus (i / 16))))
        (mask_bytes-masked count (suc i) input (omega arith))
    where
      zero_plus : (n : ℕ) → 0 + n ≡ n
      zero_plus n = omega arith
