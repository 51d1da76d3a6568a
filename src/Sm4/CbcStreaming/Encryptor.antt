-- ===== src/Sm4/CbcStreaming/Encryptor.antt =====
-- `Sm4CbcEncryptor` (sm4/cbc_streaming.rs) against the one-shot `mode_cbc::encrypt`.
use gm_crypto_rs.Base.{ℕ, ◌-◌, ◌%◌, ◌<◌, List, [], ◌∷◌, ◌++◌, length, replicate}
use gm_crypto_rs.Base.{foldl, flatten, Subtle, ◌≡◌, refl, sym, ap, ap₂, subst, ◌∙◌, arith}
use gm_crypto_rs.Base.{append-nil, append_assoc, length-append, length-take, length-replicate}
use gm_crypto_rs.Base.Chunks.{blocks, blocks_short, blocks_step, blocks-append, blocks_count}
use gm_crypto_rs.Base.Stream.{absorb, copy_into, pending}
use gm_crypto_rs.Base.Stream.Absorb.{IsAbsorbed, absorb_next, fresh-IsAbsorbed, copy_into_end}
use gm_crypto_rs.Sm4.Cipher
use gm_crypto_rs.Sm4.Cipher.{Sm4Cipher}
use gm_crypto_rs.Sm4.Cbc
use gm_crypto_rs.Sm4.Cbc.{Chain, pad, encrypt_step}
use gm_crypto_rs.Sm4.CbcStreaming.{
  Sm4CbcEncryptor, encrypting, encrypt_one, new_encryptor, encrypt_update, encrypt_finalize,
}

module _ ⦃subtle : Subtle⦄ where
  -- The encryptor stands where `text` leads under the key and the IV.
  record Holds (key iv text : List ℕ) (e : Sm4CbcEncryptor) : Type 0 where
    keyed : e.cipher ≡ Cipher.new key
    absorbed : IsAbsorbed 16 (blocks 16 (encrypt_one (Cipher.new key)) (iv, []) text) (encrypting e)

  new-Holds : (key iv : List ℕ) → Holds key iv [] (new_encryptor key iv)
  unfolding new_encryptor
  new-Holds key iv = record {
    keyed = refl;
    absorbed =
        fresh-IsAbsorbed 16 (encrypt_one (Cipher.new key)) (omega arith) (iv, []) (replicate 16 0)
          refl;
  }

  update-Holds :
      (key iv text input : List ℕ) (e : Sm4CbcEncryptor)
      → Holds key iv text e
      → Holds key iv (text ++ input) (encrypt_update e input)
  unfolding encrypt_update
  update-Holds key iv text input e h = record {
    keyed = h.keyed;
    absorbed =
        subst
          (λ c.
            IsAbsorbed 16 (blocks 16 (encrypt_one (Cipher.new key)) (iv, []) (text ++ input))
              (absorb 16 (encrypt_one c) (encrypting e) input))
          (sym h.keyed)
          (absorb_next 16 (encrypt_one (Cipher.new key)) (omega arith) (iv, []) text (encrypting e)
            input h.absorbed);
  }

  updates-Holds :
      (pieces : List (List ℕ)) (key iv text : List ℕ) (e : Sm4CbcEncryptor)
      → Holds key iv text e
      → Holds key iv (text ++ flatten pieces) (foldl encrypt_update e pieces)
  unfolding flatten
  updates-Holds [] key iv text e h = subst (λ m. Holds key iv m e) (sym (append-nil text)) h
  updates-Holds (piece ∷ pieces) key iv text e h =
      subst (λ m. Holds key iv m (foldl encrypt_update e (piece ∷ pieces)))
        (append_assoc text piece (flatten pieces))
        (updates-Holds pieces key iv (text ++ piece) (encrypt_update e piece)
          (update-Holds key iv text piece e h))

  finalize-Holds :
      (key iv text : List ℕ) (e : Sm4CbcEncryptor)
      → Holds key iv text e
      → encrypt_finalize e ≡ Cbc.encrypt key iv text
  unfolding encrypt_finalize Cbc.encrypt pad encrypt_one encrypt_step
  finalize-Holds key iv text e h =
      let cipher = Cipher.new key in
      let step = encrypt_one cipher in
      let k = e.buffer_len in
      let opened = h.absorbed.is_open in
      let room : k < 16 = opened.room in
      let size : length e.buffer ≡ 16 = opened.size in
      let p = pending (encrypting e) in
      let tail : List ℕ = replicate (16 - k) ((16 - k) % 256) in
      let in_use : length p ≡ k = omega (arith, length-take k e.buffer) in
      let (q, count) = blocks_count 16 step (omega arith) (iv, []) text in
      let rest : length text % 16 ≡ k = omega (arith, ap length h.absorbed.keeps) in
      let tail_length : length tail ≡ 16 - k = length-replicate {A = ℕ} (16 - k) ((16 - k) % 256) in
      let whole : length (p ++ tail) ≡ 16 = omega (arith, length-append p tail) in
      let last : blocks 16 step (iv, []) (text ++ tail)
          ≡ (step (e.prev, e.output) (p ++ tail), []) =
        blocks-append 16 step (omega arith) (iv, []) text tail
        ∙ ap₂ (λ w t. blocks 16 step w (t ++ tail)) (sym h.absorbed.works) (sym h.absorbed.keeps)
        ∙ ap (blocks 16 step (e.prev, e.output)) (sym (append-nil (p ++ tail)))
        ∙ blocks_step 16 step (omega arith) (e.prev, e.output) (p ++ tail) [] whole
        ∙ blocks_short 16 step (omega arith) (step (e.prev, e.output) (p ++ tail)) []
            (omega arith) in
      ap (λ c. (encrypt_one c (e.prev, e.output) (copy_into e.buffer k tail)).1) h.keyed
      ∙ ap (λ b. (step (e.prev, e.output) b).1) (copy_into_end e.buffer k tail (omega arith))
      ∙ sym (append-nil (step (e.prev, e.output) (p ++ tail)).1)
      ∙ ap (λ r. r.0.1 ++ r.1) (sym last)
      ∙ ap
          (λ m.
            (blocks 16 step (iv, []) (text ++ replicate (16 - m) ((16 - m) % 256))).0.1
            ++ (blocks 16 step (iv, []) (text ++ replicate (16 - m) ((16 - m) % 256))).1)
          (sym rest)

  -- For every key, IV and list of pieces, the streaming encryptor fed the pieces returns at
  -- `finalize` what the one-shot `encrypt` returns on their concatenation.
  pub encrypt_pieces :
      (key iv : List ℕ) (pieces : List (List ℕ))
      → encrypt_finalize (foldl encrypt_update (new_encryptor key iv) pieces)
        ≡ Cbc.encrypt key iv (flatten pieces)
  encrypt_pieces key iv pieces =
      finalize-Holds key iv (flatten pieces) (foldl encrypt_update (new_encryptor key iv) pieces)
        (updates-Holds pieces key iv [] (new_encryptor key iv) (new-Holds key iv))
