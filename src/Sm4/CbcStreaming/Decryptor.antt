-- ===== src/Sm4/CbcStreaming/Decryptor.antt =====
-- `Sm4CbcDecryptor` (sm4/cbc_streaming.rs) against the one-shot `mode_cbc::decrypt`.
use gm_crypto_rs.Base.{ℕ, suc, ◌+◌, ◌-◌, ◌*◌, ◌%◌, ◌<◌, ◌==◌, not, ◌||◌, Bool-cases, ==_iff}
use gm_crypto_rs.Base.{true, false, List, [], ◌∷◌, ◌++◌, length, take, replicate}
use gm_crypto_rs.Base.{Option, none, some, ◌>>=◌, ◌>>◌, guard, Option-cases, inl, inr}
use gm_crypto_rs.Base.{foldl, flatten, Subtle, ◌≡◌, refl, sym, ap, subst, ◌∙◌, arith}
use gm_crypto_rs.Base.{append-nil, append_assoc, length-append, length-take, drop_append}
use gm_crypto_rs.Base.{length-xor_bytes, take_past}
use gm_crypto_rs.Base.Chunks.{blocks, blocks_short, blocks_count, blocks_inv, blocks_view}
use gm_crypto_rs.Base.Stream.{absorb, pending}
use gm_crypto_rs.Base.Stream.Absorb.{IsAbsorbed, absorb_next, fresh-IsAbsorbed}
use gm_crypto_rs.Sm4.Cipher
use gm_crypto_rs.Sm4.Cipher.{Sm4Cipher, decrypt_block}
use gm_crypto_rs.Sm4.Cipher.Inverse.{decrypt_block-IsBlock}
use gm_crypto_rs.Sm4.Cbc
use gm_crypto_rs.Sm4.Cbc.{Chain, decrypt_step, strip_pkcs7_block, strip_pkcs7_ct}
use gm_crypto_rs.Sm4.CbcStreaming.{
  Sm4CbcDecryptor, Held, decrypting, decrypt_one, flush, new_decryptor, decrypt_update,
  decrypt_finalize,
}

-- `output` is whole blocks, and the block held back is one block.
HoldsBack : List ℕ → Option (List ℕ) → Type 0
HoldsBack output none = output ≡ []
HoldsBack output (some last) = (length last ≡ 16) × ((q : ℕ) × (length output ≡ q * 16))

length-zero : (xs : List ℕ) → length xs ≡ 0 → xs ≡ []
length-zero [] e = refl
length-zero (x ∷ xs) e = absurd (omega arith)

some_blocks : (n : ℕ) → n % 16 ≡ 0 → 0 < n → not (n == 0 || not (n % 16 == 0)) ≡ true
some_blocks n e pos = ground arith

ragged :
    (n q k : ℕ)
    → k < 16
    → n ≡ q * 16 + k
    → (k == 0) ≡ false
    → not (n == 0 || not (n % 16 == 0)) ≡ false
ragged n q k l e f = ground arith

whole : (n q : ℕ) → n ≡ q * 16 + 16 → not (n == 0 || not (n % 16 == 0)) ≡ true
whole n q e = ground arith

module _ ⦃subtle : Subtle⦄ where
  start : List ℕ → Held
  start iv = record { prev = iv; output = []; held_back = none }

  seen : Held → Chain
  unfolding flush
  seen h = (h.prev, flush h.output h.held_back)

  seen-decrypt_one :
      (cipher : Sm4Cipher) (h : Held) (b : List ℕ)
      → seen (decrypt_one cipher h b) ≡ decrypt_step cipher (seen h) b
  unfolding seen decrypt_one decrypt_step flush
  seen-decrypt_one cipher h b = refl

  flush_whole :
      (output : List ℕ) (held : Option (List ℕ))
      → HoldsBack output held
      → (q : ℕ) × (length (flush output held) ≡ q * 16)
  unfolding flush HoldsBack
  flush_whole output none p = (0, ap length p)
  flush_whole output (some last) (size, (q, e)) = (suc q, omega (arith, length-append output last))

  decrypt_one-HoldsBack :
      (cipher : Sm4Cipher) (h : Held) (b : List ℕ)
      → HoldsBack h.output h.held_back
      → length b ≡ 16
      → HoldsBack (decrypt_one cipher h b).output (decrypt_one cipher h b).held_back
  unfolding decrypt_one HoldsBack
  decrypt_one-HoldsBack cipher h b p e = (
    length-xor_bytes (decrypt_block cipher b) h.prev ∙ (decrypt_block-IsBlock cipher b).width,
    flush_whole h.output h.held_back p,
  )

  strip_pkcs7_ct-append :
      (output last : List ℕ) (q : ℕ)
      → length last ≡ 16
      → length output ≡ q * 16
      → strip_pkcs7_ct (output ++ last)
        ≡ (do stripped ← strip_pkcs7_block last; some (output ++ take stripped last))
  unfolding strip_pkcs7_ct
  strip_pkcs7_ct-append output last q size e =
      let n = length (output ++ last) in
      let total : n ≡ q * 16 + 16 = omega (arith, length-append output last) in
      let front : n - 16 ≡ length output = omega arith in
      rw (whole n q total, front, drop_append (length output) output last refl)
        (elim (Option-cases (strip_pkcs7_block last)) [
          | inl fails ↦ rw fails refl
          | inr (kept, keeps) ↦ rw keeps (ap some (take_past kept output last))
        ])

  record Holds (key iv text : List ℕ) (d : Sm4CbcDecryptor) : Type 0 where
    keyed : d.cipher ≡ Cipher.new key
    absorbed :
        IsAbsorbed 16 (blocks 16 (decrypt_one (Cipher.new key)) (start iv) text) (decrypting d)

  new-Holds : (key iv : List ℕ) → Holds key iv [] (new_decryptor key iv)
  unfolding new_decryptor start
  new-Holds key iv = record {
    keyed = refl;
    absorbed =
        fresh-IsAbsorbed 16 (decrypt_one (Cipher.new key)) (omega arith) (start iv) (replicate 16 0)
          refl;
  }

  update-Holds :
      (key iv text input : List ℕ) (d : Sm4CbcDecryptor)
      → Holds key iv text d
      → Holds key iv (text ++ input) (decrypt_update d input)
  unfolding decrypt_update
  update-Holds key iv text input d h = record {
    keyed = h.keyed;
    absorbed =
        subst
          (λ c.
            IsAbsorbed 16 (blocks 16 (decrypt_one (Cipher.new key)) (start iv) (text ++ input))
              (absorb 16 (decrypt_one c) (decrypting d) input))
          (sym h.keyed)
          (absorb_next 16 (decrypt_one (Cipher.new key)) (omega arith) (start iv) text
            (decrypting d) input h.absorbed);
  }

  updates-Holds :
      (pieces : List (List ℕ)) (key iv text : List ℕ) (d : Sm4CbcDecryptor)
      → Holds key iv text d
      → Holds key iv (text ++ flatten pieces) (foldl decrypt_update d pieces)
  unfolding flatten
  updates-Holds [] key iv text d h = subst (λ m. Holds key iv m d) (sym (append-nil text)) h
  updates-Holds (piece ∷ pieces) key iv text d h =
      subst (λ m. Holds key iv m (foldl decrypt_update d (piece ∷ pieces)))
        (append_assoc text piece (flatten pieces))
        (updates-Holds pieces key iv (text ++ piece) (decrypt_update d piece)
          (update-Holds key iv text piece d h))

  -- The end of `finalize`, on `n` bytes of ciphertext that are whole blocks.
  finish :
      (n : ℕ) (output : List ℕ) (held : Option (List ℕ))
      → HoldsBack output held
      → n % 16 ≡ 0
      → 0 < n
      → (do last ← held; stripped ← strip_pkcs7_block last; some (output ++ take stripped last))
        ≡ (do guard (not (n == 0 || not (n % 16 == 0))); strip_pkcs7_ct (flush output held))
  unfolding HoldsBack flush strip_pkcs7_ct
  finish n output none p e pos = rw (some_blocks n e pos, p) refl
  finish n output (some last) (size, (q, e')) e pos =
      rw (some_blocks n e pos) (sym (strip_pkcs7_ct-append output last q size e'))

  -- What the loop over the whole text leaves, in the terms of the one-shot loop.
  decrypt_text :
      (key iv text : List ℕ)
      → let h = blocks 16 (decrypt_one (Cipher.new key)) (start iv) text in
        length h.1 ≡ 0
        → Cbc.decrypt key iv text ≡ (do
          guard (not (length text == 0 || not (length text % 16 == 0)))
          strip_pkcs7_ct (flush h.0.output h.0.held_back))
  unfolding Cbc.decrypt seen start flush
  decrypt_text key iv text e =
      let c = Cipher.new key in
      let (now, rest) =
        blocks_view 16 (decrypt_one c) (decrypt_step c) seen (omega arith) (seen-decrypt_one c)
          (start iv) text in
      let ended : (blocks 16 (decrypt_step c) (iv, []) text).1 ≡ [] =
        sym rest ∙ length-zero (blocks 16 (decrypt_one c) (start iv) text).1 e in
      rw (ended, append-nil (blocks 16 (decrypt_step c) (iv, []) text).0.1, ← now) refl

  decrypt_ragged :
      (key iv text : List ℕ)
      → not (length text == 0 || not (length text % 16 == 0)) ≡ false
      → Cbc.decrypt key iv text ≡ none
  unfolding Cbc.decrypt
  decrypt_ragged key iv text e = rw e refl

  -- `finalize` when no byte is left in the buffer.
  on_blocks :
      (key iv text : List ℕ) (d : Sm4CbcDecryptor)
      → Holds key iv text d
      → length (blocks 16 (decrypt_one (Cipher.new key)) (start iv) text).1 ≡ 0
      → length text % 16 ≡ 0
      → (do
        last ← d.held_back
        stripped ← strip_pkcs7_block last
        some (d.output ++ take stripped last))
        ≡ Cbc.decrypt key iv text
  on_blocks key iv [] d h e m =
      let step = decrypt_one (Cipher.new key) in
      let held : d.held_back ≡ none =
        ap (λ w. w.held_back) h.absorbed.works
        ∙ unfold start in
          ap (λ r. r.0.held_back)
            (blocks_short 16 step (omega arith) (start iv) [] (omega arith)) in
      rw held (sym (decrypt_ragged key iv [] refl))
  on_blocks key iv (x ∷ xs) d h e m =
      let step = decrypt_one (Cipher.new key) in
      let w = (blocks 16 step (start iv) (x ∷ xs)).0 in
      let holds : HoldsBack w.output w.held_back =
        blocks_inv 16 step (omega arith) (λ w. HoldsBack w.output w.held_back)
          (decrypt_one-HoldsBack (Cipher.new key)) (start iv) (x ∷ xs)
          (unfold start HoldsBack in refl) in
      rw
        (
          ap (λ w. w.output) h.absorbed.works,
          ap (λ w. w.held_back) h.absorbed.works,
          decrypt_text key iv (x ∷ xs) e,
        )
        (finish (suc (length xs)) w.output w.held_back holds m (omega arith))

  finalize-Holds :
      (key iv text : List ℕ) (d : Sm4CbcDecryptor)
      → Holds key iv text d
      → decrypt_finalize d ≡ Cbc.decrypt key iv text
  unfolding decrypt_finalize
  finalize-Holds key iv text d h =
      let step = decrypt_one (Cipher.new key) in
      let in_use : length (pending (decrypting d)) ≡ d.buffer_len = omega (
        arith,
        length-take d.buffer_len d.buffer,
        h.absorbed.is_open.room,
        h.absorbed.is_open.size,
      ) in
      let held : d.held_back ≡ (blocks 16 step (start iv) text).0.held_back =
        ap (λ w. w.held_back) h.absorbed.works in
      let (q, count) = blocks_count 16 step (omega arith) (start iv) text in
      let rest : length (blocks 16 step (start iv) text).1 ≡ d.buffer_len =
        sym (ap length h.absorbed.keeps) ∙ in_use in
      elim (Bool-cases (d.buffer_len == 0)) [
        | inr partly ↦ rw partly (
            sym (
              decrypt_ragged key iv text (
                ragged (length text) q d.buffer_len (omega (arith, h.absorbed.is_open.room))
                  (omega arith) partly)))
        | inl emptied ↦
            let none_left : d.buffer_len ≡ 0 = (==_iff d.buffer_len 0).0 emptied in
            rw emptied (on_blocks key iv text d h (rest ∙ none_left) (omega arith))
      ]

  -- For every key, IV and list of pieces, the streaming decryptor fed the pieces returns at
  -- `finalize` what the one-shot `decrypt` returns on their concatenation, failures included.
  pub decrypt_pieces :
      (key iv : List ℕ) (pieces : List (List ℕ))
      → decrypt_finalize (foldl decrypt_update (new_decryptor key iv) pieces)
        ≡ Cbc.decrypt key iv (flatten pieces)
  decrypt_pieces key iv pieces =
      finalize-Holds key iv (flatten pieces) (foldl decrypt_update (new_decryptor key iv) pieces)
        (updates-Holds pieces key iv [] (new_decryptor key iv) (new-Holds key iv))
