-- ===== src/Sm4/CtrStreaming/Position.antt =====
-- Streaming counter mode (sm4/ctr_streaming.rs) against the one-shot `mode_ctr::encrypt`.
use gm_crypto_rs.Base.{ℕ, suc, ◌+◌, ◌-◌, ◌*◌, ◌/◌, ◌<◌, ◌≤◌, ltb}
use gm_crypto_rs.Base.{List, [], ◌∷◌, ◌++◌, length, drop, replicate, Subtle, flatten}
use gm_crypto_rs.Base.{Option, some, ◌>>=◌, Bool-cases, inl, inr, ◌⊎◌}
use gm_crypto_rs.Base.{◌≡◌, refl, sym, ap, ap₂, subst, ◌∙◌, arith, append-nil}
use gm_crypto_rs.Base.{le→ltb, ltb→le, length-drop}
use gm_crypto_rs.Base.{length-replicate, drop_all}
use gm_crypto_rs.Sm4.Cipher
use gm_crypto_rs.Sm4.Cipher.{Sm4Cipher, encrypt_block, encrypt_blocks}
use gm_crypto_rs.Sm4.Cipher.Inverse.{IsBlock}
use gm_crypto_rs.Sm4.Ctr
use gm_crypto_rs.Sm4.Ctr.{counter_add, counter_blocks}
use gm_crypto_rs.Sm4.Ctr.Keystream.{
  counter_add_add, counter_add_zero, key_block, counter_blocks-key_blocks, apply_keystream-masked,
}
use gm_crypto_rs.Sm4.CtrStreaming
use gm_crypto_rs.Sm4.CtrStreaming.{
  Sm4CtrCipher, mask_lanes, drain_leftover, mask_blocks, full_blocks, tail, update,
}
use gm_crypto_rs.Sm4.Masking.{
  masked, masked-append, key_blocks, mask_lanes-masked, drain_full, drain-IsDrained,
  mask_blocks-masked,
}

module _ ⦃subtle : Subtle⦄ (cipher : Sm4Cipher) (start : List ℕ) where
  -- The cipher stands at the position `n`: at the end of a block, or inside the block `q`.
  record IsReady (n : ℕ) (c : Sm4CtrCipher) : Type 0 where
    keyed : c.cipher ≡ cipher
    q : ℕ
    at : n ≡ q * 16
    used_up : c.leftover_pos ≡ 16
    counts : c.counter ≡ counter_add start q

  record IsInside (n : ℕ) (c : Sm4CtrCipher) : Type 0 where
    keyed : c.cipher ≡ cipher
    q : ℕ
    at : n ≡ q * 16 + c.leftover_pos
    within : c.leftover_pos ≤ 16
    holds : c.leftover ≡ key_block cipher start q
    counts : c.counter ≡ counter_add start (suc q)

  pub StandsAt : ℕ → Sm4CtrCipher → Type 0
  StandsAt n c = IsReady n c ⊎ IsInside n c

  -- What the rest of a call does with the input that step 1 leaves.
  record IsMasked (n : ℕ) (input : List ℕ) (c : Sm4CtrCipher) (out : List ℕ) : Type 0 where
    stands : StandsAt (n + length input) c
    text : out ≡ masked (key_block cipher start) n input

  tail-IsMasked :
      (n : ℕ) (c : Sm4CtrCipher) (input : List ℕ)
      → IsReady n c
      → length input < 16
      → IsMasked n input (tail c input).0 (tail c input).1
  unfolding tail masked StandsAt
  tail-IsMasked n c [] h l = record {
    stands = subst (λ m. StandsAt m c) (omega arith) (inl h);
    text = refl;
  }
  tail-IsMasked n c (b ∷ input) h l = record {
    stands = inr (record {
      keyed = h.keyed;
      q = h.q;
      at = omega (arith, h.at);
      within = omega arith;
      holds = ap₂ encrypt_block h.keyed h.counts;
      counts =
          ap (λ t. counter_add t 1) h.counts
          ∙ counter_add_add start h.q 1
          ∙ ap (counter_add start) (omega arith);
    });
    text =
        ap (λ block. mask_lanes block 0 (b ∷ input)) (ap₂ encrypt_block h.keyed h.counts)
        ∙ mask_lanes-masked (key_block cipher start) h.q 0 (b ∷ input) (omega arith)
        ∙ ap (λ m. masked (key_block cipher start) m (b ∷ input)) (omega (arith, h.at));
  }

  -- Steps 2 and 3.
  blocks-IsMasked :
      (n : ℕ) (c : Sm4CtrCipher) (input : List ℕ)
      → IsReady n c
      → let (c2, out2, rest) = full_blocks c input in
        let (c3, out3) = tail c2 rest in IsMasked n input c3 (out2 ++ out3)
  unfolding full_blocks
  blocks-IsMasked n c input h = elim (Bool-cases (ltb 0 (length input / 16))) [
    | inr nothing ↦
        rw nothing (tail-IsMasked n c input h (omega (arith, ltb→le 0 (length input / 16) nothing)))
    | inl some_blocks ↦
        let full = length input / 16 in
        let rest = drop (full * 16) input in
        let c2 : Sm4CtrCipher = record c { counter = counter_add c.counter full } in
        let ready : IsReady (n + full * 16) c2 = record {
          keyed = h.keyed;
          q = h.q + full;
          at = omega (arith, h.at);
          used_up = h.used_up;
          counts = ap (λ t. counter_add t full) h.counts ∙ counter_add_add start h.q full;
        } in
        let size : length rest ≡ length input - full * 16 = length-drop (full * 16) input in
        let last = tail-IsMasked (n + full * 16) c2 rest ready (omega arith) in
        let keystream = encrypt_blocks cipher (counter_blocks (counter_add start h.q) 0 full) in
        let n_is : n ≡ h.q * 16 = omega (arith, h.at) in
        let then_is : n + full * 16 ≡ (h.q + full) * 16 = omega (arith, h.at) in
        rw some_blocks (record {
          stands = subst (λ m. StandsAt m (tail c2 rest).0) (omega arith) last.stands;
          text =
              ap₂
                (λ k t.
                  mask_blocks (encrypt_blocks k (counter_blocks t 0 full)) input
                  ++ (tail c2 rest).1)
                h.keyed h.counts
              ∙ ap (λ t. mask_blocks keystream input ++ t)
                  (last.text ∙ ap (λ m. masked (key_block cipher start) m rest) then_is)
              ∙ ap
                  (λ ks.
                    mask_blocks ks input
                    ++ masked (key_block cipher start) ((h.q + full) * 16) rest)
                  (counter_blocks-key_blocks cipher start h.q 0 full
                    ∙ ap (λ j. key_blocks (key_block cipher start) j full) (omega arith))
              ∙ mask_blocks-masked (key_block cipher start) h.q full input (omega arith)
              ∙ ap (λ m. masked (key_block cipher start) m input) (sym n_is);
        })
  ]

  -- All three steps: the new cipher, and the masked input.
  steps : Sm4CtrCipher → List ℕ → Sm4CtrCipher × List ℕ
  steps c input =
      let (out1, pos, rest1) = drain_leftover c.leftover c.leftover_pos input in
      let (c2, out2, rest2) = full_blocks (record c { leftover_pos = pos }) rest1 in
      let (c3, out3) = tail c2 rest2 in (c3, out1 ++ (out2 ++ out3))

  steps-IsMasked :
      (n : ℕ) (c : Sm4CtrCipher) (input : List ℕ)
      → StandsAt n c
      → IsMasked n input (steps c input).0 (steps c input).1
  unfolding steps StandsAt
  steps-IsMasked n c input (inl h) =
      rw (h.used_up, drain_full (key_block cipher start) c.leftover input)
        (blocks-IsMasked n (record c { leftover_pos = 16 }) input
          (record { keyed = h.keyed; q = h.q; at = h.at; used_up = refl; counts = h.counts }))
  steps-IsMasked n c input (inr h) =
      let r = drain_leftover (key_block cipher start h.q) c.leftover_pos input in
      let d = drain-IsDrained (key_block cipher start) h.q c.leftover_pos input h.within in
      let c1 : Sm4CtrCipher = record c {
        leftover = key_block cipher start h.q;
        leftover_pos = r.1;
      } in
      let n_is : n ≡ h.q * 16 + c.leftover_pos = h.at in
      let step3 = λ (t : List ℕ). tail (full_blocks c1 t).0 (full_blocks c1 t).2 in
      rw h.holds (elim d.ends [
        | inl empty ↦
            subst (λ t. IsMasked n input (step3 t).0 (r.0 ++ ((full_blocks c1 t).1 ++ (step3 t).1)))
              (sym empty)
              (unfold full_blocks tail in
                record {
                  stands = inr (record {
                    keyed = h.keyed;
                    q = h.q;
                    at = omega (arith, d.count, ap length empty);
                    within = d.within;
                    holds = refl;
                    counts = h.counts;
                  });
                  text =
                      unfold masked in
                      ap (λ t. r.0 ++ masked (key_block cipher start) (h.q * 16 + r.1) t)
                        (sym empty)
                      ∙ d.text
                      ∙ ap (λ m. masked (key_block cipher start) m input) (sym n_is);
                })
        | inr full ↦
            let n1 = suc h.q * 16 in
            let m = blocks-IsMasked n1 c1 r.2 (record {
              keyed = h.keyed;
              q = suc h.q;
              at = refl;
              used_up = full;
              counts = h.counts;
            }) in
            record {
              stands = subst (λ k. StandsAt k (step3 r.2).0) (omega (arith, d.count)) m.stands;
              text =
                  ap (λ t. r.0 ++ t)
                    (m.text ∙ ap (λ k. masked (key_block cipher start) k r.2) (omega arith))
                  ∙ d.text
                  ∙ ap (λ k. masked (key_block cipher start) k input) (sym n_is);
            }
      ])

  -- A call with an output buffer that is long enough.
  pub update-StandsAt :
      (n : ℕ) (c : Sm4CtrCipher) (input output : List ℕ)
      → StandsAt n c
      → length input ≤ length output
      → (c' : Sm4CtrCipher) × (update c input output
          ≡ some (c', masked (key_block cipher start) n input ++ drop (length input) output))
        × StandsAt (n + length input) c'
  unfolding update steps
  update-StandsAt n c input output h l =
      let m = steps-IsMasked n c input h in
      (
        (steps c input).0,
        rw (le→ltb (length output) (length input) l)
            (ap (λ t. some ((steps c input).0, t ++ drop (length input) output)) m.text),
        m.stands,
      )

module _ ⦃subtle : Subtle⦄ where
  -- One call for each piece, each with an output buffer of the piece's length.
  pub update_all : Sm4CtrCipher → List (List ℕ) → Option (List ℕ)
  update_all c [] = some []
  update_all c (piece ∷ pieces) = do
    (c', out) ← update c piece (replicate (length piece) 0)
    outs ← update_all c' pieces
    some (out ++ outs)

  update_all-masked :
      (cipher : Sm4Cipher) (start : List ℕ) (n : ℕ) (c : Sm4CtrCipher) (pieces : List (List ℕ))
      → StandsAt cipher start n c
      → update_all c pieces ≡ some (masked (key_block cipher start) n (flatten pieces))
  unfolding update_all flatten masked
  update_all-masked cipher start n c [] h = refl
  update_all-masked cipher start n c (piece ∷ pieces) h =
      let buffer : List ℕ = replicate (length piece) 0 in
      let size : length buffer ≡ length piece = length-replicate {A = ℕ} (length piece) 0 in
      let (c', e, h') = update-StandsAt cipher start n c piece buffer h (omega (arith, size)) in
      let whole : drop (length piece) buffer ≡ [] =
        drop_all (length piece) buffer (omega (arith, size)) in
      rw (e, whole, update_all-masked cipher start (n + length piece) c' pieces h')
        (ap some (
          ap (λ t. t ++ masked (key_block cipher start) (n + length piece) (flatten pieces))
            (append-nil (masked (key_block cipher start) n piece))
          ∙ sym (masked-append (key_block cipher start) piece (flatten pieces) n)))

  -- For every key, 16-byte counter and list of pieces, the outputs of `update` on the pieces,
  -- each with a buffer of its length, are together what the one-shot `encrypt` returns on their
  -- concatenation, and no call panics.
  pub ctr_pieces :
      (key counter : List ℕ) (pieces : List (List ℕ))
      → IsBlock counter
      → update_all (CtrStreaming.new key counter) pieces
        ≡ some (Ctr.encrypt key counter (flatten pieces))
  unfolding CtrStreaming.new Ctr.encrypt StandsAt
  ctr_pieces key counter pieces h =
      update_all-masked (Cipher.new key) counter 0 (CtrStreaming.new key counter) pieces (
        inl (record {
          keyed = refl;
          q = 0;
          at = refl;
          used_up = refl;
          counts = sym (counter_add_zero counter h);
        }))
      ∙ ap some (sym (apply_keystream-masked key counter (flatten pieces)))
