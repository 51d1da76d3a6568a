-- ===== src/Sm4/Cbc/Padding.antt =====
-- PKCS#7 in sm4/mode_cbc.rs: the constant-time scan and its tests.
use gm_crypto_rs.Base.{ℕ, zero, suc, ◌+◌, ◌-◌, ◌%◌, ◌<◌, ◌≤◌, ◌⊕◌, bit_or}
use gm_crypto_rs.Base.{false, List, get_or}
use gm_crypto_rs.Base.{for_range, Subtle}
use gm_crypto_rs.Base.{◌≡◌, refl, sym, ap, ◌∙◌, arith, Bool-cases, inl, inr}
use gm_crypto_rs.Base.{xor_self, xor_eq_zero, or_eq_zero, or-zero, dec_lt, ℕ_discrete}
use gm_crypto_rs.Sm4.Cbc.{scan_padding}

module _ ⦃subtle : Subtle⦄ where
  -- A byte before the padding is passed over.
  scan_outside :
      (block : List ℕ) (last i acc : ℕ)
      → last < 256
      → i < 16
      → last < 16 - i
      → scan_padding block last i acc ≡ acc
  unfolding scan_padding
  scan_outside block last i acc hl hi h =
      let byte : (16 - i) % 256 ≡ 16 - i = omega arith in
      let gt = (subtle.ct_gt_iff (16 - i) last (omega arith) hl).1 h in
      rw (scan_padding, byte, gt, subtle.select_false 0 (get_or block i 0 ⊕ last)) (or-zero acc)

  pub not_gt_le : (a b : ℕ) → a < 256 → b < 256 → subtle.ct_gt a b ≡ false → a ≤ b
  not_gt_le a b ha hb h = elim (dec_lt b a) [
    | yes gt ↦ cc (h, (subtle.ct_gt_iff a b ha hb).1 gt)
    | no le ↦ omega arith
  ]

  pub not_gt : (a b : ℕ) → a < 256 → b < 256 → a ≤ b → subtle.ct_gt a b ≡ false
  not_gt a b ha hb h = elim (Bool-cases (subtle.ct_gt a b)) [
    | inl gt ↦ absurd (omega (arith, (subtle.ct_gt_iff a b ha hb).0 gt))
    | inr le ↦ le
  ]

  -- A byte inside the padding adds its disagreement.
  scan_inside :
      (block : List ℕ) (last i acc : ℕ)
      → last < 256
      → i < 16
      → 16 - i ≤ last
      → scan_padding block last i acc ≡ bit_or acc (get_or block i 0 ⊕ last)
  unfolding scan_padding
  scan_inside block last i acc hl hi h =
      let byte : (16 - i) % 256 ≡ 16 - i = omega arith in
      rw
        (
          scan_padding,
          byte,
          not_gt (16 - i) last (omega arith) hl h,
          subtle.select_true 0 (get_or block i 0 ⊕ last),
        )
        refl

  -- The scan from `i` on ends at zero just when it began there and every byte of the padding that
  -- it passed agrees.
  pub scan_agrees :
      (block : List ℕ) (last n i acc : ℕ)
      → last < 256
      → i + n ≡ 16
      → for_range n i (scan_padding block last) acc ≡ 0
      → (acc ≡ 0) × ((j : ℕ) → i ≤ j → j < 16 → 16 - j ≤ last → get_or block j 0 ≡ last)
  unfolding for_range
  scan_agrees block last zero i acc hl e h = (h, λ j lo hi p. absurd (omega arith))
  scan_agrees block last (suc n) i acc hl e h =
      let (now, later) =
        scan_agrees block last n (i + 1) (scan_padding block last i acc) hl (omega arith) h in
      elim (dec_lt last (16 - i)) [
        | yes before ↦ (
          sym (scan_outside block last i acc hl (omega arith) before) ∙ now,
          λ j lo hi p. later j (omega arith) hi p,
        )
        | no inside ↦
            let (clear, agrees) =
              or_eq_zero acc (get_or block i 0 ⊕ last)
                (sym (scan_inside block last i acc hl (omega arith) (omega arith)) ∙ now) in
            (
              clear,
              λ j lo hi p. elim (ℕ_discrete j i) [
                | yes same ↦
                    ap (λ k. get_or block k 0) same ∙ xor_eq_zero (get_or block i 0) last agrees
                | no other ↦ later j (omega arith) hi p
              ],
            )
      ]

  pub scan_clear :
      (block : List ℕ) (last n i : ℕ)
      → last < 256
      → i + n ≡ 16
      → ((j : ℕ) → i ≤ j → j < 16 → 16 - j ≤ last → get_or block j 0 ≡ last)
      → for_range n i (scan_padding block last) 0 ≡ 0
  unfolding for_range
  scan_clear block last zero i hl e h = refl
  scan_clear block last (suc n) i hl e h =
      let round : scan_padding block last i 0 ≡ 0 = elim (dec_lt last (16 - i)) [
        | yes before ↦ scan_outside block last i 0 hl (omega arith) before
        | no inside ↦
            scan_inside block last i 0 hl (omega arith) (omega arith)
            ∙ ap (λ b. bit_or 0 (b ⊕ last)) (h i (omega arith) (omega arith) (omega arith))
            ∙ ap (bit_or 0) (xor_self last)
      ] in
      ap (for_range n (i + 1) (scan_padding block last)) round
      ∙ scan_clear block last n (i + 1) hl (omega arith) (λ j lo hi p. h j (omega arith) hi p)
