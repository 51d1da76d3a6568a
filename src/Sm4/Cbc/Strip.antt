-- ===== src/Sm4/Cbc/Strip.antt =====
-- `strip_pkcs7_block` of sm4/mode_cbc.rs against the padded blocks.
use gm_crypto_rs.Base.{ℕ, ◌-◌, ◌%◌, ◌<◌, ◌≤◌, ◌⊕◌, if◌then◌else◌}
use gm_crypto_rs.Base.{Bool, true, false, not, ◌&&◌, List, ◌++◌, length, get_or, take}
use gm_crypto_rs.Base.{replicate, for_range, for_range_inv, none, some, Subtle, IsBytes}
use gm_crypto_rs.Base.{◌≡◌, ◌≢◌, ◌↔◌, refl, sym, ap, ◌∙◌, arith, Bool-cases, inl, inr}
use gm_crypto_rs.Base.{xor-lt, or-lt, get_or-IsByte, tail_replicate, get_or-replicate, length-take}
use gm_crypto_rs.Sm4.Cipher.Inverse.{IsBlock}
use gm_crypto_rs.Sm4.Cipher.Rounds.{select-lt}
use gm_crypto_rs.Sm4.Cbc.{scan_padding, strip_pkcs7_block}
use gm_crypto_rs.Sm4.Cbc.Padding.{scan_agrees, scan_clear, not_gt, not_gt_le}

-- `k` bytes of message, then `16 - k` bytes that each say so.
pub record IsPadded (block : List ℕ) (k : ℕ) : Type 0 where
  pub within : k < 16
  pub ends : block ≡ take k block ++ replicate (16 - k) (16 - k)

padded_at :
    (block : List ℕ) (k : ℕ)
    → IsBlock block
    → IsPadded block k
    → (j : ℕ) → k ≤ j
    → j < 16
    → get_or block j 0 ≡ 16 - k
padded_at block k h p j lo hi =
    let size : length (take k block) ≡ k = omega (arith, length-take k block, h.width, p.within) in
    ap (λ t. get_or t j 0) p.ends
    ∙ get_or-replicate 0 (16 - k) (take k block) (16 - k) j (omega arith) (omega arith)

module _ ⦃subtle : Subtle⦄ where
  scan_padding-lt :
      (block : List ℕ) (last i acc : ℕ)
      → IsBytes block
      → last < 256
      → acc < 256
      → scan_padding block last i acc < 256
  unfolding scan_padding
  scan_padding-lt block last i acc hb hl ha = or-lt 8 acc _ ha (
      select-lt 0 (get_or block i 0 ⊕ last) (not (subtle.ct_gt ((16 - i) % 256) last)) (omega arith)
        (xor-lt 8 (get_or block i 0) last (get_or-IsByte block i hb) hl))

  scan-lt :
      (block : List ℕ) (last : ℕ)
      → IsBytes block
      → last < 256
      → for_range 16 0 (scan_padding block last) 0 < 256
  scan-lt block last hb hl =
      for_range_inv (scan_padding block last) (λ r. r < 256)
        (λ i r h. scan_padding-lt block last i r hb hl h) 16 0 0 (omega arith)

  -- What the four tests of the function say together.
  strip_tests :
      (nonzero le_block clear : Bool) (last k : ℕ)
      → (if (not nonzero && not le_block) && clear then some (16 - last) else none) ≡ some k
      → (nonzero ≡ false) × (le_block ≡ false) × (clear ≡ true) × (16 - last ≡ k)
  strip_tests nonzero le_block clear last k e = ground arith

  strip_accepts :
      (block : List ℕ) (k : ℕ) → IsBlock block → strip_pkcs7_block block ≡ some k → IsPadded block k
  unfolding strip_pkcs7_block
  strip_accepts block k h e =
      let last = get_or block 15 0 in
      let hl : last < 256 = get_or-IsByte block 15 h.bytes in
      let scanned = for_range 16 0 (scan_padding block last) 0 in
      let (nonzero, le_block, clear, kept) =
        strip_tests (subtle.ct_eq last 0) (subtle.ct_gt last 16) (subtle.ct_eq scanned 0) last k
          e in
      let positive : last ≢ 0 = λ z. cc (nonzero, (subtle.ct_eq_iff last 0 hl (omega arith)).1 z) in
      let small : last ≤ 16 = not_gt_le last 16 hl (omega arith) le_block in
      let all_clear : scanned ≡ 0 =
        (subtle.ct_eq_iff scanned 0 (scan-lt block last h.bytes hl) (omega arith)).0 clear in
      let agrees = (scan_agrees block last 16 0 0 hl refl all_clear).1 in
      let size : 16 - k ≡ last = omega arith in
      record {
        within = omega arith;
        ends =
            tail_replicate 0 last k last block (omega (arith, h.width))
              (λ j lo hi. agrees j (omega arith) (omega arith) (omega arith))
            ∙ ap (λ p. take k block ++ replicate p p) (sym size);
      }

  strip_passes :
      (nonzero le_block clear : Bool) (last k : ℕ)
      → nonzero ≡ false
      → le_block ≡ false
      → clear ≡ true
      → 16 - last ≡ k
      → (if (not nonzero && not le_block) && clear then some (16 - last) else none) ≡ some k
  strip_passes nonzero le_block clear last k a b c d = ground arith

  not_eq : (a b : ℕ) → a < 256 → b < 256 → a ≢ b → subtle.ct_eq a b ≡ false
  not_eq a b ha hb h = elim (Bool-cases (subtle.ct_eq a b)) [
    | inl same ↦ absurd (h ((subtle.ct_eq_iff a b ha hb).0 same))
    | inr other ↦ other
  ]

  strip_rejects_nothing_padded :
      (block : List ℕ) (k : ℕ) → IsBlock block → IsPadded block k → strip_pkcs7_block block ≡ some k
  unfolding strip_pkcs7_block
  strip_rejects_nothing_padded block k h p =
      let last = get_or block 15 0 in
      let hl : last < 256 = get_or-IsByte block 15 h.bytes in
      let at_end : last ≡ 16 - k =
        padded_at block k h p 15 (omega (arith, p.within)) (omega arith) in
      let scanned = for_range 16 0 (scan_padding block last) 0 in
      let all_clear : scanned ≡ 0 = scan_clear block last 16 0 hl refl (λ j lo hi near.
        padded_at block k h p j (omega (arith, at_end, p.within)) hi ∙ sym at_end) in
      strip_passes (subtle.ct_eq last 0) (subtle.ct_gt last 16) (subtle.ct_eq scanned 0) last k
        (not_eq last 0 hl (omega arith) (λ z. absurd (omega (arith, at_end, p.within))))
        (not_gt last 16 hl (omega arith) (omega arith))
        ((subtle.ct_eq_iff scanned 0 (scan-lt block last h.bytes hl) (omega arith)).1 all_clear)
        (omega (arith, p.within))

  -- On every block of 16 bytes, the constant-time scan keeps k bytes exactly if k < 16 and the
  -- last 16 - k bytes all have the value 16 - k.
  pub strip_pkcs7_block_iff :
      (block : List ℕ) (k : ℕ)
      → IsBlock block
      → (strip_pkcs7_block block ≡ some k) ↔ IsPadded block k
  strip_pkcs7_block_iff block k h =
      (strip_accepts block k h, strip_rejects_nothing_padded block k h)
