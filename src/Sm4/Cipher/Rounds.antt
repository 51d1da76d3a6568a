-- ===== src/Sm4/Cipher/Rounds.antt =====
-- The rounds of sm4/cipher.rs: the scanning S-box, the ranges of the words, the reversed window.
use gm_crypto_rs.Base.{ℕ, zero, suc, ◌+◌, ◌%◌, ◌^◌, ◌<◌, ◌≤◌, ◌==◌, if◌then◌else◌}
use gm_crypto_rs.Base.{List, [], ◌∷◌, get_or, map, ◌≡◌, refl, sym, ap, ◌∙◌, arith}
use gm_crypto_rs.Base.{for_range, for_range_inv, ◌⊕◌, to_be, IsBytes}
use gm_crypto_rs.Base.{IsU32, Bool-cases, inl, inr, ==_iff, ltb, xor-lt, xor_assoc, xor_comm}
use gm_crypto_rs.Base.{
  get_or-IsByte, Subtle, Bool, true, false, ◌≢◌, xor_cancel, from_be-lt, length-to_be, length-map,
  leb, ◌&&◌,
}
use gm_crypto_rs.Sm4.Cipher.{
  s_box, sbox_ct, tau, l_round, l_prime, t_round, t_prime, Quad, crypt_round,
}

not_equal : (a b : ℕ) → a ≢ b → (a == b) ≡ false
not_equal a b h = ground arith

s_box-IsBytes : IsBytes s_box
unfolding s_box
s_box-IsBytes = omega arith

pub record IsQuad (x : Quad) : Type 0 where
  pub u0 : IsU32 x.w0
  pub u1 : IsU32 x.w1
  pub u2 : IsU32 x.w2
  pub u3 : IsU32 x.w3

-- The window read from its other end.
abbrev pub flip : Quad → Quad
flip x = record { w0 = x.w3; w1 = x.w2; w2 = x.w1; w3 = x.w0 }

xor_flip : (a b c k : ℕ) → c ⊕ b ⊕ a ⊕ k ≡ a ⊕ b ⊕ c ⊕ k
xor_flip a b c k =
    ap (λ t. t ⊕ k) (xor_comm (c ⊕ b) a ∙ ap (λ t. a ⊕ t) (xor_comm c b) ∙ sym (xor_assoc a b c))

module _ ⦃subtle : Subtle⦄ where
  scan_step : ℕ → ℕ → ℕ → ℕ
  scan_step x i result =
      subtle.conditional_select result (get_or s_box i 0) (subtle.ct_eq (i % 256) x)

  scan_step_lem :
      (x i result : ℕ)
      → x < 256
      → i < 256
      → scan_step x i result ≡ (if i == x then get_or s_box i 0 else result)
  unfolding scan_step
  scan_step_lem x i result hx hi =
      let byte : i % 256 ≡ i = omega arith in
      let law = subtle.ct_eq_iff i x hi hx in
      elim (Bool-cases (subtle.ct_eq i x)) [
        | inl same ↦
            rw (scan_step, byte, same, (==_iff i x).1 (law.0 same))
              (subtle.select_true result (get_or s_box i 0))
        | inr differs ↦
            rw (scan_step, byte, differs, not_equal i x λ e. cc (law.1 e))
              (subtle.select_false result (get_or s_box i 0))
      ]

  -- From `i` on the scan passes `x` once, if `x` still lies ahead.
  scan-passes :
      (x n i j result : ℕ)
      → x < 256
      → j ≤ 256
      → i + n ≡ j
      → for_range n i (scan_step x) result
        ≡ (if leb i x && ltb x j then get_or s_box x 0 else result)
  unfolding for_range
  scan-passes x zero i j result hx hj e = ground arith
  scan-passes x (suc n) i j result hx hj e =
      scan-passes x n (i + 1) j (scan_step x i result) hx hj (omega arith)
      ∙ ground (arith, scan_step_lem x i result)

  -- On every byte, the constant-time scan of the S-box returns the entry of the table at that
  -- byte.
  pub sbox_ct-get_or : (x : ℕ) → x < 256 → sbox_ct x ≡ get_or s_box x 0
  unfolding sbox_ct scan_step
  sbox_ct-get_or x h = scan-passes x 256 0 256 0 h (omega arith) refl ∙ ground arith

  pub select-lt :
      (a b : ℕ) (choice : Bool) → a < 256 → b < 256 → subtle.conditional_select a b choice < 256
  select-lt a b true ha hb = rw (subtle.select_true a b) hb
  select-lt a b false ha hb = rw (subtle.select_false a b) ha

  -- The scan of any number is a byte.
  pub sbox_ct-lt : (x : ℕ) → sbox_ct x < 256
  unfolding sbox_ct
  sbox_ct-lt x =
      for_range_inv _ (λ r. r < 256)
        (λ i r h.
          select-lt r (get_or s_box i 0) (subtle.ct_eq (i % 256) x) h
            (get_or-IsByte s_box i s_box-IsBytes))
        256 0 0 (omega arith)

  map_sbox-IsBytes : (bs : List ℕ) → IsBytes (map sbox_ct bs)
  map_sbox-IsBytes [] = tt
  map_sbox-IsBytes (b ∷ bs) = (sbox_ct-lt b, map_sbox-IsBytes bs)

  pub tau-lt : (a : ℕ) → IsU32 (tau a)
  unfolding tau
  tau-lt a =
      from_be-lt 4 (map sbox_ct (to_be 4 a)) (map_sbox-IsBytes (to_be 4 a))
        (length-map (to_be 4 a) sbox_ct ∙ length-to_be 4 a)

  pub t_round-lt : (x : ℕ) → IsU32 (t_round x)
  unfolding t_round l_round
  t_round-lt x =
      let b = tau x in
      let h : b < 2 ^ 32 = tau-lt x in
      xor-lt 32 _ _
        (xor-lt 32 _ _ (xor-lt 32 _ _ (xor-lt 32 b _ h (omega arith)) (omega arith)) (omega arith))
        (omega arith)

  pub t_prime-lt : (x : ℕ) → IsU32 (t_prime x)
  unfolding t_prime l_prime
  t_prime-lt x =
      let b = tau x in
      let h : b < 2 ^ 32 = tau-lt x in xor-lt 32 _ _ (xor-lt 32 b _ h (omega arith)) (omega arith)

  pub crypt_round-IsQuad : (rki : ℕ) (x : Quad) → IsQuad x → IsQuad (crypt_round rki x)
  unfolding crypt_round
  crypt_round-IsQuad rki x h = record {
    u0 = h.u1;
    u1 = h.u2;
    u2 = h.u3;
    u3 = xor-lt 32 x.w0 _ h.u0 (t_round-lt (x.w1 ⊕ x.w2 ⊕ x.w3 ⊕ rki));
  }

  -- The same round on the reversed window takes the round back.
  pub crypt_round-flip : (rki : ℕ) (x : Quad) → crypt_round rki (flip (crypt_round rki x)) ≡ flip x
  unfolding crypt_round
  crypt_round-flip rki x =
      let t = t_round (x.w1 ⊕ x.w2 ⊕ x.w3 ⊕ rki) in
      let back : x.w0 ⊕ t ⊕ t_round (x.w3 ⊕ x.w2 ⊕ x.w1 ⊕ rki) ≡ x.w0 =
        ap (λ u. x.w0 ⊕ t ⊕ t_round u) (xor_flip x.w1 x.w2 x.w3 rki) ∙ xor_cancel x.w0 t in
      λ i. record { w0 = x.w3; w1 = x.w2; w2 = x.w1; w3 = back i }
