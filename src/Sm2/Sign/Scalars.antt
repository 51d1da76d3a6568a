-- ===== src/Sm2/Sign/Scalars.antt =====
-- The arithmetic of `try_sign_once` (sm2/sign.rs) against the equations of GB/T 32918.2.
use gm_crypto_rs.Base.{ℕ, ◌+◌, ◌*◌, ◌%◌, ◌<◌, Bool, true, not, ◌&&◌, ◌||◌, Option, none, some}
use gm_crypto_rs.Base.{◌≡◌, ◌≢◌, refl, sym, ap, ◌∙◌, arith, unwrap_or, is_some}
use gm_crypto_rs.Base.Residues.{signature_equation, sum_vanishes, mod-mul-mod}
use native.Mathlib.Nat.{add-mod-mod}
use gm_crypto_rs.Sm2.Field.{CryptoBigint, n}
use gm_crypto_rs.Sm2.Keys.{Sm2PrivateKey}
use gm_crypto_rs.Sm2.Sign.{candidate}

-- `(r, s)` is a signature of the digest `e` under the key `d` with the nonce `k`, whose point
-- has the abscissa `x1`.
pub record IsSigned (d e k x1 r s : ℕ) : Type 0 where
  pub first : r ≡ (e + x1) % n
  pub second : (s + (r + s) * d) % n ≡ k
  pub r_below : r < n
  pub s_below : s < n
  pub r_nonzero : r ≢ 0
  pub s_nonzero : s ≢ 0
  pub sum_nonzero : (r + s) % n ≢ 0

and_true : (a b : Bool) → (a && b) ≡ true → (a ≡ true) × (b ≡ true)
and_true a b h = ground arith

nor_true : (a b : Bool) → not (a || b) ≡ true → (not a ≡ true) × (not b ≡ true)
nor_true a b h = ground arith

module _ ⦃big : CryptoBigint⦄ where
  open big use {Fn, fn_new, fn_add, fn_sub, fn_mul, fn_invert, fn_retrieve, ct_eq}

  inverted : (o : Option Fn) → is_some o ≡ true → o ≡ some (unwrap_or o (fn_new 1))
  inverted none h = cc
  inverted (some i) h = refl

  nonzero : (a : ℕ) → not (ct_eq a 0) ≡ true → a ≢ 0
  nonzero a h e = let found = (big.ct_eq_iff a 0).1 e in ground (arith, found)

  one_plus : (d : Fn) → fn_retrieve (fn_add (fn_new 1) d) ≡ (1 + fn_retrieve d) % n
  one_plus d =
      big.fn_retrieve-add (fn_new 1) d ∙ ap (λ t. (t + fn_retrieve d) % n) (big.fn_retrieve-new 1)

  pub candidate-IsSigned :
      (key : Sm2PrivateKey) (e k : Fn) (ok : Bool) (x1 : ℕ)
      → (candidate key e k ok x1).is_some ≡ true
      → (ok ≡ true)
        × IsSigned
            (fn_retrieve key.d)
            (fn_retrieve e)
            (fn_retrieve k)
            x1
            (candidate key e k ok x1).value.r
            (candidate key e k ok x1).value.s
  unfolding candidate
  candidate-IsSigned key e k ok x1 h =
      let r = fn_add e (fn_new x1) in
      let one_plus_d = fn_add (fn_new 1) key.d in
      let i = unwrap_or (fn_invert one_plus_d) (fn_new 1) in
      let rd = fn_mul r key.d in
      let k_minus_rd = fn_sub k rd in
      let s = fn_mul i k_minus_rd in
      let bad_r = ct_eq (fn_retrieve r) 0 || ct_eq (fn_retrieve (fn_add r k)) 0 in
      let (good_r, h1) = and_true (not bad_r) _ h in
      let (good_s, h2) = and_true (not (ct_eq (fn_retrieve s) 0)) _ h1 in
      let (inv_ok, sampled) = and_true (is_some (fn_invert one_plus_d)) ok h2 in
      let inverse = big.fn_invert_some one_plus_d i (inverted (fn_invert one_plus_d) inv_ok) in
      let (r_good, rk_good) = nor_true _ _ good_r in
      let k_rd = fn_retrieve k_minus_rd in
      let equation : (fn_retrieve s + (fn_retrieve r + fn_retrieve s) * fn_retrieve key.d) % n
          ≡ fn_retrieve k =
        signature_equation n (fn_retrieve key.d) (fn_retrieve i) (fn_retrieve r) (fn_retrieve s)
          (fn_retrieve k) k_rd
          (sym (mod-mul-mod n (1 + fn_retrieve key.d) (fn_retrieve i))
            ∙ ap (λ t. (t * fn_retrieve i) % n) (sym (one_plus key.d))
            ∙ inverse)
          (sym (add-mod-mod k_rd (fn_retrieve r * fn_retrieve key.d) n)
            ∙ ap (λ t. (k_rd + t) % n) (sym (big.fn_retrieve-mul r key.d))
            ∙ big.fn_retrieve-sub k rd)
          (big.fn_retrieve-mul i k_minus_rd) in
      (
        sampled,
        record {
          first =
              big.fn_retrieve-add e (fn_new x1)
              ∙ ap (λ t. (fn_retrieve e + t) % n) (big.fn_retrieve-new x1)
              ∙ add-mod-mod (fn_retrieve e) x1 n;
          second = equation;
          r_below = big.fn_retrieve-lt r;
          s_below = big.fn_retrieve-lt s;
          r_nonzero = nonzero (fn_retrieve r) r_good;
          s_nonzero = nonzero (fn_retrieve s) good_s;
          sum_nonzero = λ z. nonzero (fn_retrieve (fn_add r k)) rk_good (
              big.fn_retrieve-add r k
              ∙ sum_vanishes n (fn_retrieve key.d) (fn_retrieve r) (fn_retrieve s) (fn_retrieve k) z
                  equation);
        },
      )
