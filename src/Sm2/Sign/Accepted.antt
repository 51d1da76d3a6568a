-- ===== src/Sm2/Sign/Accepted.antt =====
-- `sign_raw_with_id` (sm2/sign.rs): what it returns is a signature with a nonce that it drew.
use gm_crypto_rs.Base.{ℕ, zero, suc, ◌%◌, ◌<◌, ltb, Bool, true, false, List, length}
use gm_crypto_rs.Base.{Option, none, some, ◌>>=◌, is_some, CtOption, into}
use gm_crypto_rs.Base.{
  ◌≡◌, ◌≢◌, refl, sym, ap, ap₂, subst, ◌∙◌, ◌⊎◌, inl, inr, arith, Option-cases, Bool-cases,
  some-injective, >>=-eq-some, Subtle, ◌≤◌, ltb→le,
}
use gm_crypto_rs.Sm2.Field.{CryptoBigint, n}
use gm_crypto_rs.Sm2.Point.{to_affine}
use gm_crypto_rs.Sm2.ScalarMul.{mul_g}
use gm_crypto_rs.Sm2.Keys.{Sm2PrivateKey, public_key}
use gm_crypto_rs.Sm2.Sign.{
  TryCryptoRng, RsPair, candidate, pair_select, ct_or_else, sample_nonzero_scalar, sign_sampled,
  try_sign_once, sign_rounds, sign_raw_with_id, compute_z, message_scalar, max_id_len,
}
use gm_crypto_rs.Sm2.Sign.Scalars.{IsSigned, candidate-IsSigned}
use gm_crypto_rs.Sm2.Sign.Sample.{
  first_nonce, first_nonce_lem, choice, draws, sample_nonzero_scalar-draws,
}

module _ ⦃big : CryptoBigint⦄ where
  open big use {Fp, Fn, fn_new, fn_retrieve, retrieve, select}

  module _ ⦃subtle : Subtle⦄ where
    -- The pair has a nonce of the range from 1 to `n - 1`, and the abscissa of its point.
    pub record HasNonce (key : Sm2PrivateKey) (e : Fn) (pair : RsPair) : Type 0 where
      pub nonce : Fn
      pub x1 : Fp
      pub y1 : Fp
      pub nonzero : fn_retrieve nonce ≢ 0
      pub at : to_affine (mul_g nonce) ≡ some (x1, y1)
      pub signed :
          IsSigned
            (fn_retrieve key.d)
            (fn_retrieve e)
            (fn_retrieve nonce)
            (retrieve x1)
            pair.r
            pair.s

    IsGood : Sm2PrivateKey → Fn → CtOption RsPair → Type 0
    IsGood key e c = (c.is_some ≡ false) ⊎ HasNonce key e c.value

    pair_select-true : (a b : RsPair) → pair_select a b true ≡ b
    unfolding pair_select
    pair_select-true a b =
        ap₂ (λ r s. record { r = r; s = s }) (big.select_true a.r b.r) (big.select_true a.s b.s)

    pair_select-false : (a b : RsPair) → pair_select a b false ≡ a
    unfolding pair_select
    pair_select-false a b =
        ap₂ (λ r s. record { r = r; s = s }) (big.select_false a.r b.r) (big.select_false a.s b.s)

    ct_or_else_left : (a b : CtOption RsPair) → a.is_some ≡ true → (ct_or_else a b).value ≡ a.value
    unfolding ct_or_else
    ct_or_else_left a b full = rw full (pair_select-true _ a.value)

    ct_or_else_right :
        (a b : CtOption RsPair)
        → a.is_some ≡ false
        → b.is_some ≡ true
        → (ct_or_else a b).value ≡ b.value
    unfolding ct_or_else
    ct_or_else_right a b empty full = rw (empty, full) (pair_select-false b.value _)

    both_empty :
        (a b : CtOption RsPair)
        → a.is_some ≡ false
        → b.is_some ≡ false
        → (ct_or_else a b).is_some ≡ false
    unfolding ct_or_else
    both_empty a b ha hb = rw (ha, hb) refl

    ct_or_else-IsGood :
        (key : Sm2PrivateKey) (e : Fn) (a b : CtOption RsPair)
        → IsGood key e a
        → IsGood key e b
        → IsGood key e (ct_or_else a b)
    unfolding IsGood
    ct_or_else-IsGood key e a b ha hb = elim (Bool-cases a.is_some) [
      | inl full ↦ elim ha [
        | inl empty ↦ cc
        | inr has ↦ inr (subst (HasNonce key e) (sym (ct_or_else_left a b full)) has)
      ]
      | inr empty ↦ elim (Bool-cases b.is_some) [
        | inr empty_too ↦ inl (both_empty a b empty empty_too)
        | inl full ↦ elim hb [
          | inl empty_too ↦ cc
          | inr has ↦ inr (subst (HasNonce key e) (sym (ct_or_else_right a b empty full)) has)
        ]
      ]
    ]

    chosen_nonzero :
        (drawn : List ℕ) → is_some (first_nonce drawn) ≡ true → fn_retrieve (choice drawn).0 ≢ 0
    chosen_nonzero drawn h = elim (Option-cases (first_nonce drawn)) [
      | inl nothing ↦ let bad : false ≡ true = rw nothing at h in cc
      | inr (c, e) ↦
          let (nonzero, below) = first_nonce_lem drawn c e in
          rw e (λ z. nonzero (small c below ∙ sym (big.fn_retrieve-new c) ∙ z))
    ]
      where
        small : (c : ℕ) → c < n → c ≡ c % n
        small c h = omega arith

    choice_of :
        (o : Option (List ℕ)) (k : Fn)
        → (elim o [ none ↦ none | some drawn ↦ some (choice drawn) ]) ≡ some (k, true)
        → (drawn : List ℕ) × (choice drawn ≡ (k, true))
    choice_of none k h = cc
    choice_of (some drawn) k h = (drawn, some-injective _ _ h)

    pair_of :
        (o : Option (CtOption RsPair)) (r s : ℕ)
        → ◌>>=◌ {B = ℕ × ℕ} (o >>= into) (λ pair. some (pair.r, pair.s)) ≡ some (r, s)
        → (c : CtOption RsPair) × (o ≡ some c)
          × (c.is_some ≡ true)
          × (c.value ≡ record { r = r; s = s })
    pair_of none r s h = cc
    pair_of (some c) r s h = elim (Bool-cases c.is_some) [
      | inr empty ↦ cc
      | inl full ↦
          let same : (c.value.r, c.value.s) ≡ (r, s) = some-injective _ _ (rw full at h) in
          (c, refl, full, ap (λ t. record { r = t.0; s = t.1 }) same)
    ]

    good-HasNonce :
        (key : Sm2PrivateKey) (e : Fn) (c : CtOption RsPair)
        → c.is_some ≡ true
        → IsGood key e c
        → HasNonce key e c.value
    unfolding IsGood
    good-HasNonce key e c full (inl empty) = cc
    good-HasNonce key e c full (inr has) = has

    abbrev default : CtOption RsPair
    default = record { value = record { r = 0; s = 0 }; is_some = false }

    default-IsGood : (key : Sm2PrivateKey) (e : Fn) → IsGood key e default
    unfolding IsGood
    default-IsGood key e = inl refl

    module _ {R : Type 0} ⦃source : TryCryptoRng R⦄ where
      nonce_nonzero :
          (rng : R) (k : Fn) → (sample_nonzero_scalar rng).0 ≡ some (k, true) → fn_retrieve k ≢ 0
      nonce_nonzero rng k h =
          let found = sym (ap (λ t. t.0) (sample_nonzero_scalar-draws rng)) ∙ h in
          let (drawn, e) = choice_of (draws 4 rng).0 k found in
          subst (λ k. fn_retrieve k ≢ 0) (ap (λ t. t.0) e) (chosen_nonzero drawn (ap (λ t. t.1) e))

      sampled-IsGood :
          (key : Sm2PrivateKey) (e : Fn) (sampled : Option (Fn × Bool)) (rng rng' : R)
          (c : CtOption RsPair)
          → ((k : Fn) → sampled ≡ some (k, true) → fn_retrieve k ≢ 0)
          → sign_sampled key e sampled rng ≡ some (some c, rng')
          → IsGood key e c
      unfolding sign_sampled IsGood
      sampled-IsGood key e none rng rng' c nonzero h = cc
      sampled-IsGood key e (some (k, ok)) rng rng' c nonzero h =
          let ((x1, y1), at, f) = >>=-eq-some (to_affine (mul_g k)) _ h in
          let made = candidate key e k ok (retrieve x1) in
          let same : made ≡ c = some-injective _ _ (ap (λ t. t.0) (some-injective _ _ f)) in
          elim (Bool-cases made.is_some) [
            | inr empty ↦ inl (ap (λ c. c.is_some) (sym same) ∙ empty)
            | inl full ↦
                let (drawn, signed) = candidate-IsSigned key e k ok (retrieve x1) full in
                inr (
                  subst (λ c. HasNonce key e c.value) same
                    (record {
                      nonce = k;
                      x1 = x1;
                      y1 = y1;
                      nonzero = nonzero k (ap (λ ok. some (k, ok)) drawn);
                      at = at;
                      signed = signed;
                    }))
          ]

      once-IsGood :
          (key : Sm2PrivateKey) (e : Fn) (rng rng' : R) (c : CtOption RsPair)
          → try_sign_once key e rng ≡ some (some c, rng')
          → IsGood key e c
      unfolding try_sign_once
      once-IsGood key e rng rng' c h =
          sampled-IsGood key e (sample_nonzero_scalar rng).0 (sample_nonzero_scalar rng).1 rng' c
            (nonce_nonzero rng) h

      rounds-IsGood :
          (k : ℕ) (key : Sm2PrivateKey) (e : Fn) (chosen c : CtOption RsPair) (rng rng' : R)
          → IsGood key e chosen
          → sign_rounds k key e chosen rng ≡ some (some c, rng')
          → IsGood key e c
      unfolding sign_rounds
      rounds-IsGood zero key e chosen c rng rng' good h =
          subst (IsGood key e) (some-injective _ _ (ap (λ t. t.0) (some-injective _ _ h))) good
      rounds-IsGood (suc k) key e chosen c rng rng' good h =
          next (λ chosen rng good h. rounds-IsGood k key e chosen c rng rng' good h)
            (try_sign_once key e rng) refl h
        where
          next :
              ((chosen : CtOption RsPair) (rng : R)
                → IsGood key e chosen
                → sign_rounds k key e chosen rng ≡ some (some c, rng')
                → IsGood key e c)
              → (t : Option (Option (CtOption RsPair) × R)) → try_sign_once key e rng ≡ t
              → ◌≡◌ {A = Option (Option (CtOption RsPair) × R)}
                  (elim t [
                    | none ↦ none
                    | some (none, rng) ↦ some (none, rng)
                    | some (some made, rng) ↦ sign_rounds k key e (ct_or_else chosen made) rng
                  ])
                  (some (some c, rng'))
              → IsGood key e c
          next ih none e1 h = cc
          next ih (some (none, rng1)) e1 h = cc
          next ih (some (some made, rng1)) e1 h =
              ih (ct_or_else chosen made) rng1
                (ct_or_else-IsGood key e chosen made good (once-IsGood key e rng rng1 made e1)) h

      -- Whatever the source of random bytes gives, a pair that `sign_raw_with_id` returns is a
      -- signature of the hash of `Z` and the message: with a nonce `k` other than 0 and the
      -- abscissa `x1` of `mul_g k`, `r = e + x1` and `s + (r + s) * d = k` modulo `n`, both
      -- numbers are from 1 to `n - 1`, and `r + s` is not 0 modulo `n`. The identity has at most
      -- 8191 bytes.
      pub sign_raw-HasNonce :
          (key : Sm2PrivateKey) (id message : List ℕ) (rng rng' : R) (r s : ℕ)
          → sign_raw_with_id key id message rng ≡ some (some (r, s), rng')
          → (z : List ℕ) × (compute_z (public_key key) id ≡ some z)
            × (length id ≤ 8191)
            × HasNonce key (message_scalar z message) (record { r = r; s = s })
      unfolding sign_raw_with_id
      sign_raw-HasNonce key id message rng rng' r s h =
          elim (Bool-cases (ltb max_id_len (length id))) [
            | inl long ↦ cc
            | inr short ↦
                let h1 = rw short at h in
                let (z, at, f) = >>=-eq-some (compute_z (public_key key) id) _ h1 in
                let e = message_scalar z message in
                let ((chosen, rng1), e2, f2) = >>=-eq-some (sign_rounds 2 key e default rng) _ f in
                let (c, e3, full, same) =
                  pair_of chosen r s (ap (λ t. t.0) (some-injective _ _ f2)) in
                let good =
                  rounds-IsGood 2 key e default c rng rng1 (default-IsGood key e)
                    (e2 ∙ ap (λ chosen. some (chosen, rng1)) e3) in
                (
                  z,
                  at,
                  ltb→le max_id_len (length id) short,
                  subst (HasNonce key e) same (good-HasNonce key e c full good),
                )
          ]
