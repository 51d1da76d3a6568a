-- ===== src/Sm2/Sign/Sample.antt =====
-- `sample_nonzero_scalar` (sm2/sign.rs) against the search for the first draw in range.
use gm_crypto_rs.Base.{ℕ, zero, suc, ◌<◌, Bool, true, false, not, ◌&&◌, ◌||◌, List, [], ◌∷◌}
use gm_crypto_rs.Base.{Option, none, some, if◌then◌else◌, unwrap_or, is_some}
use gm_crypto_rs.Base.{◌≡◌, ◌≢◌, refl, ap, ◌∙◌, Option-cases, Bool-cases, inl, inr, some-injective}
use gm_crypto_rs.Sm2.Field.{CryptoBigint, n}
use gm_crypto_rs.Sm2.Sign.{TryCryptoRng, is_nonce, sample_rounds, sample_nonzero_scalar}

module _ ⦃big : CryptoBigint⦄ where
  open big use {Fn, fn_new, fn_retrieve, select, from_be_slice, ct_eq, ct_lt}

  -- The first number in the range from 1 to `n - 1`.
  unfoldable pub first_nonce : List ℕ → Option ℕ
  first_nonce [] = none
  first_nonce (c ∷ cs) = if is_nonce c then some c else first_nonce cs

  -- What the sampler makes of the numbers drawn.
  abbrev pub choice : List ℕ → Fn × Bool
  choice drawn = (fn_new (unwrap_or (first_nonce drawn) 1), is_some (first_nonce drawn))

  pub first_nonce_lem : (cs : List ℕ) (c : ℕ) → first_nonce cs ≡ some c → (c ≢ 0) × (c < n)
  unfolding first_nonce is_nonce
  first_nonce_lem [] c h = cc
  first_nonce_lem (x ∷ cs) c h = elim (Bool-cases (is_nonce x)) [
    | inr bad ↦ first_nonce_lem cs c (rw bad at h)
    | inl good ↦
        let same : x ≡ c = some-injective x c (rw good at h) in
        let nonzero = big.ct_eq_iff x 0 in
        let below = big.ct_lt_iff x n in
        rw (← same) (nonzero_below x (ct_eq x 0) (ct_lt x n) good nonzero.1 below.0)
  ]
    where
      nonzero_below :
          (x : ℕ) (vanishes below : Bool)
          → (not vanishes && below) ≡ true
          → (x ≡ 0 → vanishes ≡ true)
          → (below ≡ true → x < n)
          → (x ≢ 0) × (x < n)
      nonzero_below x true below h f g = cc
      nonzero_below x false true h f g = (λ e. let t = f e in cc, g refl)
      nonzero_below x false false h f g = cc

  -- What is chosen after some rounds.
  chosen_after : ℕ → Bool → List ℕ → ℕ × Bool
  chosen_after chosen found drawn =
      if found
      then (chosen, true)
      else (unwrap_or (first_nonce drawn) chosen, is_some (first_nonce drawn))

  chosen_after_step :
      (chosen c : ℕ) (found : Bool) (cs : List ℕ)
      → chosen_after (select chosen c (is_nonce c && not found)) (found || is_nonce c) cs
        ≡ chosen_after chosen found (c ∷ cs)
  unfolding chosen_after first_nonce
  chosen_after_step chosen c true cs = elim (Bool-cases (is_nonce c)) [
    | inl good ↦ rw (good, big.select_false chosen c) refl
    | inr bad ↦ rw (bad, big.select_false chosen c) refl
  ]
  chosen_after_step chosen c false cs = elim (Bool-cases (is_nonce c)) [
    | inl good ↦ rw (good, big.select_true chosen c) refl
    | inr bad ↦ rw (bad, big.select_false chosen c) refl
  ]

  module _ {R : Type 0} ⦃source : TryCryptoRng R⦄ where
    -- The numbers that the given number of draws gives, or the failure of one of them.
    unfoldable pub draws : ℕ → R → Option (List ℕ) × R
    draws zero rng = (some [], rng)
    draws (suc k) rng =
        let (filled, rng) = source.try_fill_bytes rng 32 in
        elim filled [
          | none ↦ (none, rng)
          | some buf ↦
              let (rest, rng) = draws k rng in
              (elim rest [ none ↦ none | some cs ↦ some (from_be_slice buf ∷ cs) ], rng)
        ]

    sample_rounds-draws :
        (k : ℕ) (chosen : ℕ) (found : Bool) (rng : R)
        → sample_rounds k chosen found rng ≡ (
          elim (draws k rng).0 [
            | none ↦ none
            | some drawn ↦ some (chosen_after chosen found drawn)
          ],
          (draws k rng).1,
        )
    unfolding sample_rounds draws chosen_after first_nonce
    sample_rounds-draws zero chosen false rng = refl
    sample_rounds-draws zero chosen true rng = refl
    sample_rounds-draws (suc k) chosen found rng =
        let (filled, rest) = source.try_fill_bytes rng 32 in
        elim (Option-cases filled) [
          | inl failed ↦ rw (sample_rounds, draws, failed) refl
          | inr (buf, e) ↦
              let c = from_be_slice buf in
              rw (sample_rounds, draws, e)
                (sample_rounds-draws k (select chosen c (is_nonce c && not found))
                    (found || is_nonce c) rest
                  ∙ elim (Option-cases (draws k rest).0) [
                    | inl none_left ↦ rw none_left refl
                    | inr (cs, e2) ↦
                        rw e2 (
                          ap (λ t. (some t, (draws k rest).1))
                            (chosen_after_step chosen c found cs))
                  ])
        ]

    pub sample_nonzero_scalar-draws :
        (rng : R)
        → sample_nonzero_scalar rng ≡ (
          elim (draws 4 rng).0 [ none ↦ none | some drawn ↦ some (choice drawn) ],
          (draws 4 rng).1,
        )
    unfolding sample_nonzero_scalar chosen_after
    sample_nonzero_scalar-draws rng =
        ap finish (sample_rounds-draws 4 1 false rng) ∙ elim (Option-cases (draws 4 rng).0) [
          | inl failed ↦ rw failed refl
          | inr (cs, e) ↦ rw e refl
        ]
      where
        finish : Option (ℕ × Bool) × R → Option (Fn × Bool) × R
        finish t = elim t.0 [
          | none ↦ (none, t.1)
          | some (chosen, found) ↦ (some (fn_new chosen, found), t.1)
        ]
