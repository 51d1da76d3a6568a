-- ===== src/Sm2/ScalarMul/Lookup.antt =====
-- The table lookups of sm2/scalar_mul.rs: the scan over all entries, and the lifted scalar.
use gm_crypto_rs.Base.{ℕ, zero, suc, ◌+◌, ◌*◌, ◌/◌, ◌%◌, ◌^◌, ◌<◌, ◌≤◌, ◌==◌, true, false}
use gm_crypto_rs.Base.{List, [], ◌∷◌, length, get_or, Subtle}
use gm_crypto_rs.Base.{◌≡◌, ◌≢◌, refl, ◌∙◌, inl, inr, ◌⊎◌, arith, Bool-cases, ==_iff, if◌then◌else◌}
use gm_crypto_rs.Sm2.Field.{CryptoBigint, n}
use gm_crypto_rs.Sm2.Point.{ProjectivePoint, conditional_select, identity}
use gm_crypto_rs.Sm2.ScalarMul.{scan, lookup, lift_scalar}

module _ ⦃big : CryptoBigint⦄ where
  open big use {Fn, fn_retrieve, carrying_add, select}

  conditional_select_true : (a b : ProjectivePoint) → conditional_select a b true ≡ b
  unfolding conditional_select
  conditional_select_true a b =
      rw
        (
          conditional_select,
          big.fp_select_true a.x b.x,
          big.fp_select_true a.y b.y,
          big.fp_select_true a.z b.z,
        )
        refl

  conditional_select_false : (a b : ProjectivePoint) → conditional_select a b false ≡ a
  unfolding conditional_select
  conditional_select_false a b =
      rw
        (
          conditional_select,
          big.fp_select_false a.x b.x,
          big.fp_select_false a.y b.y,
          big.fp_select_false a.z b.z,
        )
        refl

  module _ ⦃subtle : Subtle⦄ where
    ct_eq_same : (i : ℕ) → i < 256 → subtle.ct_eq (i % 256) i ≡ true
    ct_eq_same i h = (subtle.ct_eq_iff (i % 256) i (omega arith) h).1 (omega arith)

    ct_eq_other : (i j : ℕ) → i < 256 → j < 256 → i ≢ j → subtle.ct_eq (i % 256) j ≡ false
    ct_eq_other i j hi hj other = elim (Bool-cases (subtle.ct_eq (i % 256) j)) [
      | inr e ↦ e
      | inl e ↦ absurd (other (small i hi ∙ (subtle.ct_eq_iff (i % 256) j (omega arith) hj).0 e))
    ]
      where
        small : (i : ℕ) → i < 256 → i ≡ i % 256
        small i h = omega arith

    -- The entries after the one that is looked for are passed over.
    scan_past :
        (table : List ProjectivePoint) (i nib : ℕ) (chosen : ProjectivePoint)
        → nib < i
        → i + length table ≤ 256
        → scan table i nib chosen ≡ chosen
    unfolding scan
    scan_past [] i nib chosen h l = refl
    scan_past (entry ∷ table) i nib chosen h l =
        rw
          (
            ct_eq_other i nib (omega arith) (omega arith) (λ same. omega arith),
            conditional_select_false chosen entry,
          )
          (scan_past table (suc i) nib chosen (omega arith) (omega arith))

    scan-get_or :
        (table : List ProjectivePoint) (i j nib : ℕ) (chosen : ProjectivePoint)
        → i + length table ≤ 256
        → nib < 256
        → nib ≡ i + j
        → scan table i nib chosen ≡ get_or table j chosen
    unfolding scan
    scan-get_or [] i j nib chosen l h e = refl
    scan-get_or (entry ∷ table) i zero nib chosen l h e =
        let same : i ≡ nib = omega arith in
        rw (same, ct_eq_same nib h, conditional_select_true chosen entry)
          (scan_past table (suc nib) nib entry (omega arith) (omega arith))
    scan-get_or (entry ∷ table) i (suc j) nib chosen l h e =
        rw
          (
            ct_eq_other i nib (omega arith) h (λ same. omega arith),
            conditional_select_false chosen entry,
          )
          (scan-get_or table (suc i) j nib chosen (omega arith) h (omega arith))

    -- The scan over a table returns the entry at the index.
    pub lookup-get_or :
        (table : List ProjectivePoint) (nib : ℕ)
        → length table ≤ 256
        → nib < 256
        → lookup table nib ≡ get_or table nib identity
    unfolding lookup
    lookup-get_or table nib l h = scan-get_or table 0 nib nib identity (omega arith) h (omega arith)

    lifted : ℕ → ℕ
    lifted a =
        let once = (a + n) % 2 ^ 256 in
        if (a + n) / 2 ^ 256 % 2 == 1 then once else (once + n) % 2 ^ 256

    lift_scalar-lifted : (k : Fn) → lift_scalar k ≡ lifted (fn_retrieve k)
    unfolding lift_scalar lifted
    lift_scalar-lifted k =
        let a = fn_retrieve k in
        let below = big.fn_retrieve-lt k in
        let once = (a + n) % 2 ^ 256 in
        rw
          (
            lift_scalar,
            big.carrying_add_lem a n (omega arith) (omega arith),
            big.carrying_add_lem once n (omega arith) (omega arith),
          )
          (elim (Bool-cases ((a + n) / 2 ^ 256 % 2 == 1)) [
            | inl carried ↦ rw (carried, big.select_true ((once + n) % 2 ^ 256) once) refl
            | inr not_carried ↦ rw (not_carried, big.select_false ((once + n) % 2 ^ 256) once) refl
          ])

    lifted_bounds :
        (a : ℕ)
        → a < n
        → (lifted a < 2 ^ 256) × ((2 ^ 256 + lifted a ≡ a + n) ⊎ (2 ^ 256 + lifted a ≡ a + 2 * n))
    unfolding lifted
    lifted_bounds a h = elim (Bool-cases ((a + n) / 2 ^ 256 % 2 == 1)) [
      | inl carried ↦
          let odd = (==_iff ((a + n) / 2 ^ 256 % 2) 1).0 carried in
          rw carried (omega arith, inl (omega arith))
      | inr not_carried ↦ rw not_carried (omega arith, inr (below a h not_carried))
    ]
      where
        below :
            (a : ℕ)
            → a < n
            → ((a + n) / 2 ^ 256 % 2 == 1) ≡ false
            → 2 ^ 256 + ((a + n) % 2 ^ 256 + n) % 2 ^ 256 ≡ a + 2 * n
        below a h e = ground arith

    -- For every scalar `k`, `lift_scalar` returns the low 256 bits of `k + n` or of `k + 2 * n`,
    -- whichever has exactly 257 bits.
    pub lift_scalar_bounds :
        (k : Fn)
        → (lift_scalar k < 2 ^ 256)
          × ((2 ^ 256 + lift_scalar k ≡ fn_retrieve k + n)
              ⊎ (2 ^ 256 + lift_scalar k ≡ fn_retrieve k + 2 * n))
    lift_scalar_bounds k =
        rw (lift_scalar-lifted k) (lifted_bounds (fn_retrieve k) (big.fn_retrieve-lt k))
