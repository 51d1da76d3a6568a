-- ===== src/Pem/Alphabet.antt =====
-- The alphabet of pem.rs and the masks of the sextets, by running through all bytes.
use gm_crypto_rs.Base.{ℕ, zero, suc, ◌%◌, ◌<◌, bit_and, ltb, ◌==◌}
use gm_crypto_rs.Base.{
  Bool, true, false, not, ◌&&◌, Option, none, some, ==_iff, Bool-cases, inl, inr,
}
use gm_crypto_rs.Base.{◌≢◌, ◌≡◌, refl, sym, ap, ◌∙◌, arith}
use gm_crypto_rs.Pem.{base64_alphabet, letter, base64_lookup, pad_char}

-- A test of every number below `n`.
all_below : ℕ → (ℕ → Bool) → Bool
all_below zero test = true
all_below (suc n) test = test n && all_below n test

all_below-true :
    (n : ℕ) (test : ℕ → Bool) → all_below n test ≡ true → (i : ℕ) → i < n → test i ≡ true
unfolding all_below
all_below-true zero test h i l = absurd (omega arith)
all_below-true (suc n) test h i l = elim (Bool-cases (i == n)) [
  | inl last ↦
      let same : n ≡ i = sym ((==_iff i n).0 last) in
      ap test (sym same) ∙ both (test n) (all_below n test) h
  | inr below ↦ all_below-true n test (rest (test n) (all_below n test) h) i (smaller i n l below)
]
  where
    both : (a b : Bool) → a && b ≡ true → a ≡ true
    both true b h = refl
    both false b h = h

    rest : (a b : Bool) → a && b ≡ true → b ≡ true
    rest true b h = h
    rest false b h = cc

    smaller : (i n : ℕ) → i < suc n → (i == n) ≡ false → i < n
    smaller i n l h = ground arith

-- `base64_lookup` of a letter, with a number that stands for a failure.
found : Option ℕ → ℕ
found none = 64
found (some v) = v

lookup_letters : all_below 64 (λ v. found (base64_lookup (letter v)) == v) ≡ true
unfolding all_below found base64_lookup base64_alphabet
lookup_letters = refl

found-eq-some : (o : Option ℕ) (v : ℕ) → v < 64 → found o ≡ v → o ≡ some v
unfolding found
found-eq-some none v l h = absurd (omega arith)
found-eq-some (some w) v l h = ap some h

pub base64_lookup-letter : (v : ℕ) → v < 64 → base64_lookup (letter v) ≡ some v
base64_lookup-letter v l = found-eq-some (base64_lookup (letter v)) v l (
    (==_iff (found (base64_lookup (letter v))) v).0
      (all_below-true 64 (λ v. found (base64_lookup (letter v)) == v) lookup_letters v l))

masks_3 : all_below 256 (λ b. bit_and b 0x03 == b % 4) ≡ true
unfolding all_below
masks_3 = refl

masks_15 : all_below 256 (λ b. bit_and b 0x0F == b % 16) ≡ true
unfolding all_below
masks_15 = refl

masks_63 : all_below 256 (λ b. bit_and b 0x3F == b % 64) ≡ true
unfolding all_below
masks_63 = refl

pub mask_3 : (b : ℕ) → b < 256 → bit_and b 0x03 ≡ b % 4
mask_3 b l =
    (==_iff (bit_and b 0x03) (b % 4)).0
      (all_below-true 256 (λ b. bit_and b 0x03 == b % 4) masks_3 b l)

pub mask_15 : (b : ℕ) → b < 256 → bit_and b 0x0F ≡ b % 16
mask_15 b l =
    (==_iff (bit_and b 0x0F) (b % 16)).0
      (all_below-true 256 (λ b. bit_and b 0x0F == b % 16) masks_15 b l)

pub mask_63 : (b : ℕ) → b < 256 → bit_and b 0x3F ≡ b % 64
mask_63 b l =
    (==_iff (bit_and b 0x3F) (b % 64)).0
      (all_below-true 256 (λ b. bit_and b 0x3F == b % 64) masks_63 b l)

not_pad : all_below 64 (λ v. not (letter v == pad_char)) ≡ true
unfolding all_below base64_alphabet
not_pad = refl

pub letter-not_pad : (v : ℕ) → v < 64 → not (letter v == pad_char) ≡ true
letter-not_pad v l = all_below-true 64 (λ v. not (letter v == pad_char)) not_pad v l

fits : ℕ → Option ℕ → Bool
fits c none = true
fits c (some v) = ltb v 64 && (letter v == c)

lookups_fit : all_below 256 (λ c. fits c (base64_lookup c)) ≡ true
unfolding all_below fits base64_lookup base64_alphabet
lookups_fit = refl

fits_inv : (c v : ℕ) → fits c (some v) ≡ true → (v < 64) × (c ≡ letter v)
unfolding fits
fits_inv c v h = ground arith

-- A character that is found is the letter of its value.
pub base64_lookup_inv : (c v : ℕ) → c < 256 → base64_lookup c ≡ some v → (v < 64) × (c ≡ letter v)
base64_lookup_inv c v l e =
    fits_inv c v
      (ap (fits c) (sym e) ∙ all_below-true 256 (λ c. fits c (base64_lookup c)) lookups_fit c l)

letters_print : all_below 64 (λ v. ltb 32 (letter v) && not (letter v == 45)) ≡ true
unfolding all_below base64_alphabet
letters_print = refl

-- No letter is white space or a dash.
pub letter-lt : (v : ℕ) → v < 64 → (32 < letter v) × (letter v ≢ 45)
letter-lt v l =
    prints (letter v)
      (all_below-true 64 (λ v. ltb 32 (letter v) && not (letter v == 45)) letters_print v l)
  where
    prints : (c : ℕ) → (ltb 32 c && not (c == 45)) ≡ true → (32 < c) × (c ≢ 45)
    prints c h = (ground arith, λ e. ground arith)
