-- ===== src/Sm4/Xts/Units.antt =====
-- The blocks of a data unit of sm4/mode_xts.rs that no byte is stolen from, one by one.
use gm_crypto_rs.Base.{
  ℕ, zero, suc, ◌+◌, ◌*◌, ◌≤◌, List, [], ◌∷◌, ◌++◌, map, length, take, drop, flatten,
}
use gm_crypto_rs.Base.{IsBytes, IsByte}
use gm_crypto_rs.Base.{
  ◌≡◌, refl, sym, ap, ap₂, ◌∙◌, arith, append_assoc, length-append, length-take, length-drop,
  take_append, drop_append, All-take, All-drop, length-xor_bytes, xor_bytes-IsBytes,
  xor_bytes_cancel,
}
use gm_crypto_rs.Sm4.Cipher.Inverse.{IsBlock}
use gm_crypto_rs.Sm4.Xts.{mul_alpha, xor16, xor_tweaks, mask_units}
use gm_crypto_rs.Sm4.Xts.Tweak.{mul_alpha-IsBlock}

take_none {ℓ} : {A : Type ℓ} (n : ℕ) → take {A = A} n [] ≡ []
take_none zero = refl
take_none (suc n) = refl

take_sum {ℓ} :
    {A : Type ℓ} (m n : ℕ) (xs : List A) → take m xs ++ take n (drop m xs) ≡ take (m + n) xs
take_sum zero n xs = ap (λ k. take k xs) (omega arith)
take_sum (suc m) n [] = take_none n ∙ sym (take_none (suc m + n))
take_sum (suc m) n (x ∷ xs) =
    let more : suc (m + n) ≡ suc m + n = omega arith in
    ap (λ t. x ∷ t) (take_sum m n xs) ∙ ap (λ k. take k (x ∷ xs)) more

-- One block under its tweak.
abbrev pub tweaked : (List ℕ → List ℕ) → List ℕ → List ℕ → List ℕ
tweaked f t block = xor16 (f (xor16 block t)) t

unfoldable pub tweaked_all : (List ℕ → List ℕ) → ℕ → List ℕ → List ℕ → List ℕ
tweaked_all f zero t input = []
tweaked_all f (suc n) t input =
    tweaked f t (take 16 input) ++ tweaked_all f n (mul_alpha t) (drop 16 input)

unfoldable pub nth_tweak : ℕ → List ℕ → List ℕ
nth_tweak zero t = t
nth_tweak (suc n) t = nth_tweak n (mul_alpha t)

pub mask_units-tweaked_all :
    (f : List ℕ → List ℕ) (n : ℕ) (t input : List ℕ)
    → flatten (xor_tweaks (map f (mask_units n t input).0) (mask_units n t input).1)
      ≡ tweaked_all f n t input
unfolding flatten xor_tweaks mask_units tweaked_all
mask_units-tweaked_all f zero t input = refl
mask_units-tweaked_all f (suc n) t input =
    ap (λ out. tweaked f t (take 16 input) ++ out)
      (mask_units-tweaked_all f n (mul_alpha t) (drop 16 input))

pub mask_units-nth_tweak : (n : ℕ) (t input : List ℕ) → (mask_units n t input).2 ≡ nth_tweak n t
unfolding mask_units nth_tweak
mask_units-nth_tweak zero t input = refl
mask_units-nth_tweak (suc n) t input = mask_units-nth_tweak n (mul_alpha t) (drop 16 input)

pub nth_tweak-IsBlock : (n : ℕ) (t : List ℕ) → IsBlock t → IsBlock (nth_tweak n t)
unfolding nth_tweak
nth_tweak-IsBlock zero t h = h
nth_tweak-IsBlock (suc n) t h = nth_tweak-IsBlock n (mul_alpha t) (mul_alpha-IsBlock t h)

pub xor16-IsBlock : (a b : List ℕ) → IsBlock a → IsBlock b → IsBlock (xor16 a b)
xor16-IsBlock a b h k = record {
  width = length-xor_bytes a b ∙ h.width;
  bytes = xor_bytes-IsBytes a b h.bytes k.bytes;
}

-- A function on blocks, and one that undoes it.
pub record IsInverse (f g : List ℕ → List ℕ) : Type 0 where
  pub undone : (b : List ℕ) → IsBlock b → g (f b) ≡ b
  pub block : (b : List ℕ) → IsBlock (f b)

pub tweaked-IsBlock :
    (f g : List ℕ → List ℕ) (t b : List ℕ) → IsInverse f g → IsBlock t → IsBlock (tweaked f t b)
tweaked-IsBlock f g t b inverse h = xor16-IsBlock (f (xor16 b t)) t (inverse.block (xor16 b t)) h

pub tweaked_undone :
    (f g : List ℕ → List ℕ) (t b : List ℕ)
    → IsInverse f g
    → IsBlock t
    → IsBlock b
    → tweaked g t (tweaked f t b) ≡ b
tweaked_undone f g t b inverse h k =
    ap (λ c. xor16 (g c) t) (xor_bytes_cancel (f (xor16 b t)) t)
    ∙ ap (λ c. xor16 c t) (inverse.undone (xor16 b t) (xor16-IsBlock b t k h))
    ∙ xor_bytes_cancel b t

pub first-IsBlock : (input : List ℕ) → IsBytes input → 16 ≤ length input → IsBlock (take 16 input)
first-IsBlock input h l = record {
  width = omega (arith, length-take 16 input);
  bytes = All-take IsByte 16 input h;
}

pub length-tweaked_all :
    (f g : List ℕ → List ℕ) (n : ℕ) (t input : List ℕ)
    → IsInverse f g
    → length (tweaked_all f n t input) ≡ n * 16
unfolding tweaked_all
length-tweaked_all f g zero t input inverse = refl
length-tweaked_all f g (suc n) t input inverse =
    length-append (tweaked f t (take 16 input)) (tweaked_all f n (mul_alpha t) (drop 16 input))
    ∙ ap₂ ◌+◌
        (length-xor_bytes (f (xor16 (take 16 input) t)) t
          ∙ (inverse.block (xor16 (take 16 input) t)).width)
        (length-tweaked_all f g n (mul_alpha t) (drop 16 input) inverse)
    ∙ omega arith

pub tweaked_all_undone :
    (f g : List ℕ → List ℕ) (n : ℕ) (t input rest : List ℕ)
    → IsInverse f g
    → IsBlock t
    → IsBytes input
    → n * 16 ≤ length input
    → tweaked_all g n t (tweaked_all f n t input ++ rest) ≡ take (n * 16) input
unfolding tweaked_all
tweaked_all_undone f g zero t input rest inverse h k l = refl
tweaked_all_undone f g (suc n) t input rest inverse h k l =
    let block = tweaked f t (take 16 input) in
    let others = tweaked_all f n (mul_alpha t) (drop 16 input) in
    let width = (tweaked-IsBlock f g t (take 16 input) inverse h).width in
    ap (λ c. tweaked g t (take 16 c) ++ tweaked_all g n (mul_alpha t) (drop 16 c))
      (append_assoc block others rest)
    ∙ ap₂ (λ c r. tweaked g t c ++ tweaked_all g n (mul_alpha t) r)
        (take_append 16 block (others ++ rest) width) (drop_append 16 block (others ++ rest) width)
    ∙ ap₂ ◌++◌
        (tweaked_undone f g t (take 16 input) inverse h (first-IsBlock input k (omega arith)))
        (tweaked_all_undone f g n (mul_alpha t) (drop 16 input) rest inverse (mul_alpha-IsBlock t h)
          (All-drop IsByte 16 input k) (omega (arith, length-drop 16 input)))
    ∙ take_sum 16 (n * 16) input
    ∙ ap (λ m. take m input) (omega arith)
