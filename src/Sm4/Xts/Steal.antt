-- ===== src/Sm4/Xts/Steal.antt =====
-- The ciphertext stealing of sm4/mode_xts.rs, and how it is undone.
use gm_crypto_rs.Base.{ℕ, ◌+◌, ◌≤◌}
use gm_crypto_rs.Base.{List, ◌++◌, length, take, drop}
use gm_crypto_rs.Base.{Subtle, IsBytes, IsByte}
use gm_crypto_rs.Base.{
  ◌≡◌, ap, ap₂, ◌∙◌, arith, length-append, length-take, length-drop, take-append-drop, take_append,
  drop_append, All-drop, All-append,
}
use gm_crypto_rs.Sm4.Cipher.{Sm4Cipher, encrypt_block, decrypt_block}
use gm_crypto_rs.Sm4.Cipher.Inverse.{IsBlock, encrypt_block-IsBlock, decrypt_block-encrypt_block}
use gm_crypto_rs.Sm4.Xts.{mul_alpha, encrypt_steal, decrypt_steal}
use gm_crypto_rs.Sm4.Xts.Tweak.{mul_alpha-IsBlock}
use gm_crypto_rs.Sm4.Xts.Units.{IsInverse, tweaked, tweaked-IsBlock, tweaked_undone, first-IsBlock}

-- A block behind a few bytes, without as many of its first bytes.
stolen-IsBlock :
    (rem : ℕ) (few block : List ℕ)
    → length few ≡ rem
    → rem ≤ 16
    → IsBytes few
    → IsBlock block
    → IsBlock (few ++ drop rem block)
stolen-IsBlock rem few block e l h k = record {
  width = omega (arith, length-append few (drop rem block), length-drop rem block, k.width, e);
  bytes = All-append IsByte few (drop rem block) h (All-drop IsByte rem block k.bytes);
}

module _ ⦃subtle : Subtle⦄ where
  pub encrypt_block-IsInverse : (c : Sm4Cipher) → IsInverse (encrypt_block c) (decrypt_block c)
  encrypt_block-IsInverse c = record {
    undone = λ b h. (decrypt_block-encrypt_block c b h).0;
    block = encrypt_block-IsBlock c;
  }

  pub length-encrypt_steal :
      (c : Sm4Cipher) (t : List ℕ) (rem : ℕ) (input : List ℕ)
      → IsBlock t
      → rem ≤ 16
      → length (encrypt_steal c t rem input) ≡ 16 + rem
  unfolding encrypt_steal
  length-encrypt_steal c t rem input h l =
      let inverse = encrypt_block-IsInverse c in
      let cc = tweaked (encrypt_block c) t (take 16 input) in
      let pp = tweaked (encrypt_block c) (mul_alpha t) (drop 16 input ++ drop rem cc) in
      let wide = (tweaked-IsBlock _ _ t (take 16 input) inverse h).width in
      let wide' =
        (tweaked-IsBlock _ _ (mul_alpha t) (drop 16 input ++ drop rem cc) inverse
          (mul_alpha-IsBlock t h)).width in
      omega (arith, length-append pp (take rem cc), length-take rem cc, wide, wide')

  pub decrypt_steal-encrypt_steal :
      (c : Sm4Cipher) (t : List ℕ) (rem : ℕ) (input : List ℕ)
      → IsBlock t
      → IsBytes input
      → length input ≡ 16 + rem
      → rem ≤ 16
      → decrypt_steal c t rem (encrypt_steal c t rem input) ≡ input
  unfolding encrypt_steal decrypt_steal
  decrypt_steal-encrypt_steal c t rem input h k size l =
      let inverse = encrypt_block-IsInverse c in
      let f = encrypt_block c in
      let g = decrypt_block c in
      let steal = mul_alpha t in
      let steal_block = mul_alpha-IsBlock t h in
      let few = drop 16 input in
      let few_size : length few ≡ rem = omega (arith, length-drop 16 input) in
      let cc = tweaked f t (take 16 input) in
      let cc_block = tweaked-IsBlock f g t (take 16 input) inverse h in
      let stolen = few ++ drop rem cc in
      let stolen_block =
        stolen-IsBlock rem few cc few_size l (All-drop IsByte 16 input k) cc_block in
      let pp = tweaked f steal stolen in
      let wide = (tweaked-IsBlock f g steal stolen inverse steal_block).width in
      let back = tweaked_undone f g steal stolen inverse steal_block stolen_block in
      ap₂ (λ x y. let q = tweaked g steal x in tweaked g t (y ++ drop rem q) ++ take rem q)
        (take_append 16 pp (take rem cc) wide) (drop_append 16 pp (take rem cc) wide)
      ∙ ap (λ q. tweaked g t (take rem cc ++ drop rem q) ++ take rem q) back
      ∙ ap₂ (λ x y. tweaked g t (take rem cc ++ x) ++ y)
          (drop_append rem few (drop rem cc) few_size) (take_append rem few (drop rem cc) few_size)
      ∙ ap (λ x. tweaked g t x ++ few) (take-append-drop rem cc)
      ∙ ap (λ x. x ++ few)
          (tweaked_undone f g t (take 16 input) inverse h (first-IsBlock input k (omega arith)))
      ∙ take-append-drop 16 input
