-- ===== src/Sm4/Cipher/Inverse.antt =====
-- sm4/cipher.rs: decryption against encryption.
use gm_crypto_rs.Base.{ℕ, zero, suc, ◌+◌, ◌-◌, ◌≤◌, Bool, true, false, not}
use gm_crypto_rs.Base.{List, ◌++◌, length, take, drop, ◌≡◌, refl, sym, ap, ap₂, ◌∙◌}
use gm_crypto_rs.Base.{arith, for_range, for_range_last, for_range_inv, to_be, IsByte, IsBytes}
use gm_crypto_rs.Base.{Subtle, IsU32, from_be-lt, from_be-to_be}
use gm_crypto_rs.Base.{to_be-from_be, All-take, All-drop, length-take, length-drop}
use gm_crypto_rs.Base.{take_all, take-append-drop, drop-drop}
use gm_crypto_rs.Sm4.Cipher.{
  Quad, word_at, load_words, crypt_round, round_key, store_reversed, crypt, Sm4Cipher,
  encrypt_block, decrypt_block,
}
use gm_crypto_rs.Sm4.Cipher.Rounds.{IsQuad, flip, crypt_round-IsQuad, crypt_round-flip}

pub record IsBlock (block : List ℕ) : Type 0 where
  pub width : length block ≡ 16
  pub bytes : IsBytes block

-- The other direction uses the round keys backwards.
round_key_reverse :
    (rk : List ℕ) (reverse : Bool) (i n : ℕ)
    → i + n ≡ 31
    → round_key rk (not reverse) i ≡ round_key rk reverse n
unfolding round_key
round_key_reverse rk true i n e = let same : i ≡ 31 - n = omega arith in rw same
round_key_reverse rk false i n e = let same : 31 - i ≡ n = omega arith in rw same

word_at-IsU32 : (block : List ℕ) (i : ℕ) → IsBlock block → i ≤ 12 → IsU32 (word_at block i)
word_at-IsU32 block i h le =
    from_be-lt 4 (take 4 (drop i block))
      (All-take IsByte 4 (drop i block) (All-drop IsByte i block h.bytes))
      (omega (arith, length-take 4 (drop i block), length-drop i block, h.width))

load_words-IsQuad : (block : List ℕ) → IsBlock block → IsQuad (load_words block)
load_words-IsQuad block h = record {
  u0 = word_at-IsU32 block 0 h (omega arith);
  u1 = word_at-IsU32 block 4 h (omega arith);
  u2 = word_at-IsU32 block 8 h (omega arith);
  u3 = word_at-IsU32 block 12 h (omega arith);
}

pub store_reversed-IsBlock : (x : Quad) → IsBlock (store_reversed x)
unfolding to_be
store_reversed-IsBlock x = record { width = refl; bytes = omega arith }

-- Words that were stored are loaded in the reverse order.
load-store : (x : Quad) → IsQuad x → load_words (store_reversed x) ≡ flip x
unfolding to_be
load-store x h = λ i. record {
  w0 = from_be-to_be 4 x.w3 h.u3 i;
  w1 = from_be-to_be 4 x.w2 h.u2 i;
  w2 = from_be-to_be 4 x.w1 h.u1 i;
  w3 = from_be-to_be 4 x.w0 h.u0 i;
}

-- The four bytes from `i` on.
abbrev quarter : List ℕ → ℕ → List ℕ
quarter block i = take 4 (drop i block)

quarter-word_at :
    (block : List ℕ) (i : ℕ) → IsBlock block → i ≤ 12 → to_be 4 (word_at block i) ≡ quarter block i
quarter-word_at block i h le =
    to_be-from_be 4 (quarter block i)
      (All-take IsByte 4 (drop i block) (All-drop IsByte i block h.bytes))
      (omega (arith, length-take 4 (drop i block), length-drop i block, h.width))

join_quarters :
    (block : List ℕ)
    → length block ≡ 16
    → quarter block 0 ++ (quarter block 4 ++ (quarter block 8 ++ quarter block 12)) ≡ block
join_quarters block h =
    ap (λ t. quarter block 0 ++ (quarter block 4 ++ (quarter block 8 ++ t)))
      (take_all 4 (drop 12 block) (omega (arith, length-drop 12 block)))
    ∙ ap (λ t. quarter block 0 ++ (quarter block 4 ++ (quarter block 8 ++ t)))
        (sym (drop-drop 4 8 block))
    ∙ ap (λ t. quarter block 0 ++ (quarter block 4 ++ t)) (take-append-drop 4 (drop 8 block))
    ∙ ap (λ t. quarter block 0 ++ (quarter block 4 ++ t)) (sym (drop-drop 4 4 block))
    ∙ ap (λ t. quarter block 0 ++ t) (take-append-drop 4 (drop 4 block))
    ∙ take-append-drop 4 block

-- A block is written back from its words.
store-load : (block : List ℕ) → IsBlock block → store_reversed (flip (load_words block)) ≡ block
store-load block h =
    ap₂ (λ a b. a ++ b) (quarter-word_at block 0 h (omega arith))
      (ap₂ (λ a b. a ++ b) (quarter-word_at block 4 h (omega arith))
        (ap₂ (λ a b. a ++ b) (quarter-word_at block 8 h (omega arith))
          (quarter-word_at block 12 h (omega arith))))
    ∙ join_quarters block h.width

module _ ⦃subtle : Subtle⦄ where
  -- The rounds of one direction.
  abbrev rounds : List ℕ → Bool → ℕ → ℕ → Quad → Quad
  rounds rk reverse n i x = for_range n i (λ j y. crypt_round (round_key rk reverse j) y) x

  -- The first round of one direction takes the last round of the other back.
  round-flip :
      (rk : List ℕ) (reverse : Bool) (n i : ℕ) (x : Quad)
      → i + n ≡ 31
      → crypt_round (round_key rk (not reverse) i) (flip (rounds rk reverse (suc n) 0 x))
        ≡ flip (rounds rk reverse n 0 x)
  round-flip rk reverse n i x e =
      ap₂ (λ k y. crypt_round k (flip y)) (round_key_reverse rk reverse i n e)
        (for_range_last (λ j y. crypt_round (round_key rk reverse j) y) n 0 n x (omega arith))
      ∙ crypt_round-flip (round_key rk reverse n) (rounds rk reverse n 0 x)

  rounds_first :
      (rk : List ℕ) (reverse : Bool) (n i : ℕ) (x : Quad)
      → rounds rk reverse (suc n) i x
        ≡ rounds rk reverse n (i + 1) (crypt_round (round_key rk reverse i) x)
  unfolding for_range
  rounds_first rk reverse n i x = refl

  rounds_none : (rk : List ℕ) (reverse : Bool) (i : ℕ) (x : Quad) → rounds rk reverse 0 i x ≡ x
  unfolding for_range
  rounds_none rk reverse i x = refl

  -- The rounds of one direction take those of the other back, the last first.
  rounds-flip :
      (rk : List ℕ) (reverse : Bool) (n i : ℕ) (x : Quad)
      → i + n ≡ 32
      → rounds rk (not reverse) n i (flip (rounds rk reverse n 0 x)) ≡ flip x
  rounds-flip rk reverse zero i x e =
      rounds_none rk (not reverse) i (flip (rounds rk reverse 0 0 x))
      ∙ ap flip (rounds_none rk reverse 0 x)
  rounds-flip rk reverse (suc n) i x e =
      rounds_first rk (not reverse) n i (flip (rounds rk reverse (suc n) 0 x))
      ∙ ap (rounds rk (not reverse) n (i + 1)) (round-flip rk reverse n i x (omega arith))
      ∙ rounds-flip rk reverse n (i + 1) x (omega arith)

  rounds-IsQuad :
      (rk : List ℕ) (reverse : Bool) (n i : ℕ) (x : Quad)
      → IsQuad x
      → IsQuad (rounds rk reverse n i x)
  rounds-IsQuad rk reverse n i x h =
      for_range_inv _ IsQuad (λ j y k. crypt_round-IsQuad (round_key rk reverse j) y k) n i x h

  -- The output of either direction is a block.
  pub crypt-IsBlock : (block rk : List ℕ) (reverse : Bool) → IsBlock (crypt block rk reverse)
  unfolding crypt
  crypt-IsBlock block rk reverse =
      store_reversed-IsBlock (rounds rk reverse 32 0 (load_words block))

  -- Each direction takes the other back.
  crypt-crypt :
      (block rk : List ℕ) (reverse : Bool)
      → IsBlock block
      → crypt (crypt block rk reverse) rk (not reverse) ≡ block
  unfolding crypt
  crypt-crypt block rk reverse h =
      let x = load_words block in
      let ends : IsQuad (rounds rk reverse 32 0 x) =
        rounds-IsQuad rk reverse 32 0 x (load_words-IsQuad block h) in
      ap (λ y. store_reversed (rounds rk (not reverse) 32 0 y))
        (load-store (rounds rk reverse 32 0 x) ends)
      ∙ ap store_reversed (rounds-flip rk reverse 32 0 x refl)
      ∙ store-load block h

  pub encrypt_block-IsBlock :
      (cipher : Sm4Cipher) (block : List ℕ) → IsBlock (encrypt_block cipher block)
  unfolding encrypt_block
  encrypt_block-IsBlock cipher block = crypt-IsBlock block cipher.round_keys false

  pub decrypt_block-IsBlock :
      (cipher : Sm4Cipher) (block : List ℕ) → IsBlock (decrypt_block cipher block)
  unfolding decrypt_block
  decrypt_block-IsBlock cipher block = crypt-IsBlock block cipher.round_keys true

  -- Whatever the round keys are, on every block of 16 bytes `decrypt_block` undoes
  -- `encrypt_block` and `encrypt_block` undoes `decrypt_block`, and both return 16 bytes.
  pub decrypt_block-encrypt_block :
      (cipher : Sm4Cipher) (block : List ℕ)
      → IsBlock block
      → (decrypt_block cipher (encrypt_block cipher block) ≡ block)
        × (encrypt_block cipher (decrypt_block cipher block) ≡ block)
        × IsBlock (encrypt_block cipher block)
        × IsBlock (decrypt_block cipher block)
  unfolding encrypt_block decrypt_block
  decrypt_block-encrypt_block cipher block h = (
    crypt-crypt block cipher.round_keys false h,
    crypt-crypt block cipher.round_keys true h,
    encrypt_block-IsBlock cipher block,
    decrypt_block-IsBlock cipher block,
  )
