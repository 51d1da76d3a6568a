-- ===== src/Sm4/Cipher.antt =====
-- sm4/cipher.rs: the SM4 block cipher, with the default features (the scanning S-box, no SIMD).
-- The words of a state are kept in a record; a block is a list of 16 bytes.
mod Tables
pub mod Rounds
pub mod Inverse
unfoldable pub use Tables.{s_box, fk, ck}
use gm_crypto_rs.Base.{ℕ, ◌+◌, ◌-◌, ◌*◌, ◌%◌, if◌then◌else◌, Bool, true, false}
use gm_crypto_rs.Base.{List, [], ◌∷◌, ◌++◌, get_or, set, take, drop, replicate, map, for_range}
use gm_crypto_rs.Base.{Subtle, ◌⊕◌, rotate_left, from_be, to_be}

abbrev pub block_size : ℕ
block_size = 16

abbrev pub key_size : ℕ
key_size = 16

-- Four words, `[u32; 4]`.
pub record Quad : Type 0 where
  pub w0 : ℕ
  pub w1 : ℕ
  pub w2 : ℕ
  pub w3 : ℕ

-- The word of the four bytes from `i` on.
abbrev pub word_at : List ℕ → ℕ → ℕ
word_at bytes i = from_be (take 4 (drop i bytes))

abbrev pub load_words : List ℕ → Quad
load_words bytes = record {
  w0 = word_at bytes 0;
  w1 = word_at bytes 4;
  w2 = word_at bytes 8;
  w3 = word_at bytes 12;
}

-- The window moves on by the new word.
abbrev pub slide : Quad → ℕ → Quad
slide x new_x = record { w0 = x.w1; w1 = x.w2; w2 = x.w3; w3 = new_x }

pub record Sm4Cipher : Type 0 where
  pub round_keys : List ℕ

-- The loop of the key schedule over `k` and the array that it fills.
abbrev pub KeyState : Type 0
KeyState = Quad × List ℕ

unfoldable pub l_round : ℕ → ℕ
l_round b = b ⊕ rotate_left b 2 ⊕ rotate_left b 10 ⊕ rotate_left b 18 ⊕ rotate_left b 24

unfoldable pub l_prime : ℕ → ℕ
l_prime b = b ⊕ rotate_left b 13 ⊕ rotate_left b 23

unfoldable pub round_key : List ℕ → Bool → ℕ → ℕ
round_key rk reverse i = if reverse then get_or rk (31 - i) 0 else get_or rk i 0

-- The output is (X35, X34, X33, X32).
abbrev pub store_reversed : Quad → List ℕ
store_reversed x = to_be 4 x.w3 ++ (to_be 4 x.w2 ++ (to_be 4 x.w1 ++ to_be 4 x.w0))

module _ ⦃subtle : Subtle⦄ where
  open subtle use {ct_eq, conditional_select}

  -- The linear scan: every entry is read, and the one at `x` is kept.
  unfoldable pub sbox_ct : ℕ → ℕ
  sbox_ct x =
      for_range 256 0 (λ i result. conditional_select result (get_or s_box i 0) (ct_eq (i % 256) x))
        0

  unfoldable pub tau : ℕ → ℕ
  tau a = from_be (map sbox_ct (to_be 4 a))

  unfoldable pub t_round : ℕ → ℕ
  t_round x = l_round (tau x)

  unfoldable pub t_prime : ℕ → ℕ
  t_prime x = l_prime (tau x)

  unfoldable pub key_round : ℕ → KeyState → KeyState
  key_round i (k, round_keys) =
      let new_k = k.w0 ⊕ t_prime (k.w1 ⊕ k.w2 ⊕ k.w3 ⊕ ck i) in
      (slide k new_k, set round_keys i new_k)

  unfoldable pub new : List ℕ → Sm4Cipher
  new key =
      let mk = load_words key in
      let k : Quad = record {
        w0 = mk.w0 ⊕ get_or fk 0 0;
        w1 = mk.w1 ⊕ get_or fk 1 0;
        w2 = mk.w2 ⊕ get_or fk 2 0;
        w3 = mk.w3 ⊕ get_or fk 3 0;
      } in
      record { round_keys = (for_range 32 0 key_round (k, replicate 32 0)).1 }

  -- One round of `crypt` under the round key `rki`.
  unfoldable pub crypt_round : ℕ → Quad → Quad
  crypt_round rki x = slide x (x.w0 ⊕ t_round (x.w1 ⊕ x.w2 ⊕ x.w3 ⊕ rki))

  unfoldable pub crypt : List ℕ → List ℕ → Bool → List ℕ
  crypt block rk reverse =
      store_reversed
        (for_range 32 0 (λ i x. crypt_round (round_key rk reverse i) x) (load_words block))

  unfoldable pub encrypt_block : Sm4Cipher → List ℕ → List ℕ
  encrypt_block cipher block = crypt block cipher.round_keys false

  unfoldable pub decrypt_block : Sm4Cipher → List ℕ → List ℕ
  decrypt_block cipher block = crypt block cipher.round_keys true

  unfoldable pub encrypt_blocks : Sm4Cipher → List (List ℕ) → List (List ℕ)
  encrypt_blocks cipher blocks = map (encrypt_block cipher) blocks

  unfoldable pub decrypt_blocks : Sm4Cipher → List (List ℕ) → List (List ℕ)
  decrypt_blocks cipher blocks = map (decrypt_block cipher) blocks
