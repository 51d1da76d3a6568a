-- ===== src/Sm4/CtrStreaming.antt =====
-- sm4/ctr_streaming.rs: the streaming cipher of counter mode.
pub mod Position
use gm_crypto_rs.Base.{
  ℕ, zero, suc, ◌+◌, ◌-◌, ◌*◌, ◌/◌, ◌⊕◌, ltb, if◌then◌else◌, not, List, [], ◌∷◌, ◌++◌,
}
use gm_crypto_rs.Base.{
  length, get_or, take, drop, replicate, Option, none, some, ◌>>=◌, ◌>>◌, guard, Subtle,
}
use gm_crypto_rs.Sm4.Cipher
use gm_crypto_rs.Sm4.Cipher.{Sm4Cipher, encrypt_block, encrypt_blocks}
use gm_crypto_rs.Sm4.Ctr.{counter_add, counter_blocks}

pub record Sm4CtrCipher : Type 0 where
  pub cipher : Sm4Cipher
  pub counter : List ℕ
  pub leftover : List ℕ
  pub leftover_pos : ℕ

-- `output[i] = input[i] ^ block[lane]`, from `lane` on.
unfoldable pub mask_lanes : List ℕ → ℕ → List ℕ → List ℕ
mask_lanes block lane [] = []
mask_lanes block lane (b ∷ input) = (b ⊕ get_or block lane 0) ∷ mask_lanes block (suc lane) input

-- Step 1: `while i < input.len() && self.leftover_pos < BLOCK_SIZE`. The output, the position
-- after it, and the input that is left.
unfoldable pub drain_leftover : List ℕ → ℕ → List ℕ → List ℕ × ℕ × List ℕ
drain_leftover leftover leftover_pos [] = ([], leftover_pos, [])
drain_leftover leftover leftover_pos (b ∷ input) =
    let (out, pos, rest) = drain_leftover leftover (suc leftover_pos) input in
    if◌then◌else◌ {A = List ℕ × ℕ × List ℕ} (ltb leftover_pos 16)
      ((b ⊕ get_or leftover leftover_pos 0) ∷ out, pos, rest) ([], leftover_pos, b ∷ input)

-- Step 2: each block of the keystream masks sixteen bytes of the input.
unfoldable pub mask_blocks : List (List ℕ) → List ℕ → List ℕ
mask_blocks [] input = []
mask_blocks (ks ∷ keystream) input =
    mask_lanes ks 0 (take 16 input) ++ mask_blocks keystream (drop 16 input)

module _ ⦃subtle : Subtle⦄ where
  unfoldable pub new : List ℕ → List ℕ → Sm4CtrCipher
  new key counter = record {
    cipher = Cipher.new key;
    counter = counter;
    leftover = replicate 16 0;
    leftover_pos = 16;
  }

  -- Step 2 on what is left after step 1, with the input that is left after it.
  unfoldable pub full_blocks : Sm4CtrCipher → List ℕ → Sm4CtrCipher × List ℕ × List ℕ
  full_blocks c input =
      let full = length input / 16 in
      let keystream = encrypt_blocks c.cipher (counter_blocks c.counter 0 full) in
      if◌then◌else◌ {A = Sm4CtrCipher × List ℕ × List ℕ} (ltb 0 full)
        (
          record c { counter = counter_add c.counter full },
          mask_blocks keystream input,
          drop (full * 16) input,
        )
        (c, [], input)

  -- Step 3: the tail, shorter than a block.
  unfoldable pub tail : Sm4CtrCipher → List ℕ → Sm4CtrCipher × List ℕ
  tail c [] = (c, [])
  tail c (b ∷ input) =
      let leftover = encrypt_block c.cipher c.counter in
      (
        record c {
          leftover = leftover;
          counter = counter_add c.counter 1;
          leftover_pos = length (b ∷ input);
        },
        mask_lanes leftover 0 (b ∷ input),
      )

  -- The cipher and the output buffer after the call; `none` is the panic on a short buffer.
  unfoldable pub update : Sm4CtrCipher → List ℕ → List ℕ → Option (Sm4CtrCipher × List ℕ)
  update c input output = do
    guard (not (ltb (length output) (length input)))
    let (out1, pos, rest1) = drain_leftover c.leftover c.leftover_pos input
    let (c2, out2, rest2) = full_blocks (record c { leftover_pos = pos }) rest1
    let (c3, out3) = tail c2 rest2
    some (c3, (out1 ++ (out2 ++ out3)) ++ drop (length input) output)
