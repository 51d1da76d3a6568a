-- ===== src/Sm4/CcmStreaming/Encryptor.antt =====
-- sm4/ccm_streaming.rs: the encryptor of CCM, which commits to the length of the plaintext.
pub mod Position
pub mod OneShot
pub mod Fed
pub mod Prefix
pub mod Pieces
pub mod Commitment
pub mod Mac
use gm_crypto_rs.Base.{ℕ, zero, suc, ◌+◌, ◌-◌, ◌*◌, ◌/◌, ◌%◌, ◌^◌, ◌⊕◌, ltb, leb, ◌==◌}
use gm_crypto_rs.Base.{
  if◌then◌else◌, Bool, true, false, not, ◌&&◌, ◌||◌, List, [], ◌∷◌, ◌++◌, length, get_or, set, take,
  drop, replicate, xor_bytes,
}
use gm_crypto_rs.Base.{Option, none, some, ◌>>=◌, ◌>>◌, guard, Subtle}
use gm_crypto_rs.Base.Chunks.{blocks}
use gm_crypto_rs.Asn1.Reader.{is_empty}
use gm_crypto_rs.Sm4.Cipher
use gm_crypto_rs.Sm4.Cipher.{Sm4Cipher, encrypt_block, encrypt_blocks}
use gm_crypto_rs.Sm4.CtrStreaming.{mask_lanes, drain_leftover, mask_blocks}
use gm_crypto_rs.Sm4.Ccm.{
  validate_params, build_a0, build_b0, counter_block, format_aad_into, cbc_mac,
}

pub record Sm4CcmEncryptor : Type 0 where
  pub cipher : Sm4Cipher
  pub a0 : List ℕ
  pub mac : List ℕ
  pub mac_block : List ℕ
  pub mac_block_len : ℕ
  pub ks : List ℕ
  pub ks_pos : ℕ
  pub next_block : ℕ
  pub declared_len : ℕ
  pub fed_len : ℕ
  pub tag_len : ℕ
  pub poisoned : Bool

-- `(0..whole).map(|k| counter_block(&self.a0, first + k))`, from `k` on.
unfoldable pub counters : List ℕ → ℕ → ℕ → ℕ → List (List ℕ)
counters a0 first k zero = []
counters a0 first k (suc whole) =
    counter_block a0 ((first + k) % 2 ^ 64) ∷ counters a0 first (suc k) whole

-- `s0.iter().zip(&self.mac).take(self.tag_len).map(|(s, t)| s ^ t)`; both have sixteen bytes.
unfoldable pub tag_bytes : List ℕ → List ℕ → ℕ → List ℕ
tag_bytes s0 mac tag_len = take tag_len (xor_bytes s0 mac)

-- `checked_add` on `u64`, then the comparison with the committed length.
unfoldable pub within_commitment : Sm4CcmEncryptor → List ℕ → Bool
within_commitment e chunk =
    let new_len = e.fed_len + length chunk in leb new_len (2 ^ 64 - 1) && leb new_len e.declared_len

module _ ⦃subtle : Subtle⦄ where
  unfoldable pub new : List ℕ → List ℕ → List ℕ → ℕ → ℕ → Option Sm4CcmEncryptor
  new key nonce aad plaintext_len tag_len = do
    validate_params nonce plaintext_len tag_len
    let cipher = Cipher.new key
    let q = 15 - length nonce
    let b0 = build_b0 nonce plaintext_len (not (is_empty aad)) tag_len q
    let prefix = if is_empty aad then b0 else format_aad_into b0 aad
    some (record {
      cipher = cipher;
      a0 = build_a0 nonce;
      mac = cbc_mac cipher prefix;
      mac_block = replicate 16 0;
      mac_block_len = 0;
      ks = replicate 16 0;
      ks_pos = 16;
      next_block = 1;
      declared_len = plaintext_len;
      fed_len = 0;
      tag_len = tag_len;
      poisoned = false;
    })

  unfoldable pub mac_fold : Sm4CcmEncryptor → Sm4CcmEncryptor
  mac_fold e = record e {
    mac = encrypt_block e.cipher (xor_bytes e.mac e.mac_block);
    mac_block = replicate 16 0;
    mac_block_len = 0;
  }

  unfoldable pub mac_absorb : Sm4CcmEncryptor → List ℕ → Sm4CcmEncryptor
  mac_absorb e [] = e
  mac_absorb e (b ∷ input) =
      let e' : Sm4CcmEncryptor = record e {
        mac_block = set e.mac_block e.mac_block_len b;
        mac_block_len = e.mac_block_len + 1;
      } in
      mac_absorb (if e'.mac_block_len == 16 then mac_fold e' else e') input

  -- Step 2: the whole blocks, with the input that is left after them.
  unfoldable pub whole_blocks : Sm4CcmEncryptor → List ℕ → Sm4CcmEncryptor × List ℕ × List ℕ
  whole_blocks e input =
      let whole = length input / 16 in
      let blocks = encrypt_blocks e.cipher (counters e.a0 e.next_block 0 whole) in
      if◌then◌else◌ {A = Sm4CcmEncryptor × List ℕ × List ℕ} (ltb 0 whole)
        (
          record e { next_block = (e.next_block + whole) % 2 ^ 64 },
          mask_blocks blocks input,
          drop (whole * 16) input,
        )
        (e, [], input)

  -- Step 3: the tail, shorter than a block.
  unfoldable pub last_bytes : Sm4CcmEncryptor → List ℕ → Sm4CcmEncryptor × List ℕ
  last_bytes e [] = (e, [])
  last_bytes e (b ∷ input) =
      let ks = encrypt_block e.cipher (counter_block e.a0 e.next_block) in
      (
        record e { ks = ks; ks_pos = length (b ∷ input); next_block = (e.next_block + 1) % 2 ^ 64 },
        mask_lanes ks 0 (b ∷ input),
      )

  -- The three steps.
  unfoldable pub mask_chunk : Sm4CcmEncryptor → List ℕ → Sm4CcmEncryptor × List ℕ
  mask_chunk e chunk =
      let (out1, pos, rest1) = drain_leftover e.ks e.ks_pos chunk in
      let (e2, out2, rest2) = whole_blocks (record e { ks_pos = pos }) rest1 in
      let (e3, out3) = last_bytes e2 rest2 in (e3, out1 ++ (out2 ++ out3))

  -- Steps 1 to 4.
  unfoldable pub fed : Sm4CcmEncryptor → List ℕ → Sm4CcmEncryptor × Option (List ℕ)
  fed e chunk =
      let (masked, out) = mask_chunk e chunk in
      let absorbed = mac_absorb masked chunk in
      (record absorbed { fed_len = e.fed_len + length chunk }, some out)

  unfoldable pub update : Sm4CcmEncryptor → List ℕ → Sm4CcmEncryptor × Option (List ℕ)
  update e chunk =
      if e.poisoned
      then (e, none)
      else if within_commitment e chunk
      then fed e chunk
      else (record e { poisoned = true }, none)

  unfoldable pub finalize : Sm4CcmEncryptor → Option (List ℕ)
  finalize e = do
    guard (not (e.poisoned || not (e.fed_len == e.declared_len)))
    let folded = if e.mac_block_len == 0 then e else mac_fold e
    let s0 = encrypt_block folded.cipher folded.a0
    some (tag_bytes s0 folded.mac folded.tag_len)
