-- ===== src/Sm4/Ccm.antt =====
-- sm4/mode_ccm.rs: CCM, in one call.
pub mod Tag
pub mod Exact
use gm_crypto_rs.Base.{ℕ, zero, suc, ◌+◌, ◌-◌, ◌*◌, ◌/◌, ◌%◌, ◌^◌, ◌⊕◌, bit_or, ltb, leb, ◌==◌}
use gm_crypto_rs.Base.{
  if◌then◌else◌, Bool, false, not, ◌||◌, List, [], ◌∷◌, ◌++◌, length, get_or, set,
}
use gm_crypto_rs.Base.{take, drop, replicate, to_be, xor_bytes, for_range, Option, none, some}
use gm_crypto_rs.Base.{◌>>=◌, ◌>>◌, guard, Subtle}
use gm_crypto_rs.Base.Chunks.{blocks}
use gm_crypto_rs.Base.Stream.{copy_into}
use gm_crypto_rs.Asn1.Reader.{is_empty}
use gm_crypto_rs.Sm4.Cipher.{Sm4Cipher, new, encrypt_block, encrypt_blocks}
use gm_crypto_rs.Sm4.Ctr.{mask_bytes}

abbrev pub valid_tag_lens : List ℕ
valid_tag_lens = 4 ∷ 6 ∷ 8 ∷ 10 ∷ 12 ∷ 14 ∷ 16 ∷ []

abbrev pub min_nonce_len : ℕ
min_nonce_len = 7

abbrev pub max_nonce_len : ℕ
max_nonce_len = 13

-- `slice.contains(&n)`
abbrev pub contains : List ℕ → ℕ → Bool
contains [] n = false
contains (x ∷ xs) n = (x == n) || contains xs n

unfoldable pub payload_ceiling : ℕ → ℕ
payload_ceiling q = if leb 8 q then 2 ^ 64 - 1 else 2 ^ (8 * q) - 1

-- The source takes the length of the associated data too, and does not use it.
unfoldable pub validate_params : List ℕ → ℕ → ℕ → Option (Unit {0})
validate_params nonce pt_len tag_len = do
  guard (contains valid_tag_lens tag_len)
  guard (not (ltb (length nonce) min_nonce_len || ltb max_nonce_len (length nonce)))
  let q = 15 - length nonce
  guard (leb pt_len (payload_ceiling q))
  some tt

unfoldable pub build_a0 : List ℕ → List ℕ
build_a0 nonce =
    let q = 15 - length nonce in copy_into (set (replicate 16 0) 0 ((q - 1) % 256)) 1 nonce

unfoldable pub counter_block : List ℕ → ℕ → List ℕ
counter_block a0 i =
    let q = get_or a0 0 0 + 1 in
    let counter_start = 16 - q in copy_into a0 counter_start (drop (8 - q) (to_be 8 i))

unfoldable pub build_b0 : List ℕ → ℕ → Bool → ℕ → ℕ → List ℕ
build_b0 nonce pt_len has_aad tag_len q =
    let adata_bit = if has_aad then 0x40 else 0 in
    let t_field = (tag_len - 2) / 2 % 256 * 2 ^ 3 % 256 in
    let q_field = (q - 1) % 256 in
    let flags = bit_or (bit_or adata_bit t_field) q_field in
    let b0 = copy_into (set (replicate 16 0) 0 flags) 1 nonce in
    if leb q 8 then copy_into b0 (16 - q) (drop (8 - q) (to_be 8 (pt_len % 2 ^ 64))) else b0

-- `while !out.len().is_multiple_of(BLOCK_SIZE) { out.push(0); }`; fifteen rounds are enough.
unfoldable pub zero_pad : ℕ → List ℕ → List ℕ
zero_pad zero out = out
zero_pad (suc fuel) out =
    let rest = zero_pad fuel (out ++ (0 ∷ [])) in if length out % 16 == 0 then out else rest

unfoldable pub format_aad_into : List ℕ → List ℕ → List ℕ
unfolding zero_pad
format_aad_into out aad =
    let alen = length aad in
    let header =
      if ltb alen 0xFF00
      then to_be 2 (alen % 2 ^ 16)
      else if leb alen 0xFFFF_FFFF
      then 0xFF ∷ 0xFE ∷ to_be 4 (alen % 2 ^ 32)
      else 0xFF ∷ 0xFF ∷ to_be 8 (alen % 2 ^ 64) in
    zero_pad 15 ((out ++ header) ++ aad)

-- `(j..j + n).map(|i| counter_block(a0, i as u64))`
unfoldable pub counter_stream : List ℕ → ℕ → ℕ → List (List ℕ)
counter_stream a0 j zero = []
counter_stream a0 j (suc n) = counter_block a0 j ∷ counter_stream a0 (suc j) n

-- `tag[i] = s0[i] ^ t[i]` for `i` below the tag's length, and the tag cut to it.
unfoldable pub mask_tag : List ℕ → List ℕ → ℕ → List ℕ
mask_tag s0 t tag_len =
    take tag_len
      (for_range tag_len 0 (λ i tag. set tag i (get_or s0 i 0 ⊕ get_or t i 0)) (replicate 16 0))

module _ ⦃subtle : Subtle⦄ where
  unfoldable pub cbc_mac : Sm4Cipher → List ℕ → List ℕ
  cbc_mac cipher auth =
      (blocks 16 (λ t block. encrypt_block cipher (xor_bytes t block)) (replicate 16 0) auth).0

  unfoldable pub ccm_ctr_xor : Sm4Cipher → List ℕ → List ℕ → List ℕ
  ccm_ctr_xor cipher a0 input =
      let block_count = (length input + 15) / 16 in
      let keystream = encrypt_blocks cipher (counter_stream a0 1 block_count) in
      if is_empty input then [] else mask_bytes keystream 0 input

  -- The authenticated text, its MAC and the masking of the MAC; both directions have these lines.
  unfoldable pub compute_tag : Sm4Cipher → List ℕ → List ℕ → List ℕ → ℕ → List ℕ
  unfolding zero_pad
  compute_tag cipher nonce aad plaintext tag_len =
      let q = 15 - length nonce in
      let b0 = build_b0 nonce (length plaintext) (not (is_empty aad)) tag_len q in
      let auth = if is_empty aad then b0 else format_aad_into b0 aad in
      let t = cbc_mac cipher (zero_pad 15 (auth ++ plaintext)) in
      let s0 = encrypt_block cipher (build_a0 nonce) in mask_tag s0 t tag_len

  unfoldable pub encrypt : List ℕ → List ℕ → List ℕ → List ℕ → ℕ → Option (List ℕ)
  encrypt key nonce aad plaintext tag_len = do
    validate_params nonce (length plaintext) tag_len
    let cipher = new key
    let tag = compute_tag cipher nonce aad plaintext tag_len
    let ct = ccm_ctr_xor cipher (build_a0 nonce) plaintext
    some (ct ++ tag)

  unfoldable pub decrypt_with_cipher :
      Sm4Cipher → List ℕ → List ℕ → List ℕ → List ℕ → Option (List ℕ)
  decrypt_with_cipher cipher nonce aad ct wire_tag = do
    let tag_len = length wire_tag
    validate_params nonce (length ct) tag_len
    let tentative_pt = ccm_ctr_xor cipher (build_a0 nonce) ct
    let expected_tag = compute_tag cipher nonce aad tentative_pt tag_len
    guard (subtle.ct_eq_bytes expected_tag wire_tag)
    some tentative_pt

  unfoldable pub decrypt : List ℕ → List ℕ → List ℕ → List ℕ → ℕ → Option (List ℕ)
  decrypt key nonce aad ciphertext_with_tag tag_len = do
    guard (contains valid_tag_lens tag_len)
    guard (not (ltb (length ciphertext_with_tag) tag_len))
    let split = length ciphertext_with_tag - tag_len
    decrypt_with_cipher (new key) nonce aad (take split ciphertext_with_tag)
        (drop split ciphertext_with_tag)
