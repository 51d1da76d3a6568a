-- ===== src/Sm4/CcmStreaming/Encryptor/Prefix.antt =====
-- What comes before the text in the CBC-MAC of sm4/mode_ccm.rs: whole blocks.
use gm_crypto_rs.Base.{ℕ, ◌+◌, ◌-◌, ◌%◌, ◌^◌, ◌≤◌, ltb, leb, if◌then◌else◌, Bool, true, false, not}
use gm_crypto_rs.Base.{List, [], ◌∷◌, ◌++◌, length, set, take, drop, replicate, to_be, Subtle}
use gm_crypto_rs.Base.{
  ◌≡◌, ◌∙◌, inl, inr, arith, Bool-cases, length-append, length-take, length-drop, length-to_be,
}
use gm_crypto_rs.Base.Stream.{copy_into}
use gm_crypto_rs.Asn1.Reader.{is_empty}
use gm_crypto_rs.Sm4.Ccm.{build_b0, zero_pad, format_aad_into}
use gm_crypto_rs.Sm4.Ccm.Tag.{zero_pad_whole}

length-copy_into :
    (array : List ℕ) (i : ℕ) (xs : List ℕ)
    → i + length xs ≤ length array
    → length (copy_into array i xs) ≡ length array
length-copy_into array i xs h =
    let rest = drop (i + length xs) array in
    omega (
      arith,
      length-append (take i array) (xs ++ rest),
      length-append xs rest,
      length-take i array,
      length-drop (i + length xs) array,
    )

-- The block of the flags and the nonce, with or without a field in it.
shaped_length :
    (nonce : List ℕ) (i : ℕ) (field : List ℕ) (wide : Bool) (flags : ℕ)
    → length nonce ≤ 13
    → i + length field ≤ 16
    → length (
        if wide
        then copy_into (copy_into (set (replicate 16 0) 0 flags) 1 nonce) i field
        else copy_into (set (replicate 16 0) 0 flags) 1 nonce)
      ≡ 16
shaped_length nonce i field wide flags h l =
    let b0 = copy_into (set (replicate 16 0) 0 flags) 1 nonce in
    let size : length b0 ≡ 16 =
      length-copy_into (set (replicate 16 0) 0 flags) 1 nonce (omega arith) in
    elim (Bool-cases wide) [
      | inl yes_wide ↦ rw yes_wide (length-copy_into b0 i field (omega arith) ∙ size)
      | inr narrow ↦ rw narrow size
    ]

length-build_b0 :
    (nonce : List ℕ) (pt_len : ℕ) (has_aad : Bool) (tag_len : ℕ)
    → 7 ≤ length nonce
    → length nonce ≤ 13
    → length (build_b0 nonce pt_len has_aad tag_len (15 - length nonce)) ≡ 16
unfolding build_b0
length-build_b0 nonce pt_len has_aad tag_len lo hi =
    let q = 15 - length nonce in
    let field = drop (8 - q) (to_be 8 (pt_len % 2 ^ 64)) in
    let size : length field ≡ q =
      omega (
        arith,
        length-drop (8 - q) (to_be 8 (pt_len % 2 ^ 64)),
        length-to_be 8 (pt_len % 2 ^ 64),
      ) in
    shaped_length nonce (16 - q) field (leb q 8) _ hi (omega arith)

padded_whole : (out : List ℕ) → length (zero_pad 15 out) % 16 ≡ 0
padded_whole out = zero_pad_whole 15 out (omega arith)

format_aad_into_whole : (out aad : List ℕ) → length (format_aad_into out aad) % 16 ≡ 0
unfolding format_aad_into
format_aad_into_whole out aad =
    let alen = length aad in
    let header =
      if ltb alen 0xFF00
      then to_be 2 (alen % 2 ^ 16)
      else if leb alen 0xFFFF_FFFF
      then 0xFF ∷ 0xFE ∷ to_be 4 (alen % 2 ^ 32)
      else 0xFF ∷ 0xFF ∷ to_be 8 (alen % 2 ^ 64) in
    padded_whole ((out ++ header) ++ aad)

module _ ⦃subtle : Subtle⦄ where
  -- The first block and the associated data.
  abbrev pub prefix : List ℕ → List ℕ → ℕ → ℕ → List ℕ
  prefix nonce aad pt_len tag_len =
      let b0 = build_b0 nonce pt_len (not (is_empty aad)) tag_len (15 - length nonce) in
      if is_empty aad then b0 else format_aad_into b0 aad

  pub length-prefix :
      (nonce aad : List ℕ) (pt_len tag_len : ℕ)
      → 7 ≤ length nonce
      → length nonce ≤ 13
      → length (prefix nonce aad pt_len tag_len) % 16 ≡ 0
  length-prefix nonce [] pt_len tag_len lo hi =
      let size = length-build_b0 nonce pt_len false tag_len lo hi in omega (arith, size)
  length-prefix nonce (a ∷ aad) pt_len tag_len lo hi =
      format_aad_into_whole (build_b0 nonce pt_len true tag_len (15 - length nonce)) (a ∷ aad)
