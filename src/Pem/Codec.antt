-- ===== src/Pem/Codec.antt =====
-- Base64 (pem.rs): the encoder, and the decoder on what it returns.
use gm_crypto_rs.Base.{ℕ, suc, ◌+◌, ◌-◌, ◌*◌, ◌/◌, ◌%◌, ◌^◌, ◌<◌, ◌≤◌, bit_and, bit_or, leb, ◌==◌}
use gm_crypto_rs.Base.{true, false, not, List, [], ◌∷◌, length}
use gm_crypto_rs.Base.{some, IsBytes, or_fields, ==_iff}
use gm_crypto_rs.Base.{◌≡◌, refl, ap, ◌∙◌, arith}
use gm_crypto_rs.Asn1.Reader.{is_empty}
use gm_crypto_rs.Pem.{
  letter, pad_char, shl, shr, base64_encode, ends_with, pad_count, group_char, decode_group,
  decode_groups, base64_decode,
}
use gm_crypto_rs.Pem.Alphabet.{base64_lookup-letter, mask_3, mask_15, mask_63, letter-not_pad}

-- Two fields of a byte put together.
pub or_2 : (x r : ℕ) → r < 4 → bit_or (shl x 2) r ≡ x % 64 * 4 + r
or_2 x r l =
    let field : shl x 2 ≡ x % 64 * 2 ^ 2 = omega arith in
    ap (λ t. bit_or t r) field ∙ or_fields 2 (x % 64) r l

pub or_4 : (x r : ℕ) → r < 16 → bit_or (shl x 4) r ≡ x % 16 * 16 + r
or_4 x r l =
    let field : shl x 4 ≡ x % 16 * 2 ^ 4 = omega arith in
    ap (λ t. bit_or t r) field ∙ or_fields 4 (x % 16) r l

pub or_6 : (x r : ℕ) → r < 64 → bit_or (shl x 6) r ≡ x % 4 * 64 + r
or_6 x r l =
    let field : shl x 6 ≡ x % 4 * 2 ^ 6 = omega arith in
    ap (λ t. bit_or t r) field ∙ or_fields 6 (x % 4) r l

-- The second and the third sextet of the encoder.
sextet_1 :
    (b0 b1 : ℕ)
    → b0 < 256
    → b1 < 256
    → bit_or (shl (bit_and b0 0x03) 4) (shr b1 4) ≡ b0 % 4 * 16 + b1 / 16
sextet_1 b0 b1 h0 h1 =
    ap (λ t. bit_or (shl t 4) (shr b1 4)) (mask_3 b0 h0)
    ∙ or_4 (b0 % 4) (shr b1 4) (omega arith)
    ∙ omega arith

sextet_2 :
    (b1 b2 : ℕ)
    → b1 < 256
    → b2 < 256
    → bit_or (shl (bit_and b1 0x0F) 2) (shr b2 6) ≡ b1 % 16 * 4 + b2 / 64
sextet_2 b1 b2 h1 h2 =
    ap (λ t. bit_or (shl t 2) (shr b2 6)) (mask_15 b1 h1)
    ∙ or_2 (b1 % 16) (shr b2 6) (omega arith)
    ∙ omega arith

-- The bytes of the decoder from these sextets.
join_0 :
    (b0 b1 : ℕ) → b0 < 256 → b1 < 256 → bit_or (shl (b0 / 4) 2) (shr (b0 % 4 * 16 + b1 / 16) 4) ≡ b0
join_0 b0 b1 h0 h1 = or_2 (b0 / 4) (shr (b0 % 4 * 16 + b1 / 16) 4) (omega arith) ∙ omega arith

join_1 :
    (b0 b1 b2 : ℕ)
    → b1 < 256
    → b2 < 256
    → bit_or (shl (b0 % 4 * 16 + b1 / 16) 4) (shr (b1 % 16 * 4 + b2 / 64) 2) ≡ b1
join_1 b0 b1 b2 h1 h2 =
    or_4 (b0 % 4 * 16 + b1 / 16) (shr (b1 % 16 * 4 + b2 / 64) 2) (omega arith) ∙ omega arith

join_2 : (b1 b2 : ℕ) → b2 < 256 → bit_or (shl (b1 % 16 * 4 + b2 / 64) 6) (b2 % 64) ≡ b2
join_2 b1 b2 h2 = or_6 (b1 % 16 * 4 + b2 / 64) (b2 % 64) (omega arith) ∙ omega arith

-- A whole group inside the text, and at its end.
decode_group-inner :
    (pad b0 b1 b2 : ℕ)
    → b0 < 256
    → b1 < 256
    → b2 < 256
    → decode_group false pad
        (letter (b0 / 4))
        (letter (b0 % 4 * 16 + b1 / 16))
        (letter (b1 % 16 * 4 + b2 / 64))
        (letter (b2 % 64))
      ≡ some (b0 ∷ b1 ∷ b2 ∷ [])
unfolding decode_group group_char
decode_group-inner pad b0 b1 b2 h0 h1 h2 =
    rw
      (
        base64_lookup-letter (b0 / 4) (omega arith),
        base64_lookup-letter (b0 % 4 * 16 + b1 / 16) (omega arith),
        base64_lookup-letter (b1 % 16 * 4 + b2 / 64) (omega arith),
        base64_lookup-letter (b2 % 64) (omega arith),
        join_0 b0 b1 h0 h1,
        join_1 b0 b1 b2 h1 h2,
        join_2 b1 b2 h2,
      )
      refl

decode_group-whole :
    (b0 b1 b2 : ℕ)
    → b0 < 256
    → b1 < 256
    → b2 < 256
    → decode_group true 0
        (letter (b0 / 4))
        (letter (b0 % 4 * 16 + b1 / 16))
        (letter (b1 % 16 * 4 + b2 / 64))
        (letter (b2 % 64))
      ≡ some (b0 ∷ b1 ∷ b2 ∷ [])
unfolding decode_group group_char
decode_group-whole b0 b1 b2 h0 h1 h2 =
    rw
      (
        base64_lookup-letter (b0 / 4) (omega arith),
        base64_lookup-letter (b0 % 4 * 16 + b1 / 16) (omega arith),
        base64_lookup-letter (b1 % 16 * 4 + b2 / 64) (omega arith),
        base64_lookup-letter (b2 % 64) (omega arith),
        join_0 b0 b1 h0 h1,
        join_1 b0 b1 b2 h1 h2,
        join_2 b1 b2 h2,
      )
      refl

-- The last group of two bytes, and of one.
decode_group-two :
    (b0 b1 : ℕ)
    → b0 < 256
    → b1 < 256
    → decode_group true 1
        (letter (b0 / 4))
        (letter (b0 % 4 * 16 + b1 / 16))
        (letter (b1 % 16 * 4))
        pad_char
      ≡ some (b0 ∷ b1 ∷ [])
unfolding decode_group group_char
decode_group-two b0 b1 h0 h1 =
    let clear : bit_and (b1 % 16 * 4) 0x03 ≡ 0 = mask_3 (b1 % 16 * 4) (omega arith) ∙ omega arith in
    let third : b1 % 16 * 4 ≡ b1 % 16 * 4 + 0 / 64 = omega arith in
    let joined : bit_or (shl (b0 % 4 * 16 + b1 / 16) 4) (shr (b1 % 16 * 4) 2) ≡ b1 =
      ap (λ t. bit_or (shl (b0 % 4 * 16 + b1 / 16) 4) (shr t 2)) third
      ∙ join_1 b0 b1 0 h1 (omega arith) in
    rw
      (
        base64_lookup-letter (b0 / 4) (omega arith),
        base64_lookup-letter (b0 % 4 * 16 + b1 / 16) (omega arith),
        base64_lookup-letter (b1 % 16 * 4) (omega arith),
        clear,
        join_0 b0 b1 h0 h1,
        joined,
      )
      refl

decode_group-one :
    (b0 : ℕ)
    → b0 < 256
    → decode_group true 2 (letter (b0 / 4)) (letter (b0 % 4 * 16)) pad_char pad_char
      ≡ some (b0 ∷ [])
unfolding decode_group group_char
decode_group-one b0 h0 =
    let clear : bit_and (b0 % 4 * 16) 0x0F ≡ 0 =
      mask_15 (b0 % 4 * 16) (omega arith) ∙ omega arith in
    let second : b0 % 4 * 16 ≡ b0 % 4 * 16 + 0 / 16 = omega arith in
    let joined : bit_or (shl (b0 / 4) 2) (shr (b0 % 4 * 16) 4) ≡ b0 =
      ap (λ t. bit_or (shl (b0 / 4) 2) (shr t 4)) second ∙ join_0 b0 0 h0 (omega arith) in
    rw
      (
        base64_lookup-letter (b0 / 4) (omega arith),
        base64_lookup-letter (b0 % 4 * 16) (omega arith),
        clear,
        joined,
      )
      refl

-- The encoding, sextet by sextet.
pub encode_three :
    (b0 b1 b2 : ℕ) (input : List ℕ)
    → b0 < 256
    → b1 < 256
    → b2 < 256
    → base64_encode (b0 ∷ b1 ∷ b2 ∷ input)
      ≡ letter (b0 / 4)
        ∷ letter (b0 % 4 * 16 + b1 / 16)
        ∷ letter (b1 % 16 * 4 + b2 / 64)
        ∷ letter (b2 % 64)
        ∷ base64_encode input
unfolding base64_encode
encode_three b0 b1 b2 input h0 h1 h2 =
    rw (sextet_1 b0 b1 h0 h1, sextet_2 b1 b2 h1 h2, mask_63 b2 h2) refl

pub encode_two :
    (b0 b1 : ℕ)
    → b0 < 256
    → b1 < 256
    → base64_encode (b0 ∷ b1 ∷ [])
      ≡ letter (b0 / 4) ∷ letter (b0 % 4 * 16 + b1 / 16) ∷ letter (b1 % 16 * 4) ∷ pad_char ∷ []
unfolding base64_encode
encode_two b0 b1 h0 h1 =
    let third : shl (b1 % 16) 2 ≡ b1 % 16 * 4 = omega arith in
    rw (sextet_1 b0 b1 h0 h1, mask_15 b1 h1, third) refl

pub encode_one :
    (b0 : ℕ)
    → b0 < 256
    → base64_encode (b0 ∷ []) ≡ letter (b0 / 4) ∷ letter (b0 % 4 * 16) ∷ pad_char ∷ pad_char ∷ []
unfolding base64_encode
encode_one b0 h0 =
    let second : shl (b0 % 4) 4 ≡ b0 % 4 * 16 = omega arith in rw (mask_3 b0 h0, second) refl

-- The end of a longer text is the end of what follows its first group.
ends_with_behind :
    (c0 c1 c2 c3 : ℕ) (t suffix : List ℕ)
    → length suffix ≤ length t
    → ends_with (c0 ∷ c1 ∷ c2 ∷ c3 ∷ t) suffix ≡ ends_with t suffix
ends_with_behind c0 c1 c2 c3 t suffix h =
    let text : List ℕ = c0 ∷ c1 ∷ c2 ∷ c3 ∷ t in
    let at : length text - length suffix ≡ suc (suc (suc (suc (length t - length suffix)))) =
      omega arith in
    let long : leb (length suffix) (length text) ≡ true =
      is_le (length suffix) (length text) (omega arith) in
    let short : leb (length suffix) (length t) ≡ true = is_le (length suffix) (length t) h in
    rw (long, short, at) refl
  where
    is_le : (a b : ℕ) → a ≤ b → leb a b ≡ true
    is_le a b h = ground arith

pad_count_behind :
    (c0 c1 c2 c3 : ℕ) (t : List ℕ) → 4 ≤ length t → pad_count (c0 ∷ c1 ∷ c2 ∷ c3 ∷ t) ≡ pad_count t
pad_count_behind c0 c1 c2 c3 t h =
    rw
      (
        ends_with_behind c0 c1 c2 c3 t (pad_char ∷ pad_char ∷ []) (omega arith),
        ends_with_behind c0 c1 c2 c3 t (pad_char ∷ []) (omega arith),
      )
      refl

pad_count_whole :
    (c0 c1 c2 c3 : ℕ) → not (c3 == pad_char) ≡ true → pad_count (c0 ∷ c1 ∷ c2 ∷ c3 ∷ []) ≡ 0
pad_count_whole c0 c1 c2 c3 h = ground arith

pad_count_two :
    (c0 c1 c2 : ℕ) → not (c2 == pad_char) ≡ true → pad_count (c0 ∷ c1 ∷ c2 ∷ pad_char ∷ []) ≡ 1
pad_count_two c0 c1 c2 h = ground arith

encode_size :
    (b : ℕ) (input : List ℕ)
    → (4 ≤ length (base64_encode (b ∷ input))) × (length (base64_encode (b ∷ input)) % 4 ≡ 0)
unfolding base64_encode
encode_size b [] = (omega arith, omega arith)
encode_size b (b1 ∷ []) = (omega arith, omega arith)
encode_size b (b1 ∷ b2 ∷ []) = (omega arith, omega arith)
encode_size b (b1 ∷ b2 ∷ b3 ∷ input) =
    let ih = encode_size b3 input in (omega arith, omega (arith, ih.1))

is_empty-false : (xs : List ℕ) → 4 ≤ length xs → is_empty xs ≡ false
is_empty-false [] h = absurd (omega arith)
is_empty-false (x ∷ xs) h = refl

decode_groups-base64_encode :
    (b : ℕ) (input : List ℕ)
    → IsBytes (b ∷ input)
    → decode_groups (pad_count (base64_encode (b ∷ input))) (base64_encode (b ∷ input))
      ≡ some (b ∷ input)
unfolding decode_groups
decode_groups-base64_encode b0 [] (h0, h) = rw (encode_one b0 h0, decode_group-one b0 h0) refl
decode_groups-base64_encode b0 (b1 ∷ []) (h0, (h1, h)) =
    let l2 = b1 % 16 * 4 in
    rw
      (
        encode_two b0 b1 h0 h1,
        pad_count_two (letter (b0 / 4)) (letter (b0 % 4 * 16 + b1 / 16)) (letter l2)
            (letter-not_pad l2 (omega arith)),
        decode_group-two b0 b1 h0 h1,
      )
      refl
decode_groups-base64_encode b0 (b1 ∷ b2 ∷ []) (h0, (h1, (h2, h))) =
    let l1 = b0 % 4 * 16 + b1 / 16 in
    let l2 = b1 % 16 * 4 + b2 / 64 in
    let l3 = b2 % 64 in
    let nothing : base64_encode [] ≡ [] = unfold base64_encode in refl in
    rw
      (
        encode_three b0 b1 b2 [] h0 h1 h2,
        nothing,
        pad_count_whole (letter (b0 / 4)) (letter l1) (letter l2) (letter l3)
            (letter-not_pad l3 (omega arith)),
        decode_group-whole b0 b1 b2 h0 h1 h2,
      )
      refl
decode_groups-base64_encode b0 (b1 ∷ b2 ∷ b3 ∷ input) (h0, (h1, (h2, h))) =
    let rest = base64_encode (b3 ∷ input) in
    let long : 4 ≤ length rest = (encode_size b3 input).0 in
    let l1 = b0 % 4 * 16 + b1 / 16 in
    let l2 = b1 % 16 * 4 + b2 / 64 in
    let l3 = b2 % 64 in
    let text : List ℕ = letter (b0 / 4) ∷ letter l1 ∷ letter l2 ∷ letter l3 ∷ rest in
    ap (λ t. decode_groups (pad_count t) t) (encode_three b0 b1 b2 (b3 ∷ input) h0 h1 h2)
    ∙ ap (λ k. decode_groups k text)
        (pad_count_behind (letter (b0 / 4)) (letter l1) (letter l2) (letter l3) rest long)
    ∙ rw
        (
          is_empty-false rest long,
          decode_group-inner (pad_count rest) b0 b1 b2 h0 h1 h2,
          decode_groups-base64_encode b3 input h,
        )
        refl

-- For every list of bytes, `base64_decode` returns it from what `base64_encode` returns for it.
pub base64_decode-base64_encode :
    (input : List ℕ) → IsBytes input → base64_decode (base64_encode input) ≡ some input
unfolding base64_decode
base64_decode-base64_encode [] h = unfold base64_encode in refl
base64_decode-base64_encode (b ∷ input) h =
    let (long, whole) = encode_size b input in
    rw
      (
        (==_iff (length (base64_encode (b ∷ input)) % 4) 0).1 whole,
        is_empty-false (base64_encode (b ∷ input)) long,
      )
      (decode_groups-base64_encode b input h)
