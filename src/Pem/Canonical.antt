-- ===== src/Pem/Canonical.antt =====
-- Base64 (pem.rs): what the decoder accepts, against the encoder.
use gm_crypto_rs.Base.{ℕ, zero, suc, ◌+◌, ◌*◌, ◌/◌, ◌%◌, ◌<◌, ◌≤◌, bit_and, bit_or, ◌==◌}
use gm_crypto_rs.Base.{if◌then◌else◌, true, false, not, List, [], ◌∷◌, ◌++◌, length}
use gm_crypto_rs.Base.{none, some, guard, IsBytes, ==_iff, >>=-eq-some}
use gm_crypto_rs.Base.{append-nil, guard-eq-some, some-injective, Bool-cases, inl, inr}
use gm_crypto_rs.Base.{◌≡◌, refl, sym, ap, ap₂, ◌∙◌, arith}
use gm_crypto_rs.Pem.{
  letter, pad_char, shl, shr, base64_encode, base64_lookup, ends_with, pad_count, group_char,
  decode_group, decode_groups, base64_decode,
}
use gm_crypto_rs.Pem.Alphabet.{base64_lookup_inv, mask_3, mask_15}
use gm_crypto_rs.Pem.Codec.{or_2, or_4, or_6, encode_three, encode_two, encode_one}

-- The bytes that four sextets make.
abbrev byte_0 : ℕ → ℕ → ℕ
byte_0 v0 v1 = v0 * 4 + v1 / 16

abbrev byte_1 : ℕ → ℕ → ℕ
byte_1 v1 v2 = v1 % 16 * 16 + v2 / 4

abbrev byte_2 : ℕ → ℕ → ℕ
byte_2 v2 v3 = v2 % 4 * 64 + v3

joined_0 : (v0 v1 : ℕ) → v0 < 64 → v1 < 64 → bit_or (shl v0 2) (shr v1 4) ≡ byte_0 v0 v1
joined_0 v0 v1 h0 h1 = or_2 v0 (shr v1 4) (omega arith) ∙ omega arith

joined_1 : (v1 v2 : ℕ) → v2 < 64 → bit_or (shl v1 4) (shr v2 2) ≡ byte_1 v1 v2
joined_1 v1 v2 h2 = or_4 v1 (shr v2 2) (omega arith)

joined_2 : (v2 v3 : ℕ) → v3 < 64 → bit_or (shl v2 6) v3 ≡ byte_2 v2 v3
joined_2 v2 v3 h3 = or_6 v2 v3 h3

-- Encoding these bytes spells the sextets.
spells_three :
    (v0 v1 v2 v3 : ℕ) (input : List ℕ)
    → v0 < 64
    → v1 < 64
    → v2 < 64
    → v3 < 64
    → base64_encode (byte_0 v0 v1 ∷ byte_1 v1 v2 ∷ byte_2 v2 v3 ∷ input)
      ≡ letter v0 ∷ letter v1 ∷ letter v2 ∷ letter v3 ∷ base64_encode input
spells_three v0 v1 v2 v3 input h0 h1 h2 h3 =
    let b0 = byte_0 v0 v1 in
    let b1 = byte_1 v1 v2 in
    let b2 = byte_2 v2 v3 in
    let e0 : b0 / 4 ≡ v0 = omega arith in
    let e1 : b0 % 4 * 16 + b1 / 16 ≡ v1 = omega arith in
    let e2 : b1 % 16 * 4 + b2 / 64 ≡ v2 = omega arith in
    let e3 : b2 % 64 ≡ v3 = omega arith in
    encode_three b0 b1 b2 input (omega arith) (omega arith) (omega arith)
    ∙ ap₂
        (λ s t.
          letter s
          ∷ letter t
          ∷ letter (b1 % 16 * 4 + b2 / 64)
          ∷ letter (b2 % 64)
          ∷ base64_encode input)
        e0 e1
    ∙ ap₂ (λ s t. letter v0 ∷ letter v1 ∷ letter s ∷ letter t ∷ base64_encode input) e2 e3

spells_two :
    (v0 v1 v2 : ℕ)
    → v0 < 64
    → v1 < 64
    → v2 < 64
    → v2 % 4 ≡ 0
    → base64_encode (byte_0 v0 v1 ∷ byte_1 v1 v2 ∷ [])
      ≡ letter v0 ∷ letter v1 ∷ letter v2 ∷ pad_char ∷ []
spells_two v0 v1 v2 h0 h1 h2 clear =
    let b0 = byte_0 v0 v1 in
    let b1 = byte_1 v1 v2 in
    let e0 : b0 / 4 ≡ v0 = omega arith in
    let e1 : b0 % 4 * 16 + b1 / 16 ≡ v1 = omega arith in
    let e2 : b1 % 16 * 4 ≡ v2 = omega arith in
    encode_two b0 b1 (omega arith) (omega arith)
    ∙ ap₂ (λ s t. letter s ∷ letter t ∷ letter (b1 % 16 * 4) ∷ pad_char ∷ []) e0 e1
    ∙ ap (λ s. letter v0 ∷ letter v1 ∷ letter s ∷ pad_char ∷ []) e2

spells_one :
    (v0 v1 : ℕ)
    → v0 < 64
    → v1 < 64
    → v1 % 16 ≡ 0
    → base64_encode (byte_0 v0 v1 ∷ []) ≡ letter v0 ∷ letter v1 ∷ pad_char ∷ pad_char ∷ []
spells_one v0 v1 h0 h1 clear =
    let b0 = byte_0 v0 v1 in
    let e0 : b0 / 4 ≡ v0 = omega arith in
    let e1 : b0 % 4 * 16 ≡ v1 = omega arith in
    encode_one b0 (omega arith) ∙ ap₂ (λ s t. letter s ∷ letter t ∷ pad_char ∷ pad_char ∷ []) e0 e1

-- A place that must hold the padding character.
pad_place : (c v : ℕ) → (if c == pad_char then some 0 else none) ≡ some v → (c ≡ pad_char) × (v ≡ 0)
pad_place c v h = ground arith

-- A group of four letters.
letters_inv :
    (c0 c1 c2 c3 v0 v1 v2 v3 : ℕ) (out rest : List ℕ)
    → IsBytes (c0 ∷ c1 ∷ c2 ∷ c3 ∷ [])
    → base64_lookup c0 ≡ some v0
    → base64_lookup c1 ≡ some v1
    → base64_lookup c2 ≡ some v2
    → base64_lookup c3 ≡ some v3
    → (bit_or (shl v0 2) (shr v1 4) ∷ bit_or (shl v1 4) (shr v2 2) ∷ bit_or (shl v2 6) v3 ∷ [])
      ≡ out
    → base64_encode (out ++ rest) ≡ c0 ∷ c1 ∷ c2 ∷ c3 ∷ base64_encode rest
letters_inv c0 c1 c2 c3 v0 v1 v2 v3 out rest (h0, (h1, (h2, (h3, _)))) e0 e1 e2 e3 made =
    let (l0, s0) = base64_lookup_inv c0 v0 h0 e0 in
    let (l1, s1) = base64_lookup_inv c1 v1 h1 e1 in
    let (l2, s2) = base64_lookup_inv c2 v2 h2 e2 in
    let (l3, s3) = base64_lookup_inv c3 v3 h3 e3 in
    rw (← made, s0, s1, s2, s3, joined_0 v0 v1 l0 l1, joined_1 v1 v2 l2, joined_2 v2 v3 l3)
      (spells_three v0 v1 v2 v3 rest l0 l1 l2 l3)

inner_inv :
    (c0 c1 c2 c3 pad : ℕ) (out rest : List ℕ)
    → IsBytes (c0 ∷ c1 ∷ c2 ∷ c3 ∷ [])
    → decode_group false pad c0 c1 c2 c3 ≡ some out
    → base64_encode (out ++ rest) ≡ c0 ∷ c1 ∷ c2 ∷ c3 ∷ base64_encode rest
unfolding decode_group group_char
inner_inv c0 c1 c2 c3 pad out rest h e =
    let (v0, e0, f0) = >>=-eq-some (base64_lookup c0) _ e in
    let (v1, e1, f1) = >>=-eq-some (base64_lookup c1) _ f0 in
    let (v2, e2, f2) = >>=-eq-some (base64_lookup c2) _ f1 in
    let (v3, e3, f3) = >>=-eq-some (base64_lookup c3) _ f2 in
    letters_inv c0 c1 c2 c3 v0 v1 v2 v3 out rest h e0 e1 e2 e3 (some-injective _ out f3)

clear_test : (t : ℕ) → not (not (t == 0)) ≡ true → t ≡ 0
clear_test t h = ground arith

two_inv :
    (c0 c1 c2 c3 v0 v1 v2 v3 : ℕ) (out : List ℕ)
    → IsBytes (c0 ∷ c1 ∷ c2 ∷ [])
    → base64_lookup c0 ≡ some v0
    → base64_lookup c1 ≡ some v1
    → base64_lookup c2 ≡ some v2
    → (if c3 == pad_char then some 0 else none) ≡ some v3
    → not (not (bit_and v2 0x03 == 0)) ≡ true
    → (bit_or (shl v0 2) (shr v1 4) ∷ bit_or (shl v1 4) (shr v2 2) ∷ []) ≡ out
    → base64_encode out ≡ c0 ∷ c1 ∷ c2 ∷ c3 ∷ []
two_inv c0 c1 c2 c3 v0 v1 v2 v3 out (h0, (h1, (h2, _))) e0 e1 e2 e3 e4 made =
    let (l0, s0) = base64_lookup_inv c0 v0 h0 e0 in
    let (l1, s1) = base64_lookup_inv c1 v1 h1 e1 in
    let (l2, s2) = base64_lookup_inv c2 v2 h2 e2 in
    let clear : v2 % 4 ≡ 0 = sym (mask_3 v2 (omega arith)) ∙ clear_test (bit_and v2 0x03) e4 in
    rw (← made, s0, s1, s2, (pad_place c3 v3 e3).0, joined_0 v0 v1 l0 l1, joined_1 v1 v2 l2)
      (spells_two v0 v1 v2 l0 l1 l2 clear)

one_inv :
    (c0 c1 c2 c3 v0 v1 v2 v3 : ℕ) (out : List ℕ)
    → IsBytes (c0 ∷ c1 ∷ [])
    → base64_lookup c0 ≡ some v0
    → base64_lookup c1 ≡ some v1
    → (if c2 == pad_char then some 0 else none) ≡ some v2
    → (if c3 == pad_char then some 0 else none) ≡ some v3
    → not (not (bit_and v1 0x0F == 0)) ≡ true
    → (bit_or (shl v0 2) (shr v1 4) ∷ []) ≡ out
    → base64_encode out ≡ c0 ∷ c1 ∷ c2 ∷ c3 ∷ []
one_inv c0 c1 c2 c3 v0 v1 v2 v3 out (h0, (h1, _)) e0 e1 e2 e3 e4 made =
    let (l0, s0) = base64_lookup_inv c0 v0 h0 e0 in
    let (l1, s1) = base64_lookup_inv c1 v1 h1 e1 in
    let clear : v1 % 16 ≡ 0 = sym (mask_15 v1 (omega arith)) ∙ clear_test (bit_and v1 0x0F) e4 in
    rw (← made, s0, s1, (pad_place c2 v2 e2).0, (pad_place c3 v3 e3).0, joined_0 v0 v1 l0 l1)
      (spells_one v0 v1 l0 l1 clear)

-- The last group, for each number of padding characters.
last_inv :
    (c0 c1 c2 c3 pad : ℕ) (out : List ℕ)
    → pad ≤ 2
    → IsBytes (c0 ∷ c1 ∷ c2 ∷ c3 ∷ [])
    → decode_group true pad c0 c1 c2 c3 ≡ some out
    → base64_encode out ≡ c0 ∷ c1 ∷ c2 ∷ c3 ∷ []
unfolding decode_group group_char
last_inv c0 c1 c2 c3 zero out l h e =
    let (v0, e0, f0) = >>=-eq-some (base64_lookup c0) _ e in
    let (v1, e1, f1) = >>=-eq-some (base64_lookup c1) _ f0 in
    let (v2, e2, f2) = >>=-eq-some (base64_lookup c2) _ f1 in
    let (v3, e3, f3) = >>=-eq-some (base64_lookup c3) _ f2 in
    ap base64_encode (sym (append-nil out))
    ∙ letters_inv c0 c1 c2 c3 v0 v1 v2 v3 out [] h e0 e1 e2 e3 (some-injective _ out f3)
    ∙ ap (λ t. c0 ∷ c1 ∷ c2 ∷ c3 ∷ t) (unfold base64_encode in refl)
last_inv c0 c1 c2 c3 (suc zero) out l (h0, (h1, (h2, h3))) e =
    let (v0, e0, f0) = >>=-eq-some (base64_lookup c0) _ e in
    let (v1, e1, f1) = >>=-eq-some (base64_lookup c1) _ f0 in
    let (v2, e2, f2) = >>=-eq-some (base64_lookup c2) _ f1 in
    let (v3, e3, f3) = >>=-eq-some (if c3 == pad_char then some 0 else none) _ f2 in
    let (_, e4, f4) = >>=-eq-some (guard (not (not (bit_and v2 0x03 == 0)))) _ f3 in
    two_inv c0 c1 c2 c3 v0 v1 v2 v3 out (h0, (h1, (h2, tt))) e0 e1 e2 e3 (guard-eq-some _ e4)
      (some-injective _ out f4)
last_inv c0 c1 c2 c3 (suc (suc zero)) out l (h0, (h1, h2)) e =
    let (v0, e0, f0) = >>=-eq-some (base64_lookup c0) _ e in
    let (v1, e1, f1) = >>=-eq-some (base64_lookup c1) _ f0 in
    let (v2, e2, f2) = >>=-eq-some (if c2 == pad_char then some 0 else none) _ f1 in
    let (v3, e3, f3) = >>=-eq-some (if c3 == pad_char then some 0 else none) _ f2 in
    let (_, e4, f4) = >>=-eq-some (guard (not (not (bit_and v1 0x0F == 0)))) _ f3 in
    one_inv c0 c1 c2 c3 v0 v1 v2 v3 out (h0, (h1, tt)) e0 e1 e2 e3 (guard-eq-some _ e4)
      (some-injective _ out f4)
last_inv c0 c1 c2 c3 (suc (suc (suc pad))) out l h e = absurd (omega arith)

groups_inv :
    (pad : ℕ) (c0 c1 c2 c3 : ℕ) (rest out : List ℕ)
    → pad ≤ 2
    → length (c0 ∷ c1 ∷ c2 ∷ c3 ∷ rest) % 4 ≡ 0
    → IsBytes (c0 ∷ c1 ∷ c2 ∷ c3 ∷ rest)
    → decode_groups pad (c0 ∷ c1 ∷ c2 ∷ c3 ∷ rest) ≡ some out
    → base64_encode out ≡ c0 ∷ c1 ∷ c2 ∷ c3 ∷ rest
unfolding decode_groups
groups_inv pad c0 c1 c2 c3 [] out l m h e =
    let (one, e1, f1) = >>=-eq-some (decode_group true pad c0 c1 c2 c3) _ e in
    ap base64_encode (sym (some-injective (one ++ []) out f1) ∙ append-nil one)
    ∙ last_inv c0 c1 c2 c3 pad one l h e1
groups_inv pad c0 c1 c2 c3 (d0 ∷ []) out l m h e = absurd (omega arith)
groups_inv pad c0 c1 c2 c3 (d0 ∷ d1 ∷ []) out l m h e = absurd (omega arith)
groups_inv pad c0 c1 c2 c3 (d0 ∷ d1 ∷ d2 ∷ []) out l m h e = absurd (omega arith)
groups_inv pad c0 c1 c2 c3 (d0 ∷ d1 ∷ d2 ∷ d3 ∷ rest) out l m (h0, (h1, (h2, (h3, h)))) e =
    let (one, e1, f1) = >>=-eq-some (decode_group false pad c0 c1 c2 c3) _ e in
    let (more, e2, f2) = >>=-eq-some (decode_groups pad (d0 ∷ d1 ∷ d2 ∷ d3 ∷ rest)) _ f1 in
    ap base64_encode (sym (some-injective (one ++ more) out f2))
    ∙ inner_inv c0 c1 c2 c3 pad one more (h0, (h1, (h2, (h3, tt)))) e1
    ∙ ap (λ t. c0 ∷ c1 ∷ c2 ∷ c3 ∷ t) (groups_inv pad d0 d1 d2 d3 rest more l (omega arith) h e2)

pad_count_small : (bytes : List ℕ) → pad_count bytes ≤ 2
pad_count_small bytes = elim (Bool-cases (ends_with bytes (pad_char ∷ pad_char ∷ []))) [
  | inl two ↦ rw two (omega arith)
  | inr other ↦ elim (Bool-cases (ends_with bytes (pad_char ∷ []))) [
    | inl one ↦ rw (other, one) (omega arith)
    | inr nothing ↦ rw (other, nothing) (omega arith)
  ]
]

-- A text of bytes that `base64_decode` accepts is what `base64_encode` returns for the bytes that
-- it returned; so no second text decodes to the same bytes.
pub base64_decode_canonical :
    (text out : List ℕ) → IsBytes text → base64_decode text ≡ some out → base64_encode out ≡ text
unfolding base64_decode
base64_decode_canonical [] out h e =
    ap base64_encode (sym (some-injective [] out e)) ∙ unfold base64_encode in refl
base64_decode_canonical (c0 ∷ []) out h e = cc
base64_decode_canonical (c0 ∷ c1 ∷ []) out h e = cc
base64_decode_canonical (c0 ∷ c1 ∷ c2 ∷ []) out h e = cc
base64_decode_canonical (c0 ∷ c1 ∷ c2 ∷ c3 ∷ rest) out h e =
    let text : List ℕ = c0 ∷ c1 ∷ c2 ∷ c3 ∷ rest in
    let (_, e1, f1) = >>=-eq-some (guard (length text % 4 == 0)) _ e in
    groups_inv (pad_count text) c0 c1 c2 c3 rest out (pad_count_small text)
      ((==_iff (length text % 4) 0).0 (guard-eq-some _ e1)) h f1
