-- ===== src/Pem/Examples.antt =====
-- The theorems on Base64 at concrete inputs, with the text of RFC 4648.
use gm_crypto_rs.Base.{ℕ, ◌≡◌, refl, List, [], ◌∷◌, none, some, arith}
use gm_crypto_rs.Pem.{base64_encode, base64_decode, base64_lookup, base64_alphabet, decode_groups}
use gm_crypto_rs.Pem.{decode_group, group_char}
use gm_crypto_rs.Pem.{encode, decode, body_lines, find, starts_with}
use gm_crypto_rs.Pem.Armor.{armor_round_trip}
use gm_crypto_rs.Pem.Canonical.{base64_decode_canonical}

-- "foob"
abbrev foob : List ℕ
foob = 102 ∷ 111 ∷ 111 ∷ 98 ∷ []

-- "Zm9vYg=="
abbrev foob_text : List ℕ
foob_text = 90 ∷ 109 ∷ 57 ∷ 118 ∷ 89 ∷ 103 ∷ 61 ∷ 61 ∷ []

encode_foob : base64_encode foob ≡ foob_text
unfolding base64_encode base64_alphabet
encode_foob = refl

decode_foob : base64_decode foob_text ≡ some foob
unfolding base64_decode decode_groups decode_group group_char base64_lookup
decode_foob = refl

-- "EC"
abbrev label : List ℕ
label = 69 ∷ 67 ∷ []

armor_round_trip_example : decode (encode label foob) label ≡ some foob
armor_round_trip_example = armor_round_trip label foob (omega arith)

-- The label is another one.
decode_wrong_label : decode (encode label foob) foob ≡ none
unfolding decode encode body_lines find starts_with base64_encode base64_alphabet
decode_wrong_label = refl

base64_decode_canonical_example : base64_encode foob ≡ foob_text
base64_decode_canonical_example = base64_decode_canonical foob_text foob (omega arith) decode_foob
