-- ===== src/Pem.antt =====
-- pem.rs: the Base64 codec and the armour. A string is the list of its bytes.
pub mod Alphabet
pub mod Codec
pub mod Canonical
pub mod Armor
mod Examples
use gm_crypto_rs.Base.{ℕ, zero, suc, ◌+◌, ◌-◌, ◌*◌, ◌/◌, ◌%◌, ◌^◌, bit_and, bit_or, ltb, leb, ◌==◌}
use gm_crypto_rs.Base.{
  if◌then◌else◌, Bool, true, false, not, ◌&&◌, ◌||◌, List, [], ◌∷◌, ◌++◌, length,
}
use gm_crypto_rs.Base.{get_or, take, drop, Option, none, some, ◌>>=◌, ◌>>◌, guard}
use gm_crypto_rs.Base.Plain.{bytes_eq}
use gm_crypto_rs.Asn1.Reader.{is_empty}

-- "ABCDEFGHIJKLMNOPQRSTUVWXYZabcdefghijklmnopqrstuvwxyz0123456789+/"
unfoldable pub base64_alphabet : List ℕ
base64_alphabet =
    65 ∷ 66 ∷ 67 ∷ 68 ∷ 69 ∷ 70 ∷ 71 ∷ 72 ∷ 73 ∷ 74 ∷ 75 ∷ 76 ∷ 77 ∷ 78 ∷ 79 ∷ 80 ∷ 81 ∷ 82 ∷ 83
    ∷ 84 ∷ 85 ∷ 86 ∷ 87 ∷ 88 ∷ 89 ∷ 90 ∷ 97 ∷ 98 ∷ 99 ∷ 100 ∷ 101 ∷ 102 ∷ 103 ∷ 104 ∷ 105 ∷ 106
    ∷ 107 ∷ 108 ∷ 109 ∷ 110 ∷ 111 ∷ 112 ∷ 113 ∷ 114 ∷ 115 ∷ 116 ∷ 117 ∷ 118 ∷ 119 ∷ 120 ∷ 121 ∷ 122
    ∷ 48 ∷ 49 ∷ 50 ∷ 51 ∷ 52 ∷ 53 ∷ 54 ∷ 55 ∷ 56 ∷ 57 ∷ 43 ∷ 47 ∷ []

-- `BASE64_ALPHABET[i] as char`
abbrev pub letter : ℕ → ℕ
letter i = get_or base64_alphabet i 0

-- `=`
abbrev pub pad_char : ℕ
pad_char = 61

-- `x << k` and `x >> k` on `u8`.
abbrev pub shl : ℕ → ℕ → ℕ
shl x k = x * 2 ^ k % 256

abbrev pub shr : ℕ → ℕ → ℕ
shr x k = x / 2 ^ k

unfoldable pub base64_encode : List ℕ → List ℕ
base64_encode [] = []
base64_encode (b0 ∷ []) =
    letter (shr b0 2) ∷ letter (shl (bit_and b0 0x03) 4) ∷ pad_char ∷ pad_char ∷ []
base64_encode (b0 ∷ b1 ∷ []) =
    letter (shr b0 2)
    ∷ letter (bit_or (shl (bit_and b0 0x03) 4) (shr b1 4))
    ∷ letter (shl (bit_and b1 0x0F) 2)
    ∷ pad_char
    ∷ []
base64_encode (b0 ∷ b1 ∷ b2 ∷ input) =
    letter (shr b0 2)
    ∷ letter (bit_or (shl (bit_and b0 0x03) 4) (shr b1 4))
    ∷ letter (bit_or (shl (bit_and b1 0x0F) 2) (shr b2 6))
    ∷ letter (bit_and b2 0x3F)
    ∷ base64_encode input

unfoldable pub base64_lookup : ℕ → Option ℕ
base64_lookup c =
    if leb 65 c && leb c 90
    then some (c - 65)
    else if leb 97 c && leb c 122
    then some (c - 97 + 26)
    else if leb 48 c && leb c 57
    then some (c - 48 + 52)
    else if c == 43
    then some 62
    else if c == 47
    then some 63
    else none

-- `bytes.ends_with(suffix)`
abbrev pub ends_with : List ℕ → List ℕ → Bool
ends_with bytes suffix =
    leb (length suffix) (length bytes)
    && bytes_eq (drop (length bytes - length suffix) bytes) suffix

abbrev pub pad_count : List ℕ → ℕ
pad_count bytes =
    if ends_with bytes (pad_char ∷ pad_char ∷ [])
    then 2
    else if ends_with bytes (pad_char ∷ [])
    then 1
    else 0

-- The character at `k` of a group. In the last group those from `4 - pad` on must be `=`.
unfoldable pub group_char : Bool → ℕ → ℕ → ℕ → Option ℕ
group_char last_group pad k c =
    if not last_group || ltb k (4 - pad)
    then base64_lookup c
    else if c == pad_char
    then some 0
    else none

-- Four characters, and whether they are the last four.
unfoldable pub decode_group : Bool → ℕ → ℕ → ℕ → ℕ → ℕ → Option (List ℕ)
decode_group last_group pad c0 c1 c2 c3 = do
  v0 ← base64_lookup c0
  v1 ← base64_lookup c1
  v2 ← group_char last_group pad 2 c2
  v3 ← group_char last_group pad 3 c3
  let b0 = bit_or (shl v0 2) (shr v1 4)
  let b1 = bit_or (shl v1 4) (shr v2 2)
  let b2 = bit_or (shl v2 6) v3
  guard (not (last_group && ((pad == 2) && not (bit_and v1 0x0F == 0))))
  guard (not (last_group && ((pad == 1) && not (bit_and v2 0x03 == 0))))
  let second = if not last_group || leb pad 1 then b1 ∷ [] else []
  let third = if not last_group || pad == 0 then b2 ∷ [] else []
  some (b0 ∷ (second ++ third))

unfoldable pub decode_groups : ℕ → List ℕ → Option (List ℕ)
decode_groups pad (c0 ∷ c1 ∷ c2 ∷ c3 ∷ rest) = do
  out ← decode_group (is_empty rest) pad c0 c1 c2 c3
  outs ← decode_groups pad rest
  some (out ++ outs)
decode_groups pad [] = some []
decode_groups pad (c0 ∷ []) = some []
decode_groups pad (c0 ∷ c1 ∷ []) = some []
decode_groups pad (c0 ∷ c1 ∷ c2 ∷ []) = some []

unfoldable pub base64_decode : List ℕ → Option (List ℕ)
base64_decode bytes = do
  guard (length bytes % 4 == 0)
  if is_empty bytes then some [] else decode_groups (pad_count bytes) bytes

-- "-----BEGIN ", "-----END " and "-----"
abbrev pub dashes : List ℕ
dashes = 45 ∷ 45 ∷ 45 ∷ 45 ∷ 45 ∷ []

abbrev pub begin_line : List ℕ → List ℕ
begin_line label = (dashes ++ (66 ∷ 69 ∷ 71 ∷ 73 ∷ 78 ∷ 32 ∷ [])) ++ (label ++ dashes)

abbrev pub end_line : List ℕ → List ℕ
end_line label = (dashes ++ (69 ∷ 78 ∷ 68 ∷ 32 ∷ [])) ++ (label ++ dashes)

-- `\n`
abbrev pub newline : ℕ
newline = 10

-- The loop that cuts the body into lines, on fuel: `length body` rounds are enough.
unfoldable pub body_lines : ℕ → List ℕ → List ℕ
body_lines zero body = []
body_lines (suc fuel) [] = []
body_lines (suc fuel) (b ∷ body) =
    take 64 (b ∷ body) ++ (newline ∷ body_lines fuel (drop 64 (b ∷ body)))

unfoldable pub encode : List ℕ → List ℕ → List ℕ
encode label der =
    let body = base64_encode der in
    (begin_line label ++ (newline ∷ []))
    ++ (body_lines (length body) body ++ (end_line label ++ (newline ∷ [])))

-- `str::find`: where the first occurrence begins.
unfoldable pub starts_with : List ℕ → List ℕ → Bool
starts_with text [] = true
starts_with [] (p ∷ pattern') = false
starts_with (c ∷ text) (p ∷ pattern') = (c == p) && starts_with text pattern'

unfoldable pub find : List ℕ → List ℕ → Option ℕ
find [] needle = if is_empty needle then some 0 else none
find (c ∷ text) needle =
    let rest = find text needle in
    if starts_with (c ∷ text) needle then some 0 else do i ← rest; some (i + 1)

unfoldable pub is_ascii_whitespace : ℕ → Bool
is_ascii_whitespace ch = ((ch == 32) || (ch == 9)) || ((ch == 10) || ((ch == 12) || (ch == 13)))

unfoldable pub strip_whitespace : List ℕ → List ℕ
strip_whitespace [] = []
strip_whitespace (ch ∷ body) =
    if is_ascii_whitespace ch then strip_whitespace body else ch ∷ strip_whitespace body

unfoldable pub decode : List ℕ → List ℕ → Option (List ℕ)
decode input expected_label = do
  let begin = begin_line expected_label
  let end = end_line expected_label
  begin_idx ← find input begin
  let after_begin = drop (begin_idx + length begin) input
  end_rel ← find after_begin end
  base64_decode (strip_whitespace (take end_rel after_begin))
