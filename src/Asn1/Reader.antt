-- ===== src/Asn1/Reader.antt =====
-- asn1/reader.rs: the strict-canonical DER reader. A reader returns the value and the remaining
-- input; `none` is the single failure of every reader.
use gm_crypto_rs.Base.{ℕ, zero, suc, ◌-◌, ◌*◌, ◌^◌, bit_and, bit_or, Bool, not, ltb, ◌==◌}
use gm_crypto_rs.Base.{List, [], ◌∷◌, ◌++◌, length, get_or, take, drop, if◌then◌else◌}
use gm_crypto_rs.Base.{Option, none, some, ◌>>=◌}

abbrev pub tag_integer : ℕ
tag_integer = 0x02

abbrev pub tag_bit_string : ℕ
tag_bit_string = 0x03

abbrev pub tag_octet_string : ℕ
tag_octet_string = 0x04

abbrev pub tag_null : ℕ
tag_null = 0x05

abbrev pub tag_oid : ℕ
tag_oid = 0x06

abbrev pub tag_sequence : ℕ
tag_sequence = 0x30

abbrev pub tag_set : ℕ
tag_set = 0x31

abbrev pub max_der_len : ℕ
max_der_len = 16_777_216

-- `slice.split_first()`
abbrev pub split_first : List ℕ → Option (ℕ × List ℕ)
split_first [] = none
split_first (b ∷ rest) = some (b, rest)

-- `slice.is_empty()`
abbrev pub is_empty {ℓ} : {A : Type ℓ} → List A → Bool
is_empty [] = Bool.true
is_empty (x ∷ xs) = Bool.false

-- `slice.split_at(n)`
abbrev pub split_at : ℕ → List ℕ → List ℕ × List ℕ
split_at n xs = (take n xs, drop n xs)

unfoldable pub read_tag : List ℕ → ℕ → Option (List ℕ)
read_tag input expected = do
  (tag, rest) ← split_first input
  if tag == expected then some rest else none

-- The forms behind the first byte: 0x81, 0x82 and 0x83.
unfoldable pub read_length_81 : List ℕ → Option (ℕ × List ℕ)
read_length_81 rest = do (b, rest) ← split_first rest; if ltb b 0x80 then none else some (b, rest)

unfoldable pub read_length_82 : List ℕ → Option (ℕ × List ℕ)
read_length_82 rest = do
  (hi, rest) ← split_first rest
  (lo, rest) ← split_first rest
  let len = bit_or (hi * 2 ^ 8) lo
  if ltb len 256 then none else some (len, rest)

unfoldable pub read_length_83 : List ℕ → Option (ℕ × List ℕ)
read_length_83 rest = do
  (b2, rest) ← split_first rest
  (b1, rest) ← split_first rest
  (b0, rest) ← split_first rest
  let len = bit_or (bit_or (b2 * 2 ^ 16) (b1 * 2 ^ 8)) b0
  if ltb len 65_536 then none else some (len, rest)

unfoldable pub read_length : List ℕ → Option (ℕ × List ℕ)
read_length input = do
  (first, rest) ← split_first input
  if ltb first 0x80
      then some (first, rest)
      else if first == 0x81
      then read_length_81 rest
      else if first == 0x82
      then read_length_82 rest
      else if first == 0x83
      then read_length_83 rest
      else none

unfoldable pub read_tlv : List ℕ → ℕ → Option (List ℕ × List ℕ)
read_tlv input expected = do
  rest ← read_tag input expected
  (len, rest) ← read_length rest
  if ltb (length rest) len then none else some (split_at len rest)

-- The content rules of INTEGER: not empty, not negative, no redundant pad; the pad comes off.
unfoldable pub unsigned_content : List ℕ → Option (List ℕ)
unsigned_content [] = none
unsigned_content (b ∷ bytes) =
    if bit_and b 0x80 == 0
    then if b == 0x00
      then if is_empty bytes
        then some (b ∷ bytes)
        else if bit_and (get_or bytes 0 0) 0x80 == 0
        then none
        else some bytes
      else some (b ∷ bytes)
    else none

unfoldable pub read_integer : List ℕ → Option (List ℕ × List ℕ)
read_integer input = do
  (bytes, rest) ← read_tlv input tag_integer
  unsigned ← unsigned_content bytes
  some (unsigned, rest)

unfoldable pub read_octet_string : List ℕ → Option (List ℕ × List ℕ)
read_octet_string input = read_tlv input tag_octet_string

unfoldable pub read_null : List ℕ → Option (List ℕ)
read_null input = do
  (value, rest) ← read_tlv input tag_null
  if not (is_empty value) then none else some rest

unfoldable pub read_oid : List ℕ → Option (List ℕ × List ℕ)
read_oid input = do
  (value, rest) ← read_tlv input tag_oid
  if is_empty value
      then none
      else if not (bit_and (get_or value (length value - 1) 0) 0x80 == 0)
      then none
      else some (value, rest)

unfoldable pub read_bit_string : List ℕ → Option (ℕ × List ℕ × List ℕ)
read_bit_string input = do
  (value, rest) ← read_tlv input tag_bit_string
  (unused, bit_bytes) ← split_first value
  if ltb 7 unused then none else some (unused, bit_bytes, rest)

unfoldable pub read_sequence : List ℕ → Option (List ℕ × List ℕ)
read_sequence input = read_tlv input tag_sequence

unfoldable pub read_context_tagged_explicit : List ℕ → ℕ → Option (List ℕ × List ℕ)
read_context_tagged_explicit input n = if ltb 30 n then none else read_tlv input (bit_or 0xA0 n)

unfoldable pub read_context_tagged_implicit : List ℕ → ℕ → Option (List ℕ × List ℕ)
read_context_tagged_implicit input n = if ltb 30 n then none else read_tlv input (bit_or 0x80 n)

-- `while !cursor.is_empty()`: one round for each item. A `read_item` that takes nothing would keep
-- the source's loop going for ever; here the fuel runs out, which is `none` too.
unfoldable pub collect_loop {ℓ} :
    {T : Type ℓ} → ℕ → (List ℕ → Option (T × List ℕ)) → List ℕ → List T → Option (List T)
collect_loop fuel read_item [] items = some items
collect_loop zero read_item (b ∷ cursor) items = none
collect_loop (suc fuel) read_item (b ∷ cursor) items = do
  (item, next) ← read_item (b ∷ cursor)
  collect_loop fuel read_item next (items ++ (item ∷ []))

unfoldable pub collect_sequence_of {ℓ} :
    {T : Type ℓ} → List ℕ → (List ℕ → Option (T × List ℕ)) → Option (List T)
unfolding collect_loop
collect_sequence_of body read_item = collect_loop (length body) read_item body []
