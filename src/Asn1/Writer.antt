-- ===== src/Asn1/Writer.antt =====
-- asn1/writer.rs: the minimal DER writer. A writer appends to `out`; `none` is a panic.
use gm_crypto_rs.Base.{ℕ, ◌+◌, ◌/◌, ◌%◌, ◌^◌, bit_and, bit_or, not, ltb, ◌==◌}
use gm_crypto_rs.Base.{List, [], ◌∷◌, ◌++◌, length, get_or, if◌then◌else◌}
use gm_crypto_rs.Base.{Option, none, some, ◌>>=◌, ◌>>◌, guard}
use gm_crypto_rs.Asn1.Reader.{
  tag_integer, tag_bit_string, tag_octet_string, tag_null, tag_oid, tag_sequence, max_der_len,
  is_empty,
}

-- `(x >> k) as u8`
abbrev shr_u8 : ℕ → ℕ → ℕ
shr_u8 x k = x / 2 ^ k % 256

unfoldable pub write_length : List ℕ → ℕ → Option (List ℕ)
write_length out len =
    if ltb len 128
    then some (out ++ (shr_u8 len 0 ∷ []))
    else if ltb len 256
    then some (out ++ (0x81 ∷ shr_u8 len 0 ∷ []))
    else if ltb len 65_536
    then some (out ++ (0x82 ∷ shr_u8 len 8 ∷ shr_u8 len 0 ∷ []))
    else if ltb len max_der_len
    then some (out ++ (0x83 ∷ shr_u8 len 16 ∷ shr_u8 len 8 ∷ shr_u8 len 0 ∷ []))
    else none

-- `while start < value_be.len() - 1 && value_be[start] == 0 { start += 1; }`
unfoldable pub trimmed : List ℕ → List ℕ
trimmed [] = []
trimmed (b ∷ []) = b ∷ []
trimmed (b ∷ c ∷ rest) = if b == 0 then trimmed (c ∷ rest) else b ∷ c ∷ rest

unfoldable pub write_integer : List ℕ → List ℕ → Option (List ℕ)
write_integer out value_be = do
  guard (not (is_empty value_be))
  let digits = trimmed value_be
  let needs_pad = not (bit_and (get_or digits 0 0) 0x80 == 0)
  let int_len = length digits + (if needs_pad then 1 else 0)
  out ← write_length (out ++ (tag_integer ∷ [])) int_len
  some ((if needs_pad then out ++ (0x00 ∷ []) else out) ++ digits)

unfoldable pub write_octet_string : List ℕ → List ℕ → Option (List ℕ)
write_octet_string out value = do
  out ← write_length (out ++ (tag_octet_string ∷ [])) (length value)
  some (out ++ value)

unfoldable pub write_bit_string : List ℕ → ℕ → List ℕ → Option (List ℕ)
write_bit_string out unused_bits value = do
  guard (not (ltb 7 unused_bits))
  out ← write_length (out ++ (tag_bit_string ∷ [])) (length value + 1)
  some ((out ++ (unused_bits ∷ [])) ++ value)

unfoldable pub write_null : List ℕ → List ℕ
write_null out = out ++ (tag_null ∷ 0x00 ∷ [])

unfoldable pub write_oid : List ℕ → List ℕ → Option (List ℕ)
write_oid out encoded_subids = do
  guard (not (is_empty encoded_subids))
  out ← write_length (out ++ (tag_oid ∷ [])) (length encoded_subids)
  some (out ++ encoded_subids)

unfoldable pub write_sequence : List ℕ → List ℕ → Option (List ℕ)
write_sequence out body = do
  out ← write_length (out ++ (tag_sequence ∷ [])) (length body)
  some (out ++ body)

unfoldable pub write_context_tagged_explicit : List ℕ → ℕ → List ℕ → Option (List ℕ)
write_context_tagged_explicit out n inner = do
  guard (not (ltb 30 n))
  out ← write_length (out ++ (bit_or 0xA0 n ∷ [])) (length inner)
  some (out ++ inner)

unfoldable pub write_context_tagged_implicit : List ℕ → ℕ → List ℕ → Option (List ℕ)
write_context_tagged_implicit out n value = do
  guard (not (ltb 30 n))
  out ← write_length (out ++ (bit_or 0x80 n ∷ [])) (length value)
  some (out ++ value)
