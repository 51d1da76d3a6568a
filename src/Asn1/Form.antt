-- ===== src/Asn1/Form.antt =====
-- The DER form as a function of its parts, and that the writers of asn1/writer.rs append it.
use gm_crypto_rs.Base.{ℕ, ◌+◌, ◌/◌, ◌%◌, ◌<◌, ◌≤◌, bit_and}
use gm_crypto_rs.Base.{List, [], ◌∷◌, ◌++◌, length, get_or, if◌then◌else◌, ltb, ◌==◌}
use gm_crypto_rs.Base.{none, some, ◌≡◌, ap, ◌∙◌, arith, append_assoc}
use gm_crypto_rs.Base.{length-append, IsByte, IsBytes, All-append}
use gm_crypto_rs.Base.{suc, Bool-cases, inl, inr}
use gm_crypto_rs.Asn1.Reader.{tag_integer, tag_octet_string, tag_sequence, max_der_len}
use gm_crypto_rs.Asn1.Writer.{write_length, write_integer, write_octet_string, write_sequence}
use gm_crypto_rs.Asn1.Writer.{trimmed}

-- The minimal length field.
unfoldable pub length_field : ℕ → List ℕ
length_field n =
    if ltb n 128
    then n ∷ []
    else if ltb n 256
    then 0x81 ∷ n ∷ []
    else if ltb n 65_536
    then 0x82 ∷ n / 256 ∷ n % 256 ∷ []
    else 0x83 ∷ n / 65_536 ∷ n / 256 % 256 ∷ n % 256 ∷ []

-- A whole element.
unfoldable pub tlv : ℕ → List ℕ → List ℕ
tlv tag value = tag ∷ (length_field (length value) ++ value)

pub write_length-append :
    (out : List ℕ) (n : ℕ) → n < max_der_len → write_length out n ≡ some (out ++ length_field n)
unfolding write_length length_field
write_length-append out n h = ground arith

pub write_length-none : (out : List ℕ) (n : ℕ) → max_der_len ≤ n → write_length out n ≡ none
unfolding write_length
write_length-none out n h = ground arith

pub length_field-IsBytes : (n : ℕ) → n < max_der_len → IsBytes (length_field n)
unfolding length_field
length_field-IsBytes n h = ground arith

pub tlv-IsBytes :
    (tag : ℕ) (value : List ℕ)
    → IsByte tag
    → length value < max_der_len
    → IsBytes value
    → IsBytes (tlv tag value)
unfolding tlv
tlv-IsBytes tag value ht hl hv =
    (ht, All-append IsByte (length_field (length value)) value (length_field-IsBytes _ hl) hv)

pub length-length_field : (n : ℕ) → length (length_field n) ≤ 4
unfolding length_field
length-length_field n = ground arith

pub length-tlv : (tag : ℕ) (value : List ℕ) → length (tlv tag value) ≤ length value + 5
unfolding tlv
length-tlv tag value =
    omega
      (arith, length-append (length_field (length value)) value, length-length_field (length value))

regroup :
    (out : List ℕ) (tag : ℕ) (field value : List ℕ)
    → ((out ++ (tag ∷ [])) ++ field) ++ value ≡ out ++ (tag ∷ (field ++ value))
regroup out tag field value =
    append_assoc (out ++ (tag ∷ [])) field value ∙ append_assoc out (tag ∷ []) (field ++ value)

pub write_octet_string-tlv :
    (out value : List ℕ)
    → length value < max_der_len
    → write_octet_string out value ≡ some (out ++ tlv tag_octet_string value)
unfolding write_octet_string tlv
write_octet_string-tlv out value h =
    rw (write_length-append (out ++ (tag_octet_string ∷ [])) (length value) h)
      (ap some (regroup out tag_octet_string (length_field (length value)) value))

pub write_sequence-tlv :
    (out value : List ℕ)
    → length value < max_der_len
    → write_sequence out value ≡ some (out ++ tlv tag_sequence value)
unfolding write_sequence tlv
write_sequence-tlv out value h =
    rw (write_length-append (out ++ (tag_sequence ∷ [])) (length value) h)
      (ap some (regroup out tag_sequence (length_field (length value)) value))

-- The content of an INTEGER: no leading zeros, and a zero in front of a set sign bit.
unfoldable pub integer_content : List ℕ → List ℕ
integer_content value =
    let digits = trimmed value in
    if bit_and (get_or digits 0 0) 0x80 == 0 then digits else 0x00 ∷ digits

pub trimmed-IsBytes : (value : List ℕ) → IsBytes value → IsBytes (trimmed value)
unfolding trimmed
trimmed-IsBytes [] h = tt
trimmed-IsBytes (b ∷ []) h = h
trimmed-IsBytes (b ∷ c ∷ rest) (hb, h) = ground (arith, trimmed-IsBytes (c ∷ rest) h)

pub length-trimmed : (value : List ℕ) → length (trimmed value) ≤ length value
unfolding trimmed
length-trimmed [] = omega arith
length-trimmed (b ∷ []) = omega arith
length-trimmed (b ∷ c ∷ rest) = ground (arith, length-trimmed (c ∷ rest))

pub length-integer_content : (value : List ℕ) → length (integer_content value) ≤ length value + 1
unfolding integer_content
length-integer_content value = ground (arith, length-trimmed value)

pub write_integer-tlv :
    (out : List ℕ) (b : ℕ) (value : List ℕ)
    → length (b ∷ value) + 1 < max_der_len
    → write_integer out (b ∷ value) ≡ some (out ++ tlv tag_integer (integer_content (b ∷ value)))
unfolding write_integer tlv integer_content
write_integer-tlv out b value h =
    let digits = trimmed (b ∷ value) in
    let front = out ++ (tag_integer ∷ []) in
    let bound : length digits ≤ length (b ∷ value) = length-trimmed (b ∷ value) in
    elim (Bool-cases (bit_and (get_or digits 0 0) 0x80 == 0)) [
      | inl clear ↦
          let same : length digits + 0 ≡ length digits = omega arith in
          rw (clear, same, write_length-append front (length digits) (omega arith))
            (ap some (regroup out tag_integer (length_field (length digits)) digits))
      | inr sign ↦
          let same : length digits + 1 ≡ suc (length digits) = omega arith in
          rw (sign, same, write_length-append front (suc (length digits)) (omega arith))
            (ap some (
              append_assoc (front ++ length_field (suc (length digits))) (0x00 ∷ []) digits
              ∙ regroup out tag_integer (length_field (suc (length digits))) (0x00 ∷ digits)))
    ]
