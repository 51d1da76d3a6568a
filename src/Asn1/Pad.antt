-- ===== src/Asn1/Pad.antt =====
-- An unsigned integer at a fixed width of 32 bytes, and as the content of an INTEGER.
use gm_crypto_rs.Base.{ℕ, zero, suc, ◌-◌, ◌≤◌, ◌==◌, List, [], ◌∷◌, ◌++◌, length, replicate}
use gm_crypto_rs.Base.{some, ◌≡◌, refl, sym, ap, ◌∙◌, arith}
use gm_crypto_rs.Base.{
  IsByte, IsBytes, Bool-cases, inl, inr, ==_iff, length-append, length-replicate,
}
use gm_crypto_rs.Base.{All-append, All-replicate}
use gm_crypto_rs.Asn1.Reader.{tag_integer, read_integer}
use gm_crypto_rs.Asn1.Writer.{trimmed, write_integer}
use gm_crypto_rs.Asn1.Form.{tlv, integer_content, length-trimmed, write_integer-tlv}
use gm_crypto_rs.Asn1.Integer.{IsTrimmed, read_integer-tlv, trimmed_id}

-- `padded[32 - bytes.len()..].copy_from_slice(bytes)` on 32 zero bytes.
abbrev pub pad_32 : List ℕ → List ℕ
pad_32 bytes = replicate (32 - length bytes) 0 ++ bytes

-- The zeros that `trimmed` took off, put back.
pub pad-trimmed :
    (value : List ℕ) → replicate (length value - length (trimmed value)) 0 ++ trimmed value ≡ value
unfolding trimmed
pad-trimmed [] = refl
pad-trimmed (b ∷ []) = refl
pad-trimmed (b ∷ c ∷ rest) = elim (Bool-cases (b == 0)) [
  | inl zero_head ↦
      let value : List ℕ = c ∷ rest in
      let count : length (b ∷ value) - length (trimmed value)
          ≡ suc (length value - length (trimmed value)) =
        omega (arith, length-trimmed value) in
      let head : 0 ≡ b = sym ((==_iff b 0).0 zero_head) in
      rw (zero_head, count) (ap (λ t. 0 ∷ t) (pad-trimmed (c ∷ rest)) ∙ ap (λ t. t ∷ value) head)
  | inr other ↦
      let none_off : length (b ∷ c ∷ rest) - length (b ∷ c ∷ rest) ≡ 0 = omega arith in
      rw (other, none_off)
]

trimmed-replicate :
    (k : ℕ) (digits : List ℕ) → IsTrimmed digits → trimmed (replicate k 0 ++ digits) ≡ digits
unfolding trimmed
trimmed-replicate zero digits h = trimmed_id digits h
trimmed-replicate (suc k) [] h = elim h [ ]
trimmed-replicate (suc zero) (b ∷ rest) h = trimmed_id (b ∷ rest) h
trimmed-replicate (suc (suc k)) (b ∷ rest) h = trimmed-replicate (suc k) (b ∷ rest) h

pub trimmed-pad_32 : (digits : List ℕ) → IsTrimmed digits → trimmed (pad_32 digits) ≡ digits
trimmed-pad_32 digits h = trimmed-replicate (32 - length digits) digits h

pub pad_32-trimmed : (value : List ℕ) → length value ≡ 32 → pad_32 (trimmed value) ≡ value
pad_32-trimmed value h =
    ap (λ n. replicate (n - length (trimmed value)) 0 ++ trimmed value) (sym h) ∙ pad-trimmed value

pub length-pad_32 : (digits : List ℕ) → length digits ≤ 32 → length (pad_32 digits) ≡ 32
length-pad_32 digits h = omega (
  arith,
  length-append (replicate (32 - length digits) 0) digits,
  length-replicate {A = ℕ} (32 - length digits) 0,
)

pub pad_32-IsBytes : (digits : List ℕ) → IsBytes digits → IsBytes (pad_32 digits)
pad_32-IsBytes digits h =
    All-append IsByte (replicate (32 - length digits) 0) digits
      (All-replicate IsByte (32 - length digits) 0 (omega arith)) h

-- The element of a value of 32 bytes.
abbrev pub integer_tlv : List ℕ → List ℕ
integer_tlv value = tlv tag_integer (integer_content value)

pub write_integer_32 :
    (out value : List ℕ)
    → length value ≡ 32
    → write_integer out value ≡ some (out ++ integer_tlv value)
write_integer_32 out [] h = absurd (omega arith)
write_integer_32 out (b ∷ value) h = write_integer-tlv out b value (omega arith)

pub read_integer_32 :
    (value rest : List ℕ)
    → length value ≡ 32
    → IsBytes value
    → read_integer (integer_tlv value ++ rest) ≡ some (trimmed value, rest)
read_integer_32 [] rest h b = absurd (omega arith)
read_integer_32 (x ∷ value) rest h b = read_integer-tlv x value rest b (omega arith)

pub integer_content-pad_32 :
    (digits : List ℕ) → IsTrimmed digits → integer_content (pad_32 digits) ≡ integer_content digits
unfolding integer_content
integer_content-pad_32 digits h = rw (trimmed-pad_32 digits h, trimmed_id digits h)
