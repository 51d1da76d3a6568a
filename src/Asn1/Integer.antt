-- ===== src/Asn1/Integer.antt =====
-- INTEGER: `write_integer` against `read_integer` (asn1/writer.rs, asn1/reader.rs).
use gm_crypto_rs.Base.{ℕ, ◌+◌, ◌<◌, ◌≤◌, bit_and, List, [], ◌∷◌, ◌++◌, length, get_or}
use gm_crypto_rs.Base.{if◌then◌else◌, ◌==◌, some, ◌≡◌, ◌≢◌, refl, sym, ap, ap₂, subst, ◌∙◌, arith}
use gm_crypto_rs.Base.{IsBytes, and_top_bit, >>=-eq-some, Bool-cases, inl, inr}
use gm_crypto_rs.Asn1.Reader.{tag_integer, max_der_len, read_tlv, unsigned_content, read_integer}
use gm_crypto_rs.Asn1.Writer.{trimmed}
use gm_crypto_rs.Asn1.Form.{tlv, integer_content, trimmed-IsBytes, length-integer_content}
use gm_crypto_rs.Asn1.Accepts.{read_tlv-tlv, read_tlv_canonical}

-- No leading zero but that of the number zero.
abbrev pub IsTrimmed : List ℕ → Type 0
IsTrimmed [] = ⊥
IsTrimmed (b ∷ []) = Unit {0}
IsTrimmed (b ∷ c ∷ rest) = b ≢ 0

pub trimmed-IsTrimmed : (b : ℕ) (value : List ℕ) → IsTrimmed (trimmed (b ∷ value))
unfolding trimmed
trimmed-IsTrimmed b [] = tt
trimmed-IsTrimmed b (c ∷ rest) = elim (Bool-cases (b == 0)) [
  | inl zero_head ↦ rw zero_head (trimmed-IsTrimmed c rest)
  | inr other ↦ rw other (λ e. ground arith)
]

pub trimmed_id : (value : List ℕ) → IsTrimmed value → trimmed value ≡ value
unfolding trimmed
trimmed_id [] h = refl
trimmed_id (b ∷ []) h = refl
trimmed_id (b ∷ c ∷ rest) h = ground arith

-- A zero byte in front of a set sign bit.
abbrev padded : List ℕ → List ℕ
padded digits = if bit_and (get_or digits 0 0) 0x80 == 0 then digits else 0x00 ∷ digits

padded-IsBytes : (digits : List ℕ) → IsBytes (padded digits) → IsBytes digits
padded-IsBytes digits h = ground arith

length-padded : (digits : List ℕ) → length digits ≤ length (padded digits)
length-padded digits = ground arith

unsigned_content-padded :
    (digits : List ℕ)
    → IsTrimmed digits
    → IsBytes digits
    → unsigned_content (padded digits) ≡ some digits
unfolding unsigned_content
unsigned_content-padded [] t h = elim t [ ]
unsigned_content-padded (b ∷ []) t h = ground (arith, and_top_bit b)
unsigned_content-padded (b ∷ c ∷ rest) t h = ground (arith, and_top_bit b)

pub unsigned_content_canonical :
    (content digits : List ℕ)
    → IsBytes content
    → unsigned_content content ≡ some digits
    → IsTrimmed digits × (content ≡ padded digits)
unfolding unsigned_content
unsigned_content_canonical [] digits h e = cc
unsigned_content_canonical (b ∷ []) digits h e = ground (arith, and_top_bit b)
unsigned_content_canonical (b ∷ c ∷ []) digits h e = ground (arith, and_top_bit b, and_top_bit c)
unsigned_content_canonical (b ∷ c ∷ d ∷ rest) digits h e =
    ground (arith, and_top_bit b, and_top_bit c)

-- What `write_integer` appends is read back with its leading zeros off, whatever follows.
pub read_integer-tlv :
    (b : ℕ) (value rest : List ℕ)
    → IsBytes (b ∷ value)
    → length (b ∷ value) + 1 < max_der_len
    → read_integer (tlv tag_integer (integer_content (b ∷ value)) ++ rest)
      ≡ some (trimmed (b ∷ value), rest)
unfolding read_integer integer_content
read_integer-tlv b value rest h l =
    rw
      (
        read_tlv-tlv tag_integer (integer_content (b ∷ value)) rest
            (omega (arith, length-integer_content (b ∷ value))),
        unsigned_content-padded (trimmed (b ∷ value)) (trimmed-IsTrimmed b value)
            (trimmed-IsBytes (b ∷ value) h),
      )
      refl

-- Bytes from which `read_integer` returns digits begin with the minimal INTEGER element of these
-- digits, followed by the rest that it returned; the digits have no leading zero unless they are
-- a single byte.
pub read_integer_canonical :
    (input digits rest : List ℕ)
    → IsBytes input
    → read_integer input ≡ some (digits, rest)
    → (input ≡ tlv tag_integer (integer_content digits) ++ rest)
      × IsTrimmed digits
      × IsBytes digits
      × IsBytes rest
      × (length digits < max_der_len)
unfolding read_integer integer_content
read_integer_canonical input digits rest h e =
    let ((content, r), e1, e2) = >>=-eq-some (read_tlv input tag_integer) _ e in
    let (u, e3, e4) = >>=-eq-some (unsigned_content content) _ e2 in
    let same : u ≡ digits = cc in
    let same_rest : r ≡ rest = cc in
    let (form, small, bytes, rest_bytes) = read_tlv_canonical input tag_integer content r h e1 in
    let (clean, pads) = unsigned_content_canonical content digits bytes (e3 ∙ ap some same) in
    let form' : content ≡ integer_content digits =
      pads ∙ ap padded (sym (trimmed_id digits clean)) in
    (
      form ∙ ap₂ (λ c t. tlv tag_integer c ++ t) form' same_rest,
      clean,
      padded-IsBytes digits (subst IsBytes pads bytes),
      subst IsBytes same_rest rest_bytes,
      omega (arith, ap length pads, length-padded digits),
    )
