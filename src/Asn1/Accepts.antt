-- ===== src/Asn1/Accepts.antt =====
-- The readers of asn1/reader.rs on elements of the DER form, and the forms of what they accept.
use gm_crypto_rs.Base.{ℕ, ◌+◌, ◌*◌, ◌/◌, ◌%◌, ◌^◌, ◌<◌, bit_or}
use gm_crypto_rs.Base.{true, List, [], ◌∷◌, ◌++◌, length}
use gm_crypto_rs.Base.{if◌then◌else◌, ltb, none, some, ◌≡◌, refl, sym, ap, ap₂, ◌∙◌}
use gm_crypto_rs.Base.{ltb→le, Bool-cases, inl, inr}
use gm_crypto_rs.Base.{arith, append_assoc, length-append, IsBytes, or_fields}
use gm_crypto_rs.Base.{take_append, drop_append, take-append-drop, length-take, le→ltb, ==_refl}
use gm_crypto_rs.Base.{>>=-eq-some, subst}
use gm_crypto_rs.Asn1.Reader.{
  max_der_len, read_tag, read_length, read_length_81, read_length_82, read_length_83, read_tlv,
  split_at, is_empty,
}
use gm_crypto_rs.Asn1.Form.{length_field, tlv}

pair_value : (hi lo : ℕ) → lo < 256 → bit_or (hi * 2 ^ 8) lo ≡ hi * 256 + lo
pair_value hi lo h = or_fields 8 hi lo h

triple_value :
    (b2 b1 b0 : ℕ)
    → b1 < 256
    → b0 < 256
    → bit_or (bit_or (b2 * 2 ^ 16) (b1 * 2 ^ 8)) b0 ≡ b2 * 65_536 + b1 * 256 + b0
triple_value b2 b1 b0 h1 h0 =
    let high : bit_or (b2 * 2 ^ 16) (b1 * 2 ^ 8) ≡ (b2 * 256 + b1) * 2 ^ 8 =
      or_fields 16 b2 (b1 * 2 ^ 8) (omega arith) ∙ omega arith in
    rw (high, or_fields 8 (b2 * 256 + b1) b0 h0) (omega arith)

-- For n below the limit, `read_length` returns n and the rest from the minimal length field of n
-- followed by the rest.
pub read_length-length_field :
    (n : ℕ) (rest : List ℕ)
    → n < max_der_len
    → read_length (length_field n ++ rest) ≡ some (n, rest)
unfolding read_length length_field read_length_81 read_length_82 read_length_83
read_length-length_field n rest h =
    ground
      (arith, pair_value (n / 256) (n % 256), triple_value (n / 65_536) (n / 256 % 256) (n % 256))

-- Bytes from which `read_length` returns n begin with the minimal length field of n, followed by
-- the rest that it returned, and n is below the limit.
pub read_length_minimal :
    (input : List ℕ) (n : ℕ) (rest : List ℕ)
    → IsBytes input
    → read_length input ≡ some (n, rest)
    → (input ≡ length_field n ++ rest) × (n < max_der_len)
unfolding read_length length_field read_length_81 read_length_82 read_length_83
read_length_minimal [] n rest h e = cc
read_length_minimal (first ∷ []) n rest h e = ground arith
read_length_minimal (first ∷ b ∷ []) n rest h e = ground arith
read_length_minimal (first ∷ b ∷ c ∷ []) n rest h e = ground (arith, pair_value b c)
read_length_minimal (first ∷ b ∷ c ∷ d ∷ input) n rest h e =
    ground (arith, pair_value b c, triple_value b c d)

-- An element is read back, whatever follows it.
pub read_tlv-tlv :
    (tag : ℕ) (value rest : List ℕ)
    → length value < max_der_len
    → read_tlv (tlv tag value ++ rest) tag ≡ some (value, rest)
unfolding read_tlv tlv read_tag
read_tlv-tlv tag value rest h =
    rw
      (
        ==_refl tag,
        append_assoc (length_field (length value)) value rest,
        read_length-length_field (length value) (value ++ rest) h,
        le→ltb (length (value ++ rest)) (length value) (omega (arith, length-append value rest)),
        take_append (length value) value rest refl,
        drop_append (length value) value rest refl,
      )
      refl

pub IsBytes-append_right : (xs ys : List ℕ) → IsBytes (xs ++ ys) → IsBytes ys
IsBytes-append_right [] ys h = h
IsBytes-append_right (x ∷ xs) ys (hx, h) = IsBytes-append_right xs ys h

pub IsBytes-append_left : (xs ys : List ℕ) → IsBytes (xs ++ ys) → IsBytes xs
IsBytes-append_left [] ys h = tt
IsBytes-append_left (x ∷ xs) ys (hx, h) = (hx, IsBytes-append_left xs ys h)

-- A body that is cut at the length that its field states.
cut_body :
    (body : List ℕ) (len : ℕ) (value rest : List ℕ)
    → (if ltb (length body) len then none else some (split_at len body)) ≡ some (value, rest)
    → (body ≡ value ++ rest) × (length value ≡ len)
cut_body body len value rest e = elim (Bool-cases (ltb (length body) len)) [
  | inl short ↦ ground arith
  | inr long ↦
      ground (arith, take-append-drop len body, length-take len body, ltb→le (length body) len long)
]

read_tag_inv :
    (input : List ℕ) (tag : ℕ) (rest : List ℕ) → read_tag input tag ≡ some rest → input ≡ tag ∷ rest
unfolding read_tag
read_tag_inv [] tag rest e = cc
read_tag_inv (b ∷ input) tag rest e = ground arith

-- Bytes from which `read_tlv` returns a value begin with the element of the tag, the minimal
-- length field and that value, followed by the rest that it returned; the value is below the
-- length limit.
pub read_tlv_canonical :
    (input : List ℕ) (tag : ℕ) (value rest : List ℕ)
    → IsBytes input
    → read_tlv input tag ≡ some (value, rest)
    → (input ≡ tlv tag value ++ rest) × (length value < max_der_len) × IsBytes value × IsBytes rest
unfolding read_tlv tlv
read_tlv_canonical input tag value rest h e =
    let (after, e1, e2) = >>=-eq-some (read_tag input tag) _ e in
    let ((len, body), e3, e4) = >>=-eq-some (read_length after) _ e2 in
    let form : input ≡ tag ∷ after = read_tag_inv input tag after e1 in
    let after_bytes : IsBytes after = (subst IsBytes form h).1 in
    let (field, small) = read_length_minimal after len body after_bytes e3 in
    let (cut, same) = cut_body body len value rest e4 in
    let body_bytes : IsBytes body =
      IsBytes-append_right (length_field len) body (subst IsBytes field after_bytes) in
    let parts : IsBytes (value ++ rest) = subst IsBytes cut body_bytes in
    (
      form
          ∙ ap (λ t. tag ∷ t)
              (field
                ∙ ap₂ (λ n t. length_field n ++ t) (sym same) cut
                ∙ sym (append_assoc (length_field (length value)) value rest)),
      omega arith,
      IsBytes-append_left value rest parts,
      IsBytes-append_right value rest parts,
    )

pub is_empty_inv : (xs : List ℕ) → is_empty xs ≡ true → xs ≡ []
is_empty_inv [] h = refl
is_empty_inv (x ∷ xs) h = cc
