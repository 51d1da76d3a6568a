-- ===== src/Asn1/Sig/Codec.antt =====
-- asn1/sig.rs: `encode_sig` against `decode_sig`.
use gm_crypto_rs.Base.{ℕ, ◌<◌, ◌≤◌, ltb, List, [], ◌∷◌, ◌++◌, length, replicate}
use gm_crypto_rs.Base.{if◌then◌else◌, true, false, Option, none, some, guard}
use gm_crypto_rs.Base.{◌≡◌, ◌≢◌, refl, sym, ap, ap₂, subst, ◌∙◌, arith, IsBytes, length-append}
use gm_crypto_rs.Base.{append-nil, >>=-eq-some, guard-eq-some, Bool-cases, inl, inr}
use gm_crypto_rs.Base.{le→ltb}
use gm_crypto_rs.Asn1.Reader.{
  tag_integer, read_tlv, read_integer, read_sequence, is_empty, tag_sequence, max_der_len,
}
use gm_crypto_rs.Asn1.Writer.{trimmed}
use gm_crypto_rs.Asn1.Form.{tlv, length-tlv, integer_content, length-integer_content}
use gm_crypto_rs.Asn1.Form.{write_sequence-tlv, length-trimmed}
use gm_crypto_rs.Asn1.Accepts.{read_tlv-tlv, read_tlv_canonical, is_empty_inv}
use gm_crypto_rs.Asn1.Integer.{read_integer_canonical}
use gm_crypto_rs.Asn1.Pad.{
  pad_32, integer_tlv, pad_32-trimmed, trimmed-pad_32, length-pad_32, pad_32-IsBytes,
  write_integer_32, read_integer_32, integer_content-pad_32,
}
use gm_crypto_rs.Asn1.Sig.{encode_sig, decode_sig, read_scalar_in_range, is_zero_content}

-- 32 bytes that are not all zero.
pub record IsScalar (r : List ℕ) : Type 0 where
  pub width : length r ≡ 32
  pub bytes : IsBytes r
  pub nonzero : r ≢ replicate 32 0

is_zero_content_inv : (bytes : List ℕ) → is_zero_content bytes ≡ true → bytes ≡ 0 ∷ []
is_zero_content_inv [] h = cc
is_zero_content_inv (b ∷ []) h = ground arith
is_zero_content_inv (b ∷ c ∷ rest) h = cc

not_zero_content : (r : List ℕ) → IsScalar r → is_zero_content (trimmed r) ≡ false
not_zero_content r s = elim (Bool-cases (is_zero_content (trimmed r))) [
  | inl bad ↦
      absurd (
        s.nonzero
          (sym (pad_32-trimmed r s.width) ∙ ap pad_32 (is_zero_content_inv (trimmed r) bad)))
  | inr good ↦ good
]

read_scalar-tlv :
    (r rest : List ℕ) → IsScalar r → read_scalar_in_range (integer_tlv r ++ rest) ≡ some (r, rest)
unfolding read_scalar_in_range
read_scalar-tlv r rest s =
    rw
      (
        read_integer_32 r rest s.width s.bytes,
        not_zero_content r s,
        le→ltb 32 (length (trimmed r)) (omega (arith, length-trimmed r, s.width)),
        pad_32-trimmed r s.width,
      )
      refl

-- What the tests of `read_scalar_in_range` leave.
scalar_tests :
    (digits rest r rest' : List ℕ)
    → if◌then◌else◌ {A = Option (List ℕ × List ℕ)}
        (is_zero_content digits)
        none
        (if ltb 32 (length digits) then none else some (pad_32 digits, rest))
      ≡ some (r, rest')
    → (is_zero_content digits ≡ false) × (length digits ≤ 32) × (pad_32 digits ≡ r) × (rest ≡ rest')
scalar_tests digits rest r rest' e = ground arith

zero_content : is_zero_content (trimmed (replicate 32 0)) ≡ true
unfolding trimmed
zero_content = refl

read_in_range_canonical :
    (input r rest : List ℕ)
    → IsBytes input
    → read_scalar_in_range input ≡ some (r, rest)
    → (input ≡ integer_tlv r ++ rest) × IsScalar r × IsBytes rest
unfolding read_scalar_in_range
read_in_range_canonical input r rest h e =
    let ((digits, rest'), e1, e2) = >>=-eq-some (read_integer input) _ e in
    let (good, small, pads, same) = scalar_tests digits rest' r rest e2 in
    let (form, clean, bytes, rest_bytes, _) = read_integer_canonical input digits rest' h e1 in
    let content : integer_content digits ≡ integer_content r =
      sym (integer_content-pad_32 digits clean) ∙ ap integer_content pads in
    let back : trimmed r ≡ digits = ap trimmed (sym pads) ∙ trimmed-pad_32 digits clean in
    (
      form ∙ ap₂ (λ c t. tlv tag_integer c ++ t) content same,
      record {
        width = ap length (sym pads) ∙ length-pad_32 digits small;
        bytes = subst IsBytes pads (pad_32-IsBytes digits bytes);
        nonzero = λ z. cc (good, ap is_zero_content (sym back ∙ ap trimmed z), zero_content);
      },
      subst IsBytes same rest_bytes,
    )

-- The body of the sequence.
abbrev sig_body : List ℕ → List ℕ → List ℕ
sig_body r s = integer_tlv r ++ integer_tlv s

length-integer_tlv : (r : List ℕ) → length r ≡ 32 → length (integer_tlv r) ≤ 38
length-integer_tlv r h = omega (arith, length-tlv 2 (integer_content r), length-integer_content r)

length-sig_body :
    (r s : List ℕ) → length r ≡ 32 → length s ≡ 32 → length (sig_body r s) < max_der_len
length-sig_body r s hr hs = omega (
  arith,
  length-append (integer_tlv r) (integer_tlv s),
  length-integer_tlv r hr,
  length-integer_tlv s hs,
)

encode_sig-tlv :
    (r s : List ℕ)
    → length r ≡ 32
    → length s ≡ 32
    → encode_sig r s ≡ some (tlv tag_sequence (sig_body r s))
unfolding encode_sig
encode_sig-tlv r s hr hs =
    rw
      (
        write_integer_32 [] r hr,
        write_integer_32 (integer_tlv r) s hs,
        write_sequence-tlv [] (sig_body r s) (length-sig_body r s hr hs),
      )
      refl

-- For two nonzero scalars of 32 bytes `encode_sig` returns (no writer panics), and `decode_sig`
-- gives both scalars back from what it returns.
pub decode_sig-encode_sig :
    (r s : List ℕ)
    → IsScalar r
    → IsScalar s
    → (der : List ℕ) × (encode_sig r s ≡ some der) × (decode_sig der ≡ some (r, s))
unfolding decode_sig read_sequence
decode_sig-encode_sig r s hr hs =
    let body = sig_body r s in
    (
      tlv tag_sequence body,
      encode_sig-tlv r s hr.width hs.width,
      rw
          (
            ← append-nil (tlv tag_sequence body),
            read_tlv-tlv tag_sequence body [] (length-sig_body r s hr.width hs.width),
            read_scalar-tlv r (integer_tlv s) hr,
            ← append-nil (integer_tlv s),
            read_scalar-tlv s [] hs,
          )
          refl,
    )

-- Bytes that `decode_sig` accepts are what `encode_sig` returns for the two scalars that it
-- returned, and these are nonzero and 32 bytes wide; so no second byte string decodes to the same
-- signature.
pub decode_sig_canonical :
    (der r s : List ℕ)
    → IsBytes der
    → decode_sig der ≡ some (r, s)
    → (encode_sig r s ≡ some der) × IsScalar r × IsScalar s
unfolding decode_sig read_sequence
decode_sig_canonical der r s h e =
    let ((body, rest), e1, f1) = >>=-eq-some (read_tlv der tag_sequence) _ e in
    let (_, e2, f2) = >>=-eq-some (guard (is_empty rest)) _ f1 in
    let ((r', body'), e3, f3) = >>=-eq-some (read_scalar_in_range body) _ f2 in
    let ((s', body''), e4, f4) = >>=-eq-some (read_scalar_in_range body') _ f3 in
    let (_, e5, f5) = >>=-eq-some (guard (is_empty body'')) _ f4 in
    let same_r : r' ≡ r = cc in
    let same_s : s' ≡ s = cc in
    let no_rest : rest ≡ [] = is_empty_inv rest (guard-eq-some (is_empty rest) e2) in
    let no_body : body'' ≡ [] = is_empty_inv body'' (guard-eq-some (is_empty body'') e5) in
    let (form, _, bytes, _) = read_tlv_canonical der tag_sequence body rest h e1 in
    let (form_r, scalar_r, bytes') = read_in_range_canonical body r' body' bytes e3 in
    let (form_s, scalar_s, _) = read_in_range_canonical body' s' body'' bytes' e4 in
    let whole : body ≡ sig_body r s =
      form_r
      ∙ ap (λ t. integer_tlv r' ++ t)
          (form_s ∙ ap (λ t. integer_tlv s' ++ t) no_body ∙ append-nil (integer_tlv s'))
      ∙ ap₂ sig_body same_r same_s in
    let scalar_r' : IsScalar r = subst IsScalar same_r scalar_r in
    let scalar_s' : IsScalar s = subst IsScalar same_s scalar_s in
    (
      encode_sig-tlv r s scalar_r'.width scalar_s'.width
          ∙ ap some (
              sym (
                form
                ∙ ap₂ (λ v t. tlv tag_sequence v ++ t) whole no_rest
                ∙ append-nil (tlv tag_sequence (sig_body r s)))),
      scalar_r',
      scalar_s',
    )
