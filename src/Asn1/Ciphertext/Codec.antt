-- ===== src/Asn1/Ciphertext/Codec.antt =====
-- asn1/ciphertext.rs: `encode` against `decode`.
use gm_crypto_rs.Base.{ℕ, ◌+◌, ◌<◌, ◌≤◌, ltb, ◌==◌, not, List, [], ◌++◌, length}
use gm_crypto_rs.Base.{true, some, guard}
use gm_crypto_rs.Base.{◌≡◌, refl, sym, ap, ap₂, subst, ◌∙◌, arith, IsBytes, length-append, from_be}
use gm_crypto_rs.Base.{append-nil, append_assoc, >>=-eq-some, guard-eq-some}
use gm_crypto_rs.Base.{le→ltb, ltb→le, ==_iff, not-eq-true, some-injective}
use gm_crypto_rs.Asn1.Reader.{tag_integer, tag_octet_string, read_tlv, read_integer, read_sequence}
use gm_crypto_rs.Asn1.Reader.{read_octet_string, is_empty, tag_sequence, max_der_len}
use gm_crypto_rs.Asn1.Writer.{trimmed}
use gm_crypto_rs.Asn1.Form.{
  tlv, length-tlv, integer_content, length-integer_content, length-trimmed,
}
use gm_crypto_rs.Asn1.Form.{write_sequence-tlv, write_octet_string-tlv}
use gm_crypto_rs.Asn1.Accepts.{read_tlv-tlv, read_tlv_canonical, is_empty_inv}
use gm_crypto_rs.Asn1.Integer.{read_integer_canonical}
use gm_crypto_rs.Asn1.Pad.{
  pad_32, integer_tlv, pad_32-trimmed, length-pad_32, pad_32-IsBytes, write_integer_32,
  read_integer_32, integer_content-pad_32,
}
use gm_crypto_rs.Asn1.Ciphertext.{Sm2Ciphertext, encode, decode, read_field_element}
use gm_crypto_rs.Sm2.Field.{CryptoBigint, p}

-- A coordinate: 32 bytes that stand for a number below `p`.
pub record IsCoordinate (x : List ℕ) : Type 0 where
  pub width : length x ≡ 32
  pub bytes : IsBytes x
  pub in_field : from_be x < p

pub record IsCiphertext (ct : Sm2Ciphertext) : Type 0 where
  pub x : IsCoordinate ct.x
  pub y : IsCoordinate ct.y
  pub hash_width : length ct.hash ≡ 32

-- The body of the sequence.
ct_body : Sm2Ciphertext → List ℕ
ct_body ct =
    integer_tlv ct.x
    ++ (integer_tlv ct.y ++ (tlv tag_octet_string ct.hash ++ tlv tag_octet_string ct.ciphertext))

length-ct_body :
    (ct : Sm2Ciphertext) → IsCiphertext ct → length (ct_body ct) ≤ length ct.ciphertext + 118
unfolding ct_body
length-ct_body ct h =
    let c = tlv tag_octet_string ct.ciphertext in
    let hash = tlv tag_octet_string ct.hash in
    omega (
      arith,
      length-append (integer_tlv ct.x) (integer_tlv ct.y ++ (hash ++ c)),
      length-append (integer_tlv ct.y) (hash ++ c),
      length-append hash c,
      length-tlv 2 (integer_content ct.x),
      length-tlv 2 (integer_content ct.y),
      length-integer_content ct.x,
      length-integer_content ct.y,
      length-tlv tag_octet_string ct.hash,
      length-tlv tag_octet_string ct.ciphertext,
      h.x.width,
      h.y.width,
      h.hash_width,
    )

encode-tlv :
    (ct : Sm2Ciphertext)
    → IsCiphertext ct
    → length ct.ciphertext < max_der_len
    → length (ct_body ct) < max_der_len
    → encode ct ≡ some (tlv tag_sequence (ct_body ct))
unfolding encode ct_body
encode-tlv ct h small body_small =
    let ix = integer_tlv ct.x in
    let iy = integer_tlv ct.y in
    let hash = tlv tag_octet_string ct.hash in
    let c = tlv tag_octet_string ct.ciphertext in
    rw
      (
        write_integer_32 [] ct.x h.x.width,
        write_integer_32 ix ct.y h.y.width,
        write_octet_string-tlv (ix ++ iy) ct.hash (omega (arith, h.hash_width)),
        write_octet_string-tlv ((ix ++ iy) ++ hash) ct.ciphertext small,
        append_assoc (ix ++ iy) hash c,
        append_assoc ix iy (hash ++ c),
        write_sequence-tlv [] (ix ++ (iy ++ (hash ++ c))) body_small,
      )
      refl

module _ ⦃big : CryptoBigint⦄ where
  open big use {from_be_slice, ct_lt, from_be_slice_lem, ct_lt_iff}

  in_field-true : (x : List ℕ) → IsCoordinate x → ct_lt (from_be_slice x) p ≡ true
  in_field-true x h = rw (from_be_slice_lem x h.width) ((ct_lt_iff (from_be x) p).1 h.in_field)

  read_field-tlv :
      (x rest : List ℕ)
      → IsCoordinate x
      → read_field_element (integer_tlv x ++ rest) ≡ some (x, rest)
  unfolding read_field_element
  read_field-tlv x rest h =
      rw
        (
          read_integer_32 x rest h.width h.bytes,
          le→ltb 32 (length (trimmed x)) (omega (arith, length-trimmed x, h.width)),
          pad_32-trimmed x h.width,
          in_field-true x h,
        )
        refl

  read_field_canonical :
      (input x rest : List ℕ)
      → IsBytes input
      → read_field_element input ≡ some (x, rest)
      → (input ≡ integer_tlv x ++ rest) × IsCoordinate x × IsBytes rest
  unfolding read_field_element
  read_field_canonical input x rest h e =
      let ((digits, rest'), e1, f1) = >>=-eq-some (read_integer input) _ e in
      let (_, e2, f2) = >>=-eq-some (guard (not (ltb 32 (length digits)))) _ f1 in
      let (_, e3, f3) = >>=-eq-some (guard (ct_lt (from_be_slice (pad_32 digits)) p)) _ f2 in
      let pads : pad_32 digits ≡ x = cc in
      let same : rest' ≡ rest = cc in
      let (form, clean, bytes, rest_bytes, _) = read_integer_canonical input digits rest' h e1 in
      let small : length digits ≤ 32 =
        ltb→le 32 (length digits) (not-eq-true (ltb 32 (length digits)) (guard-eq-some _ e2)) in
      let width = length-pad_32 digits small in
      let content : integer_content digits ≡ integer_content x =
        sym (integer_content-pad_32 digits clean) ∙ ap integer_content pads in
      (
        form ∙ ap₂ (λ c t. tlv tag_integer c ++ t) content same,
        subst IsCoordinate pads (record {
          width = width;
          bytes = pad_32-IsBytes digits bytes;
          in_field = (ct_lt_iff (from_be (pad_32 digits)) p).0 (
              subst (λ v. ct_lt v p ≡ true) (from_be_slice_lem (pad_32 digits) width)
                (guard-eq-some _ e3));
        }),
        subst IsBytes same rest_bytes,
      )

  -- For a ciphertext whose coordinates are field elements, whose hash has 32 bytes and whose body
  -- is at least 119 bytes below the DER length limit, `encode` returns (no writer panics) and
  -- `decode` gives the ciphertext back.
  pub decode-encode :
      (ct : Sm2Ciphertext)
      → IsCiphertext ct
      → length ct.ciphertext + 118 < max_der_len
      → (der : List ℕ) × (encode ct ≡ some der) × (decode der ≡ some ct)
  unfolding decode read_sequence read_octet_string ct_body
  decode-encode ct h small =
      let hash = tlv tag_octet_string ct.hash in
      let c = tlv tag_octet_string ct.ciphertext in
      let body = ct_body ct in
      let body_small : length body < max_der_len = omega (arith, length-ct_body ct h) in
      (
        tlv tag_sequence body,
        encode-tlv ct h (omega arith) body_small,
        rw
            (
              ← append-nil (tlv tag_sequence body),
              read_tlv-tlv tag_sequence body [] body_small,
              read_field-tlv ct.x (integer_tlv ct.y ++ (hash ++ c)) h.x,
              read_field-tlv ct.y (hash ++ c) h.y,
              read_tlv-tlv tag_octet_string ct.hash c (omega (arith, h.hash_width)),
              ← append-nil c,
              read_tlv-tlv tag_octet_string ct.ciphertext [] (omega arith),
              (==_iff (length ct.hash) 32).1 h.hash_width,
            )
            refl,
      )

  -- Bytes that `decode` accepts are what `encode` returns for the ciphertext that it returned,
  -- whose coordinates are 32 bytes below the field prime and whose hash has 32 bytes; so no
  -- second byte string decodes to the same ciphertext.
  pub decode_canonical :
      (der : List ℕ) (ct : Sm2Ciphertext)
      → IsBytes der
      → decode der ≡ some ct
      → (encode ct ≡ some der) × IsCiphertext ct
  unfolding decode read_sequence read_octet_string
  decode_canonical der ct h e =
      let ((body, rest), e1, f1) = >>=-eq-some (read_tlv der tag_sequence) _ e in
      let (_, e2, f2) = >>=-eq-some (guard (is_empty rest)) _ f1 in
      let ((x, body1), e3, f3) = >>=-eq-some (read_field_element body) _ f2 in
      let ((y, body2), e4, f4) = >>=-eq-some (read_field_element body1) _ f3 in
      let ((hash, body3), e5, f5) = >>=-eq-some (read_tlv body2 tag_octet_string) _ f4 in
      let ((c, body4), e6, f6) = >>=-eq-some (read_tlv body3 tag_octet_string) _ f5 in
      let (_, e7, f7) = >>=-eq-some (guard (is_empty body4)) _ f6 in
      let (_, e8, f8) = >>=-eq-some (guard (length hash == 32)) _ f7 in
      let found : Sm2Ciphertext = record { x = x; y = y; hash = hash; ciphertext = c } in
      let same : found ≡ ct = some-injective found ct f8 in
      let no_rest : rest ≡ [] = is_empty_inv rest (guard-eq-some (is_empty rest) e2) in
      let no_body : body4 ≡ [] = is_empty_inv body4 (guard-eq-some (is_empty body4) e7) in
      let (form, small, bytes, _) = read_tlv_canonical der tag_sequence body rest h e1 in
      let (form_x, has_x, bytes1) = read_field_canonical body x body1 bytes e3 in
      let (form_y, has_y, bytes2) = read_field_canonical body1 y body2 bytes1 e4 in
      let (form_h, _, _, bytes3) = read_tlv_canonical body2 tag_octet_string hash body3 bytes2 e5 in
      let (form_c, c_small, _, _) = read_tlv_canonical body3 tag_octet_string c body4 bytes3 e6 in
      let good : IsCiphertext found = record {
        x = has_x;
        y = has_y;
        hash_width = (==_iff (length hash) 32).0 (guard-eq-some _ e8);
      } in
      let whole : body ≡ ct_body found =
        unfold ct_body in
        form_x
        ∙ ap (λ t. integer_tlv x ++ t)
            (form_y
              ∙ ap (λ t. integer_tlv y ++ t)
                  (form_h
                    ∙ ap (λ t. tlv tag_octet_string hash ++ t)
                        (form_c
                          ∙ ap (λ t. tlv tag_octet_string c ++ t) no_body
                          ∙ append-nil (tlv tag_octet_string c)))) in
      subst (λ v. (encode v ≡ some der) × IsCiphertext v) same
        (
          encode-tlv found good c_small (subst (λ t. length t < max_der_len) whole small)
              ∙ ap some (
                  sym (
                    form
                    ∙ ap₂ (λ v t. tlv tag_sequence v ++ t) whole no_rest
                    ∙ append-nil (tlv tag_sequence (ct_body found)))),
          good,
        )
