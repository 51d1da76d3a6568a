-- ===== src/Asn1/Examples.antt =====
-- The theorems on the DER layer at concrete inputs.
use gm_crypto_rs.Base.{
  ℕ, ◌<◌, ◌≡◌, refl, List, [], ◌∷◌, ◌++◌, length, replicate, some, arith, IsBytes,
}
use gm_crypto_rs.Base.{ap, get_or}
use gm_crypto_rs.Asn1.Reader.{
  max_der_len, read_sequence, read_integer, unsigned_content, read_tlv, read_tag, read_length,
  read_length_82,
}
use gm_crypto_rs.Asn1.Form.{tlv, integer_content}
use gm_crypto_rs.Asn1.Accepts.{read_tlv-tlv}
use gm_crypto_rs.Asn1.Collect.{elements, collect_sequence_of-elements}
use gm_crypto_rs.Asn1.Reader.{collect_sequence_of}
use gm_crypto_rs.Asn1.Integer.{IsTrimmed, read_integer_canonical}
use gm_crypto_rs.Asn1.Sig.{encode_sig, decode_sig, read_scalar_in_range}
use gm_crypto_rs.Asn1.Sig.Codec.{IsScalar, decode_sig-encode_sig, decode_sig_canonical}

abbrev one : List ℕ
one = replicate 31 0 ++ (1 ∷ [])

abbrev high : List ℕ
high = replicate 32 0x80

one-IsScalar : IsScalar one
one-IsScalar = record {
  width = refl;
  bytes = omega arith;
  nonzero = λ e. cc (ap (λ t. get_or t 31 0) e);
}

high-IsScalar : IsScalar high
high-IsScalar = record {
  width = refl;
  bytes = omega arith;
  nonzero = λ e. cc (ap (λ t. get_or t 31 0) e);
}

abbrev long_form : List ℕ
long_form = 0x82 ∷ 1 ∷ 44 ∷ 9 ∷ []

read_long_form : read_length long_form ≡ some (300, 9 ∷ [])
unfolding read_length read_length_82
read_long_form = refl

read_tlv-tlv_example : read_tlv (tlv 0x04 (1 ∷ 2 ∷ []) ++ (9 ∷ [])) 0x04 ≡ some (1 ∷ 2 ∷ [], 9 ∷ [])
read_tlv-tlv_example = read_tlv-tlv 0x04 (1 ∷ 2 ∷ []) (9 ∷ []) (omega arith)

abbrev padded_integer : List ℕ
padded_integer = 0x02 ∷ 2 ∷ 0 ∷ 0x80 ∷ 9 ∷ []

abbrev digits : List ℕ
digits = 0x80 ∷ []

abbrev nine : List ℕ
nine = 9 ∷ []

read_padded : read_integer padded_integer ≡ some (digits, nine)
unfolding read_integer unsigned_content read_tlv read_tag read_length
read_padded = refl

read_integer_canonical_example :
    (padded_integer ≡ tlv 0x02 (integer_content digits) ++ nine)
    × IsTrimmed digits
    × IsBytes digits
    × IsBytes nine
    × (length digits < max_der_len)
read_integer_canonical_example =
    read_integer_canonical padded_integer digits nine (omega arith) read_padded

read_element : read_tlv padded_integer 0x02 ≡ some (0 ∷ digits, nine)
unfolding read_tlv read_tag read_length
read_element = refl

decode_sig-encode_sig_example :
    (der : List ℕ) × (encode_sig one high ≡ some der) × (decode_sig der ≡ some (one, high))
decode_sig-encode_sig_example = decode_sig-encode_sig one high one-IsScalar high-IsScalar

abbrev sig_der : List ℕ
sig_der = 0x30 ∷ 38 ∷ 0x02 ∷ 1 ∷ 1 ∷ 0x02 ∷ 33 ∷ 0 ∷ high

decode_sig_der : decode_sig sig_der ≡ some (one, high)
unfolding decode_sig read_scalar_in_range read_sequence read_integer unsigned_content read_tlv
    read_tag read_length
decode_sig_der = refl

decode_sig_canonical_example : (encode_sig one high ≡ some sig_der) × IsScalar one × IsScalar high
decode_sig_canonical_example = decode_sig_canonical sig_der one high (omega arith) decode_sig_der

abbrev two_values : List (List ℕ)
two_values = (1 ∷ 2 ∷ []) ∷ [] ∷ []

collect_sequence_of_example :
    collect_sequence_of (elements 0x04 two_values) (λ input. read_tlv input 0x04) ≡ some two_values
collect_sequence_of_example = collect_sequence_of-elements 0x04 two_values (omega arith)
