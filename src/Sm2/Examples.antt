-- ===== src/Sm2/Examples.antt =====
-- The theorems on SM2 ciphertexts at concrete inputs, the generator of the curve as the point.
use gm_crypto_rs.Base.{ℕ, ◌<◌, ◌≡◌, refl, true, List, [], ◌∷◌, ◌++◌, replicate, some, arith}
use gm_crypto_rs.Base.{to_be, from_be_onto, from_be-to_be, length-to_be, to_be-IsBytes, sym}
use gm_crypto_rs.Base.{subst, IsBytes}
use gm_crypto_rs.Asn1.Reader.{read_sequence, read_octet_string, read_integer, unsigned_content}
use gm_crypto_rs.Asn1.Reader.{read_tlv, read_tag, read_length}
use gm_crypto_rs.Asn1.Ciphertext
use gm_crypto_rs.Asn1.Ciphertext.{Sm2Ciphertext, read_field_element}
use gm_crypto_rs.Asn1.Ciphertext.Codec.{IsCoordinate, IsCiphertext, decode-encode, decode_canonical}
use gm_crypto_rs.Sm2.Plain.{plain_bigint}
use gm_crypto_rs.Sm2.Field.{p}
use gm_crypto_rs.Sm2.Curve.{point_on_curve}
use gm_crypto_rs.Sm2.RawCiphertext.{encode_c1c3c2, decode_c1c3c2, decode_c1c2c3_legacy}
use gm_crypto_rs.Sm2.RawCiphertext.Codec.{
  on_curve, decode_c1c3c2-encode_c1c3c2, decode_c1c3c2_canonical, legacy_reordered,
}

abbrev gx : ℕ
gx = 0x32C4AE2C1F1981195F9904466A39C9948FE30BBFF2660BE1715A4589334C74C7

abbrev gy : ℕ
gy = 0xBC3736A2F4F6779C59BDCEE36B692153D0A9877CC62A474002DF32E52139F0A0

abbrev sample : Sm2Ciphertext
sample = record {
  x = to_be 32 gx;
  y = to_be 32 gy;
  hash = replicate 32 7;
  ciphertext = 1 ∷ 2 ∷ 3 ∷ [];
}

coordinate : (v : ℕ) → v < p → IsCoordinate (to_be 32 v)
coordinate v h = record {
  width = length-to_be 32 v;
  bytes = to_be-IsBytes 32 v;
  in_field = subst (λ n. n < p) (sym (from_be-to_be 32 v (omega arith))) h;
}

sample-IsCiphertext : IsCiphertext sample
sample-IsCiphertext = record {
  x = coordinate gx (omega arith);
  y = coordinate gy (omega arith);
  hash_width = refl;
}

sample_on_curve : on_curve sample.x sample.y ≡ true
unfolding point_on_curve to_be from_be_onto
sample_on_curve = refl

decode-encode_example :
    (der : List ℕ) × (Ciphertext.encode sample ≡ some der) × (Ciphertext.decode der ≡ some sample)
decode-encode_example = decode-encode sample sample-IsCiphertext (omega arith)

decode_c1c3c2_round_trip_example : decode_c1c3c2 (encode_c1c3c2 sample) ≡ some sample
decode_c1c3c2_round_trip_example =
    decode_c1c3c2-encode_c1c3c2 sample sample-IsCiphertext sample_on_curve

legacy_reordered_example :
    decode_c1c2c3_legacy (replicate 65 4 ++ ((1 ∷ []) ++ replicate 32 9))
    ≡ decode_c1c3c2 (replicate 65 4 ++ (replicate 32 9 ++ (1 ∷ [])))
legacy_reordered_example = legacy_reordered (replicate 65 4) (1 ∷ []) (replicate 32 9) refl refl

raw_sample-IsBytes : IsBytes (encode_c1c3c2 sample)
unfolding encode_c1c3c2 to_be
raw_sample-IsBytes = omega arith

decode_c1c3c2_canonical_example :
    (encode_c1c3c2 sample ≡ encode_c1c3c2 sample)
    × IsCiphertext sample
    × (on_curve sample.x sample.y ≡ true)
decode_c1c3c2_canonical_example =
    decode_c1c3c2_canonical (encode_c1c3c2 sample) sample raw_sample-IsBytes
      (decode_c1c3c2-encode_c1c3c2 sample sample-IsCiphertext sample_on_curve)

-- The coordinates 1 and 2, which need not be a point for the DER form.
abbrev small : Sm2Ciphertext
small = record {
  x = replicate 31 0 ++ (1 ∷ []);
  y = replicate 31 0 ++ (2 ∷ []);
  hash = replicate 32 7;
  ciphertext = 5 ∷ [];
}

abbrev small_der : List ℕ
small_der =
    0x30 ∷ 43 ∷ 0x02 ∷ 1 ∷ 1 ∷ 0x02 ∷ 1 ∷ 2 ∷ 0x04 ∷ 32 ∷ (replicate 32 7 ++ (0x04 ∷ 1 ∷ 5 ∷ []))

decode-small : Ciphertext.decode small_der ≡ some small
unfolding Ciphertext.decode read_field_element read_sequence read_octet_string read_integer
    unsigned_content read_tlv read_tag read_length from_be_onto
decode-small = refl

decode_canonical_example : (Ciphertext.encode small ≡ some small_der) × IsCiphertext small
decode_canonical_example = decode_canonical small_der small (omega arith) decode-small
