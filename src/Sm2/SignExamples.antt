-- ===== src/Sm2/SignExamples.antt =====
-- The theorems on SM2 signatures at concrete inputs: the key and the nonce of GB/T 32918.5, A.2,
-- given by a source of random bytes that returns the same bytes on every call.
use gm_crypto_rs.Base.{true, ℕ, ◌≡◌, ◌+◌, refl, List, [], ◌∷◌, length, some, to_be, length-to_be}
use gm_crypto_rs.Base.{◌↔◌, ◌++◌, IsBytes, from_be, to_be-IsBytes, arith}
use gm_crypto_rs.Base.{subst, some-injective, for_range, from_be_onto, ◌≤◌}
use gm_crypto_rs.Base.Stream.{absorb, fill, stash, drain}
use gm_crypto_rs.Base.Chunks.{blocks}
use gm_crypto_rs.Sm3
use gm_crypto_rs.Sm3.{update, finalize, last_block, iv, state_bytes}
use gm_crypto_rs.Sm3.Compress.{compress}
use gm_crypto_rs.Base.Plain.{plain_subtle}
use gm_crypto_rs.Sm2.Field.{n}
use gm_crypto_rs.Sm2.Plain.{plain_bigint}
use gm_crypto_rs.Sm2.Point.{identity, generator, conditional_select, add, double, to_affine}
use gm_crypto_rs.Sm2.ScalarMul.{
  mul_g, mul_var, nibble, lookup, scan, build_comb_table, rows_after, double_row, multiples,
  running, double_window, lift_scalar, window_step,
}
use gm_crypto_rs.Sm2.Keys.{Sm2PrivateKey, public_key, from_point, from_bytes_be, to_bytes_be}
use gm_crypto_rs.Sm2.Keys.Range.{from_bytes_be_range}
use gm_crypto_rs.Sm2.Verify.Exact.{IsAccepted, verify_with_id-IsAccepted}
use gm_crypto_rs.Sm2.Sign.{
  TryCryptoRng, sign_raw_with_id, compute_z, message_scalar, sign_rounds, try_sign_once,
  sign_sampled, candidate, ct_or_else, pair_select, sample_nonzero_scalar, sample_rounds, is_nonce,
  sign_with_id,
}
use gm_crypto_rs.Sm2.Sign.Accepted.{HasNonce, sign_raw-HasNonce}
use gm_crypto_rs.Sm2.Verify.Steps.{affine_x}
use gm_crypto_rs.Sm2.Sign.Verified.{sign_with_id-verify_with_id}
use gm_crypto_rs.Sm2.Verify.{verify_with_id}

abbrev nonce_bytes : ℕ
nonce_bytes = 0x59276E27D506861A16680F3AD9C02DCCEF3CC1FA3CDBE4CE6D54B80DEAC1BC21

-- The state counts the calls.
instance abbrev fixed_source : TryCryptoRng ℕ
fixed_source = record {
  try_fill_bytes = λ calls len. (some (to_be len nonce_bytes), calls + 1);
  length-try_fill_bytes = λ calls len buf h.
      subst (λ b. length b ≡ len) (some-injective _ _ h) (length-to_be len nonce_bytes);
}

abbrev secret : ℕ
secret = 0x3945208F7B2144B13F36E38AC6D39F95889393692860B51A42FB81EF4DF7C5B8

abbrev key : Sm2PrivateKey
key = record {
  d = secret;
  public = record {
    x = 0x09F9DF311E5421A150DD7D161E4BC5C672179FAD1833FC076BB08FF356F35020;
    y = 0xCCEA490CE26775A52DC6EA718CC1AA600AED05FBF35E084A6632F6072DA9AD13;
    z = 1;
  };
}

-- "ALICE123@YAHOO.COM" and "message digest"
abbrev id : List ℕ
id = 65 ∷ 76 ∷ 73 ∷ 67 ∷ 69 ∷ 49 ∷ 50 ∷ 51 ∷ 64 ∷ 89 ∷ 65 ∷ 72 ∷ 79 ∷ 79 ∷ 46 ∷ 67 ∷ 79 ∷ 77 ∷ []

abbrev message : List ℕ
message = 109 ∷ 101 ∷ 115 ∷ 115 ∷ 97 ∷ 103 ∷ 101 ∷ 32 ∷ 100 ∷ 105 ∷ 103 ∷ 101 ∷ 115 ∷ 116 ∷ []

abbrev sample_r : ℕ
sample_r = 0xb0e3e7d4ac2178f833ad73fa9d1191e41c76c8bfedb5ad89040ba2e5184bde58

abbrev sample_s : ℕ
sample_s = 0xcc8d096578f7dd2669ac1ac42f7e722bcfa42b9e0be0b1b5df7ca0b53fdd5750

abbrev no_calls : ℕ
no_calls = 0

signed : sign_raw_with_id key id message no_calls ≡ some (some (sample_r, sample_s), 8)
unfolding sign_raw_with_id compute_z message_scalar sign_rounds try_sign_once sign_sampled candidate
    ct_or_else pair_select sample_nonzero_scalar sample_rounds is_nonce mul_g nibble lookup scan
    build_comb_table rows_after double_row multiples running double_window add double identity
    generator conditional_select to_affine to_be from_be_onto for_range public_key from_point
    Sm3.new update finalize last_block iv state_bytes compress absorb fill stash drain blocks
signed = refl

sign_raw-HasNonce_example :
    (z : List ℕ) × (compute_z (public_key key) id ≡ some z)
    × (length id ≤ 8191)
    × HasNonce key (message_scalar z message) (record { r = sample_r; s = sample_s })
sign_raw-HasNonce_example = sign_raw-HasNonce key id message no_calls 8 sample_r sample_s signed

abbrev t : ℕ
t = plain_bigint.fn_add sample_r sample_s

linear :
    affine_x (add (mul_g sample_s) (mul_var t key.public))
    ≡ affine_x (mul_g (plain_bigint.fn_add sample_s (plain_bigint.fn_mul t key.d)))
unfolding mul_g mul_var nibble lookup scan build_comb_table rows_after double_row multiples running
    double_window add double identity generator conditional_select to_affine to_be from_be_onto
    for_range lift_scalar window_step
linear = refl

sign_with_id-verify_with_id_example :
    (sig : List ℕ) × (sign_with_id key id message no_calls ≡ some (some sig, 8))
    × (verify_with_id (public_key key) id message sig ≡ some true)
sign_with_id-verify_with_id_example =
    sign_with_id-verify_with_id key id message no_calls 8 sample_r sample_s signed linear

-- The DER form of the two scalars.
abbrev sample_sig : List ℕ
sample_sig = 0x30 ∷ 70 ∷ (0x02 ∷ 33 ∷ 0 ∷ to_be 32 sample_r) ++ (0x02 ∷ 33 ∷ 0 ∷ to_be 32 sample_s)

sample_sig-IsBytes : IsBytes sample_sig
unfolding to_be
sample_sig-IsBytes = omega arith

verify_with_id-IsAccepted_example :
    (verify_with_id (public_key key) id message sample_sig ≡ some true)
    ↔ IsAccepted (public_key key) id message sample_sig
verify_with_id-IsAccepted_example =
    verify_with_id-IsAccepted (public_key key) id message sample_sig sample_sig-IsBytes

from_bytes_be_range_example : ((from_bytes_be (to_be 32 secret)).is_some ≡ true) ↔ (
    (1 ≤ from_be (to_be 32 secret))
    × (from_be (to_be 32 secret) + 2 ≤ n)
    × (to_bytes_be (from_bytes_be (to_be 32 secret)).value ≡ to_be 32 secret))
from_bytes_be_range_example =
    from_bytes_be_range (to_be 32 secret) (to_be-IsBytes 32 secret) (length-to_be 32 secret)
