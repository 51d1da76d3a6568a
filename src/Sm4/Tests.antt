-- ===== src/Sm4/Tests.antt =====
-- Runs of sm4/cipher.rs on the standard's vector.
use gm_crypto_rs.Base.{ℕ, ◌≡◌, refl, List, [], ◌∷◌, for_range, to_be, from_be_onto}
use gm_crypto_rs.Base.Plain.{plain_subtle}
use gm_crypto_rs.Sm4.Cipher.{sbox_ct, s_box, ck, new, encrypt_block}
use gm_crypto_rs.Sm4.Cipher.{
  tau, l_round, l_prime, t_round, t_prime, key_round, crypt_round, round_key, crypt, fk,
}

ck_0 : ck 0 ≡ 0x0007_0e15
unfolding ck for_range
ck_0 = refl

ck_31 : ck 31 ≡ 0x646b_7279
unfolding ck for_range
ck_31 = refl

sbox_ef : sbox_ct 0xef ≡ 0x84
unfolding sbox_ct for_range s_box
sbox_ef = refl

-- The key and the plaintext of GB/T 32907-2016, appendix A.1.
abbrev sample : List ℕ
sample =
    0x01 ∷ 0x23 ∷ 0x45 ∷ 0x67 ∷ 0x89 ∷ 0xab ∷ 0xcd ∷ 0xef ∷ 0xfe ∷ 0xdc ∷ 0xba ∷ 0x98 ∷ 0x76 ∷ 0x54
    ∷ 0x32 ∷ 0x10 ∷ []

standard_vector :
    encrypt_block (new sample) sample
    ≡ 0x68 ∷ 0x1e ∷ 0xdf ∷ 0x34 ∷ 0xd2 ∷ 0x06 ∷ 0x96 ∷ 0x5e ∷ 0x86 ∷ 0xb3 ∷ 0xe9 ∷ 0x4f ∷ 0x53
      ∷ 0x6e ∷ 0x42 ∷ 0x46 ∷ []
unfolding new encrypt_block crypt crypt_round round_key key_round t_round t_prime l_round l_prime
    tau sbox_ct s_box ck fk for_range to_be from_be_onto
standard_vector = refl
