-- ===== src/Sm4/GcmTests.antt =====
-- A run of sm4/mode_gcm.rs on the vector of RFC 8998, appendix A.1.
use gm_crypto_rs.Base.{
  ℕ, ◌≡◌, refl, List, [], ◌∷◌, some, for_range, to_be, from_be_onto, to_le, from_le,
}
use gm_crypto_rs.Base.Plain.{plain_subtle}
use gm_crypto_rs.Base.Chunks.{blocks}
use gm_crypto_rs.Sm4.Cipher.{sbox_ct, s_box, ck, new, encrypt_block, encrypt_blocks}
use gm_crypto_rs.Sm4.Cipher.{
  tau, l_round, l_prime, t_round, t_prime, key_round, crypt_round, round_key, crypt, fk,
}
use gm_crypto_rs.Sm4.Ccm.{zero_pad}
use gm_crypto_rs.Sm4.Ctr.{mask_bytes}
use gm_crypto_rs.Sm4.Ghash.{
  exchange, reverse_byte, load_natural, store_natural, mul_round, ghash_mul_software,
}
use gm_crypto_rs.Sm4.Gcm
use gm_crypto_rs.Sm4.Gcm.{
  inc32, counter_run, bit_len, ghash, derive_j0, ghash_a_c_lens, gctr, full_tag,
}

abbrev sample : List ℕ
sample =
    0x01 ∷ 0x23 ∷ 0x45 ∷ 0x67 ∷ 0x89 ∷ 0xab ∷ 0xcd ∷ 0xef ∷ 0xfe ∷ 0xdc ∷ 0xba ∷ 0x98 ∷ 0x76 ∷ 0x54
    ∷ 0x32 ∷ 0x10 ∷ []

abbrev nonce : List ℕ
nonce = 0x00 ∷ 0x00 ∷ 0x12 ∷ 0x34 ∷ 0x56 ∷ 0x78 ∷ 0x00 ∷ 0x00 ∷ 0x00 ∷ 0x00 ∷ 0xab ∷ 0xcd ∷ []

abbrev aad : List ℕ
aad =
    0xfe ∷ 0xed ∷ 0xfa ∷ 0xce ∷ 0xde ∷ 0xad ∷ 0xbe ∷ 0xef ∷ 0xfe ∷ 0xed ∷ 0xfa ∷ 0xce ∷ 0xde ∷ 0xad
    ∷ 0xbe ∷ 0xef ∷ 0xab ∷ 0xad ∷ 0xda ∷ 0xd2 ∷ []

abbrev plaintext : List ℕ
plaintext =
    0xaa ∷ 0xaa ∷ 0xaa ∷ 0xaa ∷ 0xaa ∷ 0xaa ∷ 0xaa ∷ 0xaa ∷ 0xbb ∷ 0xbb ∷ 0xbb ∷ 0xbb ∷ 0xbb ∷ 0xbb
    ∷ 0xbb ∷ 0xbb ∷ 0xcc ∷ 0xcc ∷ 0xcc ∷ 0xcc ∷ 0xcc ∷ 0xcc ∷ 0xcc ∷ 0xcc ∷ 0xdd ∷ 0xdd ∷ 0xdd
    ∷ 0xdd ∷ 0xdd ∷ 0xdd ∷ 0xdd ∷ 0xdd ∷ 0xee ∷ 0xee ∷ 0xee ∷ 0xee ∷ 0xee ∷ 0xee ∷ 0xee ∷ 0xee
    ∷ 0xff ∷ 0xff ∷ 0xff ∷ 0xff ∷ 0xff ∷ 0xff ∷ 0xff ∷ 0xff ∷ 0xee ∷ 0xee ∷ 0xee ∷ 0xee ∷ 0xee
    ∷ 0xee ∷ 0xee ∷ 0xee ∷ 0xaa ∷ 0xaa ∷ 0xaa ∷ 0xaa ∷ 0xaa ∷ 0xaa ∷ 0xaa ∷ 0xaa ∷ []

abbrev ciphertext : List ℕ
ciphertext =
    0x17 ∷ 0xf3 ∷ 0x99 ∷ 0xf0 ∷ 0x8c ∷ 0x67 ∷ 0xd5 ∷ 0xee ∷ 0x19 ∷ 0xd0 ∷ 0xdc ∷ 0x99 ∷ 0x69 ∷ 0xc4
    ∷ 0xbb ∷ 0x7d ∷ 0x5f ∷ 0xd4 ∷ 0x6f ∷ 0xd3 ∷ 0x75 ∷ 0x64 ∷ 0x89 ∷ 0x06 ∷ 0x91 ∷ 0x57 ∷ 0xb2
    ∷ 0x82 ∷ 0xbb ∷ 0x20 ∷ 0x07 ∷ 0x35 ∷ 0xd8 ∷ 0x27 ∷ 0x10 ∷ 0xca ∷ 0x5c ∷ 0x22 ∷ 0xf0 ∷ 0xcc
    ∷ 0xfa ∷ 0x7c ∷ 0xbf ∷ 0x93 ∷ 0xd4 ∷ 0x96 ∷ 0xac ∷ 0x15 ∷ 0xa5 ∷ 0x68 ∷ 0x34 ∷ 0xcb ∷ 0xcf
    ∷ 0x98 ∷ 0xc3 ∷ 0x97 ∷ 0xb4 ∷ 0x02 ∷ 0x4a ∷ 0x26 ∷ 0x91 ∷ 0x23 ∷ 0x3b ∷ 0x8d ∷ []

abbrev tag : List ℕ
tag =
    0x83 ∷ 0xde ∷ 0x35 ∷ 0x41 ∷ 0xe4 ∷ 0xc2 ∷ 0xb5 ∷ 0x81 ∷ 0x77 ∷ 0xe0 ∷ 0x65 ∷ 0xa9 ∷ 0xbf ∷ 0x7b
    ∷ 0x62 ∷ 0xec ∷ []

rfc8998_vector : Gcm.encrypt sample nonce aad plaintext ≡ some (ciphertext, tag)
unfolding Gcm.encrypt full_tag gctr ghash_a_c_lens derive_j0 ghash bit_len counter_run inc32
    ghash_mul_software mul_round store_natural load_natural reverse_byte exchange mask_bytes
    zero_pad blocks encrypt_blocks new encrypt_block crypt crypt_round round_key key_round t_round
    t_prime l_round l_prime tau sbox_ct s_box ck fk for_range to_be from_be_onto to_le from_le
rfc8998_vector = refl
