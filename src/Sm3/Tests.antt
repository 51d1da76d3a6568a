-- ===== src/Sm3/Tests.antt =====
-- Runs of sm3.rs.
use gm_crypto_rs.Base.{◌≡◌, refl, [], ◌∷◌, for_range, to_be, from_be_onto}
use gm_crypto_rs.Base.Chunks.{blocks}
use gm_crypto_rs.Base.Stream.{fill, stash, drain, absorb}
use gm_crypto_rs.Sm3.{hash, new, update, finalize, last_block, iv, state_bytes}
use gm_crypto_rs.Sm3.Compress.{compress}

hash_abc :
    hash (b'a' ∷ b'b' ∷ b'c' ∷ [])
    ≡ 0x66 ∷ 0xc7 ∷ 0xf0 ∷ 0xf4 ∷ 0x62 ∷ 0xee ∷ 0xed ∷ 0xd9 ∷ 0xd1 ∷ 0xf2 ∷ 0xd4 ∷ 0x6b ∷ 0xdc
      ∷ 0x10 ∷ 0xe4 ∷ 0xe2 ∷ 0x41 ∷ 0x67 ∷ 0xc4 ∷ 0x87 ∷ 0x5c ∷ 0xf2 ∷ 0xf7 ∷ 0xa2 ∷ 0x29 ∷ 0x7d
      ∷ 0xa0 ∷ 0x2b ∷ 0x8f ∷ 0x4b ∷ 0xa8 ∷ 0xe0 ∷ []
unfolding hash new update finalize last_block iv state_bytes compress absorb fill stash drain blocks
    for_range to_be from_be_onto
hash_abc = refl
