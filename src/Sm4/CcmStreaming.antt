-- ===== src/Sm4/CcmStreaming.antt =====
-- sm4/ccm_streaming.rs: the buffering decryptor of CCM.
pub mod Verify
pub mod Encryptor
use gm_crypto_rs.Base.{
  ℕ, ◌+◌, ◌-◌, ◌^◌, ltb, leb, if◌then◌else◌, Bool, true, false, not, ◌&&◌, ◌||◌,
}
use gm_crypto_rs.Base.{
  List, [], ◌++◌, length, take, replicate, Option, some, none, ◌>>=◌, ◌>>◌, guard, Subtle,
}
use gm_crypto_rs.Base.Stream.{copy_into}
use gm_crypto_rs.Sm4.Cipher
use gm_crypto_rs.Sm4.Cipher.{Sm4Cipher}
use gm_crypto_rs.Sm4.Ccm.{
  contains, valid_tag_lens, min_nonce_len, max_nonce_len, payload_ceiling, decrypt_with_cipher,
}

pub record Sm4CcmDecryptor : Type 0 where
  pub cipher : Sm4Cipher
  pub nonce : List ℕ
  pub nonce_len : ℕ
  pub aad : List ℕ
  pub buf : List ℕ
  pub ceiling : ℕ
  pub overflowed : Bool

-- `checked_add` on `u64`, then the comparison with the ceiling.
unfoldable pub within_ceiling : Sm4CcmDecryptor → List ℕ → Bool
within_ceiling d chunk =
    let n = length d.buf + length chunk in leb n (2 ^ 64 - 1) && leb n d.ceiling

-- An overflow is latched: no later chunk is kept.
unfoldable pub update : Sm4CcmDecryptor → List ℕ → Sm4CcmDecryptor
update d chunk =
    if d.overflowed
    then d
    else if within_ceiling d chunk
    then record d { buf = d.buf ++ chunk }
    else record d { overflowed = true }

module _ ⦃subtle : Subtle⦄ where
  unfoldable pub new : List ℕ → List ℕ → List ℕ → Option Sm4CcmDecryptor
  new key nonce aad = do
    guard (not (ltb (length nonce) min_nonce_len || ltb max_nonce_len (length nonce)))
    some (record {
      cipher = Cipher.new key;
      nonce = copy_into (replicate 13 0) 0 nonce;
      nonce_len = length nonce;
      aad = aad;
      buf = [];
      ceiling = payload_ceiling (15 - length nonce);
      overflowed = false;
    })

  unfoldable pub finalize_verify : Sm4CcmDecryptor → List ℕ → Option (List ℕ)
  finalize_verify d tag = do
    guard (not (d.overflowed || not (contains valid_tag_lens (length tag))))
    decrypt_with_cipher d.cipher (take d.nonce_len d.nonce) d.aad d.buf tag
