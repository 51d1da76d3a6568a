-- ===== src/Hmac.antt =====
-- hmac.rs: HMAC-SM3, in one call and streaming. The wiping of the key buffers has no effect on the
-- results and is left out.
pub mod Rfc2104
mod Examples
use gm_crypto_rs.Base.{ℕ, ◌+◌, ltb, if◌then◌else◌, Bool, List, length, replicate, xor_bytes, Subtle}
use gm_crypto_rs.Base.Stream.{copy_into}
use gm_crypto_rs.Sm3
use gm_crypto_rs.Sm3.{Sm3}

-- `K'`: the key, or its hash if it is longer than a block, on 64 zero bytes.
unfoldable pub k_prime : List ℕ → List ℕ
k_prime key =
    if ltb 64 (length key)
    then copy_into (replicate 64 0) 0 (Sm3.hash key)
    else copy_into (replicate 64 0) 0 key

abbrev pub ipad_key : List ℕ → List ℕ
ipad_key key = xor_bytes (replicate 64 0x36) (k_prime key)

abbrev pub opad_key : List ℕ → List ℕ
opad_key key = xor_bytes (replicate 64 0x5c) (k_prime key)

unfoldable pub hmac_sm3 : List ℕ → List ℕ → List ℕ
hmac_sm3 key message =
    let inner_digest = Sm3.finalize (Sm3.update (Sm3.update Sm3.new (ipad_key key)) message) in
    Sm3.finalize (Sm3.update (Sm3.update Sm3.new (opad_key key)) inner_digest)

pub record HmacSm3 : Type 0 where
  pub inner : Sm3
  pub outer : Sm3

unfoldable pub new : List ℕ → HmacSm3
new key = record {
  inner = Sm3.update Sm3.new (ipad_key key);
  outer = Sm3.update Sm3.new (opad_key key);
}

unfoldable pub update : HmacSm3 → List ℕ → HmacSm3
update mac input = record mac { inner = Sm3.update mac.inner input }

unfoldable pub finalize : HmacSm3 → List ℕ
finalize mac =
    let inner_digest = Sm3.finalize mac.inner in Sm3.finalize (Sm3.update mac.outer inner_digest)

unfoldable pub verify : ⦃subtle : Subtle⦄ → HmacSm3 → List ℕ → Bool
verify ⦃subtle⦄ mac expected = subtle.ct_eq_bytes (finalize mac) expected
