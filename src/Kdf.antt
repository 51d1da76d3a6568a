-- ===== src/Kdf.antt =====
-- kdf.rs: PBKDF2-HMAC-SM3. The output slice is a list that is written in place.
pub mod Reference
pub mod Rfc8018
mod Examples
use gm_crypto_rs.Base.{ℕ, ◌+◌, ◌-◌, ◌*◌, ◌/◌, ◌%◌, ◌^◌, min, ltb, ◌==◌, not, ◌||◌, List, [], ◌++◌}
use gm_crypto_rs.Base.{length, take, replicate, xor_bytes, to_be, for_range, Option, none, some}
use gm_crypto_rs.Base.{◌>>=◌, ◌>>◌, guard}
use gm_crypto_rs.Base.Stream.{copy_into}
use gm_crypto_rs.Hmac.{hmac_sm3}

-- One more `U_j`, folded into `T_i`.
unfoldable pub rekey : List ℕ → ℕ → List ℕ × List ℕ → List ℕ × List ℕ
rekey password j (t, u) = let u = hmac_sm3 password u in (xor_bytes t u, u)

-- `T_i`, from the message of the first HMAC call.
unfoldable pub derive_block : List ℕ → ℕ → List ℕ → List ℕ
derive_block password iterations salt_with_counter =
    let u = hmac_sm3 password salt_with_counter in
    (for_range (iterations - 1) 1 (rekey password) (u, u)).0

-- The body of the loop over the blocks, on the scratch buffer and the output.
unfoldable pub block_round : List ℕ → ℕ → ℕ → ℕ → List ℕ × List ℕ → List ℕ × List ℕ
block_round password iterations counter_offset block_index (salt_with_counter, output) =
    let salt_with_counter = copy_into salt_with_counter counter_offset (to_be 4 block_index) in
    let t = derive_block password iterations salt_with_counter in
    let block_start = (block_index - 1) * 32 in
    let block_end = min (block_start + 32) (length output) in
    (salt_with_counter, copy_into output block_start (take (block_end - block_start) t))

unfoldable pub pbkdf2_hmac_sm3 : List ℕ → List ℕ → ℕ → List ℕ → Option (List ℕ)
pbkdf2_hmac_sm3 password salt iterations output = do
  guard (not (iterations == 0 || length output == 0))
  guard (not (ltb (32 * (2 ^ 32 - 1)) (length output)))
  let l = (length output + 31) / 32 % 2 ^ 32
  let result =
      for_range l 1 (block_round password iterations (length salt)) (salt ++ replicate 4 0, output)
  some result.1
