-- ===== src/Kdf/Reference.antt =====
-- PBKDF2 as RFC 8018 defines it, and the iterations of kdf.rs against it.
use gm_crypto_rs.Base.{ℕ, zero, suc, ◌+◌, ◌-◌, ◌/◌}
use gm_crypto_rs.Base.{List, [], ◌++◌, length, take, xor_bytes, to_be, for_range}
use gm_crypto_rs.Base.{◌≡◌, ap, ◌∙◌, arith}
use gm_crypto_rs.Base.{length-xor_bytes}
use gm_crypto_rs.Hmac.Rfc2104.{rfc2104, hmac_sm3-rfc2104}
use gm_crypto_rs.Sm3.Streaming.{length-reference}
use gm_crypto_rs.Kdf.{rekey, derive_block}

-- U_(j + 1), from the salt and the block index.
pub u_value : List ℕ → List ℕ → ℕ → List ℕ
u_value password seed zero = rfc2104 password seed
u_value password seed (suc j) = rfc2104 password (u_value password seed j)

-- U_1 ^ ... ^ U_(j + 1)
unfoldable pub u_sum : List ℕ → List ℕ → ℕ → List ℕ
unfolding u_value
u_sum password seed zero = u_value password seed 0
u_sum password seed (suc j) = xor_bytes (u_sum password seed j) (u_value password seed (suc j))

-- F(P, S, c, i)
unfoldable pub f_block : List ℕ → List ℕ → ℕ → ℕ → List ℕ
unfolding u_sum
f_block password salt c i = u_sum password (salt ++ to_be 4 i) (c - 1)

-- T_i || ... || T_(i + n - 1)
unfoldable pub f_blocks : List ℕ → List ℕ → ℕ → ℕ → ℕ → List ℕ
unfolding f_block
f_blocks password salt c i zero = []
f_blocks password salt c i (suc n) = f_block password salt c i ++ f_blocks password salt c (i + 1) n

-- The first `dk_len` bytes of T_1 || ... || T_l.
unfoldable pub rfc8018 : List ℕ → List ℕ → ℕ → ℕ → List ℕ
unfolding f_blocks
rfc8018 password salt c dk_len = take dk_len (f_blocks password salt c 1 ((dk_len + 31) / 32))

length-rfc2104 : (key text : List ℕ) → length (rfc2104 key text) ≡ 32
unfolding rfc2104
length-rfc2104 key text = length-reference _

pub length-u_sum : (password seed : List ℕ) (j : ℕ) → length (u_sum password seed j) ≡ 32
unfolding u_sum u_value
length-u_sum password seed zero = length-rfc2104 password seed
length-u_sum password seed (suc j) =
    length-xor_bytes (u_sum password seed j) (u_value password seed (suc j))
    ∙ length-u_sum password seed j

rekey_loop :
    (password seed : List ℕ) (n i j : ℕ)
    → (for_range n i (rekey password) (u_sum password seed j, u_value password seed j)).0
      ≡ u_sum password seed (j + n)
unfolding for_range rekey u_sum u_value
rekey_loop password seed zero i j =
    let same : j ≡ j + 0 = omega arith in ap (u_sum password seed) same
rekey_loop password seed (suc n) i j =
    let same : suc j + n ≡ j + suc n = omega arith in
    ap (λ u. (for_range n (i + 1) (rekey password) (xor_bytes (u_sum password seed j) u, u)).0)
      (hmac_sm3-rfc2104 password (u_value password seed j))
    ∙ rekey_loop password seed n (i + 1) (suc j)
    ∙ ap (u_sum password seed) same

pub derive_block-u_sum :
    (password seed : List ℕ) (c : ℕ) → derive_block password c seed ≡ u_sum password seed (c - 1)
unfolding derive_block u_sum u_value
derive_block-u_sum password seed c =
    let same : 0 + (c - 1) ≡ c - 1 = omega arith in
    ap (λ u. (for_range (c - 1) 1 (rekey password) (u, u)).0) (hmac_sm3-rfc2104 password seed)
    ∙ rekey_loop password seed (c - 1) 1 0
    ∙ ap (u_sum password seed) same

pub length-f_block : (password salt : List ℕ) (c i : ℕ) → length (f_block password salt c i) ≡ 32
unfolding f_block
length-f_block password salt c i = length-u_sum password (salt ++ to_be 4 i) (c - 1)
