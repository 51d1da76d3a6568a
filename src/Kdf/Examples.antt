-- ===== src/Kdf/Examples.antt =====
-- The theorems on PBKDF2 at concrete inputs.
use gm_crypto_rs.Base.{ℕ, ◌≡◌, List, [], ◌∷◌, some, arith, length}
use gm_crypto_rs.Kdf.{pbkdf2_hmac_sm3}
use gm_crypto_rs.Kdf.Reference.{rfc8018}
use gm_crypto_rs.Kdf.Rfc8018.{pbkdf2_hmac_sm3-rfc8018}

abbrev three : List ℕ
three = 0 ∷ 0 ∷ 0 ∷ []

pbkdf2_example :
    pbkdf2_hmac_sm3 (1 ∷ []) (2 ∷ []) 3 three ≡ some (rfc8018 (1 ∷ []) (2 ∷ []) 3 (length three))
pbkdf2_example =
    pbkdf2_hmac_sm3-rfc8018 (1 ∷ []) (2 ∷ []) 3 three (omega arith) (omega arith) (omega arith)
