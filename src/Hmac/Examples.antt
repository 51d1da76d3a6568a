-- ===== src/Hmac/Examples.antt =====
-- The theorems on HMAC-SM3 at concrete inputs.
use gm_crypto_rs.Base.{ℕ, ◌≡◌, ◌↔◌, true, List, [], ◌∷◌, flatten, foldl, arith}
use gm_crypto_rs.Base.Plain.{plain_subtle}
use gm_crypto_rs.Hmac
use gm_crypto_rs.Hmac.{hmac_sm3}
use gm_crypto_rs.Hmac.Rfc2104.{rfc2104, hmac_sm3-rfc2104, streaming_mac}

abbrev key : List ℕ
key = 1 ∷ 2 ∷ []

abbrev pieces : List (List ℕ)
pieces = (3 ∷ []) ∷ (4 ∷ 5 ∷ []) ∷ []

hmac_sm3_example : hmac_sm3 key (3 ∷ 4 ∷ []) ≡ rfc2104 key (3 ∷ 4 ∷ [])
hmac_sm3_example = hmac_sm3-rfc2104 key (3 ∷ 4 ∷ [])

streaming_mac_example :
    (Hmac.finalize (foldl Hmac.update (Hmac.new key) pieces) ≡ hmac_sm3 key (flatten pieces))
    × ((Hmac.verify (foldl Hmac.update (Hmac.new key) pieces) (7 ∷ []) ≡ true)
        ↔ (hmac_sm3 key (flatten pieces) ≡ 7 ∷ []))
streaming_mac_example = streaming_mac key pieces (7 ∷ []) (omega arith)
