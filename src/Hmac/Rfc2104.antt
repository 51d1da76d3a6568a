-- ===== src/Hmac/Rfc2104.antt =====
-- hmac.rs against RFC 2104.
use gm_crypto_rs.Base.{ℕ, ◌+◌, ◌-◌, ltb, if◌then◌else◌, true, List, [], ◌∷◌, ◌++◌}
use gm_crypto_rs.Base.{length, replicate, foldl, flatten, xor_bytes, Subtle, IsBytes}
use gm_crypto_rs.Base.{◌≡◌, ◌↔◌, refl, sym, subst, ap, ◌∙◌, arith}
use gm_crypto_rs.Base.{Bool-cases, inl, inr, drop-replicate}
use gm_crypto_rs.Base.Stream.{copy_into}
use gm_crypto_rs.Sm3
use gm_crypto_rs.Sm3.{Sm3}
use gm_crypto_rs.Sm3.Digest.{reference, Holds, new-Holds, update-Holds}
use gm_crypto_rs.Sm3.Finalize.{finalize-Holds}
use gm_crypto_rs.Sm3.Streaming.{updates-Holds, hash-reference, reference-IsBytes}
use gm_crypto_rs.Hmac
use gm_crypto_rs.Hmac.{HmacSm3, k_prime, ipad_key, opad_key, hmac_sm3}

-- The key of the RFC: hashed if it is longer than a block, then zeros up to a block.
unfoldable pub block_key : List ℕ → List ℕ
block_key key =
    let short = if ltb 64 (length key) then reference key else key in
    short ++ replicate (64 - length short) 0

-- H(K' ^ opad, H(K' ^ ipad, text)).
unfoldable pub rfc2104 : List ℕ → List ℕ → List ℕ
rfc2104 key text = reference (
    xor_bytes (replicate 64 0x5c) (block_key key)
    ++ reference (xor_bytes (replicate 64 0x36) (block_key key) ++ text))

on_zeros : (xs : List ℕ) → copy_into (replicate 64 0) 0 xs ≡ xs ++ replicate (64 - length xs) 0
on_zeros xs =
    let same : 64 - (0 + length xs) ≡ 64 - length xs = omega arith in
    ap (λ t. xs ++ t)
      (drop-replicate {A = ℕ} (0 + length xs) 64 0 ∙ ap (λ m. replicate {A = ℕ} m 0) same)

k_prime-block_key : (key : List ℕ) → k_prime key ≡ block_key key
unfolding k_prime block_key
k_prime-block_key key = elim (Bool-cases (ltb 64 (length key))) [
  | inl long ↦ rw (long, hash-reference key) (on_zeros (reference key))
  | inr short ↦ rw short (on_zeros key)
]

two_updates :
    (first second : List ℕ)
    → Sm3.finalize (Sm3.update (Sm3.update Sm3.new first) second) ≡ reference (first ++ second)
two_updates first second =
    finalize-Holds (first ++ second) (Sm3.update (Sm3.update Sm3.new first) second) (
      update-Holds first second (Sm3.update Sm3.new first)
        (update-Holds [] first Sm3.new new-Holds))

-- For every key and message, of any length, `hmac_sm3` returns the MAC that RFC 2104 defines over
-- the hash of the standard.
pub hmac_sm3-rfc2104 : (key message : List ℕ) → hmac_sm3 key message ≡ rfc2104 key message
unfolding hmac_sm3 rfc2104
hmac_sm3-rfc2104 key message =
    two_updates (opad_key key)
      (Sm3.finalize (Sm3.update (Sm3.update Sm3.new (ipad_key key)) message))
    ∙ ap (λ t. reference (opad_key key ++ t)) (two_updates (ipad_key key) message)
    ∙ ap
        (λ k. reference (
          xor_bytes (replicate 64 0x5c) k
          ++ reference (xor_bytes (replicate 64 0x36) k ++ message)))
        (k_prime-block_key key)

updates_inner :
    (pieces : List (List ℕ)) (mac : HmacSm3)
    → foldl Hmac.update mac pieces
      ≡ record { inner = foldl Sm3.update mac.inner pieces; outer = mac.outer }
unfolding Hmac.update
updates_inner [] mac = refl
updates_inner (piece ∷ pieces) mac =
    updates_inner pieces (record mac { inner = Sm3.update mac.inner piece })

mac_value :
    (key : List ℕ) (pieces : List (List ℕ))
    → Hmac.finalize (foldl Hmac.update (Hmac.new key) pieces) ≡ rfc2104 key (flatten pieces)
unfolding Hmac.finalize Hmac.new rfc2104
mac_value key pieces =
    let text = flatten pieces in
    let inner = foldl Sm3.update (Sm3.update Sm3.new (ipad_key key)) pieces in
    let digest = Sm3.finalize inner in
    let inner_holds : Holds (ipad_key key ++ text) inner =
      updates-Holds pieces (ipad_key key) (Sm3.update Sm3.new (ipad_key key))
        (update-Holds [] (ipad_key key) Sm3.new new-Holds) in
    ap Hmac.finalize (updates_inner pieces (Hmac.new key))
    ∙ two_updates (opad_key key) digest
    ∙ ap (λ t. reference (opad_key key ++ t))
        (finalize-Holds (ipad_key key ++ text) inner inner_holds)
    ∙ ap
        (λ k.
          reference (
            xor_bytes (replicate 64 0x5c) k ++ reference (xor_bytes (replicate 64 0x36) k ++ text)))
        (k_prime-block_key key)

rfc2104-IsBytes : (key text : List ℕ) → IsBytes (rfc2104 key text)
unfolding rfc2104
rfc2104-IsBytes key text = reference-IsBytes _

-- A MAC fed its message in any pieces finalizes to the one-shot MAC of the whole message, and
-- `verify` accepts bytes exactly if they are that MAC.
pub streaming_mac :
    ⦃subtle : Subtle⦄ (key : List ℕ) (pieces : List (List ℕ)) (expected : List ℕ)
    → IsBytes expected
    → let mac = foldl Hmac.update (Hmac.new key) pieces in
      (Hmac.finalize mac ≡ hmac_sm3 key (flatten pieces))
      × ((Hmac.verify mac expected ≡ true) ↔ (hmac_sm3 key (flatten pieces) ≡ expected))
unfolding Hmac.verify
streaming_mac ⦃subtle⦄ key pieces expected h =
    let mac = foldl Hmac.update (Hmac.new key) pieces in
    let value : Hmac.finalize mac ≡ hmac_sm3 key (flatten pieces) =
      mac_value key pieces ∙ sym (hmac_sm3-rfc2104 key (flatten pieces)) in
    let bytes : IsBytes (Hmac.finalize mac) =
      subst IsBytes (sym (mac_value key pieces)) (rfc2104-IsBytes key (flatten pieces)) in
    let law = subtle.ct_eq_bytes_iff (Hmac.finalize mac) expected bytes h in
    (value, (λ accepted. sym value ∙ law.0 accepted, λ same. law.1 (value ∙ same)))
