-- ===== src/Sm3/Streaming.antt =====
-- sm3.rs: `update` on a message in pieces, and the one-shot `hash`.
use gm_crypto_rs.Base.{
  List, [], ◌∷◌, ◌++◌, foldl, flatten, length, ◌≡◌, sym, append_assoc, append-nil, ℕ, refl, subst,
  to_be, IsBytes, arith,
}
use gm_crypto_rs.Sm3.{Sm3, new, update, finalize, hash, state_bytes}
use gm_crypto_rs.Sm3.Digest.{reference, Holds, new-Holds, update-Holds}
use gm_crypto_rs.Sm3.Finalize.{finalize-Holds}

pub updates-Holds :
    (pieces : List (List ℕ)) (message : List ℕ) (s : Sm3)
    → Holds message s
    → Holds (message ++ flatten pieces) (foldl update s pieces)
unfolding flatten
updates-Holds [] message s h = subst (λ m. Holds m s) (sym (append-nil message)) h
updates-Holds (piece ∷ pieces) message s h =
    subst (λ m. Holds m (foldl update s (piece ∷ pieces)))
      (append_assoc message piece (flatten pieces))
      (updates-Holds pieces (message ++ piece) (update s piece) (update-Holds message piece s h))

-- For every list of pieces, a hasher fed the pieces by `update` and then finalized returns the
-- digest that the standard defines for their concatenation: the message padded with a bit 1,
-- zeros and its length in bits (modulo 2^64), compressed block by block from the initial value.
pub finalize_pieces :
    (pieces : List (List ℕ)) → finalize (foldl update new pieces) ≡ reference (flatten pieces)
finalize_pieces pieces =
    finalize-Holds (flatten pieces) (foldl update new pieces)
      (updates-Holds pieces [] new new-Holds)

-- The one-shot function is the same hash.
pub hash-reference : (message : List ℕ) → hash message ≡ reference message
unfolding hash
hash-reference message =
    finalize-Holds message (update new message) (update-Holds [] message new new-Holds)

pub length-reference : (message : List ℕ) → length (reference message) ≡ 32
unfolding reference state_bytes to_be
length-reference message = refl

pub reference-IsBytes : (message : List ℕ) → IsBytes (reference message)
unfolding reference state_bytes to_be
reference-IsBytes message = omega arith
