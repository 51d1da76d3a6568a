-- ===== src/Sm3/Examples.antt =====
-- The theorem on SM3 at a concrete input.
use gm_crypto_rs.Base.{ℕ, ◌≡◌, List, [], ◌∷◌, flatten, foldl}
use gm_crypto_rs.Sm3.{new, update, finalize}
use gm_crypto_rs.Sm3.Digest.{reference}
use gm_crypto_rs.Sm3.Streaming.{finalize_pieces}

abbrev pieces : List (List ℕ)
pieces = (1 ∷ 2 ∷ 3 ∷ []) ∷ [] ∷ (4 ∷ []) ∷ []

finalize_pieces_example : finalize (foldl update new pieces) ≡ reference (flatten pieces)
finalize_pieces_example = finalize_pieces pieces
