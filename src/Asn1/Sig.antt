-- ===== src/Asn1/Sig.antt =====
-- asn1/sig.rs: the DER form of an SM2 signature, two scalars of 32 bytes.
pub mod Codec
use gm_crypto_rs.Base.{ℕ, ltb, ◌==◌, not, List, [], ◌∷◌, ◌++◌, length}
use gm_crypto_rs.Base.{if◌then◌else◌, Bool, true, false, Option, none, some, ◌>>=◌, ◌>>◌, guard}
use gm_crypto_rs.Asn1.Reader.{read_integer, read_sequence, is_empty}
use gm_crypto_rs.Asn1.Pad.{pad_32}
use gm_crypto_rs.Asn1.Writer.{write_integer, write_sequence}

unfoldable pub encode_sig : List ℕ → List ℕ → Option (List ℕ)
encode_sig r s = do body ← write_integer [] r; body ← write_integer body s; write_sequence [] body

-- `bytes == [0x00]`
abbrev pub is_zero_content : List ℕ → Bool
is_zero_content [] = false
is_zero_content (b ∷ []) = b == 0x00
is_zero_content (b ∷ c ∷ rest) = false

unfoldable pub read_scalar_in_range : List ℕ → Option (List ℕ × List ℕ)
read_scalar_in_range input = do
  (bytes, rest) ← read_integer input
  if is_zero_content bytes
      then none
      else if ltb 32 (length bytes)
      then none
      else some (pad_32 bytes, rest)

unfoldable pub decode_sig : List ℕ → Option (List ℕ × List ℕ)
decode_sig input = do
  (body, rest) ← read_sequence input
  guard (is_empty rest)
  (r, body) ← read_scalar_in_range body
  (s, body) ← read_scalar_in_range body
  guard (is_empty body)
  some (r, s)
