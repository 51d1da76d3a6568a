-- ===== src/Asn1/Ciphertext.antt =====
-- asn1/ciphertext.rs: the DER form of an SM2 ciphertext. The panics of the writers are `none`.
pub mod Codec
use gm_crypto_rs.Base.{ℕ, ltb, ◌==◌, not, List, [], length}
use gm_crypto_rs.Base.{if◌then◌else◌, Option, none, some, ◌>>=◌, ◌>>◌, guard}
use gm_crypto_rs.Asn1.Reader.{read_integer, read_octet_string, read_sequence, is_empty}
use gm_crypto_rs.Asn1.Pad.{pad_32}
use gm_crypto_rs.Asn1.Writer.{write_integer, write_octet_string, write_sequence}
use gm_crypto_rs.Sm2.Field.{CryptoBigint, p}

pub record Sm2Ciphertext : Type 0 where
  pub x : List ℕ
  pub y : List ℕ
  pub hash : List ℕ
  pub ciphertext : List ℕ

unfoldable pub encode : Sm2Ciphertext → Option (List ℕ)
encode ct = do
  body ← write_integer [] ct.x
  body ← write_integer body ct.y
  body ← write_octet_string body ct.hash
  body ← write_octet_string body ct.ciphertext
  write_sequence [] body

module _ ⦃big : CryptoBigint⦄ where
  open big use {from_be_slice, ct_lt}

  unfoldable pub read_field_element : List ℕ → Option (List ℕ × List ℕ)
  read_field_element input = do
    (bytes, rest) ← read_integer input
    guard (not (ltb 32 (length bytes)))
    guard (ct_lt (from_be_slice (pad_32 bytes)) p)
    some (pad_32 bytes, rest)

  unfoldable pub decode : List ℕ → Option Sm2Ciphertext
  decode input = do
    (body, rest) ← read_sequence input
    guard (is_empty rest)
    (x, body) ← read_field_element body
    (y, body) ← read_field_element body
    (hash_bytes, body) ← read_octet_string body
    (ciphertext, body) ← read_octet_string body
    guard (is_empty body)
    guard (length hash_bytes == 32)
    some (record { x = x; y = y; hash = hash_bytes; ciphertext = ciphertext })
