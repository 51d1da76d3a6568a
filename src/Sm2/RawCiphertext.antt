-- ===== src/Sm2/RawCiphertext.antt =====
-- sm2/raw_ciphertext.rs: the raw byte forms: point, hash, body, and for decoding point, body, hash.
pub mod Codec
use gm_crypto_rs.Base.{ℕ, ◌+◌, ◌-◌, ltb, ◌==◌, not, List, [], ◌∷◌, ◌++◌, length, get_or, take, drop}
use gm_crypto_rs.Base.{Option, none, some, ◌>>=◌, ◌>>◌, guard}
use gm_crypto_rs.Asn1.Ciphertext.{Sm2Ciphertext}
use gm_crypto_rs.Sm2.Field.{CryptoBigint, p}
use gm_crypto_rs.Sm2.Curve.{point_on_curve}

abbrev pub c1_len : ℕ
c1_len = 65

abbrev pub c3_len : ℕ
c3_len = 32

abbrev pub sec1_uncompressed : ℕ
sec1_uncompressed = 0x04

-- `&input[i..j]`
abbrev slice : List ℕ → ℕ → ℕ → List ℕ
slice input i j = take (j - i) (drop i input)

unfoldable pub encode_c1c3c2 : Sm2Ciphertext → List ℕ
encode_c1c3c2 ct = ((((sec1_uncompressed ∷ []) ++ ct.x) ++ ct.y) ++ ct.hash) ++ ct.ciphertext

module _ ⦃big : CryptoBigint⦄ where
  open big use {from_be_slice, ct_lt, fp_new}

  unfoldable pub read_field_element : List ℕ → Option (List ℕ)
  read_field_element bytes = do
    guard (length bytes == 32)
    guard (ct_lt (from_be_slice bytes) p)
    some bytes

  unfoldable pub split_c1_c3_c2 : List ℕ → Option (List ℕ × List ℕ × List ℕ × List ℕ)
  split_c1_c3_c2 input = do
    guard (not (ltb (length input) (c1_len + c3_len)))
    guard (get_or input 0 0 == sec1_uncompressed)
    x ← read_field_element (slice input 1 33)
    y ← read_field_element (slice input 33 65)
    guard (point_on_curve (fp_new (from_be_slice x)) (fp_new (from_be_slice y)))
    let c3 = slice input c1_len (c1_len + c3_len)
    let c2 = drop (c1_len + c3_len) input
    some (x, y, c3, c2)

  unfoldable pub decode_c1c3c2 : List ℕ → Option Sm2Ciphertext
  decode_c1c3c2 input = do
    (x, y, c3, c2) ← split_c1_c3_c2 input
    some (record { x = x; y = y; hash = c3; ciphertext = c2 })

  unfoldable pub decode_c1c2c3_legacy : List ℕ → Option Sm2Ciphertext
  decode_c1c2c3_legacy input = do
    guard (not (ltb (length input) (c1_len + c3_len)))
    guard (get_or input 0 0 == sec1_uncompressed)
    x ← read_field_element (slice input 1 33)
    y ← read_field_element (slice input 33 65)
    guard (point_on_curve (fp_new (from_be_slice x)) (fp_new (from_be_slice y)))
    let c2_len = length input - c1_len - c3_len
    let c2 = slice input c1_len (c1_len + c2_len)
    let c3 = drop (c1_len + c2_len) input
    some (record { x = x; y = y; hash = c3; ciphertext = c2 })
