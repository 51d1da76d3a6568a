-- ===== src/Sm4/Ghash.antt =====
-- The multiplication of GHASH, ghash/software.rs of crates/gmcrypto-simd: what `ghash_mul` calls on
-- a machine without the instructions for it.
use native.Mathlib.Nat.{div-le_self}
use gm_crypto_rs.Base.{ℕ, zero, suc, ◌-◌, ◌*◌, ◌/◌, ◌%◌, ◌^◌, ◌<◌, ◌⊕◌, bit_and, bit_or}
use gm_crypto_rs.Base.{List, length, map, to_le, from_le, for_range, IsByte, IsBytes}
use gm_crypto_rs.Base.{◌≡◌, refl, ap, arith, or-lt, and-lt}
use gm_crypto_rs.Sm4.Cipher.Inverse.{IsBlock}

-- One of the three exchanges of `reverse_byte`: the bits under the two masks, by `k`.
unfoldable pub exchange : ℕ → ℕ → ℕ → ℕ → ℕ
exchange high low k b = bit_or (bit_and b high / 2 ^ k) (bit_and b low * 2 ^ k % 256)

unfoldable pub reverse_byte : ℕ → ℕ
reverse_byte b = exchange 0xAA 0x55 1 (exchange 0xCC 0x33 2 (exchange 0xF0 0x0F 4 b))

unfoldable pub load_natural : List ℕ → ℕ
load_natural b = from_le (map reverse_byte b)

unfoldable pub store_natural : ℕ → List ℕ
store_natural v = map reverse_byte (to_le 16 v)

-- The pair is `v` and `z`.
unfoldable pub mul_round : ℕ → ℕ → ℕ × ℕ → ℕ × ℕ
mul_round x_nat i (v, z) =
    let x_bit = bit_and (x_nat / 2 ^ i) 1 in
    let mask = (2 ^ 128 - x_bit) % 2 ^ 128 in
    let carry = bit_and (v / 2 ^ 127) 1 in
    (v * 2 % 2 ^ 128 ⊕ bit_and 0x87 ((2 ^ 128 - carry) % 2 ^ 128), z ⊕ bit_and v mask)

unfoldable pub ghash_mul_software : List ℕ → List ℕ → List ℕ
ghash_mul_software h x =
    let (_, z) = for_range 128 0 (mul_round (load_natural x)) (load_natural h, 0) in store_natural z

exchange-lt : (high low k b : ℕ) → high < 256 → b < 256 → exchange high low k b < 256
unfolding exchange
exchange-lt high low k b hh hb =
    let kept : bit_and b high < 256 = and-lt 8 b high hb hh in
    or-lt 8 (bit_and b high / 2 ^ k) (bit_and b low * 2 ^ k % 256)
      (omega (arith, kept, div-le_self (bit_and b high) (2 ^ k))) (omega arith)

reverse_byte-IsByte : (b : ℕ) → IsByte b → IsByte (reverse_byte b)
unfolding reverse_byte
reverse_byte-IsByte b h =
    exchange-lt 0xAA 0x55 1 _ (omega arith)
      (exchange-lt 0xCC 0x33 2 _ (omega arith) (exchange-lt 0xF0 0x0F 4 b (omega arith) h))

reversed-IsBytes : (n v : ℕ) → IsBytes (map reverse_byte (to_le n v))
unfolding to_le
reversed-IsBytes zero v = tt
reversed-IsBytes (suc n) v =
    (reverse_byte-IsByte (v % 256) (omega arith), reversed-IsBytes n (v / 256))

length-reversed : (n v : ℕ) → length (map reverse_byte (to_le n v)) ≡ n
unfolding to_le
length-reversed zero v = refl
length-reversed (suc n) v = ap suc (length-reversed n (v / 256))

pub ghash_mul_software-IsBlock : (h x : List ℕ) → IsBlock (ghash_mul_software h x)
unfolding ghash_mul_software store_natural
ghash_mul_software-IsBlock h x =
    let z = (for_range 128 0 (mul_round (load_natural x)) (load_natural h, 0)).1 in
    record { width = length-reversed 16 z; bytes = reversed-IsBytes 16 z }
