-- ===== src/Base/Words.antt =====
-- The operations of `u32` and of the byte arrays.
use Prim.Native.Nat.{ℕ, suc, ◌+◌, ◌-◌, ◌*◌, ◌/◌, ◌%◌, ◌^◌, ◌<◌, bit_xor}
use mathlib.Core.Path.{◌≡◌, refl, ap, ap₂}
use mathlib.Core.List.{List, [], ◌∷◌}
use gm_crypto_rs.Base.Lists.{length}
use gm_crypto_rs.Base.Bytes.{IsBytes}
use gm_crypto_rs.Base.Bits.{xor-lt, xor_cancel}

abbrev pub IsU32 : ℕ → Type 0
IsU32 w = w < 2 ^ 32

infixl 60 ◌⊕◌
abbrev pub ◌⊕◌ : ℕ → ℕ → ℕ
a ⊕ b = bit_xor a b

-- `a.wrapping_add(b)` on `u32`.
abbrev pub wrapping_add : ℕ → ℕ → ℕ
wrapping_add a b = (a + b) % 2 ^ 32

-- `x.rotate_left(k)` on `u32`, for `k` up to 32.
abbrev pub rotate_left : ℕ → ℕ → ℕ
rotate_left x k = x * 2 ^ k % 2 ^ 32 + x / 2 ^ (32 - k)

-- `!x` on `u32`.
abbrev pub not_u32 : ℕ → ℕ
not_u32 x = 2 ^ 32 - 1 - x

-- Byte by byte, `a[i] ^= b[i]`; what is over of `a` stays.
abbrev pub xor_bytes : List ℕ → List ℕ → List ℕ
xor_bytes [] bs = []
xor_bytes (a ∷ as') [] = a ∷ as'
xor_bytes (a ∷ as') (b ∷ bs) = (a ⊕ b) ∷ xor_bytes as' bs

pub length-xor_bytes : (xs ys : List ℕ) → length (xor_bytes xs ys) ≡ length xs
length-xor_bytes [] ys = refl
length-xor_bytes (x ∷ xs) [] = refl
length-xor_bytes (x ∷ xs) (y ∷ ys) = ap suc (length-xor_bytes xs ys)

pub xor_bytes-IsBytes : (xs ys : List ℕ) → IsBytes xs → IsBytes ys → IsBytes (xor_bytes xs ys)
xor_bytes-IsBytes [] ys h k = tt
xor_bytes-IsBytes (x ∷ xs) [] h k = h
xor_bytes-IsBytes (x ∷ xs) (y ∷ ys) (hx, h) (hy, k) =
    (xor-lt 8 x y hx hy, xor_bytes-IsBytes xs ys h k)

-- Masking twice with the same bytes gives the bytes back.
pub xor_bytes_cancel : (xs ys : List ℕ) → xor_bytes (xor_bytes xs ys) ys ≡ xs
xor_bytes_cancel [] ys = refl
xor_bytes_cancel (x ∷ xs) [] = refl
xor_bytes_cancel (x ∷ xs) (y ∷ ys) = ap₂ ◌∷◌ (xor_cancel x y) (xor_bytes_cancel xs ys)
