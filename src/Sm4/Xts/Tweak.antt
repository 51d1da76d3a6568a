-- ===== src/Sm4/Xts/Tweak.antt =====
-- `mul_alpha` of sm4/mode_xts.rs: the multiplication of the tweak by x.
use gm_crypto_rs.Base.{ℕ, suc, ◌-◌, ◌*◌, ◌/◌, ◌%◌, ◌^◌, ◌<◌, bit_and}
use gm_crypto_rs.Base.{List, [], ◌∷◌, length, get_or, set, IsBytes}
use gm_crypto_rs.Base.{◌≡◌, refl, ap, ◌∙◌, arith, length-set, or-lt, and-lt, xor-lt}
use gm_crypto_rs.Sm4.Cipher.Inverse.{IsBlock}
use gm_crypto_rs.Sm4.Xts.{shift_bits, mul_alpha}

length-shift_bits : (carry : ℕ) (t : List ℕ) → length (shift_bits carry t).0 ≡ length t
unfolding shift_bits
length-shift_bits carry [] = refl
length-shift_bits carry (b ∷ t) = ap suc (length-shift_bits (bit_and b 1) t)

shift_bits-IsBytes : (carry : ℕ) (t : List ℕ) → IsBytes t → IsBytes (shift_bits carry t).0
unfolding shift_bits
shift_bits-IsBytes carry [] h = tt
shift_bits-IsBytes carry (b ∷ t) (hb, h) = (
  or-lt 8 (b / 2) (carry * 2 ^ 7 % 256) (omega arith) (omega arith),
  shift_bits-IsBytes (bit_and b 1) t h,
)

set_first-IsBytes : (t : List ℕ) (v : ℕ) → IsBytes t → v < 256 → IsBytes (set t 0 v)
set_first-IsBytes [] v h l = tt
set_first-IsBytes (b ∷ t) v (_, h) l = (l, h)

first_byte : (t : List ℕ) → IsBytes t → get_or t 0 0 < 256
first_byte [] h = omega arith
first_byte (b ∷ t) (hb, _) = hb

pub mul_alpha-IsBlock : (t : List ℕ) → IsBlock t → IsBlock (mul_alpha t)
unfolding mul_alpha
mul_alpha-IsBlock t h =
    let (shifted, carry) = shift_bits 0 t in
    let bytes = shift_bits-IsBytes 0 t h.bytes in
    record {
      width = length-set shifted 0 _ ∙ length-shift_bits 0 t ∙ h.width;
      bytes = set_first-IsBytes shifted _ bytes (
          xor-lt 8 (get_or shifted 0 0) (bit_and 0xE1 ((256 - carry) % 256))
            (first_byte shifted bytes)
            (and-lt 8 0xE1 ((256 - carry) % 256) (omega arith) (omega arith)));
    }
