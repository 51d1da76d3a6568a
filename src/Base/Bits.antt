-- ===== src/Base/Bits.antt =====
-- The laws of `^` on machine words, at every width, from the equation for the lowest digit.
use Prim.Native.Nat.{ℕ, zero, suc, ◌+◌, ◌*◌, ◌/◌, ◌%◌, ◌^◌, ◌≤◌, ◌<◌, bit_and, bit_or, bit_xor}
use Prim.Native.Nat.{differ, digits, bitwise, min, max}
use Prim.Native.Nat.{bit_xor-bitwise, bit_and-bitwise, bit_or-bitwise}
use mathlib.Core.Path.{◌≡◌, refl, sym, ap, ◌∙◌}
use native.Mathlib.Nat.{pow-suc}
use mathlib.Core.Bool.{Bool, true, ◌&&◌}
use native.Mathlib.Omega.{arith}
use gm_crypto_rs.Base.Tests.{◌==◌}

-- `bitwise` recurses on binary digits with its first argument as fuel; any larger fuel will do.
module _ (on_zero : ℕ → ℕ) (on_digits : ℕ → ℕ → ℕ) where
  fuel_free :
      (bound fuel x y : ℕ)
      → fuel ≤ bound
      → x ≤ fuel
      → digits on_zero on_digits fuel x y ≡ bitwise on_zero on_digits x y
  fuel_free bound zero zero y l h = refl
  fuel_free bound zero (suc x) y l h = absurd (omega arith)
  fuel_free bound (suc fuel) zero y l h = refl
  fuel_free zero (suc fuel) (suc x) y l h = absurd (omega arith)
  fuel_free (suc bound) (suc fuel) (suc x) y l h =
      let half : ℕ = suc x / 2 in
      omega (
        arith,
        fuel_free bound fuel half (y / 2) (omega arith) (omega arith),
        fuel_free bound x half (y / 2) (omega arith) (omega arith),
      )

  lowest_digit :
      (x y : ℕ)
      → bitwise on_zero on_digits (suc x) y
        ≡ on_digits (suc x % 2) (y % 2) + 2 * bitwise on_zero on_digits (suc x / 2) (y / 2)
  lowest_digit x y = omega (arith, fuel_free x x (suc x / 2) (y / 2) (omega arith) (omega arith))

pub xor_digits : (x y : ℕ) → bit_xor x y ≡ differ (x % 2) (y % 2) + 2 * bit_xor (x / 2) (y / 2)
xor_digits zero y = simp bit_xor-bitwise (omega arith)
xor_digits (suc x) y = simp bit_xor-bitwise (lowest_digit (λ t. t) differ x y)

pub and_digits : (x y : ℕ) → bit_and x y ≡ min (x % 2) (y % 2) + 2 * bit_and (x / 2) (y / 2)
and_digits zero y = simp bit_and-bitwise (omega arith)
and_digits (suc x) y = simp bit_and-bitwise (lowest_digit (λ t. 0) min x y)

pub or_digits : (x y : ℕ) → bit_or x y ≡ max (x % 2) (y % 2) + 2 * bit_or (x / 2) (y / 2)
or_digits zero y = simp bit_or-bitwise (omega arith)
or_digits (suc x) y = simp bit_or-bitwise (lowest_digit (λ t. t) max x y)

-- The exclusive or of two binary digits as a sum.
differ_digits : (a b : ℕ) → a < 2 → b < 2 → differ a b ≡ (a + b) % 2
differ_digits zero b p q = omega arith
differ_digits (suc zero) zero p q = refl
differ_digits (suc zero) (suc zero) p q = refl
differ_digits (suc zero) (suc (suc b)) p q = absurd (omega arith)
differ_digits (suc (suc a)) b p q = absurd (omega arith)

pub bit_xor_digit : (a b : ℕ) → bit_xor a b ≡ bit_xor (a / 2) (b / 2) * 2 + (a % 2 + b % 2) % 2
bit_xor_digit a b =
    omega (arith, xor_digits a b, differ_digits (a % 2) (b % 2) (omega arith) (omega arith))

xor_half : (a b : ℕ) → bit_xor a b / 2 ≡ bit_xor (a / 2) (b / 2)
xor_half a b = omega (arith, bit_xor_digit a b)

xor_low : (a b : ℕ) → bit_xor a b % 2 ≡ (a % 2 + b % 2) % 2
xor_low a b = omega (arith, bit_xor_digit a b)

zero-xor : (b : ℕ) → bit_xor 0 b ≡ b
zero-xor b = bit_xor-bitwise 0 b

xor-zero_below : (n a : ℕ) → a ≤ n → bit_xor a 0 ≡ a
xor-zero_below n zero h = refl
xor-zero_below zero (suc a) h = absurd (omega arith)
xor-zero_below (suc n) (suc a) h =
    omega (arith, bit_xor_digit (suc a) 0, xor-zero_below n (suc a / 2) (omega arith))

pub xor-zero : (a : ℕ) → bit_xor a 0 ≡ a
xor-zero a = xor-zero_below a a (omega arith)

xor_comm_below : (n a b : ℕ) → a ≤ n → bit_xor a b ≡ bit_xor b a
xor_comm_below n zero b h = zero-xor b ∙ sym (xor-zero b)
xor_comm_below zero (suc a) b h = absurd (omega arith)
xor_comm_below (suc n) (suc a) b h = omega (
  arith,
  bit_xor_digit (suc a) b,
  bit_xor_digit b (suc a),
  xor_comm_below n (suc a / 2) (b / 2) (omega arith),
)

pub xor_comm : (a b : ℕ) → bit_xor a b ≡ bit_xor b a
xor_comm a b = xor_comm_below a a b (omega arith)

xor_assoc_below : (n a b c : ℕ) → a ≤ n → bit_xor (bit_xor a b) c ≡ bit_xor a (bit_xor b c)
xor_assoc_below n zero b c h = ap (λ t. bit_xor t c) (zero-xor b) ∙ sym (zero-xor (bit_xor b c))
xor_assoc_below zero (suc a) b c h = absurd (omega arith)
xor_assoc_below (suc n) (suc a) b c h = omega (
  arith,
  bit_xor_digit (bit_xor (suc a) b) c,
  bit_xor_digit (suc a) (bit_xor b c),
  ap (λ t. bit_xor t (c / 2)) (xor_half (suc a) b),
  ap (λ t. bit_xor (suc a / 2) t) (xor_half b c),
  xor_low (suc a) b,
  xor_low b c,
  xor_assoc_below n (suc a / 2) (b / 2) (c / 2) (omega arith),
)

pub xor_assoc : (a b c : ℕ) → bit_xor (bit_xor a b) c ≡ bit_xor a (bit_xor b c)
xor_assoc a b c = xor_assoc_below a a b c (omega arith)

xor_self_below : (n a : ℕ) → a ≤ n → bit_xor a a ≡ 0
xor_self_below n zero h = refl
xor_self_below zero (suc a) h = absurd (omega arith)
xor_self_below (suc n) (suc a) h =
    omega (arith, bit_xor_digit (suc a) (suc a), xor_self_below n (suc a / 2) (omega arith))

pub xor_self : (a : ℕ) → bit_xor a a ≡ 0
xor_self a = xor_self_below a a (omega arith)

-- Masking twice with the same word gives the value back.
pub xor_cancel : (a k : ℕ) → bit_xor (bit_xor a k) k ≡ a
xor_cancel a k = xor_assoc a k k ∙ ap (bit_xor a) (xor_self k) ∙ xor-zero a

pub xor-lt : (k a b : ℕ) → a < 2 ^ k → b < 2 ^ k → bit_xor a b < 2 ^ k
xor-lt zero zero zero p q = omega arith
xor-lt zero zero (suc b) p q = absurd (omega arith)
xor-lt zero (suc a) b p q = absurd (omega arith)
xor-lt (suc k) a b p q = omega (
  arith,
  bit_xor_digit a b,
  pow-suc 2 k,
  xor-lt k (a / 2) (b / 2) (omega (arith, pow-suc 2 k)) (omega (arith, pow-suc 2 k)),
)

-- The same bound for `|` and `&`.
pub or-lt : (k a b : ℕ) → a < 2 ^ k → b < 2 ^ k → bit_or a b < 2 ^ k
or-lt zero zero zero p q = omega arith
or-lt zero zero (suc b) p q = absurd (omega arith)
or-lt zero (suc a) b p q = absurd (omega arith)
or-lt (suc k) a b p q = omega (
  arith,
  or_digits a b,
  pow-suc 2 k,
  or-lt k (a / 2) (b / 2) (omega (arith, pow-suc 2 k)) (omega (arith, pow-suc 2 k)),
)

pub and-lt : (k a b : ℕ) → a < 2 ^ k → b < 2 ^ k → bit_and a b < 2 ^ k
and-lt zero zero zero p q = omega arith
and-lt zero zero (suc b) p q = absurd (omega arith)
and-lt zero (suc a) b p q = absurd (omega arith)
and-lt (suc k) a b p q = omega (
  arith,
  and_digits a b,
  pow-suc 2 k,
  and-lt k (a / 2) (b / 2) (omega (arith, pow-suc 2 k)) (omega (arith, pow-suc 2 k)),
)

or-zero_below : (n a : ℕ) → a ≤ n → bit_or a 0 ≡ a
or-zero_below n zero h = refl
or-zero_below zero (suc a) h = absurd (omega arith)
or-zero_below (suc n) (suc a) h =
    omega (arith, or_digits (suc a) 0, or-zero_below n (suc a / 2) (omega arith))

pub or-zero : (a : ℕ) → bit_or a 0 ≡ a
or-zero a = or-zero_below a a (omega arith)

-- `(q << k) | r` is a sum when `r` fits below bit `k`.
pub or_fields : (k q r : ℕ) → r < 2 ^ k → bit_or (q * 2 ^ k) r ≡ q * 2 ^ k + r
or_fields zero q r h = ground (arith, or-zero_below q q)
or_fields (suc k) q r h = ground (
  arith,
  or_digits (q * 2 ^ suc k) r,
  ap (λ (t : ℕ). q * t) (pow-suc 2 k),
  pow-suc 2 k,
  or_fields k q (r / 2) (omega (arith, pow-suc 2 k)),
)

-- Over a byte, check every value by evaluation.
agree_below : ℕ → (ℕ → ℕ) → (ℕ → ℕ) → Bool
agree_below zero f g = true
agree_below (suc n) f g = (f n == g n) && agree_below n f g

agree_below_lem : (n : ℕ) (f g : ℕ → ℕ) (x : ℕ) → agree_below n f g ≡ true → x < n → f x ≡ g x
unfolding agree_below
agree_below_lem zero f g x h lt = absurd (omega arith)
agree_below_lem (suc n) f g x h lt = ground (arith, agree_below_lem n f g x)

-- The sign bit of a byte.
pub and_top_bit : (b : ℕ) → b < 256 → bit_and b 0x80 ≡ b / 128 * 128
unfolding agree_below
and_top_bit b h = agree_below_lem 256 (λ x. bit_and x 0x80) (λ x. x / 128 * 128) b refl h

-- Words that mask to zero are equal.
pub xor_eq_zero : (a b : ℕ) → bit_xor a b ≡ 0 → a ≡ b
xor_eq_zero a b h = sym (xor_cancel a b) ∙ ap (λ t. bit_xor t b) h ∙ zero-xor b

or_eq_zero_below : (n a b : ℕ) → a ≤ n → bit_or a b ≡ 0 → (a ≡ 0) × (b ≡ 0)
or_eq_zero_below n zero b h e = (refl, sym (bit_or-bitwise 0 b) ∙ e)
or_eq_zero_below zero (suc a) b h e = absurd (omega arith)
or_eq_zero_below (suc n) (suc a) b h e =
    ground (arith, or_digits (suc a) b, or_eq_zero_below n (suc a / 2) (b / 2) (omega arith))

-- An `|` is zero when both sides are.
pub or_eq_zero : (a b : ℕ) → bit_or a b ≡ 0 → (a ≡ 0) × (b ≡ 0)
or_eq_zero a b e = or_eq_zero_below a a b (omega arith) e
