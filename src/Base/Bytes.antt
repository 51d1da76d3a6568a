-- ===== src/Base/Bytes.antt =====
-- `to_be_bytes` and `from_be_bytes` of the unsigned integers, at every width.
use Prim.Native.Nat.{ℕ, zero, suc, ◌+◌, ◌*◌, ◌/◌, ◌%◌, ◌^◌, ◌<◌}
use mathlib.Core.Path.{◌≡◌, refl, sym, ap, ◌∙◌}
use mathlib.Core.List.{List, [], ◌∷◌, ◌++◌, append_assoc}
use native.Mathlib.Nat.{pow-suc}
use native.Mathlib.Omega.{arith}
use gm_crypto_rs.Base.Lists.{length, get_or, length-append, All, All-append}

abbrev pub IsByte : ℕ → Type 0
IsByte b = b < 256

abbrev pub IsBytes : List ℕ → Type 0
IsBytes = All IsByte

-- The last `n` bytes of `x`, the highest first.
unfoldable pub to_be : ℕ → ℕ → List ℕ
to_be zero x = []
to_be (suc n) x = to_be n (x / 256) ++ (x % 256 ∷ [])

unfoldable pub from_be_onto : ℕ → List ℕ → ℕ
from_be_onto acc [] = acc
from_be_onto acc (b ∷ bs) = from_be_onto (acc * 256 + b) bs

abbrev pub from_be : List ℕ → ℕ
from_be = from_be_onto 0

-- The same with the least significant byte first.
unfoldable pub to_le : ℕ → ℕ → List ℕ
to_le zero x = []
to_le (suc n) x = x % 256 ∷ to_le n (x / 256)

unfoldable pub from_le : List ℕ → ℕ
from_le [] = 0
from_le (b ∷ bs) = b + 256 * from_le bs

pub length-to_be : (n x : ℕ) → length (to_be n x) ≡ n
unfolding to_be
length-to_be zero x = refl
length-to_be (suc n) x =
    omega (arith, length-append (to_be n (x / 256)) (x % 256 ∷ []), length-to_be n (x / 256))

pub to_be-IsBytes : (n x : ℕ) → IsBytes (to_be n x)
unfolding to_be
to_be-IsBytes zero x = tt
to_be-IsBytes (suc n) x =
    All-append IsByte (to_be n (x / 256)) (x % 256 ∷ []) (to_be-IsBytes n (x / 256)) (omega arith)

from_be_onto-append :
    (acc : ℕ) (xs : List ℕ) (b : ℕ)
    → from_be_onto acc (xs ++ (b ∷ [])) ≡ from_be_onto acc xs * 256 + b
unfolding from_be_onto
from_be_onto-append acc [] b = refl
from_be_onto-append acc (x ∷ xs) b = from_be_onto-append (acc * 256 + x) xs b

-- An integer of `n` bytes is read back from its bytes.
pub from_be-to_be : (n x : ℕ) → x < 256 ^ n → from_be (to_be n x) ≡ x
unfolding to_be from_be_onto
from_be-to_be zero x h = omega arith
from_be-to_be (suc n) x h = omega (
  arith,
  from_be_onto-append 0 (to_be n (x / 256)) (x % 256),
  from_be-to_be n (x / 256) (omega (arith, pow-suc 256 n)),
)

to_be-from_be_onto :
    (bs : List ℕ) (k n acc : ℕ)
    → IsBytes bs
    → n ≡ k + length bs
    → to_be n (from_be_onto acc bs) ≡ to_be k acc ++ bs
unfolding to_be from_be_onto
to_be-from_be_onto [] k n acc h e =
    let e' : n ≡ k = omega arith in ap (λ m. to_be m acc) e' ∙ sym (append-nil (to_be k acc))
  where
    append-nil : (xs : List ℕ) → xs ++ [] ≡ xs
    append-nil [] = refl
    append-nil (x ∷ xs) = ap (λ r. x ∷ r) (append-nil xs)
to_be-from_be_onto (b ∷ bs) k n acc (hb, h) e =
    let shift : (acc * 256 + b) / 256 ≡ acc = omega arith in
    let low : (acc * 256 + b) % 256 ≡ b = omega arith in
    to_be-from_be_onto bs (suc k) n (acc * 256 + b) h (omega arith)
    ∙ rw (shift, low) (append_assoc (to_be k acc) (b ∷ []) bs)

-- `n` bytes are written back from the integer that they stand for.
pub to_be-from_be : (n : ℕ) (bs : List ℕ) → IsBytes bs → length bs ≡ n → to_be n (from_be bs) ≡ bs
unfolding to_be
to_be-from_be n bs h e = to_be-from_be_onto bs 0 n 0 h (omega arith)

from_be_onto-lt :
    (bs : List ℕ) (k n acc : ℕ)
    → IsBytes bs
    → n ≡ k + length bs
    → acc < 256 ^ k
    → from_be_onto acc bs < 256 ^ n
unfolding from_be_onto
from_be_onto-lt [] k n acc h e p = let e' : n ≡ k = omega arith in rw e' p
from_be_onto-lt (b ∷ bs) k n acc (hb, h) e p =
    from_be_onto-lt bs (suc k) n (acc * 256 + b) h (omega arith) (omega (arith, pow-suc 256 k))

pub from_be-lt : (n : ℕ) (bs : List ℕ) → IsBytes bs → length bs ≡ n → from_be bs < 256 ^ n
from_be-lt n bs h e = from_be_onto-lt bs 0 n 0 h (omega arith) (omega arith)

pub get_or-IsByte : (xs : List ℕ) (i : ℕ) → IsBytes xs → get_or xs i 0 < 256
get_or-IsByte [] i h = omega arith
get_or-IsByte (x ∷ xs) zero (hx, h) = hx
get_or-IsByte (x ∷ xs) (suc i) (hx, h) = get_or-IsByte xs i h
