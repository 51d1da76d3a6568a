-- ===== src/Base/Plain.antt =====
-- `Subtle` by plain tests: the operations have a model, and the tests of the library run.
use Prim.Native.Nat.{ℕ, ◌<◌}
use mathlib.Core.Path.{◌≡◌, refl}
use mathlib.Core.Logic.{◌↔◌}
use mathlib.Core.Bool.{Bool, true, false, ◌&&◌}
use mathlib.Core.List.{List, [], ◌∷◌}
use native.Mathlib.Omega.{arith}
use gm_crypto_rs.Base.{ltb, ◌==◌, ==_iff, if◌then◌else◌, Subtle}

abbrev pub bytes_eq : List ℕ → List ℕ → Bool
bytes_eq [] [] = true
bytes_eq [] (y ∷ ys) = false
bytes_eq (x ∷ xs) [] = false
bytes_eq (x ∷ xs) (y ∷ ys) = (x == y) && bytes_eq xs ys

pub bytes_eq_iff : (xs ys : List ℕ) → (bytes_eq xs ys ≡ true) ↔ (xs ≡ ys)
bytes_eq_iff [] [] = (λ h. refl, λ h. refl)
bytes_eq_iff [] (y ∷ ys) = (λ h. cc, λ h. cc)
bytes_eq_iff (x ∷ xs) [] = (λ h. cc, λ h. cc)
bytes_eq_iff (x ∷ xs) (y ∷ ys) =
    let ih = bytes_eq_iff xs ys in (λ h. ground (arith, ih), λ h. ground (arith, ih))

pub ltb_iff : (a b : ℕ) → (ltb b a ≡ true) ↔ (b < a)
ltb_iff a b = ground arith

instance abbrev pub plain_subtle : Subtle
plain_subtle = record {
  ct_eq = λ a b. a == b;
  ct_gt = λ a b. ltb b a;
  ct_eq_bytes = bytes_eq;
  conditional_select = λ a b choice. if choice then b else a;
  ct_eq_iff = λ a b ha hb. ==_iff a b;
  ct_gt_iff = λ a b ha hb. ltb_iff a b;
  ct_eq_bytes_iff = λ xs ys hx hy. bytes_eq_iff xs ys;
  select_false = λ a b. refl;
  select_true = λ a b. refl;
}
