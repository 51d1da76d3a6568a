-- ===== src/Base/Residues.antt =====
-- Residues modulo a number: sums and products may be reduced before or after.
use Prim.Native.Nat.{ℕ, ◌+◌, ◌*◌, ◌/◌, ◌%◌}
use mathlib.Core.Path.{◌≡◌, sym, ap, ◌∙◌}
use native.Mathlib.Nat.{mod-add-div, mod-add-mod, add-mod-mod, mul_comm, add-mul-mod_self_left}
use native.Mathlib.Omega.{arith}

module _ (m : ℕ) where
  pub mod-mul-mod : (a b : ℕ) → (a % m * b) % m ≡ (a * b) % m
  mod-mul-mod a b =
      let whole : a % m * b + m * (a / m * b) ≡ a * b =
        regroup (a % m) (a / m) a (mod-add-div a m) in
      sym (add-mul-mod_self_left (a % m * b) m (a / m * b)) ∙ ap (λ t. t % m) whole
    where
      regroup : (r q a : ℕ) → r + m * q ≡ a → r * b + m * (q * b) ≡ a * b
      regroup r q a e = omega (arith, ap (λ t. t * b) e)

  pub mul-mod-mod : (a b : ℕ) → (a * (b % m)) % m ≡ (a * b) % m
  mul-mod-mod a b =
      ap (λ t. t % m) (mul_comm a (b % m)) ∙ mod-mul-mod b a ∙ ap (λ t. t % m) (mul_comm b a)

  product : (a i s k_rd : ℕ) → (a * i) % m ≡ 1 % m → s ≡ (i * k_rd) % m → (a * s) % m ≡ k_rd % m
  product a i s k_rd inverse is_s =
      ap (λ t. (a * t) % m) is_s
      ∙ mul-mod-mod a (i * k_rd)
      ∙ ap (λ t. t % m) regroup
      ∙ sym (mod-mul-mod (a * i) k_rd)
      ∙ ap (λ t. (t * k_rd) % m) inverse
      ∙ mod-mul-mod 1 k_rd
      ∙ ap (λ t. t % m) one
    where
      regroup : a * (i * k_rd) ≡ a * i * k_rd
      regroup = omega arith

      one : 1 * k_rd ≡ k_rd
      one = omega arith

  -- From `one_plus_d * i = 1`, `k_rd + r * d = k` and `s = i * k_rd` the signature equation
  -- `s + (r + s) * d = k`.
  pub signature_equation :
      (d i r s k k_rd : ℕ)
      → ((1 + d) * i) % m ≡ 1 % m
      → (k_rd + r * d) % m ≡ k
      → s ≡ (i * k_rd) % m
      → (s + (r + s) * d) % m ≡ k
  signature_equation d i r s k k_rd inverse split is_s =
      ap (λ t. t % m) (left s)
      ∙ sym (mod-add-mod ((1 + d) * s) m (r * d))
      ∙ ap (λ t. (t + r * d) % m) (product (1 + d) i s k_rd inverse is_s)
      ∙ mod-add-mod k_rd m (r * d)
      ∙ split
    where
      left : (s : ℕ) → s + (r + s) * d ≡ (1 + d) * s + r * d
      left s = omega arith

  -- If `r + s` vanishes, so does `r + k`.
  pub sum_vanishes : (d r s k : ℕ) → (r + s) % m ≡ 0 → (s + (r + s) * d) % m ≡ k → (r + k) % m ≡ 0
  sum_vanishes d r s k zero_sum e =
      ap (λ t. (r + t) % m) (sym e ∙ same) ∙ add-mod-mod r s m ∙ zero_sum
    where
      none_left : s + 0 * d ≡ s
      none_left = omega arith

      same : (s + (r + s) * d) % m ≡ s % m
      same =
          sym (add-mod-mod s ((r + s) * d) m)
          ∙ ap (λ t. (s + t) % m) (sym (mod-mul-mod (r + s) d) ∙ ap (λ t. (t * d) % m) zero_sum)
          ∙ add-mod-mod s (0 * d) m
          ∙ ap (λ t. t % m) none_left
