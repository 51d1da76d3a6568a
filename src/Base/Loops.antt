-- ===== src/Base/Loops.antt =====
-- Counted loops, `for i in lo..hi { body }`.
use Prim.Native.Nat.{ℕ, zero, suc, ◌+◌, ◌≤◌, ◌<◌}
use mathlib.Core.Path.{◌≡◌, refl, ap, ◌∙◌}
use native.Mathlib.Omega.{arith}

-- The first round is at `lo`.
unfoldable pub for_range {ℓ} : {S : Type ℓ} → (rounds lo : ℕ) → (step : ℕ → S → S) → S → S
for_range zero lo step state = state
for_range (suc rounds) lo step state = for_range rounds (lo + 1) step (step lo state)

module _ {ℓ} {S : Type ℓ} (body : ℕ → S → S) where
  -- The last round taken off.
  pub for_range_last :
      (n i j : ℕ) (s : S) → i + n ≡ j → for_range (suc n) i body s ≡ body j (for_range n i body s)
  unfolding for_range
  for_range_last zero i j s e = let same : i ≡ j = omega arith in ap (λ k. body k s) same
  for_range_last (suc n) i j s e = for_range_last n (i + 1) j (body i s) (omega arith)

  -- An invariant that every round keeps holds at the end.
  pub for_range_inv {κ} :
      (P : S → Type κ)
      → ((i : ℕ) (s : S) → P s → P (body i s))
      → (n i : ℕ) (s : S) → P s
      → P (for_range n i body s)
  unfolding for_range
  for_range_inv P keep zero i s h = h
  for_range_inv P keep (suc n) i s h = for_range_inv P keep n (i + 1) (body i s) (keep i s h)

  -- Two bodies that agree in every round of the loop give the same result.
  pub for_range_agree :
      (other : ℕ → S → S) (n i : ℕ) (s : S)
      → ((j : ℕ) (s : S) → i ≤ j → j < i + n → body j s ≡ other j s)
      → for_range n i body s ≡ for_range n i other s
  unfolding for_range
  for_range_agree other zero i s same = refl
  for_range_agree other (suc n) i s same =
      ap (for_range n (i + 1) body) (same i s (omega arith) (omega arith))
      ∙ for_range_agree other n (i + 1) (other i s)
          (λ j s lo hi. same j s (omega arith) (omega arith))
