-- ===== src/Base/Chunks.antt =====
-- The loop that takes whole blocks off the front of a slice, `while data.len() >= n`, and the
-- law by which a buffered stream may be cut anywhere.
use Prim.Native.Nat.{ℕ, zero, suc, ◌+◌, ◌*◌, ◌<◌, ◌≤◌}
use mathlib.Core.Path.{◌≡◌, refl}
use mathlib.Core.List.{List, [], ◌∷◌, ◌++◌, append_assoc}
use mathlib.Core.Logic.{inl, inr}
use native.Mathlib.Omega.{arith}
use gm_crypto_rs.Base.Tests.{ltb, if◌then◌else◌, Bool-cases, ltb→lt, ltb→le, lt→ltb, le→ltb}
use gm_crypto_rs.Base.Lists.{length, take, drop, length-append, length-take, length-drop}
use gm_crypto_rs.Base.Lists.{take-append-drop, take_append, drop_append}

module _ {ℓ κ} {S : Type ℓ} {A : Type κ} (n : ℕ) (step : S → List A → S) where
  -- One round takes a block; each takes `n` elements, so `length xs` rounds are enough if `0 < n`.
  run_blocks : ℕ → S → List A → S × List A
  run_blocks zero s xs = (s, xs)
  run_blocks (suc fuel) s xs =
      let rest = run_blocks fuel (step s (take n xs)) (drop n xs) in
      if ltb (length xs) n then (s, xs) else rest

  -- The state and the tail that is too short for a block.
  unfoldable pub blocks : S → List A → S × List A
  unfolding run_blocks
  blocks s xs = run_blocks (length xs) s xs

module _ {ℓ κ} {S : Type ℓ} {A : Type κ} (n : ℕ) (step : S → List A → S) (pos : 0 < n) where
  run_blocks_fuel :
      (f g : ℕ) (s : S) (xs : List A)
      → length xs ≤ f
      → length xs ≤ g
      → run_blocks n step f s xs ≡ run_blocks n step g s xs
  unfolding run_blocks
  run_blocks_fuel zero zero s xs p q = refl
  run_blocks_fuel zero (suc g) s xs p q = rw (lt→ltb (length xs) n (omega arith))
  run_blocks_fuel (suc f) zero s xs p q = rw (lt→ltb (length xs) n (omega arith))
  run_blocks_fuel (suc f) (suc g) s xs p q = elim (Bool-cases (ltb (length xs) n)) [
    | inl short ↦ rw short
    | inr long ↦ rw long (
        run_blocks_fuel f g (step s (take n xs)) (drop n xs)
          (omega (arith, length-drop n xs, ltb→le (length xs) n long))
          (omega (arith, length-drop n xs, ltb→le (length xs) n long)))
  ]

  pub blocks_short : (s : S) (xs : List A) → length xs < n → blocks n step s xs ≡ (s, xs)
  unfolding blocks
  blocks_short s [] h = refl
  blocks_short s (x ∷ xs) h = rw (lt→ltb _ n h)

  pub blocks_step :
      (s : S) (b xs : List A)
      → length b ≡ n
      → blocks n step s (b ++ xs) ≡ blocks n step (step s b) xs
  unfolding blocks
  blocks_step s [] xs h = absurd (omega arith)
  blocks_step s (y ∷ b) xs h =
      let whole : List A = (y ∷ b) ++ xs in
      rw
        (
          le→ltb (length whole) n (omega (arith, length-append (y ∷ b) xs)),
          take_append n (y ∷ b) xs h,
          drop_append n (y ∷ b) xs h,
        )
        (run_blocks_fuel (length (b ++ xs)) (length xs) (step s (y ∷ b)) xs
          (omega (arith, length-append b xs)) (omega arith))

  blocks-append_below :
      (k : ℕ) (s : S) (xs ys : List A)
      → length xs ≤ k
      → blocks n step s (xs ++ ys)
        ≡ blocks n step (blocks n step s xs).0 ((blocks n step s xs).1 ++ ys)
  blocks-append_below zero s xs ys h = rw (blocks_short s xs (omega arith))
  blocks-append_below (suc k) s xs ys h = elim (Bool-cases (ltb (length xs) n)) [
    | inl short ↦ rw (blocks_short s xs (ltb→lt _ _ short))
    | inr long ↦
        split (take n xs) (drop n xs) (take-append-drop n xs)
          (omega (arith, length-take n xs, ltb→le _ _ long))
          (omega (arith, length-drop n xs, ltb→le _ _ long))
          (blocks-append_below k (step s (take n xs)) (drop n xs) ys
            (omega (arith, length-drop n xs, ltb→le _ _ long)))
  ]
    where
      split :
          (b r : List A)
          → b ++ r ≡ xs
          → length b ≡ n
          → length r ≤ k
          → blocks n step (step s b) (r ++ ys)
            ≡ blocks n step (blocks n step (step s b) r).0 ((blocks n step (step s b) r).1 ++ ys)
          → blocks n step s (xs ++ ys)
            ≡ blocks n step (blocks n step s xs).0 ((blocks n step s xs).1 ++ ys)
      split b r e hb hr ih =
          rw (← e, append_assoc b r ys, blocks_step s b (r ++ ys) hb, blocks_step s b r hb) ih

  -- What a first part leaves over goes in front of the second.
  pub blocks-append :
      (s : S) (xs ys : List A)
      → blocks n step s (xs ++ ys)
        ≡ blocks n step (blocks n step s xs).0 ((blocks n step s xs).1 ++ ys)
  blocks-append s xs ys = blocks-append_below (length xs) s xs ys (omega arith)

  blocks_rest_below :
      (k : ℕ) (s : S) (xs : List A) → length xs ≤ k → length (blocks n step s xs).1 < n
  blocks_rest_below zero s xs h = rw (blocks_short s xs (omega arith)) (omega arith)
  blocks_rest_below (suc k) s xs h = elim (Bool-cases (ltb (length xs) n)) [
    | inl short ↦ rw (blocks_short s xs (ltb→lt _ _ short)) (ltb→lt _ _ short)
    | inr long ↦
        split (take n xs) (drop n xs) (take-append-drop n xs)
          (omega (arith, length-take n xs, ltb→le _ _ long))
          (blocks_rest_below k (step s (take n xs)) (drop n xs)
            (omega (arith, length-drop n xs, ltb→le _ _ long)))
  ]
    where
      split :
          (b r : List A)
          → b ++ r ≡ xs
          → length b ≡ n
          → length (blocks n step (step s b) r).1 < n
          → length (blocks n step s xs).1 < n
      split b r e hb ih = rw (← e, blocks_step s b r hb) ih

  -- What is left over is shorter than a block.
  pub blocks_rest : (s : S) (xs : List A) → length (blocks n step s xs).1 < n
  blocks_rest s xs = blocks_rest_below (length xs) s xs (omega arith)

  blocks_count_below :
      (k : ℕ) (s : S) (xs : List A)
      → length xs ≤ k
      → (q : ℕ) × (length xs ≡ q * n + length (blocks n step s xs).1)
  blocks_count_below zero s xs h = (0, rw (blocks_short s xs (omega arith)) (omega arith))
  blocks_count_below (suc k) s xs h = elim (Bool-cases (ltb (length xs) n)) [
    | inl short ↦ (0, rw (blocks_short s xs (ltb→lt _ _ short)) (omega arith))
    | inr long ↦
        split (take n xs) (drop n xs) (take-append-drop n xs)
          (omega (arith, length-take n xs, ltb→le _ _ long))
          (blocks_count_below k (step s (take n xs)) (drop n xs)
            (omega (arith, length-drop n xs, ltb→le _ _ long)))
  ]
    where
      split :
          (b r : List A)
          → b ++ r ≡ xs
          → length b ≡ n
          → (q : ℕ) × (length r ≡ q * n + length (blocks n step (step s b) r).1)
          → (q : ℕ) × (length xs ≡ q * n + length (blocks n step s xs).1)
      split b r e hb (q, ih) =
          (suc q, rw (← e, blocks_step s b r hb) (omega (arith, length-append b r)))

  -- The blocks and the rest make up the whole length.
  pub blocks_count :
      (s : S) (xs : List A) → (q : ℕ) × (length xs ≡ q * n + length (blocks n step s xs).1)
  blocks_count s xs = blocks_count_below (length xs) s xs (omega arith)

  -- An invariant that the step keeps holds of the state at the end.
  blocks_inv_below {μ} :
      (P : S → Type μ)
      → ((s : S) (b : List A) → P s → length b ≡ n → P (step s b))
      → (k : ℕ) (s : S) (xs : List A) → length xs ≤ k
      → P s
      → P (blocks n step s xs).0
  blocks_inv_below P keep zero s xs h p = rw (blocks_short s xs (omega arith)) p
  blocks_inv_below P keep (suc k) s xs h p = elim (Bool-cases (ltb (length xs) n)) [
    | inl short ↦ rw (blocks_short s xs (ltb→lt _ _ short)) p
    | inr long ↦
        let width : length (take n xs) ≡ n = omega (arith, length-take n xs, ltb→le _ _ long) in
        rw (← take-append-drop n xs, blocks_step s (take n xs) (drop n xs) width)
          (blocks_inv_below P keep k (step s (take n xs)) (drop n xs)
            (omega (arith, length-drop n xs, ltb→le _ _ long)) (keep s (take n xs) p width))
  ]

  pub blocks_inv {μ} :
      (P : S → Type μ)
      → ((s : S) (b : List A) → P s → length b ≡ n → P (step s b))
      → (s : S) (xs : List A) → P s
      → P (blocks n step s xs).0
  blocks_inv P keep s xs p = blocks_inv_below P keep (length xs) s xs (omega arith) p

module _ {ℓ κ μ} {S : Type ℓ} {T : Type μ} {A : Type κ} (n : ℕ) (step : S → List A → S)
    (step' : T → List A → T) (view : S → T) (pos : 0 < n)
    (same : (s : S) (b : List A) → view (step s b) ≡ step' (view s) b) where
  blocks_view_below :
      (k : ℕ) (s : S) (xs : List A)
      → length xs ≤ k
      → (view (blocks n step s xs).0 ≡ (blocks n step' (view s) xs).0)
        × ((blocks n step s xs).1 ≡ (blocks n step' (view s) xs).1)
  blocks_view_below zero s xs h =
      rw
        (
          blocks_short n step pos s xs (omega arith),
          blocks_short n step' pos (view s) xs (omega arith),
        )
        (refl, refl)
  blocks_view_below (suc k) s xs h = elim (Bool-cases (ltb (length xs) n)) [
    | inl short ↦
        rw
          (
            blocks_short n step pos s xs (ltb→lt _ _ short),
            blocks_short n step' pos (view s) xs (ltb→lt _ _ short),
          )
          (refl, refl)
    | inr long ↦
        split (take n xs) (drop n xs) (take-append-drop n xs)
          (omega (arith, length-take n xs, ltb→le _ _ long))
          (blocks_view_below k (step s (take n xs)) (drop n xs)
            (omega (arith, length-drop n xs, ltb→le _ _ long)))
  ]
    where
      split :
          (b r : List A)
          → b ++ r ≡ xs
          → length b ≡ n
          → (view (blocks n step (step s b) r).0 ≡ (blocks n step' (view (step s b)) r).0)
            × ((blocks n step (step s b) r).1 ≡ (blocks n step' (view (step s b)) r).1)
          → (view (blocks n step s xs).0 ≡ (blocks n step' (view s) xs).0)
            × ((blocks n step s xs).1 ≡ (blocks n step' (view s) xs).1)
      split b r e hb ih =
          rw
            (
              ← e,
              blocks_step n step pos s b r hb,
              blocks_step n step' pos (view s) b r hb,
              ← same s b,
            )
            ih

  -- A view that commutes with the step commutes with the loop.
  pub blocks_view :
      (s : S) (xs : List A)
      → (view (blocks n step s xs).0 ≡ (blocks n step' (view s) xs).0)
        × ((blocks n step s xs).1 ≡ (blocks n step' (view s) xs).1)
  blocks_view s xs = blocks_view_below (length xs) s xs (omega arith)
