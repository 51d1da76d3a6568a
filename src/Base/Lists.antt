-- ===== src/Base/Lists.antt =====
-- Lists measured and indexed by native numbers, under the library's names.
use Prim.Native.Nat.{ℕ, zero, suc, ◌+◌, ◌-◌, ◌<◌, ◌≤◌, min}
use mathlib.Core.Path.{◌≡◌, refl, sym, ap, ap₂, ◌∙◌}
use mathlib.Core.List.{List, [], ◌∷◌, ◌++◌, map}
use native.Mathlib.Omega.{arith}

module _ {ℓ} {A : Type ℓ} where
  abbrev pub length : List A → ℕ
  length [] = 0
  length (x ∷ xs) = suc (length xs)

  abbrev pub get_or : List A → ℕ → A → A
  get_or [] i d = d
  get_or (x ∷ xs) zero d = x
  get_or (x ∷ xs) (suc i) d = get_or xs i d

  -- A write out of bounds changes nothing.
  abbrev pub set : List A → ℕ → A → List A
  set [] i v = []
  set (x ∷ xs) zero v = v ∷ xs
  set (x ∷ xs) (suc i) v = x ∷ set xs i v

  abbrev pub take : ℕ → List A → List A
  take zero xs = []
  take (suc n) [] = []
  take (suc n) (x ∷ xs) = x ∷ take n xs

  abbrev pub drop : ℕ → List A → List A
  drop zero xs = xs
  drop (suc n) [] = []
  drop (suc n) (x ∷ xs) = drop n xs

  abbrev pub replicate : ℕ → A → List A
  replicate zero a = []
  replicate (suc n) a = a ∷ replicate n a

  abbrev pub All {κ} : (A → Type κ) → List A → Type κ
  All P [] = Unit {κ}
  All P (x ∷ xs) = P x × All P xs

  pub length-append : (xs ys : List A) → length (xs ++ ys) ≡ length xs + length ys
  length-append [] ys = omega arith
  length-append (x ∷ xs) ys = omega (arith, length-append xs ys)

module _ {ℓ} {A : Type ℓ} where
  pub length-set : (xs : List A) (i : ℕ) (v : A) → length (set xs i v) ≡ length xs
  length-set [] i v = refl
  length-set (x ∷ xs) zero v = refl
  length-set (x ∷ xs) (suc i) v = ap suc (length-set xs i v)

  pub take-append-drop : (n : ℕ) (xs : List A) → take n xs ++ drop n xs ≡ xs
  take-append-drop zero xs = refl
  take-append-drop (suc n) [] = refl
  take-append-drop (suc n) (x ∷ xs) = ap (λ r. x ∷ r) (take-append-drop n xs)

  pub length-take : (n : ℕ) (xs : List A) → length (take n xs) ≡ min n (length xs)
  length-take zero xs = omega arith
  length-take (suc n) [] = omega arith
  length-take (suc n) (x ∷ xs) = omega (arith, length-take n xs)

  pub length-drop : (n : ℕ) (xs : List A) → length (drop n xs) ≡ length xs - n
  length-drop zero xs = omega arith
  length-drop (suc n) [] = omega arith
  length-drop (suc n) (x ∷ xs) = omega (arith, length-drop n xs)

  pub length-replicate : (n : ℕ) (a : A) → length (replicate n a) ≡ n
  length-replicate zero a = refl
  length-replicate (suc n) a = ap suc (length-replicate n a)

  pub length-map {κ} : {B : Type κ} (xs : List A) (f : A → B) → length (map f xs) ≡ length xs
  length-map [] f = refl
  length-map (x ∷ xs) f = ap suc (length-map xs f)

  -- A prefix is taken off by its length.
  pub take_append : (n : ℕ) (xs ys : List A) → length xs ≡ n → take n (xs ++ ys) ≡ xs
  take_append zero [] ys h = refl
  take_append zero (x ∷ xs) ys h = absurd (omega arith)
  take_append (suc n) [] ys h = absurd (omega arith)
  take_append (suc n) (x ∷ xs) ys h = ap (λ r. x ∷ r) (take_append n xs ys (omega arith))

  pub drop_append : (n : ℕ) (xs ys : List A) → length xs ≡ n → drop n (xs ++ ys) ≡ ys
  drop_append zero [] ys h = refl
  drop_append zero (x ∷ xs) ys h = absurd (omega arith)
  drop_append (suc n) [] ys h = absurd (omega arith)
  drop_append (suc n) (x ∷ xs) ys h = drop_append n xs ys (omega arith)

  pub take_all : (n : ℕ) (xs : List A) → length xs ≤ n → take n xs ≡ xs
  take_all zero [] h = refl
  take_all zero (x ∷ xs) h = absurd (omega arith)
  take_all (suc n) [] h = refl
  take_all (suc n) (x ∷ xs) h = ap (λ r. x ∷ r) (take_all n xs (omega arith))

  pub drop_all : (n : ℕ) (xs : List A) → length xs ≤ n → drop n xs ≡ []
  drop_all zero [] h = refl
  drop_all zero (x ∷ xs) h = absurd (omega arith)
  drop_all (suc n) [] h = refl
  drop_all (suc n) (x ∷ xs) h = drop_all n xs (omega arith)

  pub All-append {κ} : (P : A → Type κ) (xs ys : List A) → All P xs → All P ys → All P (xs ++ ys)
  All-append P [] ys h k = k
  All-append P (x ∷ xs) ys (hx, h) k = (hx, All-append P xs ys h k)

  pub All-take {κ} : (P : A → Type κ) (n : ℕ) (xs : List A) → All P xs → All P (take n xs)
  All-take P zero xs h = tt
  All-take P (suc n) [] h = tt
  All-take P (suc n) (x ∷ xs) (hx, h) = (hx, All-take P n xs h)

  pub All-drop {κ} : (P : A → Type κ) (n : ℕ) (xs : List A) → All P xs → All P (drop n xs)
  All-drop P zero xs h = h
  All-drop P (suc n) [] h = tt
  All-drop P (suc n) (x ∷ xs) (hx, h) = All-drop P n xs h

  pub All-replicate {κ} : (P : A → Type κ) (n : ℕ) (a : A) → P a → All P (replicate n a)
  All-replicate P zero a h = tt
  All-replicate P (suc n) a h = (h, All-replicate P n a h)

  pub drop-drop : (k n : ℕ) (xs : List A) → drop k (drop n xs) ≡ drop (n + k) xs
  drop-drop k zero xs = let same : k ≡ 0 + k = omega arith in ap (λ m. drop m xs) same
  drop-drop k (suc n) [] = drop_all k [] (omega arith) ∙ sym (drop_all (suc n + k) [] (omega arith))
  drop-drop k (suc n) (x ∷ xs) =
      let same : suc (n + k) ≡ suc n + k = omega arith in
      drop-drop k n xs ∙ ap (λ m. drop m (x ∷ xs)) same

  pub take-set :
      (xs : List A) (i : ℕ) (v : A)
      → i < length xs
      → take (suc i) (set xs i v) ≡ take i xs ++ (v ∷ [])
  take-set [] i v h = absurd (omega arith)
  take-set (x ∷ xs) zero v h = refl
  take-set (x ∷ xs) (suc i) v h = ap (λ r. x ∷ r) (take-set xs i v (omega arith))

  pub replicate-append : (m n : ℕ) (a : A) → replicate m a ++ replicate n a ≡ replicate (m + n) a
  replicate-append zero n a = let same : n ≡ 0 + n = omega arith in ap (λ k. replicate k a) same
  replicate-append (suc m) n a =
      let same : suc (m + n) ≡ suc m + n = omega arith in
      ap (λ r. a ∷ r) (replicate-append m n a) ∙ ap (λ k. replicate k a) same

  -- A tail of one value, read off element by element.
  pub tail_replicate :
      (d v : A) (n p : ℕ) (xs : List A)
      → length xs ≡ n + p
      → ((j : ℕ) → n ≤ j → j < n + p → get_or xs j d ≡ v)
      → xs ≡ take n xs ++ replicate p v
  tail_replicate d v zero zero [] e h = refl
  tail_replicate d v zero zero (x ∷ xs) e h = absurd (omega arith)
  tail_replicate d v zero (suc p) [] e h = absurd (omega arith)
  tail_replicate d v zero (suc p) (x ∷ xs) e h = ap₂ ◌∷◌ (h 0 (omega arith) (omega arith)) (
      tail_replicate d v zero p xs (omega arith) (λ j lo hi. h (suc j) (omega arith) (omega arith)))
  tail_replicate d v (suc n) p [] e h = absurd (omega arith)
  tail_replicate d v (suc n) p (x ∷ xs) e h =
      ap (λ t. x ∷ t)
        (tail_replicate d v n p xs (omega arith) (λ j lo hi. h (suc j) (omega arith) (omega arith)))

  pub get_or-replicate :
      (d v : A) (xs : List A) (p j : ℕ)
      → length xs ≤ j
      → j < length xs + p
      → get_or (xs ++ replicate p v) j d ≡ v
  get_or-replicate d v [] zero j lo hi = absurd (omega arith)
  get_or-replicate d v [] (suc p) zero lo hi = refl
  get_or-replicate d v [] (suc p) (suc j) lo hi =
      get_or-replicate d v [] p j (omega arith) (omega arith)
  get_or-replicate d v (x ∷ xs) p zero lo hi = absurd (omega arith)
  get_or-replicate d v (x ∷ xs) p (suc j) lo hi =
      get_or-replicate d v xs p j (omega arith) (omega arith)

  pub drop-replicate : (k n : ℕ) (a : A) → drop k (replicate n a) ≡ replicate (n - k) a
  drop-replicate zero n a = let same : n ≡ n - 0 = omega arith in ap (λ m. replicate m a) same
  drop-replicate (suc k) zero a =
      let same : 0 ≡ 0 - suc k = omega arith in ap (λ m. replicate m a) same
  drop-replicate (suc k) (suc n) a =
      let same : n - k ≡ suc n - suc k = omega arith in
      drop-replicate k n a ∙ ap (λ m. replicate m a) same

  pub take_past : (k : ℕ) (xs ys : List A) → take (length xs + k) (xs ++ ys) ≡ xs ++ take k ys
  take_past k [] ys = ap (λ m. take m ys) (the_same k)
    where
      the_same : (k : ℕ) → 0 + k ≡ k
      the_same k = omega arith
  take_past k (x ∷ xs) ys =
      ap (λ m. take m (x ∷ (xs ++ ys))) (shift (length xs)) ∙ ap (λ t. x ∷ t) (take_past k xs ys)
    where
      shift : (n : ℕ) → suc n + k ≡ suc (n + k)
      shift n = omega arith
