-- ===== src/Base/Stream/Absorb.antt =====
-- What a call of the streaming buffer does to its worker and to the bytes that it keeps.
use Prim.Native.Nat.{ℕ, ◌+◌, ◌-◌, ◌<◌, ◌≤◌, min}
use mathlib.Core.Path.{◌≡◌, refl, sym, ap, ap₂, subst, ◌∙◌}
use mathlib.Core.List.{List, [], ◌∷◌, ◌++◌, append_assoc, append-nil}
use mathlib.Core.Logic.{inl, inr}
use mathlib.Core.Bool.{true, false}
use native.Mathlib.Omega.{arith}
use gm_crypto_rs.Base.Tests.{ltb, ◌==◌, Bool-cases, ltb→lt, ltb→le, lt→ltb, le→ltb, ==_iff}
use gm_crypto_rs.Base.Lists.{length, take, drop, length-append, length-take, length-drop}
use gm_crypto_rs.Base.Lists.{take-append-drop, take_append, take_all, drop_all}
use gm_crypto_rs.Base.Chunks.{blocks, blocks_short, blocks_step, blocks-append, blocks_rest}
use gm_crypto_rs.Base.Stream.{copy_into, Buffered, fill, stash, drain, absorb, pending, IsOpen}

pub length-copy_into :
    (array : List ℕ) (i : ℕ) (xs : List ℕ)
    → i + length xs ≤ length array
    → length (copy_into array i xs) ≡ length array
length-copy_into array i xs h = omega (
  arith,
  length-append (take i array) (xs ++ drop (i + length xs) array),
  length-append xs (drop (i + length xs) array),
  length-take i array,
  length-drop (i + length xs) array,
)

pub take-copy_into :
    (array : List ℕ) (i k : ℕ) (xs : List ℕ)
    → i ≤ length array
    → k ≡ i + length xs
    → take k (copy_into array i xs) ≡ take i array ++ xs
take-copy_into array i k xs h e =
    ap (take k) (sym (append_assoc (take i array) xs (drop (i + length xs) array)))
    ∙ take_append k (take i array ++ xs) (drop (i + length xs) array)
        (omega (arith, length-append (take i array) xs, length-take i array))

-- A write up to the end of the array.
pub copy_into_end :
    (array : List ℕ) (i : ℕ) (xs : List ℕ)
    → i + length xs ≡ length array
    → copy_into array i xs ≡ take i array ++ xs
copy_into_end array i xs e =
    ap (λ t. take i array ++ (xs ++ t)) (drop_all (i + length xs) array (omega arith))
    ∙ ap (λ t. take i array ++ t) (append-nil xs)

-- What a call must do: work off the pending bytes followed by the input, and keep the rest.
pub record IsAbsorbed {ℓ} {S : Type ℓ} (n : ℕ) (r : S × List ℕ) (out : Buffered S) : Type ℓ where
  pub is_open : IsOpen n out
  pub works : out.worker ≡ r.0
  pub keeps : pending out ≡ r.1

module _ {ℓ} {S : Type ℓ} (n : ℕ) (step : S → List ℕ → S) (pos : 0 < n) where
  stash-IsAbsorbed :
      (b : Buffered S) (tail : List ℕ)
      → IsOpen n b
      → b.buffer_len ≡ 0
      → length tail < n
      → IsAbsorbed n (b.worker, tail) (stash n step b tail)
  unfolding stash
  stash-IsAbsorbed b [] h e l = record {
    is_open = h;
    works = refl;
    keeps = ap (λ k. take k b.buffer) e;
  }
  stash-IsAbsorbed b (x ∷ rest) h e l = record {
    is_open = record {
      size = length-copy_into b.buffer 0 (x ∷ rest) (omega (arith, h.size)) ∙ h.size;
      room = l;
    };
    works = refl;
    keeps = take-copy_into b.buffer 0 (length (x ∷ rest)) (x ∷ rest) (omega arith) (omega arith);
  }

  -- From an empty buffer.
  work_off :
      (b : Buffered S) (input : List ℕ)
      → IsOpen n b
      → b.buffer_len ≡ 0
      → let r = blocks n step b.worker input in
        IsAbsorbed n r (stash n step (record b { worker = r.0 }) r.1)
  work_off b input h e =
      stash-IsAbsorbed (record b { worker = (blocks n step b.worker input).0 })
        (blocks n step b.worker input).1 (record { size = h.size; room = h.room }) e
        (blocks_rest n step pos b.worker input)

  absorb_empty :
      (b : Buffered S) (input : List ℕ)
      → IsOpen n b
      → b.buffer_len ≡ 0
      → IsAbsorbed n (blocks n step b.worker (pending b ++ input)) (absorb n step b input)
  unfolding absorb fill drain
  absorb_empty b input h e =
      let nothing : pending b ≡ [] = ap (λ k. take k b.buffer) e in
      rw (nothing, le→ltb 0 b.buffer_len (omega arith)) (work_off b input h e)

  fill_partial :
      (b : Buffered S) (input : List ℕ)
      → 0 < b.buffer_len
      → b.buffer_len + length input < n
      → fill n step b input ≡ (
        record {
          worker = b.worker;
          buffer = copy_into b.buffer b.buffer_len input;
          buffer_len = b.buffer_len + length input;
        },
        [],
      )
  unfolding fill
  fill_partial b input p l =
      let count : min (n - b.buffer_len) (length input) ≡ length input = omega arith in
      rw
        (
          lt→ltb 0 b.buffer_len p,
          count,
          not_full,
          take_all (length input) input (omega arith),
          drop_all (length input) input (omega arith),
        )
        refl
    where
      not_full : (b.buffer_len + length input == n) ≡ false
      not_full = ground arith

  -- The input does not fill the block.
  absorb_partial :
      (b : Buffered S) (input : List ℕ)
      → IsOpen n b
      → 0 < b.buffer_len
      → b.buffer_len + length input < n
      → IsAbsorbed n (blocks n step b.worker (pending b ++ input)) (absorb n step b input)
  unfolding absorb drain stash
  absorb_partial b input h p l =
      rw
        (
          fill_partial b input p l,
          blocks_short n step pos b.worker [] pos,
          blocks_short n step pos b.worker (pending b ++ input)
              (omega (arith, length-append (pending b) input, length-take b.buffer_len b.buffer)),
        )
        (record {
          is_open = record {
            size = length-copy_into b.buffer b.buffer_len input (omega (arith, h.size)) ∙ h.size;
            room = l;
          };
          works = refl;
          keeps =
              take-copy_into b.buffer b.buffer_len (b.buffer_len + length input) input
                (omega (arith, h.size, h.room)) refl;
        })

  full : Buffered S → List ℕ → List ℕ
  full b input = pending b ++ take (n - b.buffer_len) input

  length-full :
      (b : Buffered S) (input : List ℕ)
      → IsOpen n b
      → n ≤ b.buffer_len + length input
      → length (full b input) ≡ n
  unfolding full
  length-full b input h l = omega (
    arith,
    length-append (pending b) (take (n - b.buffer_len) input),
    length-take b.buffer_len b.buffer,
    length-take (n - b.buffer_len) input,
    h.size,
    h.room,
  )

  fill_complete :
      (b : Buffered S) (input : List ℕ)
      → IsOpen n b
      → 0 < b.buffer_len
      → n ≤ b.buffer_len + length input
      → fill n step b input ≡ (
        record { worker = step b.worker (full b input); buffer = full b input; buffer_len = 0 },
        drop (n - b.buffer_len) input,
      )
  unfolding fill full
  fill_complete b input h p l =
      let need = n - b.buffer_len in
      let count : min need (length input) ≡ need = omega arith in
      let all_in_use : b.buffer_len + length (take need input) ≡ n =
        omega (arith, length-take need input, h.room) in
      let is_full : (b.buffer_len + need == n) ≡ true =
        (==_iff (b.buffer_len + need) n).1 (omega (arith, h.room)) in
      rw
        (
          lt→ltb 0 b.buffer_len p,
          count,
          is_full,
          all_in_use,
          drop_all n b.buffer (omega (arith, h.size)),
          append-nil (take need input),
        )
        refl

  -- The input fills the block.
  absorb_complete :
      (b : Buffered S) (input : List ℕ)
      → IsOpen n b
      → 0 < b.buffer_len
      → n ≤ b.buffer_len + length input
      → IsAbsorbed n (blocks n step b.worker (pending b ++ input)) (absorb n step b input)
  unfolding absorb drain full
  absorb_complete b input h p l =
      let need = n - b.buffer_len in
      let cut : pending b ++ input ≡ full b input ++ drop need input =
        ap (λ t. pending b ++ t) (sym (take-append-drop need input))
        ∙ sym (append_assoc (pending b) (take need input) (drop need input)) in
      rw
        (
          fill_complete b input h p l,
          cut,
          blocks_step n step pos b.worker (full b input) (drop need input)
              (length-full b input h l),
        )
        (work_off
          (record { worker = step b.worker (full b input); buffer = full b input; buffer_len = 0 })
          (drop need input) (record { size = length-full b input h l; room = pos }) refl)

  pub absorb-IsAbsorbed :
      (b : Buffered S) (input : List ℕ)
      → IsOpen n b
      → IsAbsorbed n (blocks n step b.worker (pending b ++ input)) (absorb n step b input)
  absorb-IsAbsorbed b input h = elim (Bool-cases (ltb 0 b.buffer_len)) [
    | inr empty ↦ absorb_empty b input h (omega (arith, ltb→le 0 b.buffer_len empty))
    | inl some_bytes ↦ elim (Bool-cases (ltb (b.buffer_len + length input) n)) [
      | inl short ↦ absorb_partial b input h (ltb→lt 0 b.buffer_len some_bytes) (ltb→lt _ n short)
      | inr long ↦ absorb_complete b input h (ltb→lt 0 b.buffer_len some_bytes) (ltb→le _ n long)
    ]
  ]

  -- A buffer that has absorbed `xs` has absorbed `xs ++ input` after the next call.
  pub absorb_next :
      (s : S) (xs : List ℕ) (b : Buffered S) (input : List ℕ)
      → IsAbsorbed n (blocks n step s xs) b
      → IsAbsorbed n (blocks n step s (xs ++ input)) (absorb n step b input)
  absorb_next s xs b input h =
      let same : blocks n step b.worker (pending b ++ input) ≡ blocks n step s (xs ++ input) =
        ap₂ (λ w p. blocks n step w (p ++ input)) h.works h.keeps
        ∙ sym (blocks-append n step pos s xs input) in
      subst (λ r. IsAbsorbed n r (absorb n step b input)) same (absorb-IsAbsorbed b input h.is_open)

  -- A fresh buffer has absorbed nothing.
  pub fresh-IsAbsorbed :
      (s : S) (array : List ℕ)
      → length array ≡ n
      → IsAbsorbed n (blocks n step s []) (record { worker = s; buffer = array; buffer_len = 0 })
  fresh-IsAbsorbed s array h =
      rw (blocks_short n step pos s [] pos)
        (record { is_open = record { size = h; room = pos }; works = refl; keeps = refl })
