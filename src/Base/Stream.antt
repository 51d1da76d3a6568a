-- ===== src/Base/Stream.antt =====
-- The block buffer of the streaming types. `Sm3::update` (sm3.rs), `Sm4CbcEncryptor::update` and
-- `Sm4CbcDecryptor::update` (sm4/cbc_streaming.rs) have one and the same body: fill the partial
-- block, work off whole blocks, keep the tail.
pub mod Absorb
use Prim.Native.Nat.{ℕ, zero, suc, ◌+◌, ◌-◌, ◌<◌, ◌≤◌, min}
use mathlib.Core.Path.{◌≡◌, refl, sym, ap, ap₂, subst, ◌∙◌}
use mathlib.Core.List.{List, [], ◌∷◌, ◌++◌, append_assoc, append-nil}
use mathlib.Core.Logic.{inl, inr}
use mathlib.Core.Bool.{Bool, true, false}
use native.Mathlib.Omega.{arith}
use gm_crypto_rs.Base.Tests.{
  ltb, ◌==◌, if◌then◌else◌, Bool-cases, ltb→lt, ltb→le, lt→ltb, le→ltb, ==_iff,
}
use gm_crypto_rs.Base.Lists.{length, take, drop, length-append, length-take, length-drop}
use gm_crypto_rs.Base.Lists.{take-append-drop, take_append, drop_append, take_all, drop_all}
use gm_crypto_rs.Base.Chunks.{blocks, blocks_short, blocks_step, blocks-append, blocks_rest}

-- `array[i..i + xs.len()].copy_from_slice(xs)`
abbrev pub copy_into {ℓ} : {A : Type ℓ} → List A → ℕ → List A → List A
copy_into array i xs = take i array ++ (xs ++ drop (i + length xs) array)

-- The worker's state, the array, and how many of its bytes are in use.
pub record Buffered {ℓ} (S : Type ℓ) : Type ℓ where
  pub worker : S
  pub buffer : List ℕ
  pub buffer_len : ℕ

module _ {ℓ} {S : Type ℓ} (n : ℕ) (step : S → List ℕ → S) where
  -- `if self.buffer_len > 0 { ... }`, with what is left of the data.
  unfoldable pub fill : Buffered S → List ℕ → Buffered S × List ℕ
  fill b input =
      let need = n - b.buffer_len in
      let count = min need (length input) in
      let buffer = copy_into b.buffer b.buffer_len (take count input) in
      let len = b.buffer_len + count in
      let rest = drop count input in
      if ltb 0 b.buffer_len
      then if len == n
        then (record { worker = step b.worker buffer; buffer = buffer; buffer_len = 0 }, rest)
        else (record { worker = b.worker; buffer = buffer; buffer_len = len }, rest)
      else (b, input)

  -- `if !data.is_empty() { ... }`
  unfoldable pub stash : Buffered S → List ℕ → Buffered S
  stash b [] = b
  stash b (x ∷ rest) = record {
    worker = b.worker;
    buffer = copy_into b.buffer 0 (x ∷ rest);
    buffer_len = length (x ∷ rest);
  }

  -- The whole blocks of what is left, and the tail.
  unfoldable pub drain : Buffered S × List ℕ → Buffered S
  drain (b, left) =
      let (worker, tail) = blocks n step b.worker left in stash (record b { worker = worker }) tail

  unfoldable pub absorb : Buffered S → List ℕ → Buffered S
  absorb b input = drain (fill b input)

abbrev pub pending {ℓ} : {S : Type ℓ} → Buffered S → List ℕ
pending b = take b.buffer_len b.buffer

-- The array keeps its size, and is never full between two calls.
pub record IsOpen {ℓ} {S : Type ℓ} (n : ℕ) (b : Buffered S) : Type 0 where
  pub size : length b.buffer ≡ n
  pub room : b.buffer_len < n
