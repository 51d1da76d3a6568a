-- ===== src/Sm3/Digest.antt =====
-- sm3.rs against the standard: the hash of GB/T 32905, and what a hasher holds between two calls.
use gm_crypto_rs.Base.{ℕ, suc, ◌+◌, ◌-◌, ◌*◌, ◌%◌, ◌^◌, ◌≤◌}
use gm_crypto_rs.Base.{List, [], ◌∷◌, ◌++◌, length, set, take, replicate, to_be}
use gm_crypto_rs.Base.{◌≡◌, refl, sym, ap, ◌∙◌, arith}
use gm_crypto_rs.Base.{length-append, length-replicate, length-to_be}
use gm_crypto_rs.Base.{take-set}
use gm_crypto_rs.Base.Chunks.{blocks}
use gm_crypto_rs.Base.Stream.{pending, IsOpen}
use gm_crypto_rs.Base.Stream.Absorb.{
  IsAbsorbed, absorb_next, fresh-IsAbsorbed, length-copy_into, take-copy_into, copy_into_end,
}
use gm_crypto_rs.Sm3.{Sm3, new, update, buffered, zero_range, last_block, state_bytes, iv}
use gm_crypto_rs.Sm3.Compress.{State, compress}

-- The zeros between the bit 1 and the length field: as few as make whole blocks.
abbrev pub zeros : ℕ → ℕ
zeros n = (119 - n % 64) % 64

abbrev pub padding : ℕ → List ℕ
padding n = 0x80 ∷ (replicate (zeros n) 0 ++ to_be 8 (8 * n))

-- The hash of the standard.
unfoldable pub reference : List ℕ → List ℕ
reference message = state_bytes (blocks 64 compress iv (message ++ padding (length message))).0

-- The hasher stands where the message leads.
pub record Holds (message : List ℕ) (s : Sm3) : Type 0 where
  pub absorbed : IsAbsorbed 64 (blocks 64 compress iv message) (buffered s)
  pub counted : s.total_len ≡ length message % 2 ^ 64

pub new-Holds : Holds [] new
unfolding new
new-Holds = record {
  absorbed = fresh-IsAbsorbed 64 compress (omega arith) iv (replicate 64 0) refl;
  counted = refl;
}

pub update-Holds :
    (message input : List ℕ) (s : Sm3) → Holds message s → Holds (message ++ input) (update s input)
unfolding update
update-Holds message input s h = record {
  absorbed = absorb_next 64 compress (omega arith) iv message (buffered s) input h.absorbed;
  counted = omega (arith, length-append message input, h.counted);
}

-- The length field of 64 bits does not see the wraps of the two counters.
pub length_field :
    (n total : ℕ) → total ≡ n % 2 ^ 64 → to_be 8 (total * 8 % 2 ^ 64) ≡ to_be 8 (8 * n)
unfolding to_be
length_field n total h = ground arith

-- The buffer behind the pending bytes and the bit 1.
pub marked :
    (s : Sm3)
    → IsOpen 64 (buffered s)
    → take (s.buffer_len + 1) (set s.buffer s.buffer_len 0x80) ≡ pending (buffered s) ++ (0x80 ∷ [])
marked s h =
    let same : s.buffer_len + 1 ≡ suc s.buffer_len = omega arith in
    rw same (take-set s.buffer s.buffer_len 0x80 (omega (arith, h.size, h.room)))

-- The last block is what stands below `i`, zeros up to the length field, and that field.
pub last_block_lem :
    (state : State) (buffer : List ℕ) (i bits : ℕ)
    → length buffer ≡ 64
    → i ≤ 56
    → last_block state buffer i bits
      ≡ compress state ((take i buffer ++ replicate (56 - i) 0) ++ to_be 8 bits)
unfolding last_block
last_block_lem state buffer i bits hb hi =
    let cleared = zero_range buffer i 56 in
    let fits : i + length (replicate {A = ℕ} (56 - i) 0) ≡ 56 =
      omega (arith, length-replicate {A = ℕ} (56 - i) 0) in
    ap (compress state) (
      copy_into_end cleared 56 (to_be 8 bits) (
        omega (
          arith,
          length-to_be 8 bits,
          length-copy_into buffer i (replicate (56 - i) 0) (omega arith),
        ))
      ∙ ap (λ t. t ++ to_be 8 bits)
          (take-copy_into buffer i 56 (replicate (56 - i) 0) (omega arith) (sym fits)))
