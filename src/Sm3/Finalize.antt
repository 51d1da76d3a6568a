-- ===== src/Sm3/Finalize.antt =====
-- `finalize` of sm3.rs: the padding, in the open block or in one more.
use gm_crypto_rs.Base.{ℕ, ◌+◌, ◌-◌, ◌*◌, ◌%◌, ◌^◌, ◌<◌, ◌≤◌, ltb}
use gm_crypto_rs.Base.{List, [], ◌∷◌, ◌++◌, length, set, replicate, to_be}
use gm_crypto_rs.Base.{
  ◌≡◌, refl, sym, ap, ap₂, ◌∙◌, arith, Bool-cases, inl, inr, ltb→lt, ltb→le, le→ltb, lt→ltb,
}
use gm_crypto_rs.Base.{length-append, length-take, length-set, length-replicate, length-to_be}
use gm_crypto_rs.Base.{append_assoc, append-nil, replicate-append}
use gm_crypto_rs.Base.Chunks.{blocks, blocks_short, blocks_step, blocks-append, blocks_count}
use gm_crypto_rs.Base.Stream.{pending, IsOpen}
use gm_crypto_rs.Base.Stream.Absorb.{copy_into_end}
use gm_crypto_rs.Sm3.{Sm3, finalize, buffered, state_bytes, iv}
use gm_crypto_rs.Sm3.Compress.{State, compress}
use gm_crypto_rs.Sm3.Digest.{zeros, padding, reference, Holds, length_field, marked, last_block_lem}

-- Pending bytes, the bit 1 and `z` zeros.
abbrev front : List ℕ → ℕ → List ℕ
front p z = (p ++ (0x80 ∷ [])) ++ replicate z 0

length-front : (p : List ℕ) (z : ℕ) → length (front p z) ≡ length p + 1 + z
length-front p z = omega (
  arith,
  length-append (p ++ (0x80 ∷ [])) (replicate z 0),
  length-append p (0x80 ∷ []),
  length-replicate {A = ℕ} z 0,
)

front_regroup :
    (p : List ℕ) (z : ℕ) (field : List ℕ)
    → p ++ (0x80 ∷ (replicate z 0 ++ field)) ≡ front p z ++ field
front_regroup p z field = sym (
    append_assoc (p ++ (0x80 ∷ [])) (replicate z 0) field
    ∙ append_assoc p (0x80 ∷ []) (replicate z 0 ++ field))

-- The padding ends the block that is open.
one_block :
    (state : State) (p : List ℕ) (z : ℕ) (field : List ℕ)
    → length p + 1 + z ≡ 56
    → length field ≡ 8
    → (blocks 64 compress state (p ++ (0x80 ∷ (replicate z 0 ++ field)))).0
      ≡ compress state (front p z ++ field)
one_block state p z field e f =
    let whole : length (front p z ++ field) ≡ 64 =
      omega (arith, length-append (front p z) field, length-front p z) in
    ap (λ t. (blocks 64 compress state t).0)
      (front_regroup p z field ∙ sym (append-nil (front p z ++ field)))
    ∙ ap (λ r. r.0)
        (blocks_step 64 compress (omega arith) state (front p z ++ field) [] whole
          ∙ blocks_short 64 compress (omega arith) (compress state (front p z ++ field)) []
              (omega arith))

-- The length field needs a block of its own.
two_blocks :
    (state : State) (p : List ℕ) (z : ℕ) (field : List ℕ)
    → length p + 1 + z ≡ 64
    → length field ≡ 8
    → (blocks 64 compress state (p ++ (0x80 ∷ (replicate (z + 56) 0 ++ field)))).0
      ≡ compress (compress state (front p z)) (replicate 56 0 ++ field)
two_blocks state p z field e f =
    let next = compress state (front p z) in
    let last : List ℕ = replicate 56 0 ++ field in
    let split : p ++ (0x80 ∷ (replicate (z + 56) 0 ++ field)) ≡ front p z ++ (last ++ []) =
      ap (λ t. p ++ (0x80 ∷ (t ++ field))) (sym (replicate-append z 56 0))
      ∙ ap (λ t. p ++ (0x80 ∷ t)) (append_assoc (replicate z 0) (replicate 56 0) field)
      ∙ front_regroup p z last
      ∙ ap (λ t. front p z ++ t) (sym (append-nil last)) in
    let last_length : length last ≡ 64 = omega (arith, f) in
    ap (λ t. (blocks 64 compress state t).0) split
    ∙ ap (λ r. r.0)
        (blocks_step 64 compress (omega arith) state (front p z) (last ++ [])
            (omega (arith, length-front p z))
          ∙ blocks_step 64 compress (omega arith) next last [] last_length
          ∙ blocks_short 64 compress (omega arith) (compress next last) [] (omega arith))

-- The two ways through `finalize`.
finalize_short :
    (s : Sm3)
    → IsOpen 64 (buffered s)
    → s.buffer_len ≤ 55
    → finalize s
      ≡ state_bytes (
          compress s.state (
            front (pending (buffered s)) (55 - s.buffer_len) ++ to_be 8 (s.total_len * 8 % 2 ^ 64)))
unfolding finalize
finalize_short s h le =
    let marked_length : length (set s.buffer s.buffer_len 0x80) ≡ 64 =
      length-set s.buffer s.buffer_len 0x80 ∙ h.size in
    let count : 56 - (s.buffer_len + 1) ≡ 55 - s.buffer_len = omega arith in
    rw
      (
        le→ltb 56 (s.buffer_len + 1) (omega arith),
        last_block_lem s.state (set s.buffer s.buffer_len 0x80) (s.buffer_len + 1)
            (s.total_len * 8 % 2 ^ 64) marked_length (omega arith),
        marked s h,
        count,
      )
      refl

finalize_long :
    (s : Sm3)
    → IsOpen 64 (buffered s)
    → 56 ≤ s.buffer_len
    → finalize s
      ≡ state_bytes (
          compress
            (compress s.state (front (pending (buffered s)) (63 - s.buffer_len)))
            (replicate 56 0 ++ to_be 8 (s.total_len * 8 % 2 ^ 64)))
unfolding finalize
finalize_long s h le =
    let array = set s.buffer s.buffer_len 0x80 in
    let array_length : length array ≡ 64 = length-set s.buffer s.buffer_len 0x80 ∙ h.size in
    let count : 64 - (s.buffer_len + 1) ≡ 63 - s.buffer_len = omega arith in
    let fits : s.buffer_len + 1 + length (replicate {A = ℕ} (64 - (s.buffer_len + 1)) 0)
        ≡ length array =
      omega (arith, length-replicate {A = ℕ} (64 - (s.buffer_len + 1)) 0, array_length, h.room) in
    rw
      (
        lt→ltb 56 (s.buffer_len + 1) (omega arith),
        copy_into_end array (s.buffer_len + 1) (replicate (64 - (s.buffer_len + 1)) 0) fits,
        marked s h,
        count,
        last_block_lem (compress s.state (front (pending (buffered s)) (63 - s.buffer_len)))
            (replicate 64 0) 0 (s.total_len * 8 % 2 ^ 64) refl (omega arith),
      )
      refl

-- The bytes in use are the rest of the message's length.
length-pending :
    (message : List ℕ) (s : Sm3)
    → Holds message s
    → (length (pending (buffered s)) ≡ s.buffer_len) × (length message % 64 ≡ s.buffer_len)
length-pending message s h =
    let (q, count) = blocks_count 64 compress (omega arith) iv message in
    let size : length s.buffer ≡ 64 = h.absorbed.is_open.size in
    let room : s.buffer_len < 64 = h.absorbed.is_open.room in
    let in_use : length (pending (buffered s)) ≡ s.buffer_len =
      omega (arith, length-take s.buffer_len s.buffer) in
    (in_use, omega (arith, ap length h.absorbed.keeps))

-- `finalize` on a message that `s` holds.
pub finalize-Holds : (message : List ℕ) (s : Sm3) → Holds message s → finalize s ≡ reference message
unfolding reference
finalize-Holds message s h =
    let n = length message in
    let p = pending (buffered s) in
    let opened = h.absorbed.is_open in
    let (in_use, rest) = length-pending message s h in
    let field : to_be 8 (s.total_len * 8 % 2 ^ 64) ≡ to_be 8 (8 * n) =
      length_field n s.total_len h.counted in
    let resume : (blocks 64 compress iv (message ++ padding n)).0
        ≡ (blocks 64 compress s.state (p ++ padding n)).0 =
      ap (λ r. r.0)
        (blocks-append 64 compress (omega arith) iv message (padding n)
          ∙ ap₂ (λ w t. blocks 64 compress w (t ++ padding n)) (sym h.absorbed.works)
              (sym h.absorbed.keeps)) in
    elim (Bool-cases (ltb s.buffer_len 56)) [
      | inl short ↦
          let le : s.buffer_len < 56 = ltb→lt s.buffer_len 56 short in
          let count : zeros n ≡ 55 - s.buffer_len = omega arith in
          finalize_short s opened (omega arith)
          ∙ ap (λ t. state_bytes (compress s.state (front p (55 - s.buffer_len) ++ t))) field
          ∙ ap state_bytes (
              sym (
                resume
                ∙ ap
                    (λ z.
                      (blocks 64 compress s.state
                        (p ++ (0x80 ∷ (replicate z 0 ++ to_be 8 (8 * n))))).0)
                    count
                ∙ one_block s.state p (55 - s.buffer_len) (to_be 8 (8 * n)) (omega arith)
                    (length-to_be 8 (8 * n))))
      | inr long ↦
          let ge : 56 ≤ s.buffer_len = ltb→le s.buffer_len 56 long in
          let room : s.buffer_len < 64 = opened.room in
          let count : zeros n ≡ 63 - s.buffer_len + 56 = omega arith in
          finalize_long s opened ge
          ∙ ap
              (λ t.
                state_bytes
                  (compress (compress s.state (front p (63 - s.buffer_len))) (replicate 56 0 ++ t)))
              field
          ∙ ap state_bytes (
              sym (
                resume
                ∙ ap
                    (λ z.
                      (blocks 64 compress s.state
                        (p ++ (0x80 ∷ (replicate z 0 ++ to_be 8 (8 * n))))).0)
                    count
                ∙ two_blocks s.state p (63 - s.buffer_len) (to_be 8 (8 * n)) (omega arith)
                    (length-to_be 8 (8 * n))))
    ]
