-- ===== src/Kdf/Rfc8018.antt =====
-- kdf.rs against PBKDF2 as RFC 8018 defines it: the loop over the blocks and the whole function.
use gm_crypto_rs.Base.{
  ℕ, zero, suc, ◌+◌, ◌-◌, ◌*◌, ◌/◌, ◌%◌, ◌^◌, ◌<◌, ◌≤◌, min, ltb, ◌==◌, not, ◌||◌,
}
use gm_crypto_rs.Base.{List, [], ◌∷◌, ◌++◌, length, take, drop, replicate, to_be, for_range}
use gm_crypto_rs.Base.{none, some, Bool-cases, inl, inr, true, false, ◌⊎◌}
use gm_crypto_rs.Base.{◌≡◌, refl, sym, ap, ap₂, ◌∙◌, arith, append-nil, append_assoc}
use gm_crypto_rs.Base.{length-append, length-take, length-drop, length-to_be}
use gm_crypto_rs.Base.{
  take_append, drop_append, take_all, drop_all, lt→ltb, le→ltb, ltb→lt, ltb→le, drop-drop,
  take_past,
}
use gm_crypto_rs.Base.Stream.{copy_into}
use gm_crypto_rs.Kdf.{block_round, pbkdf2_hmac_sm3}
use gm_crypto_rs.Kdf.Reference.{
  u_sum, f_block, f_blocks, rfc8018, length-u_sum, length-f_block, derive_block-u_sum,
}

copy_behind :
    (front array xs : List ℕ) (at : ℕ)
    → length front ≡ at
    → copy_into (front ++ array) at xs ≡ front ++ (xs ++ drop (length xs) array)
copy_behind front array xs at e =
    ap₂ (λ a b. a ++ (xs ++ b)) (take_append at front array e) (behind front at (length xs) e)
  where
    behind :
        (front : List ℕ) (at k : ℕ)
        → length front ≡ at
        → drop (at + k) (front ++ array) ≡ drop k array
    behind front at k e =
        sym (drop-drop k at (front ++ array)) ∙ ap (drop k) (drop_append at front array e)

-- The block `i`, written behind the `i - 1` blocks that stand.
block_round-f_block :
    (password salt scratch done todo : List ℕ) (c i : ℕ)
    → length scratch ≡ 4
    → length done ≡ (i - 1) * 32
    → block_round password c (length salt) i (salt ++ scratch, done ++ todo) ≡ (
      salt ++ to_be 4 i,
      done ++ (take (min 32 (length todo)) (f_block password salt c i) ++ drop 32 todo),
    )
unfolding block_round f_block
block_round-f_block password salt scratch done todo c i hs hd =
    let seed = salt ++ to_be 4 i in
    let t = u_sum password seed (c - 1) in
    let m = min 32 (length todo) in
    let patched : copy_into (salt ++ scratch) (length salt) (to_be 4 i) ≡ seed =
      copy_behind salt scratch (to_be 4 i) (length salt) refl
      ∙ ap (λ r. salt ++ (to_be 4 i ++ r))
          (drop_all (length (to_be 4 i)) scratch (omega (arith, length-to_be 4 i)))
      ∙ ap (λ r. salt ++ r) (append-nil (to_be 4 i)) in
    let width : min ((i - 1) * 32 + 32) (length (done ++ todo)) - (i - 1) * 32 ≡ m =
      omega (arith, length-append done todo) in
    let written : length (take m t) ≡ m =
      omega (arith, length-take m t, length-u_sum password seed (c - 1)) in
    rw
      (
        patched,
        derive_block-u_sum password seed c,
        width,
        copy_behind done todo (take m t) ((i - 1) * 32) hd,
        written,
      )
      (ap (λ r. (seed, done ++ (take m t ++ r))) (rest_same todo))
  where
    rest_same : (todo : List ℕ) → drop (min 32 (length todo)) todo ≡ drop 32 todo
    rest_same todo = elim (Bool-cases (ltb (length todo) 32)) [
      | inl short ↦
          drop_all (min 32 (length todo)) todo (omega (arith, ltb→lt (length todo) 32 short))
          ∙ sym (drop_all 32 todo (omega (arith, ltb→lt (length todo) 32 short)))
      | inr long ↦
          let full : min 32 (length todo) ≡ 32 = omega (arith, ltb→le (length todo) 32 long) in
          ap (λ n. drop n todo) full
    ]

-- The loop from the block `i` on, with the blocks before it written.
blocks_loop :
    (password salt scratch done todo : List ℕ) (c i n : ℕ)
    → length scratch ≡ 4
    → length done ≡ (i - 1) * 32
    → 0 < i
    → length todo ≤ n * 32
    → n * 32 < length todo + 32
    → (for_range n i (block_round password c (length salt)) (salt ++ scratch, done ++ todo)).1
      ≡ done ++ take (length todo) (f_blocks password salt c i n)
unfolding for_range f_blocks
blocks_loop password salt scratch done [] c i zero hs hd pos h l = refl
blocks_loop password salt scratch done (x ∷ todo) c i zero hs hd pos h l = absurd (omega arith)
blocks_loop password salt scratch done todo c i (suc n) hs hd pos h l =
    let t = f_block password salt c i in
    let rest = f_blocks password salt c (i + 1) n in
    let m = min 32 (length todo) in
    let next = drop 32 todo in
    let size : length t ≡ 32 = length-f_block password salt c i in
    let next_size : length next ≡ length todo - 32 = length-drop 32 todo in
    ap (λ s. (for_range n (i + 1) (block_round password c (length salt)) s).1)
      (block_round-f_block password salt scratch done todo c i hs hd)
    ∙ elim (Bool-cases (ltb (length todo) 32)) [
      | inl short ↦
          let below : length todo < 32 = ltb→lt (length todo) 32 short in
          last_block n (omega arith) below
      | inr long ↦
          let above : 32 ≤ length todo = ltb→le (length todo) 32 long in
          let whole : m ≡ 32 = omega arith in
          let grown : length (done ++ take m t) ≡ (i + 1 - 1) * 32 =
            omega (arith, length-append done (take m t), length-take m t) in
          ap
            (λ o.
              (for_range n (i + 1) (block_round password c (length salt)) (salt ++ to_be 4 i, o)).1)
            (sym (append_assoc done (take m t) next))
          ∙ blocks_loop password salt (to_be 4 i) (done ++ take m t) next c (i + 1) n
              (length-to_be 4 i) grown (omega arith) (omega arith) (omega arith)
          ∙ append_assoc done (take m t) (take (length next) rest)
          ∙ ap (λ r. done ++ r) (glue t rest (omega arith) size whole next_size above)
    ]
  where
    last_block :
        (n : ℕ)
        → n ≡ 0
        → length todo < 32
        → (for_range n (i + 1) (block_round password c (length salt)) (
          salt ++ to_be 4 i,
          done ++ (take (min 32 (length todo)) (f_block password salt c i) ++ drop 32 todo),
        )).1
          ≡ done
            ++ take (length todo) (f_block password salt c i ++ f_blocks password salt c (i + 1) n)
    last_block (suc n) e below = absurd (omega arith)
    last_block zero e below =
        let m_is : min 32 (length todo) ≡ length todo = omega arith in
        ap₂ (λ k r. done ++ (take k (f_block password salt c i) ++ r)) m_is
          (drop_all 32 todo (omega arith))
        ∙ ap (λ r. done ++ r)
            (append-nil (take (length todo) (f_block password salt c i))
              ∙ ap (take (length todo)) (sym (append-nil (f_block password salt c i))))

    glue :
        (t rest : List ℕ)
        → 32 ≤ length todo
        → length t ≡ 32
        → min 32 (length todo) ≡ 32
        → length (drop 32 todo) ≡ length todo - 32
        → 32 ≤ length todo
        → take (min 32 (length todo)) t ++ take (length (drop 32 todo)) rest
          ≡ take (length todo) (t ++ rest)
    glue t rest _ size whole next_size above =
        let all : take (min 32 (length todo)) t ≡ t =
          take_all (min 32 (length todo)) t (omega arith) in
        let total : length todo ≡ length t + length (drop 32 todo) = omega arith in
        ap (λ r. r ++ take (length (drop 32 todo)) rest) all
        ∙ sym (take_past (length (drop 32 todo)) t rest)
        ∙ ap (λ k. take k (t ++ rest)) (sym total)

in_range : (c n : ℕ) → 0 < c → 0 < n → not (c == 0 || n == 0) ≡ true
in_range c n hc hn = ground arith

out_of_range : (c n : ℕ) → (c ≡ 0) ⊎ (n ≡ 0) → not (c == 0 || n == 0) ≡ false
out_of_range c n h = ground arith

-- For at least one iteration and an output of 1 to 32 * (2^32 - 1) bytes, `pbkdf2_hmac_sm3` fills
-- the output with the derived key of RFC 8018 over HMAC-SM3.
pub pbkdf2_hmac_sm3-rfc8018 :
    (password salt : List ℕ) (iterations : ℕ) (output : List ℕ)
    → 0 < iterations
    → 0 < length output
    → length output ≤ 32 * (2 ^ 32 - 1)
    → pbkdf2_hmac_sm3 password salt iterations output
      ≡ some (rfc8018 password salt iterations (length output))
unfolding pbkdf2_hmac_sm3 rfc8018
pbkdf2_hmac_sm3-rfc8018 password salt iterations output hc hn small =
    let l = (length output + 31) / 32 in
    let no_wrap : l % 2 ^ 32 ≡ l = omega arith in
    rw
      (
        in_range iterations (length output) hc hn,
        le→ltb (32 * (2 ^ 32 - 1)) (length output) small,
        no_wrap,
      )
      (ap some (
        blocks_loop password salt (replicate 4 0) [] output iterations 1 l refl (omega arith)
          (omega arith) (omega arith) (omega arith)))

-- For no iteration, an empty output, or an output of more than 32 * (2^32 - 1) bytes,
-- `pbkdf2_hmac_sm3` fails.
pub pbkdf2_hmac_sm3_rejects :
    (password salt : List ℕ) (iterations : ℕ) (output : List ℕ)
    → (iterations ≡ 0) ⊎ ((length output ≡ 0) ⊎ (32 * (2 ^ 32 - 1) < length output))
    → pbkdf2_hmac_sm3 password salt iterations output ≡ none
unfolding pbkdf2_hmac_sm3
pbkdf2_hmac_sm3_rejects password salt iterations output (inl h) =
    rw (out_of_range iterations (length output) (inl h)) refl
pbkdf2_hmac_sm3_rejects password salt iterations output (inr (inl h)) =
    rw (out_of_range iterations (length output) (inr h)) refl
pbkdf2_hmac_sm3_rejects password salt iterations output (inr (inr large)) =
    rw (lt→ltb (32 * (2 ^ 32 - 1)) (length output) large)
      (elim (Bool-cases (not (iterations == 0 || length output == 0))) [
        | inl passes ↦ rw passes refl
        | inr fails ↦ rw fails refl
      ])
