-- ===== src/Sm2/Sign.antt =====
-- sm2/sign.rs: the signature. A call that panics is `none`; the inner `none` of `sign_with_id` and
-- `sign_raw_with_id` is `Err(Failed)`. The source of random bytes is a parameter, and its state is
-- passed on.
pub mod Scalars
pub mod Verified
pub mod Accepted
pub mod Sample
use gm_crypto_rs.Base.{
  ℕ, zero, suc, ◌+◌, ◌-◌, ◌*◌, ◌%◌, ◌^◌, ltb, leb, if◌then◌else◌, Bool, true, false, not, ◌&&◌,
  ◌||◌,
}
use gm_crypto_rs.Base.{
  List, [], ◌∷◌, length, to_be, Option, none, some, ◌>>=◌, ◌>>◌, guard, unwrap_or, is_some,
}
use gm_crypto_rs.Base.{◌≡◌, Subtle, CtOption, into}
use gm_crypto_rs.Asn1.Sig.{encode_sig}
use gm_crypto_rs.Sm2.Field.{CryptoBigint, p, n, gx_hex, gy_hex}
use gm_crypto_rs.Sm2.Curve.{b}
use gm_crypto_rs.Sm2.Point.{to_affine}
use gm_crypto_rs.Sm2.ScalarMul.{mul_g}
use gm_crypto_rs.Sm2.Keys.{Sm2PrivateKey, Sm2PublicKey, public_key}
use gm_crypto_rs.Sm3
use gm_crypto_rs.Sm3.{update, finalize}

-- `rand_core::TryCryptoRng`: `try_fill_bytes` fills a buffer of the length asked for, or fails.
pub record TryCryptoRng (R : Type 0) : Type 0 where
  pub try_fill_bytes : R → ℕ → Option (List ℕ) × R
  pub length-try_fill_bytes :
      (rng : R) (len : ℕ) (buf : List ℕ) → (try_fill_bytes rng len).0 ≡ some buf → length buf ≡ len

abbrev pub max_id_len : ℕ
max_id_len = 8191

abbrev pub sign_retry_budget : ℕ
sign_retry_budget = 2

abbrev pub nonce_sample_budget : ℕ
nonce_sample_budget = 4

pub record RsPair : Type 0 where
  pub r : ℕ
  pub s : ℕ

module _ ⦃big : CryptoBigint⦄ where
  open big use {
    Fn, fn_new, fn_add, fn_sub, fn_mul, fn_invert, fn_retrieve, retrieve, select, ct_eq, ct_lt,
    from_be_slice, to_be_bytes, wrapping_sub,
  }

  unfoldable pub compute_z : Sm2PublicKey → List ℕ → Option (List ℕ)
  compute_z public id = do
    guard (leb (length id) max_id_len)
    let entl = (length id % 2 ^ 16) * 8 % 2 ^ 16
    let h = update (update Sm3.new (to_be 2 entl)) id
    let p_minus_three = wrapping_sub p 3
    let h = update h (to_be_bytes p_minus_three)
    let h = update h (to_be_bytes (retrieve b))
    let h = update (update h (to_be_bytes gx_hex)) (to_be_bytes gy_hex)
    (px, py) ← to_affine public.point
    let h = update (update h (to_be_bytes (retrieve px))) (to_be_bytes (retrieve py))
    some (finalize h)

  -- `SM3(z || message)` as a residue.
  unfoldable pub message_scalar : List ℕ → List ℕ → Fn
  message_scalar z message = fn_new (from_be_slice (finalize (update (update Sm3.new z) message)))

  unfoldable pub pair_select : RsPair → RsPair → Bool → RsPair
  pair_select a b choice = record { r = select a.r b.r choice; s = select a.s b.s choice }

  unfoldable pub ct_or_else : CtOption RsPair → CtOption RsPair → CtOption RsPair
  ct_or_else a b =
      let default : RsPair = record { r = 0; s = 0 } in
      let a_val = if a.is_some then a.value else default in
      let b_val = if b.is_some then b.value else default in
      record { value = pair_select b_val a_val a.is_some; is_some = a.is_some || b.is_some }

  -- `!candidate.ct_eq(&U256::ZERO) & candidate.ct_lt(&n)`
  unfoldable pub is_nonce : ℕ → Bool
  is_nonce candidate = not (ct_eq candidate 0) && ct_lt candidate n

  -- The arithmetic of `try_sign_once`, from the nonce `k` and the abscissa `x1` on.
  unfoldable pub candidate : Sm2PrivateKey → Fn → Fn → Bool → ℕ → CtOption RsPair
  candidate key e k sample_ok x1 =
      let x1_in_n = fn_new x1 in
      let r = fn_add e x1_in_n in
      let r_u = fn_retrieve r in
      let r_plus_k = fn_retrieve (fn_add r k) in
      let bad_r = ct_eq r_u 0 || ct_eq r_plus_k 0 in
      let one_plus_d_inv = fn_invert (fn_add (fn_new 1) key.d) in
      let k_minus_rd = fn_sub k (fn_mul r key.d) in
      let inv_unwrapped = unwrap_or one_plus_d_inv (fn_new 1) in
      let inv_ok = is_some one_plus_d_inv in
      let s_u = fn_retrieve (fn_mul inv_unwrapped k_minus_rd) in
      let valid = not bad_r && (not (ct_eq s_u 0) && (inv_ok && sample_ok)) in
      record { value = record { r = r_u; s = s_u }; is_some = valid }

  module _ {R : Type 0} ⦃source : TryCryptoRng R⦄ where
    -- The loop of `sample_nonzero_scalar`.
    unfoldable pub sample_rounds : ℕ → ℕ → Bool → R → Option (ℕ × Bool) × R
    sample_rounds zero chosen found rng = (some (chosen, found), rng)
    sample_rounds (suc rounds) chosen found rng =
        let (filled, rng) = source.try_fill_bytes rng 32 in
        elim filled [
          | none ↦ (none, rng)
          | some buf ↦
              let candidate = from_be_slice buf in
              let valid = is_nonce candidate in
              let take = valid && not found in
              sample_rounds rounds (select chosen candidate take) (found || valid) rng
        ]

    unfoldable pub sample_nonzero_scalar : R → Option (Fn × Bool) × R
    sample_nonzero_scalar rng =
        let (sampled, rng) = sample_rounds nonce_sample_budget 1 false rng in
        elim sampled [
          | none ↦ (none, rng)
          | some (chosen, found) ↦ (some (fn_new chosen, found), rng)
        ]

    module _ ⦃subtle : Subtle⦄ where
      -- `try_sign_once` after the sampler.
      unfoldable pub sign_sampled :
          Sm2PrivateKey → Fn → Option (Fn × Bool) → R → Option (Option (CtOption RsPair) × R)
      sign_sampled key e none rng = some (none, rng)
      sign_sampled key e (some (k, sample_ok)) rng = do
        (x1, _) ← to_affine (mul_g k)
        some (some (candidate key e k sample_ok (retrieve x1)), rng)

      unfoldable pub try_sign_once : Sm2PrivateKey → Fn → R → Option (Option (CtOption RsPair) × R)
      try_sign_once key e rng =
          let (sampled, rng) = sample_nonzero_scalar rng in sign_sampled key e sampled rng

      -- The loop of `sign_raw_with_id`.
      unfoldable pub sign_rounds :
          ℕ → Sm2PrivateKey → Fn → CtOption RsPair → R → Option (Option (CtOption RsPair) × R)
      sign_rounds zero key e chosen rng = some (some chosen, rng)
      sign_rounds (suc rounds) key e chosen rng = elim (try_sign_once key e rng) [
        | none ↦ none
        | some (none, rng) ↦ some (none, rng)
        | some (some candidate, rng) ↦ sign_rounds rounds key e (ct_or_else chosen candidate) rng
      ]

      unfoldable pub sign_raw_with_id :
          Sm2PrivateKey → List ℕ → List ℕ → R → Option (Option (ℕ × ℕ) × R)
      sign_raw_with_id key id message rng =
          let default : CtOption RsPair = record {
            value = record { r = 0; s = 0 };
            is_some = false;
          } in
          if ltb max_id_len (length id) then some (none, rng) else do
            z ← compute_z (public_key key) id
            (chosen, rng) ← sign_rounds sign_retry_budget key (message_scalar z message) default rng
            some (chosen >>= into >>= (λ pair. some (pair.r, pair.s)), rng)

      unfoldable pub sign_with_id :
          Sm2PrivateKey → List ℕ → List ℕ → R → Option (Option (List ℕ) × R)
      sign_with_id key id message rng = do
        (signed, rng) ← sign_raw_with_id key id message rng
        elim signed [
          | none ↦ some (none, rng)
          | some (r, s) ↦ do sig ← encode_sig (to_be_bytes r) (to_be_bytes s); some (some sig, rng)
        ]
