-- ===== src/Sm2/Keys/Range.antt =====
-- The byte form of a private key (sm2/private_key.rs) and the range of the scalar.
use gm_crypto_rs.Base.{
  ℕ, ◌+◌, ◌-◌, ◌%◌, ◌^◌, ◌<◌, ◌≤◌, Bool, true, not, ◌&&◌, List, length, from_be,
}
use gm_crypto_rs.Base.{IsBytes, Subtle, from_be-lt, to_be-from_be}
use gm_crypto_rs.Base.{◌≡◌, ◌↔◌, sym, ap, ◌∙◌, arith}
use gm_crypto_rs.Sm2.Field.{CryptoBigint, n}
use gm_crypto_rs.Sm2.Keys.{from_scalar_inner, from_bytes_be, to_bytes_be}

module _ ⦃big : CryptoBigint⦄ where
  open big use {fn_new, fn_retrieve, ct_eq, ct_lt, wrapping_sub, from_be_slice, to_be_bytes}

  module _ ⦃subtle : Subtle⦄ where
    valid_range : (d : ℕ) → ((from_scalar_inner d).is_some ≡ true) ↔ ((1 ≤ d) × (d + 2 ≤ n))
    unfolding from_scalar_inner
    valid_range d =
        let less : wrapping_sub n 1 ≡ n - 1 =
          big.wrapping_sub_lem n 1 (omega arith) (omega arith) in
        let low = big.ct_eq_iff d 0 in
        let high = big.ct_lt_iff d (wrapping_sub n 1) in
        (
          λ h.
              opened d (wrapping_sub n 1) (ct_eq d 0) (ct_lt d (wrapping_sub n 1)) less low.1 high.0
                h,
          λ (lo, hi).
              closed d (wrapping_sub n 1) (ct_eq d 0) (ct_lt d (wrapping_sub n 1)) less low.0 high.1
                lo hi,
        )
      where
        opened :
            (d m : ℕ) (vanishes below : Bool)
            → m ≡ n - 1
            → (d ≡ 0 → vanishes ≡ true)
            → (below ≡ true → d < m)
            → (not vanishes && below) ≡ true
            → (1 ≤ d) × (d + 2 ≤ n)
        opened d m vanishes below e f g h = grind arith

        closed :
            (d m : ℕ) (vanishes below : Bool)
            → m ≡ n - 1
            → (vanishes ≡ true → d ≡ 0)
            → (d < m → below ≡ true)
            → 1 ≤ d
            → d + 2 ≤ n
            → (not vanishes && below) ≡ true
        closed d m vanishes below e f g lo hi = grind arith

    kept : (d : ℕ) → fn_retrieve (from_scalar_inner d).value.d ≡ d % n
    unfolding from_scalar_inner
    kept d = big.fn_retrieve-new d

    -- 32 bytes are accepted as a private key exactly if the big-endian number that they write is
    -- from 1 to `n - 2` and `to_bytes_be` gives the bytes back from the key.
    pub from_bytes_be_range :
        (bytes : List ℕ)
        → IsBytes bytes
        → length bytes ≡ 32
        → ((from_bytes_be bytes).is_some ≡ true) ↔ (
            (1 ≤ from_be bytes)
            × (from_be bytes + 2 ≤ n)
            × (to_bytes_be (from_bytes_be bytes).value ≡ bytes))
    unfolding from_bytes_be to_bytes_be
    from_bytes_be_range bytes h size =
        let d = from_be bytes in
        let read : from_be_slice bytes ≡ d = big.from_be_slice_lem bytes size in
        let below : d < 256 ^ 32 = from_be-lt 32 bytes h size in
        let valid : (from_scalar_inner d).is_some
            ≡ (from_scalar_inner (from_be_slice bytes)).is_some =
          ap (λ d. (from_scalar_inner d).is_some) (sym read) in
        (
          λ e.
              let (lo, hi) = (valid_range d).0 (valid ∙ e) in
              let small : d % n ≡ d = omega arith in
              (
                lo,
                hi,
                ap to_be_bytes (kept (from_be_slice bytes) ∙ ap (λ d. d % n) read ∙ small)
                    ∙ big.to_be_bytes_lem d below
                    ∙ to_be-from_be 32 bytes h size,
              ),
          λ (lo, hi, _). sym valid ∙ (valid_range d).1 (lo, hi),
        )
