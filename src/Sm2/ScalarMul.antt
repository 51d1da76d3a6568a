-- ===== src/Sm2/ScalarMul.antt =====
-- sm2/scalar_mul.rs and sm2/comb_table.rs: multiples of a point by windows of four bits.
pub mod Lookup
pub mod Comb
pub mod Windows
use gm_crypto_rs.Base.{
  ℕ, zero, suc, ◌+◌, ◌-◌, ◌*◌, ◌/◌, ◌%◌, ◌^◌, ◌==◌, if◌then◌else◌, Bool, List, [], ◌∷◌, ◌++◌,
}
use gm_crypto_rs.Base.{get_or, replicate, for_range, foldl, Subtle}
use gm_crypto_rs.Sm2.Field.{CryptoBigint, n}
use gm_crypto_rs.Sm2.Point.{ProjectivePoint, conditional_select, identity, generator, add, double}

-- The bits from `4 * i` to `4 * i + 3`, counted from the lowest.
unfoldable pub nibble : List ℕ → ℕ → ℕ
nibble k_be i =
    let bit = i * 4 in
    let byte_idx = 31 - bit / 8 in
    if i % 2 == 0 then get_or k_be byte_idx 0 % 16 else get_or k_be byte_idx 0 / 2 ^ 4 % 16

module _ ⦃big : CryptoBigint⦄ where
  open big use {Fn, fn_retrieve, carrying_add, select, to_be_bytes}

  -- Applied `WINDOW_BITS` times.
  unfoldable pub double_window : ProjectivePoint → ProjectivePoint
  double_window q = double (double (double (double q)))

  -- `row[i] = row[i - 1].add(q)`, the last of the entries given, `k` times.
  unfoldable pub running : ProjectivePoint → ProjectivePoint → ℕ → List ProjectivePoint
  running q last zero = []
  running q last (suc k) = let next = add last q in next ∷ running q next k

  -- The identity, `q`, and fourteen running additions.
  unfoldable pub multiples : ProjectivePoint → List ProjectivePoint
  multiples q = identity ∷ q ∷ running q q 14

  unfoldable pub double_row : List ProjectivePoint → List ProjectivePoint
  double_row [] = []
  double_row (q ∷ row) = double_window q ∷ double_row row

  -- The rows that follow `prev`.
  unfoldable pub rows_after : List ProjectivePoint → ℕ → List (List ProjectivePoint)
  rows_after prev zero = []
  rows_after prev (suc k) = let row = double_row prev in row ∷ rows_after row k

  unfoldable pub build_comb_table : List (List ProjectivePoint)
  build_comb_table = let row0 = multiples generator in row0 ∷ rows_after row0 63

  module _ ⦃subtle : Subtle⦄ where
    -- The scan over all entries, from index `i` on.
    unfoldable pub scan : List ProjectivePoint → ℕ → ℕ → ProjectivePoint → ProjectivePoint
    scan [] i nib chosen = chosen
    scan (entry ∷ table) i nib chosen =
        let take = subtle.ct_eq (i % 256) nib in
        scan table (suc i) nib (conditional_select chosen entry take)

    unfoldable pub lookup : List ProjectivePoint → ℕ → ProjectivePoint
    lookup table nib = scan table 0 nib identity

    unfoldable pub mul_g : Fn → ProjectivePoint
    mul_g k =
        let table = build_comb_table in
        let k_be = to_be_bytes (fn_retrieve k) in
        for_range 64 0 (λ i acc. add acc (lookup (get_or table i []) (nibble k_be i))) identity

    unfoldable pub lift_scalar : Fn → ℕ
    lift_scalar k =
        let (lifted_once, carry) = carrying_add (fn_retrieve k) n in
        let (lifted_twice, _) = carrying_add lifted_once n in
        let carried = carry % 2 == 1 in select lifted_twice lifted_once carried

    unfoldable pub window_step : List ProjectivePoint → ProjectivePoint → ℕ → ProjectivePoint
    window_step table acc nib = add (double_window acc) (lookup table nib)

    unfoldable pub mul_var : Fn → ProjectivePoint → ProjectivePoint
    mul_var k q =
        let table = multiples q in
        let k_be = to_be_bytes (lift_scalar k) in
        foldl (λ acc byte. window_step table (window_step table acc (byte / 2 ^ 4)) (byte % 16)) q
          k_be
