-- ===== src/Sm2/Curve.antt =====
-- `b` of sm2/curve.rs and `point_on_curve` of sm2/encrypt.rs.
use gm_crypto_rs.Base.{Bool}
use gm_crypto_rs.Sm2.Field.{CryptoBigint, b_hex}

module _ ⦃big : CryptoBigint⦄ where
  open big use {Fp, fp_new, fp_add, fp_sub, fp_mul, retrieve, ct_eq}

  -- `const fn b`
  abbrev pub b : Fp
  b = fp_new b_hex

  unfoldable pub point_on_curve : Fp → Fp → Bool
  point_on_curve x y =
      let three = fp_new 3 in
      let lhs = fp_mul y y in
      let rhs = fp_add (fp_sub (fp_mul (fp_mul x x) x) (fp_mul three x)) b in
      ct_eq (retrieve lhs) (retrieve rhs)
