-- ===== src/Sm2/Point.antt =====
-- sm2/point.rs: points of the curve in projective coordinates, with the complete addition
-- formulas; the comments after the steps are the source's numbers.
use gm_crypto_rs.Base.{Bool, ◌&&◌, Option, some, ◌>>=◌}
use gm_crypto_rs.Sm2.Field.{CryptoBigint, gx_hex, gy_hex}
use gm_crypto_rs.Sm2.Curve.{b}

module _ ⦃big : CryptoBigint⦄ where
  open big use {Fp, fp_new, fp_add, fp_sub, fp_mul, fp_invert, fp_select, retrieve, ct_eq}

  pub record ProjectivePoint : Type 0 where
    pub x : Fp
    pub y : Fp
    pub z : Fp

  -- `ct_eq` of `impl ConstantTimeEq`
  unfoldable pub same_point : ProjectivePoint → ProjectivePoint → Bool
  same_point self other =
      let lhs_x = fp_mul self.x other.z in
      let rhs_x = fp_mul other.x self.z in
      let lhs_y = fp_mul self.y other.z in
      let rhs_y = fp_mul other.y self.z in
      ct_eq (retrieve lhs_x) (retrieve rhs_x) && ct_eq (retrieve lhs_y) (retrieve rhs_y)

  unfoldable pub conditional_select : ProjectivePoint → ProjectivePoint → Bool → ProjectivePoint
  conditional_select a b choice = record {
    x = fp_select a.x b.x choice;
    y = fp_select a.y b.y choice;
    z = fp_select a.z b.z choice;
  }

  unfoldable pub identity : ProjectivePoint
  identity = record { x = fp_new 0; y = fp_new 1; z = fp_new 0 }

  unfoldable pub generator : ProjectivePoint
  generator = record { x = fp_new gx_hex; y = fp_new gy_hex; z = fp_new 1 }

  unfoldable pub is_identity : ProjectivePoint → Bool
  is_identity self = ct_eq (retrieve self.z) 0

  -- `a + a + a`
  abbrev triple : Fp → Fp
  triple a = fp_add (fp_add a a) a

  unfoldable pub add : ProjectivePoint → ProjectivePoint → ProjectivePoint
  add self other =
      let x1 = self.x in
      let y1 = self.y in
      let z1 = self.z in
      let x2 = other.x in
      let y2 = other.y in
      let z2 = other.z in
      let xx = fp_mul x1 x2 in
      let yy = fp_mul y1 y2 in
      let zz = fp_mul z1 z2 in
      let xy_pairs = fp_sub (fp_mul (fp_add x1 y1) (fp_add x2 y2)) (fp_add xx yy) in
      let yz_pairs = fp_sub (fp_mul (fp_add y1 z1) (fp_add y2 z2)) (fp_add yy zz) in
      let xz_pairs = fp_sub (fp_mul (fp_add x1 z1) (fp_add x2 z2)) (fp_add xx zz) in
      let bzz_part = fp_sub xz_pairs (fp_mul b zz) in
      let bzz3_part = triple bzz_part in
      let yy_m_bzz3 = fp_sub yy bzz3_part in
      let yy_p_bzz3 = fp_add yy bzz3_part in
      let zz3 = triple zz in
      let bxz_part = fp_sub (fp_mul b xz_pairs) (fp_add zz3 xx) in
      let bxz3_part = triple bxz_part in
      let xx3_m_zz3 = fp_sub (triple xx) zz3 in
      record {
        x = fp_sub (fp_mul yy_p_bzz3 xy_pairs) (fp_mul yz_pairs bxz3_part);
        y = fp_add (fp_mul yy_p_bzz3 yy_m_bzz3) (fp_mul xx3_m_zz3 bxz3_part);
        z = fp_add (fp_mul yy_m_bzz3 yz_pairs) (fp_mul xy_pairs xx3_m_zz3);
      }

  unfoldable pub double : ProjectivePoint → ProjectivePoint
  double self =
      let x = self.x in
      let y = self.y in
      let z = self.z in
      let xx = fp_mul x x in
      let yy = fp_mul y y in
      let zz = fp_mul z z in
      let xy2 = fp_add (fp_mul x y) (fp_mul x y) in
      let xz2 = fp_add (fp_mul x z) (fp_mul x z) in
      let bzz_part = fp_sub (fp_mul b zz) xz2 in
      let bzz3_part = triple bzz_part in
      let yy_m_bzz3 = fp_sub yy bzz3_part in
      let yy_p_bzz3 = fp_add yy bzz3_part in
      let y_frag = fp_mul yy_p_bzz3 yy_m_bzz3 in
      let x_frag = fp_mul yy_m_bzz3 xy2 in
      let zz3 = triple zz in
      let bxz2_part = fp_sub (fp_mul b xz2) (fp_add zz3 xx) in
      let bxz6_part = triple bxz2_part in
      let xx3_m_zz3 = fp_sub (triple xx) zz3 in
      let y3 = fp_add y_frag (fp_mul xx3_m_zz3 bxz6_part) in
      let yz2 = fp_add (fp_mul y z) (fp_mul y z) in
      let x3 = fp_sub x_frag (fp_mul bxz6_part yz2) in
      let z3_tmp = fp_mul yz2 yy in
      let z3_tmp2 = fp_add z3_tmp z3_tmp in
      let z3 = fp_add z3_tmp2 z3_tmp2 in record { x = x3; y = y3; z = z3 }

  unfoldable pub to_affine : ProjectivePoint → Option (Fp × Fp)
  to_affine self = do z_inv ← fp_invert self.z; some (fp_mul self.x z_inv, fp_mul self.y z_inv)
