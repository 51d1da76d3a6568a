-- ===== src/Sm2/Verify/Steps.antt =====
-- The steps of `verify_with_id` (sm2/verify.rs), each against what it tests.
use gm_crypto_rs.Base.{ℕ, ◌+◌, ◌*◌, ◌%◌, ◌<◌, ◌≤◌, ltb, leb, ◌==◌, Bool, true, false, not, ◌||◌}
use gm_crypto_rs.Base.{
  List, length, replicate, from_be, to_be, Option, none, some, ◌>>=◌, guard, from_be_onto,
}
use gm_crypto_rs.Base.{
  ◌≡◌, ◌≢◌, ◌↔◌, Option-cases, refl, sym, ap, ap₂, subst, ◌∙◌, inl, inr, arith, Bool-cases,
  some-injective, >>=-eq-some, Subtle, le→ltb, from_be-to_be, to_be-IsBytes, length-to_be,
}
use native.Mathlib.Nat.{add-mod-mod, mod-add-mod}
use gm_crypto_rs.Asn1.Sig.{decode_sig}
use gm_crypto_rs.Asn1.Sig.Codec.{IsScalar}
use gm_crypto_rs.Sm2.Field.{CryptoBigint, n, p}
use gm_crypto_rs.Sm2.Point.{ProjectivePoint, add, is_identity, to_affine}
use gm_crypto_rs.Sm2.ScalarMul.{mul_g, mul_var}
use gm_crypto_rs.Sm2.Keys.{Sm2PublicKey}
use gm_crypto_rs.Sm2.Sign.{compute_z, message_scalar, max_id_len}
use gm_crypto_rs.Sm2.Verify.{out_of_range, check, verify_scalars, verify_with_id}

zero_bytes : from_be (replicate 32 0) ≡ 0
unfolding from_be_onto
zero_bytes = refl

module _ ⦃big : CryptoBigint⦄ where
  open big use {
    Fp, Fn, fn_new, fn_add, fn_mul, fn_retrieve, retrieve, ct_eq, to_be_bytes, from_be_slice,
  }

  -- The abscissa of a point that is finite.
  abbrev pub affine_x : ProjectivePoint → Option ℕ
  affine_x q = do (x, _) ← to_affine q; some (retrieve x)

  pub to_be_bytes-IsScalar : (r : ℕ) → r < n → r ≢ 0 → IsScalar (to_be_bytes r)
  to_be_bytes-IsScalar r below nonzero =
      subst IsScalar (sym (big.to_be_bytes_lem r (omega arith))) (record {
        width = length-to_be 32 r;
        bytes = to_be-IsBytes 32 r;
        nonzero = λ e. nonzero (sym (from_be-to_be 32 r (omega arith)) ∙ ap from_be e ∙ zero_bytes);
      })

  pub read_back : (r : ℕ) → r < n → from_be_slice (to_be_bytes r) ≡ r
  read_back r below =
      ap from_be_slice (big.to_be_bytes_lem r (omega arith))
      ∙ big.from_be_slice_lem (to_be 32 r) (length-to_be 32 r)
      ∙ from_be-to_be 32 r (omega arith)

  -- A point that has affine coordinates is not the identity.
  finite_point : (q : ProjectivePoint) (c : Fp × Fp) → to_affine q ≡ some c → is_identity q ≡ false
  unfolding to_affine is_identity
  finite_point q c h =
      let (z_inv, e, f) = >>=-eq-some (big.fp_invert q.z) _ h in
      let unit = big.fp_invert_some q.z z_inv e in
      elim (Bool-cases (ct_eq (retrieve q.z) 0)) [
        | inr finite ↦ finite
        | inl bad ↦
            absurd
              (clash (retrieve q.z) (retrieve z_inv) ((big.ct_eq_iff (retrieve q.z) 0).0 bad) unit)
      ]
    where
      clash : (z i : ℕ) → z ≡ 0 → (z * i) % p ≡ 1 → ⊥
      clash z i e h =
          let vanishes : (0 * i) % p ≡ 1 = subst (λ z. (z * i) % p ≡ 1) e h in omega arith

  module _ ⦃subtle : Subtle⦄ where
    pub compute_z_finite :
        (public : Sm2PublicKey) (id z : List ℕ)
        → compute_z public id ≡ some z
        → is_identity public.point ≡ false
    unfolding compute_z
    compute_z_finite public id z h =
        let (_, e1, f1) = >>=-eq-some (guard (leb (length id) max_id_len)) _ h in
        let (c, e2, f2) = >>=-eq-some (to_affine public.point) _ f1 in
        finite_point public.point c e2

    pub mul_g_ext : (a b : Fn) → fn_retrieve a ≡ fn_retrieve b → mul_g a ≡ mul_g b
    unfolding mul_g
    mul_g_ext a b e = rw e refl

    pub retrieve-sum : (r s : ℕ) → fn_retrieve (fn_add (fn_new r) (fn_new s)) ≡ (r + s) % n
    retrieve-sum r s =
        big.fn_retrieve-add (fn_new r) (fn_new s)
        ∙ ap₂ (λ a b. (a + b) % n) (big.fn_retrieve-new r) (big.fn_retrieve-new s)
        ∙ mod-add-mod r n (s % n)
        ∙ add-mod-mod r s n

    -- The scalars are from 1 to `n - 1`, and their sum does not vanish.
    pub record InRange (r s : ℕ) : Type 0 where
      pub r_nonzero : r ≢ 0
      pub s_nonzero : s ≢ 0
      pub r_below : r < n
      pub s_below : s < n
      pub sum_nonzero : (r + s) % n ≢ 0

    pub out_of_range-InRange : (r s : ℕ) → (out_of_range r s ≡ false) ↔ InRange r s
    unfolding out_of_range
    out_of_range-InRange r s =
        let same = retrieve-sum r s in
        let vanishes = ct_eq (fn_retrieve (fn_add (fn_new r) (fn_new s))) 0 in
        let found = big.ct_eq_iff (fn_retrieve (fn_add (fn_new r) (fn_new s))) 0 in
        (
          λ h.
              let (hr, hs, lr, ls, hv) = opened n r s vanishes h in
              record {
                r_nonzero = hr;
                s_nonzero = hs;
                r_below = lr;
                s_below = ls;
                sum_nonzero = λ e. hv (found.1 (same ∙ e));
              },
          λ h.
              closed n r s vanishes h.r_nonzero h.s_nonzero h.r_below h.s_below
                (λ e. h.sum_nonzero (sym same ∙ found.0 e)),
        )
      where
        closed :
            (n r s : ℕ) (vanishes : Bool)
            → r ≢ 0
            → s ≢ 0
            → r < n
            → s < n
            → vanishes ≢ true
            → (((r == 0) || (s == 0)) || ((not (ltb r n) || not (ltb s n)) || vanishes)) ≡ false
        closed n r s vanishes hr hs lr ls hv = ground arith

        opened :
            (n r s : ℕ) (vanishes : Bool)
            → (((r == 0) || (s == 0)) || ((not (ltb r n) || not (ltb s n)) || vanishes)) ≡ false
            → (r ≢ 0) × (s ≢ 0) × (r < n) × (s < n) × (vanishes ≢ true)
        opened n r s vanishes h =
            (λ e. ground arith, λ e. ground arith, ground arith, ground arith, λ e. ground arith)

    pub affine_x_of :
        (q : ProjectivePoint) (x y : Fp)
        → to_affine q ≡ some (x, y)
        → affine_x q ≡ some (retrieve x)
    affine_x_of q x y h = rw h refl

    check-none : (e : Fn) (r : ℕ) (q : ProjectivePoint) → to_affine q ≡ none → check e r q ≡ false
    unfolding check
    check-none e r q h = rw (check, h) refl

    check-some :
        (e : Fn) (r : ℕ) (q : ProjectivePoint) (x y : Fp)
        → to_affine q ≡ some (x, y)
        → check e r q ≡ ct_eq (fn_retrieve (fn_add e (fn_new (retrieve x)))) r
    unfolding check
    check-some e r q x y h = rw (check, h) refl

    -- `check` looks for the abscissa whose sum with the digest is `r`.
    pub check_iff :
        (e : Fn) (r : ℕ) (q : ProjectivePoint)
        → (check e r q ≡ true)
          ↔ ((x1 : ℕ) × (affine_x q ≡ some x1) × (r ≡ (fn_retrieve e + x1) % n))
    check_iff e r q = (opened, closed)
      where
        differ : ¬ (false ≡ true)
        differ h = cc

        sum :
            (x : Fp)
            → fn_retrieve (fn_add e (fn_new (retrieve x))) ≡ (fn_retrieve e + retrieve x) % n
        sum x =
            big.fn_retrieve-add e (fn_new (retrieve x))
            ∙ ap (λ t. (fn_retrieve e + t) % n) (big.fn_retrieve-new (retrieve x))
            ∙ add-mod-mod (fn_retrieve e) (retrieve x) n

        opened :
            check e r q ≡ true → (x1 : ℕ) × (affine_x q ≡ some x1) × (r ≡ (fn_retrieve e + x1) % n)
        opened h = elim (Option-cases (to_affine q)) [
          | inl infinite ↦ absurd (differ (sym (check-none e r q infinite) ∙ h))
          | inr ((x, y), at) ↦
              let equal = sym (check-some e r q x y at) ∙ h in
              let found = big.ct_eq_iff (fn_retrieve (fn_add e (fn_new (retrieve x)))) r in
              (retrieve x, affine_x_of q x y at, sym (found.0 equal) ∙ sum x)
        ]

        closed :
            (x1 : ℕ) × (affine_x q ≡ some x1) × (r ≡ (fn_retrieve e + x1) % n) → check e r q ≡ true
        closed (x1, h, first) =
            let ((x, y), e1, f) = >>=-eq-some (to_affine q) _ h in
            let same : retrieve x ≡ x1 = some-injective _ _ f in
            check-some e r q x y e1
            ∙ (big.ct_eq_iff (fn_retrieve (fn_add e (fn_new (retrieve x)))) r).1
                (sum x ∙ ap (λ t. (fn_retrieve e + t) % n) same ∙ sym first)

    pub accepts :
        (public : Sm2PublicKey) (id message sig r_be s_be z : List ℕ) (r s : ℕ)
        → length id ≤ 8191
        → decode_sig sig ≡ some (r_be, s_be)
        → from_be_slice r_be ≡ r
        → from_be_slice s_be ≡ s
        → out_of_range r s ≡ false
        → compute_z public id ≡ some z
        → check
            (message_scalar z message)
            r
            (add (mul_g (fn_new s)) (mul_var (fn_add (fn_new r) (fn_new s)) public.point))
          ≡ true
        → verify_with_id public id message sig ≡ some true
    unfolding verify_with_id verify_scalars
    accepts public id message sig r_be s_be z r s short decoded er es range at passes =
        rw
          (
            compute_z_finite public id z at,
            le→ltb max_id_len (length id) short,
            verify_with_id,
            decoded,
            er,
            es,
            verify_scalars,
            range,
            at,
            passes,
          )
          refl
