-- ===== src/Sm2/Plain.antt =====
-- `CryptoBigint` by plain arithmetic: the operations have a model, and the tests run.
use gm_crypto_rs.Base.{
  ℕ, zero, suc, ◌+◌, ◌-◌, ◌*◌, ◌/◌, ◌%◌, ◌^◌, ◌≡◌, refl, ltb, ◌==◌, ==_iff, from_be, to_be,
}
use gm_crypto_rs.Base.{arith, if◌then◌else◌, Option, some, ◌>>◌, guard, guard-eq-some, >>=-eq-some}
use gm_crypto_rs.Base.{some-injective, subst}
use gm_crypto_rs.Base.Plain.{ltb_iff}
use gm_crypto_rs.Sm2.Field.{CryptoBigint, p, n}

-- `a ^ e` modulo `m` by squaring; the exponent has at most `bits` bits.
abbrev power : ℕ → ℕ → ℕ → ℕ → ℕ
power m zero a e = 1
power m (suc bits) a e =
    let half = power m bits (a * a % m) (e / 2) in if e % 2 == 0 then half else a * half % m

-- The inverse by Fermat, kept where it is one.
abbrev inverse : ℕ → ℕ → Option ℕ
inverse m a = do let i = power m 256 (a % m) (m - 2); guard ((a % m) * (i % m) % m == 1); some i

pub inverse-some : (m a i : ℕ) → inverse m a ≡ some i → ((a % m) * (i % m)) % m ≡ 1
inverse-some m a i h =
    let found = power m 256 (a % m) (m - 2) in
    let (_, e, f) = >>=-eq-some (guard ((a % m) * (found % m) % m == 1)) _ h in
    subst (λ i. ((a % m) * (i % m)) % m ≡ 1) (some-injective found i f)
      ((==_iff ((a % m) * (found % m) % m) 1).0 (guard-eq-some _ e))

-- A residue is any number that stands for it.
instance abbrev pub plain_bigint : CryptoBigint
plain_bigint = record {
  from_be_slice = from_be;
  ct_lt = ltb;
  ct_eq = λ a b. a == b;
  Fp = ℕ;
  fp_new = λ a. a;
  fp_add = λ a b. a % p + b % p;
  fp_sub = λ a b. a + (p - b % p);
  fp_mul = λ a b. (a % p) * (b % p);
  retrieve = λ a. a % p;
  fp_invert = inverse p;
  Fn = ℕ;
  fn_new = λ a. a;
  fn_add = λ a b. a % n + b % n;
  fn_sub = λ a b. a + (n - b % n);
  fn_mul = λ a b. (a % n) * (b % n);
  fn_invert = inverse n;
  fn_retrieve = λ a. a % n;
  select = λ a b choice. if choice then b else a;
  fp_select = λ a b choice. if choice then b else a;
  carrying_add = λ a b. ((a + b) % 2 ^ 256, (a + b) / 2 ^ 256);
  wrapping_sub = λ a b. (a + (2 ^ 256 - b)) % 2 ^ 256;
  to_be_bytes = to_be 32;
  from_be_slice_lem = λ bs h. refl;
  ct_lt_iff = λ a b. ltb_iff b a;
  ct_eq_iff = ==_iff;
  retrieve-new = λ a. refl;
  retrieve-add = λ a b. refl;
  retrieve-sub = λ a b. omega arith;
  retrieve-mul = λ a b. refl;
  fp_invert_some = inverse-some p;
  fn_retrieve-new = λ a. refl;
  fn_retrieve-add = λ a b. refl;
  fn_retrieve-sub = λ a b. omega arith;
  fn_retrieve-mul = λ a b. refl;
  fn_invert_some = inverse-some n;
  fn_retrieve-lt = λ a. omega arith;
  select_false = λ a b. refl;
  select_true = λ a b. refl;
  fp_select_false = λ a b. refl;
  fp_select_true = λ a b. refl;
  carrying_add_lem = λ a b ha hb. refl;
  wrapping_sub_lem = λ a b ha h. omega arith;
  to_be_bytes_lem = λ a h. refl;
}
