-- ===== src/Sm2/Field.antt =====
-- The operations of the crate `crypto_bigint` that the modelled code calls, with what its
-- documentation says of them. A `U256` is the number that it stands for, an `Fp` is a residue.
use gm_crypto_rs.Base.{
  ℕ, ◌+◌, ◌-◌, ◌*◌, ◌/◌, ◌%◌, ◌^◌, ◌<◌, ◌≤◌, ◌≡◌, ◌↔◌, Bool, true, false, List, length, from_be,
  to_be,
}
use gm_crypto_rs.Base.{Option, some}

-- `const_monty_params!(PMod, ...)` of sm2/curve.rs
abbrev pub p : ℕ
p = 0xFFFFFFFEFFFFFFFFFFFFFFFFFFFFFFFFFFFFFFFF00000000FFFFFFFFFFFFFFFF

-- `B_HEX` of sm2/curve.rs
abbrev pub b_hex : ℕ
b_hex = 0x28E9FA9E9D9F5E344D5A9E4BCF6509A7F39789F515AB8F92DDBCBD414D940E93

-- `const_monty_params!(NMod, ...)`
abbrev pub n : ℕ
n = 0xFFFFFFFEFFFFFFFFFFFFFFFFFFFFFFFF7203DF6B21C6052B53BBF40939D54123

-- `GX_HEX` and `GY_HEX`
abbrev pub gx_hex : ℕ
gx_hex = 0x32C4AE2C1F1981195F9904466A39C9948FE30BBFF2660BE1715A4589334C74C7

abbrev pub gy_hex : ℕ
gy_hex = 0xBC3736A2F4F6779C59BDCEE36B692153D0A9877CC62A474002DF32E52139F0A0

pub record CryptoBigint : Type 1 where
  -- `U256::from_be_slice`, `U256::ct_lt` and `U256::ct_eq`
  pub from_be_slice : List ℕ → ℕ
  pub ct_lt : ℕ → ℕ → Bool
  pub ct_eq : ℕ → ℕ → Bool
  -- `Fp::new`, its arithmetic, and `retrieve`
  pub Fp : Type 0
  pub fp_new : ℕ → Fp
  pub fp_add : Fp → Fp → Fp
  pub fp_sub : Fp → Fp → Fp
  pub fp_mul : Fp → Fp → Fp
  pub retrieve : Fp → ℕ
  -- `Fp::invert`
  pub fp_invert : Fp → Option Fp
  -- `Fn::new`, its arithmetic, `invert` and `retrieve`
  pub Fn : Type 0
  pub fn_new : ℕ → Fn
  pub fn_add : Fn → Fn → Fn
  pub fn_sub : Fn → Fn → Fn
  pub fn_mul : Fn → Fn → Fn
  pub fn_invert : Fn → Option Fn
  pub fn_retrieve : Fn → ℕ
  -- `conditional_select` on `U256` and `Fp`, `U256::carrying_add` with the carry 0,
  -- `U256::wrapping_sub` and `U256::to_be_bytes`
  pub select : ℕ → ℕ → Bool → ℕ
  pub fp_select : Fp → Fp → Bool → Fp
  pub carrying_add : ℕ → ℕ → ℕ × ℕ
  pub wrapping_sub : ℕ → ℕ → ℕ
  pub to_be_bytes : ℕ → List ℕ
  pub from_be_slice_lem : (bs : List ℕ) → length bs ≡ 32 → from_be_slice bs ≡ from_be bs
  pub ct_lt_iff : (a b : ℕ) → (ct_lt a b ≡ true) ↔ (a < b)
  pub ct_eq_iff : (a b : ℕ) → (ct_eq a b ≡ true) ↔ (a ≡ b)
  pub retrieve-new : (a : ℕ) → retrieve (fp_new a) ≡ a % p
  pub retrieve-add : (a b : Fp) → retrieve (fp_add a b) ≡ (retrieve a + retrieve b) % p
  pub retrieve-sub : (a b : Fp) → (retrieve (fp_sub a b) + retrieve b) % p ≡ retrieve a
  pub retrieve-mul : (a b : Fp) → retrieve (fp_mul a b) ≡ (retrieve a * retrieve b) % p
  pub fp_invert_some : (a i : Fp) → fp_invert a ≡ some i → (retrieve a * retrieve i) % p ≡ 1
  pub fn_retrieve-new : (a : ℕ) → fn_retrieve (fn_new a) ≡ a % n
  pub fn_retrieve-add : (a b : Fn) → fn_retrieve (fn_add a b) ≡ (fn_retrieve a + fn_retrieve b) % n
  pub fn_retrieve-sub : (a b : Fn) → (fn_retrieve (fn_sub a b) + fn_retrieve b) % n ≡ fn_retrieve a
  pub fn_retrieve-mul : (a b : Fn) → fn_retrieve (fn_mul a b) ≡ (fn_retrieve a * fn_retrieve b) % n
  pub fn_invert_some : (a i : Fn) → fn_invert a ≡ some i → (fn_retrieve a * fn_retrieve i) % n ≡ 1
  pub fn_retrieve-lt : (a : Fn) → fn_retrieve a < n
  pub select_false : (a b : ℕ) → select a b false ≡ a
  pub select_true : (a b : ℕ) → select a b true ≡ b
  pub fp_select_false : (a b : Fp) → fp_select a b false ≡ a
  pub fp_select_true : (a b : Fp) → fp_select a b true ≡ b
  pub carrying_add_lem :
      (a b : ℕ)
      → a < 2 ^ 256
      → b < 2 ^ 256
      → carrying_add a b ≡ ((a + b) % 2 ^ 256, (a + b) / 2 ^ 256)
  pub wrapping_sub_lem : (a b : ℕ) → a < 2 ^ 256 → b ≤ a → wrapping_sub a b ≡ a - b
  pub to_be_bytes_lem : (a : ℕ) → a < 2 ^ 256 → to_be_bytes a ≡ to_be 32 a
