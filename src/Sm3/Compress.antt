-- ===== src/Sm3/Compress.antt =====
-- sm3.rs: the compression function and its Boolean functions.
use gm_crypto_rs.Base.{ℕ, ◌+◌, ◌-◌, ◌*◌, ◌%◌, ltb, if◌then◌else◌, List, get_or, set, take, drop}
use gm_crypto_rs.Base.{
  replicate, from_be, for_range, ◌⊕◌, bit_and, bit_or, rotate_left, wrapping_add,
}
use gm_crypto_rs.Base.{not_u32}

-- The eight words, both of the chaining value and of the working registers.
pub record State : Type 0 where
  pub a : ℕ
  pub b : ℕ
  pub c : ℕ
  pub d : ℕ
  pub e : ℕ
  pub f : ℕ
  pub g : ℕ
  pub h : ℕ

abbrev t_j_low : ℕ
t_j_low = 0x79cc_4519

abbrev t_j_high : ℕ
t_j_high = 0x7a87_9d8a

unfoldable pub p0 : ℕ → ℕ
p0 x = x ⊕ rotate_left x 9 ⊕ rotate_left x 17

unfoldable pub p1 : ℕ → ℕ
p1 x = x ⊕ rotate_left x 15 ⊕ rotate_left x 23

unfoldable pub ff_low : ℕ → ℕ → ℕ → ℕ
ff_low x y z = x ⊕ y ⊕ z

unfoldable pub ff_high : ℕ → ℕ → ℕ → ℕ
ff_high x y z = bit_or (bit_or (bit_and x y) (bit_and x z)) (bit_and y z)

unfoldable pub gg_low : ℕ → ℕ → ℕ → ℕ
gg_low x y z = x ⊕ y ⊕ z

unfoldable pub gg_high : ℕ → ℕ → ℕ → ℕ
gg_high x y z = bit_or (bit_and x y) (bit_and (not_u32 x) z)

-- `W[0..68]`: the words of the block, then the derived ones.
unfoldable pub expand : List ℕ → List ℕ
unfolding p1
expand block =
    let loaded =
      for_range 16 0 (λ j w. set w j (from_be (take 4 (drop (j * 4) block)))) (replicate 68 0) in
    for_range 52 16
      (λ j w. set w j (
        p1 (get_or w (j - 16) 0 ⊕ get_or w (j - 9) 0 ⊕ rotate_left (get_or w (j - 3) 0) 15)
        ⊕ rotate_left (get_or w (j - 13) 0) 7
        ⊕ get_or w (j - 6) 0))
      loaded

-- `W'[0..64]`.
unfoldable pub expand_prime : List ℕ → List ℕ
expand_prime w =
    for_range 64 0 (λ j wp. set wp j (get_or w j 0 ⊕ get_or w (j + 4) 0)) (replicate 64 0)

unfoldable pub round : List ℕ → List ℕ → ℕ → State → State
unfolding p0 ff_low ff_high gg_low gg_high
round w wp j s =
    let t_j = if ltb j 16 then t_j_low else t_j_high in
    let ss1 =
      rotate_left (wrapping_add (wrapping_add (rotate_left s.a 12) s.e) (rotate_left t_j (j % 32)))
        7 in
    let ss2 = ss1 ⊕ rotate_left s.a 12 in
    let ff = if ltb j 16 then ff_low s.a s.b s.c else ff_high s.a s.b s.c in
    let gg = if ltb j 16 then gg_low s.e s.f s.g else gg_high s.e s.f s.g in
    let tt1 = wrapping_add (wrapping_add (wrapping_add ff s.d) ss2) (get_or wp j 0) in
    let tt2 = wrapping_add (wrapping_add (wrapping_add gg s.h) ss1) (get_or w j 0) in
    record {
      a = tt1;
      b = s.a;
      c = rotate_left s.b 9;
      d = s.c;
      e = p0 tt2;
      f = s.e;
      g = rotate_left s.f 19;
      h = s.g;
    }

unfoldable pub compress : State → List ℕ → State
unfolding expand expand_prime round
compress state block =
    let w = expand block in
    let wp = expand_prime w in
    let s = for_range 64 0 (λ j s. round w wp j s) state in
    record {
      a = state.a ⊕ s.a;
      b = state.b ⊕ s.b;
      c = state.c ⊕ s.c;
      d = state.d ⊕ s.d;
      e = state.e ⊕ s.e;
      f = state.f ⊕ s.f;
      g = state.g ⊕ s.g;
      h = state.h ⊕ s.h;
    }
