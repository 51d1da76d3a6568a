-- ===== src/Sm2/RawCiphertext/Codec.antt =====
-- sm2/raw_ciphertext.rs: the encoder against the two decoders.
use gm_crypto_rs.Base.{
  ℕ, zero, suc, ◌+◌, ◌-◌, ◌≤◌, ltb, ◌==◌, not, List, [], ◌∷◌, ◌++◌, length, take, drop,
}
use gm_crypto_rs.Base.{Bool, true, some, guard, some-injective}
use gm_crypto_rs.Base.{
  ◌≡◌, refl, sym, ap, ap₂, subst, ◌∙◌, arith, IsByte, IsBytes, from_be, All-take, All-drop,
}
use gm_crypto_rs.Base.{
  append_assoc, >>=-eq-some, guard-eq-some, Bool-cases, Option-cases, inl, inr, not-eq-true,
}
use gm_crypto_rs.Base.{le→ltb, ltb→le, ==_iff, length-append, length-take, length-drop}
use gm_crypto_rs.Base.{take_append, drop_append, take-append-drop, drop-drop}
use gm_crypto_rs.Asn1.Ciphertext.{Sm2Ciphertext}
use gm_crypto_rs.Asn1.Ciphertext.Codec.{IsCoordinate, IsCiphertext}
use gm_crypto_rs.Sm2.Field.{CryptoBigint, p}
use gm_crypto_rs.Sm2.Curve.{point_on_curve}
use gm_crypto_rs.Sm2.RawCiphertext.{
  encode_c1c3c2, read_field_element, split_c1_c3_c2, decode_c1c3c2, decode_c1c2c3_legacy,
}

-- The bytes behind the first, in their four parts.
parts : (t : List ℕ) → ((take 32 t ++ take 32 (drop 32 t)) ++ take 32 (drop 64 t)) ++ drop 96 t ≡ t
parts t =
    let t1 = drop 32 t in
    let t2 = drop 64 t in
    append_assoc (take 32 t ++ take 32 t1) (take 32 t2) (drop 96 t)
    ∙ append_assoc (take 32 t) (take 32 t1) (take 32 t2 ++ drop 96 t)
    ∙ ap (λ r. take 32 t ++ (take 32 t1 ++ (take 32 t2 ++ r))) (sym (drop-drop 32 64 t))
    ∙ ap (λ r. take 32 t ++ (take 32 t1 ++ r)) (take-append-drop 32 t2 ∙ sym (drop-drop 32 32 t))
    ∙ ap (λ r. take 32 t ++ r) (take-append-drop 32 t1)
    ∙ take-append-drop 32 t

-- The four parts of a text that is put together from them.
record IsParts (t x y hash c : List ℕ) : Type 0 where
  has_x : take 32 t ≡ x
  has_y : take 32 (drop 32 t) ≡ y
  has_hash : take 32 (drop 64 t) ≡ hash
  has_c : drop 96 t ≡ c
  length_t : length t ≡ 96 + length c

cut-IsParts :
    (x y hash c : List ℕ)
    → length x ≡ 32
    → length y ≡ 32
    → length hash ≡ 32
    → IsParts (((x ++ y) ++ hash) ++ c) x y hash c
cut-IsParts x y hash c hx hy hh =
    rw (append_assoc (x ++ y) hash c, append_assoc x y (hash ++ c))
      (let t1 = y ++ (hash ++ c) in
        let t = x ++ t1 in
        let d1 : drop 32 t ≡ t1 = drop_append 32 x t1 hx in
        let d2 : drop 64 t ≡ hash ++ c =
          sym (drop-drop 32 32 t) ∙ ap (drop 32) d1 ∙ drop_append 32 y (hash ++ c) hy in
        record {
          has_x = take_append 32 x t1 hx;
          has_y = ap (take 32) d1 ∙ take_append 32 y (hash ++ c) hy;
          has_hash = ap (take 32) d2 ∙ take_append 32 hash c hh;
          has_c = sym (drop-drop 32 64 t) ∙ ap (drop 32) d2 ∙ drop_append 32 hash c hh;
          length_t =
              omega (arith, length-append x t1, length-append y (hash ++ c), length-append hash c);
        })

take_front :
    (k n : ℕ) (xs ys : List ℕ) → k + n ≤ length xs → take n (drop k (xs ++ ys)) ≡ take n (drop k xs)
take_front zero zero xs ys h = refl
take_front zero (suc n) [] ys h = absurd (omega arith)
take_front zero (suc n) (x ∷ xs) ys h = ap (λ t. x ∷ t) (take_front zero n xs ys (omega arith))
take_front (suc k) n [] ys h = absurd (omega arith)
take_front (suc k) n (x ∷ xs) ys h = take_front k n xs ys (omega arith)

module _ ⦃big : CryptoBigint⦄ where
  open big use {from_be_slice, ct_lt, fp_new, from_be_slice_lem, ct_lt_iff}

  -- The point whose coordinates are the two byte strings is on the curve.
  abbrev pub on_curve : List ℕ → List ℕ → Bool
  on_curve x y = point_on_curve (fp_new (from_be_slice x)) (fp_new (from_be_slice y))

  read_coordinate : (x : List ℕ) → IsCoordinate x → read_field_element x ≡ some x
  unfolding read_field_element
  read_coordinate x h =
      rw
        (
          (==_iff (length x) 32).1 h.width,
          from_be_slice_lem x h.width,
          (ct_lt_iff (from_be x) p).1 h.in_field,
        )
        refl

  read_field_inv :
      (bytes x : List ℕ)
      → IsBytes bytes
      → read_field_element bytes ≡ some x
      → (bytes ≡ x) × IsCoordinate x
  unfolding read_field_element
  read_field_inv bytes x h e =
      let (_, e1, f1) = >>=-eq-some (guard (length bytes == 32)) _ e in
      let (_, e2, f2) = >>=-eq-some (guard (ct_lt (from_be_slice bytes) p)) _ f1 in
      let same : bytes ≡ x = some-injective bytes x f2 in
      let width = (==_iff (length bytes) 32).0 (guard-eq-some _ e1) in
      (
        same,
        subst IsCoordinate same (record {
          width = width;
          bytes = h;
          in_field =
              (ct_lt_iff (from_be bytes) p).0 (
                subst (λ v. ct_lt v p ≡ true) (from_be_slice_lem bytes width) (guard-eq-some _ e2));
        }),
      )

  -- For a ciphertext whose coordinates are field elements of a point that passes the curve test
  -- and whose hash has 32 bytes, decoding its raw encoding gives it back.
  pub decode_c1c3c2-encode_c1c3c2 :
      (ct : Sm2Ciphertext)
      → IsCiphertext ct
      → on_curve ct.x ct.y ≡ true
      → decode_c1c3c2 (encode_c1c3c2 ct) ≡ some ct
  unfolding decode_c1c3c2 split_c1_c3_c2 encode_c1c3c2
  decode_c1c3c2-encode_c1c3c2 ct h on =
      let t : List ℕ = ((ct.x ++ ct.y) ++ ct.hash) ++ ct.ciphertext in
      let cut = cut-IsParts ct.x ct.y ct.hash ct.ciphertext h.x.width h.y.width h.hash_width in
      rw
        (
          le→ltb (length (4 ∷ t)) 97 (omega (arith, cut.length_t)),
          cut.has_x,
          cut.has_y,
          cut.has_hash,
          cut.has_c,
          read_coordinate ct.x h.x,
          read_coordinate ct.y h.y,
          on,
        )
        refl

  -- Bytes that the raw decoder accepts are the raw encoding of the ciphertext that it returned,
  -- whose coordinates are those of a point that passes the curve test and whose hash has 32
  -- bytes.
  pub decode_c1c3c2_canonical :
      (input : List ℕ) (ct : Sm2Ciphertext)
      → IsBytes input
      → decode_c1c3c2 input ≡ some ct
      → (encode_c1c3c2 ct ≡ input) × IsCiphertext ct × (on_curve ct.x ct.y ≡ true)
  unfolding decode_c1c3c2 split_c1_c3_c2 encode_c1c3c2
  decode_c1c3c2_canonical [] ct h e = cc
  decode_c1c3c2_canonical (b ∷ t) ct (hb, h) e =
      let ((x, y, c3, c2), e0, f0) = >>=-eq-some (split_c1_c3_c2 (b ∷ t)) _ e in
      let (_, e1, f1) = >>=-eq-some (guard (not (ltb (length (b ∷ t)) 97))) _ e0 in
      let (_, e2, f2) = >>=-eq-some (guard (b == 4)) _ f1 in
      let (x', e3, f3) = >>=-eq-some (read_field_element (take 32 t)) _ f2 in
      let (y', e4, f4) = >>=-eq-some (read_field_element (take 32 (drop 32 t))) _ f3 in
      let (_, e5, f5) = >>=-eq-some (guard (on_curve x' y')) _ f4 in
      let long : 97 ≤ length (b ∷ t) =
        ltb→le (length (b ∷ t)) 97 (not-eq-true _ (guard-eq-some _ e1)) in
      let tag : b ≡ 4 = (==_iff b 4).0 (guard-eq-some _ e2) in
      let found : Sm2Ciphertext = record {
        x = x';
        y = y';
        hash = take 32 (drop 64 t);
        ciphertext = drop 96 t;
      } in
      let same : found ≡ ct =
        ap (λ q. record { x = q.0; y = q.1; hash = q.2; ciphertext = q.3 }) (some-injective _ _ f5)
        ∙ some-injective _ ct f0 in
      let (same_x, has_x) = read_field_inv (take 32 t) x' (All-take IsByte 32 t h) e3 in
      let (same_y, has_y) =
        read_field_inv (take 32 (drop 32 t)) y'
          (All-take IsByte 32 (drop 32 t) (All-drop IsByte 32 t h)) e4 in
      subst (λ v. (encode_c1c3c2 v ≡ b ∷ t) × IsCiphertext v × (on_curve v.x v.y ≡ true)) same
        (
          ap₂ (λ u v. 4 ∷ (((u ++ v) ++ take 32 (drop 64 t)) ++ drop 96 t)) (sym same_x)
                (sym same_y)
              ∙ ap₂ (λ u v. u ∷ v) (sym tag) (parts t),
          record {
            x = has_x;
            y = has_y;
            hash_width = omega (arith, length-take 32 (drop 64 t), length-drop 64 t);
          },
          guard-eq-some _ e5,
        )

  -- For a point part of 65 bytes and a hash of 32 bytes, the legacy decoder on point, body, hash
  -- returns what the standard decoder returns on point, hash, body, failures included.
  pub legacy_reordered :
      (head c2 c3 : List ℕ)
      → length head ≡ 65
      → length c3 ≡ 32
      → decode_c1c2c3_legacy (head ++ (c2 ++ c3)) ≡ decode_c1c3c2 (head ++ (c3 ++ c2))
  unfolding decode_c1c2c3_legacy decode_c1c3c2 split_c1_c3_c2
  legacy_reordered [] c2 c3 hh h3 = absurd (omega arith)
  legacy_reordered (b ∷ head) c2 c3 hh h3 =
      let legacy : List ℕ = b ∷ (head ++ (c2 ++ c3)) in
      let standard : List ℕ = b ∷ (head ++ (c3 ++ c2)) in
      let x = take 32 head in
      let y = take 32 (drop 32 head) in
      let size_l : length legacy ≡ 97 + length c2 =
        omega (arith, length-append head (c2 ++ c3), length-append c2 c3) in
      let size_s : length standard ≡ 97 + length c2 =
        omega (arith, length-append head (c3 ++ c2), length-append c3 c2) in
      let c2_len : length legacy - 65 - 32 ≡ length c2 = omega arith in
      let c2_end : 65 + length c2 - 65 ≡ length c2 = omega arith in
      let behind : (r : List ℕ) → drop 64 (head ++ r) ≡ r =
        λ r. drop_append 64 head r (omega arith) in
      let c3_at : drop (65 + length c2) legacy ≡ c3 =
        sym (drop-drop (length c2) 65 legacy)
        ∙ ap (drop (length c2)) (behind (c2 ++ c3))
        ∙ drop_append (length c2) c2 c3 refl in
      let c2_at : drop 96 (head ++ (c3 ++ c2)) ≡ c2 =
        sym (drop-drop 32 64 (head ++ (c3 ++ c2)))
        ∙ ap (drop 32) (behind (c3 ++ c2))
        ∙ drop_append 32 c3 c2 h3 in
      rw
        (
          le→ltb (length legacy) 97 (omega arith),
          le→ltb (length standard) 97 (omega arith),
          c2_len,
          c2_end,
          c3_at,
          behind (c2 ++ c3),
          behind (c3 ++ c2),
          c2_at,
          take_append (length c2) c2 c3 refl,
          take_append 32 c3 c2 h3,
          take_front 0 32 head (c2 ++ c3) (omega arith),
          take_front 0 32 head (c3 ++ c2) (omega arith),
          take_front 32 32 head (c2 ++ c3) (omega arith),
          take_front 32 32 head (c3 ++ c2) (omega arith),
        )
        (elim (Bool-cases (b == 4)) [
          | inr other ↦ rw other refl
          | inl tagged ↦ elim (Option-cases (read_field_element x)) [
            | inl bad ↦ rw (tagged, bad) refl
            | inr (x', has_x) ↦ elim (Option-cases (read_field_element y)) [
              | inl bad ↦ rw (tagged, has_x, bad) refl
              | inr (y', has_y) ↦ elim (Bool-cases (on_curve x' y')) [
                | inl on ↦ rw (tagged, has_x, has_y, on) refl
                | inr off ↦ rw (tagged, has_x, has_y, off) refl
              ]
            ]
          ]
        ])
