-- ===== src/Asn1/Collect.antt =====
-- `collect_sequence_of` (asn1/reader.rs) on a body of elements.
use gm_crypto_rs.Base.{ℕ, zero, suc, ◌<◌, ◌≤◌, List, [], ◌∷◌, ◌++◌, length, map, flatten, All}
use gm_crypto_rs.Base.{
  Option, some, ◌>>=◌, ◌≡◌, sym, ap, ◌∙◌, arith, length-append, append-nil, append_assoc,
}
use gm_crypto_rs.Asn1.Reader.{read_tlv, max_der_len, collect_loop, collect_sequence_of}
use gm_crypto_rs.Asn1.Form.{tlv}
use gm_crypto_rs.Asn1.Accepts.{read_tlv-tlv}

-- The elements of the values, one behind the other.
abbrev pub elements : ℕ → List (List ℕ) → List ℕ
elements tag values = flatten (map (tlv tag) values)

-- An element takes at least a byte, so the length of the body is fuel enough.
enough_fuel : (tag : ℕ) (values : List (List ℕ)) → length values ≤ length (elements tag values)
unfolding flatten tlv
enough_fuel tag [] = omega arith
enough_fuel tag (value ∷ values) =
    omega (arith, length-append (tlv tag value) (elements tag values), enough_fuel tag values)

collect_loop-elements :
    (tag fuel : ℕ) (values items : List (List ℕ))
    → All (λ v. length v < max_der_len) values
    → length values ≤ fuel
    → collect_loop fuel (λ input. read_tlv input tag) (elements tag values) items
      ≡ some (items ++ values)
unfolding flatten tlv collect_loop
collect_loop-elements tag zero [] items h l = ap some (sym (append-nil items))
collect_loop-elements tag (suc fuel) [] items h l = ap some (sym (append-nil items))
collect_loop-elements tag zero (value ∷ values) items h l = absurd (omega arith)
collect_loop-elements tag (suc fuel) (value ∷ values) items (small, h) l =
    let read : List ℕ → Option (List ℕ × List ℕ) = λ input. read_tlv input tag in
    ap
      (λ (o : Option (List ℕ × List ℕ)).
        o >>= λ p. collect_loop fuel read p.1 (items ++ (p.0 ∷ [])))
      (read_tlv-tlv tag value (elements tag values) small)
    ∙ collect_loop-elements tag fuel values (items ++ (value ∷ [])) h (omega arith)
    ∙ ap some (append_assoc items (value ∷ []) values)

-- On the elements of any values, each below the length limit, one behind the other,
-- `collect_sequence_of` with `read_tlv` comes to the end of the body and returns all the values
-- in order.
pub collect_sequence_of-elements :
    (tag : ℕ) (values : List (List ℕ))
    → All (λ v. length v < max_der_len) values
    → collect_sequence_of (elements tag values) (λ input. read_tlv input tag) ≡ some values
unfolding collect_sequence_of
collect_sequence_of-elements tag values h =
    collect_loop-elements tag (length (elements tag values)) values [] h (enough_fuel tag values)
