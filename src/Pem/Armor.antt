-- ===== src/Pem/Armor.antt =====
-- The armour of pem.rs: `decode` on what `encode` returns.
use gm_crypto_rs.Base.{ℕ, zero, suc, ◌+◌, ◌*◌, ◌/◌, ◌%◌, ◌<◌, ◌≤◌, ◌==◌}
use gm_crypto_rs.Base.{
  if◌then◌else◌, Bool, true, false, ◌||◌, List, [], ◌∷◌, ◌++◌, length, take, drop, All, some,
  IsBytes,
}
use gm_crypto_rs.Base.{
  ◌≡◌, ◌≢◌, refl, ap, ap₂, ◌∙◌, arith, append_assoc, length-drop, take_append, drop_append,
  take-append-drop, All-append, All-take, All-drop, ==_refl,
}
use gm_crypto_rs.Pem.{
  pad_char, newline, begin_line, end_line, base64_encode, base64_decode, body_lines, encode,
  starts_with, find, is_ascii_whitespace, strip_whitespace, decode,
}
use gm_crypto_rs.Pem.Alphabet.{letter-lt}
use gm_crypto_rs.Pem.Codec.{encode_three, encode_two, encode_one, base64_decode-base64_encode}

-- A character of the body: neither white space nor a dash.
abbrev IsLetter : ℕ → Type 0
IsLetter c = (32 < c) × (c ≢ 45)

pad_char-IsLetter : IsLetter pad_char
pad_char-IsLetter = (omega arith, λ e. absurd (omega (arith, e)))

base64_encode-IsLetter : (input : List ℕ) → IsBytes input → All IsLetter (base64_encode input)
base64_encode-IsLetter [] h = unfold base64_encode in tt
base64_encode-IsLetter (b0 ∷ []) (h0, _) = rw (encode_one b0 h0) (
  letter-lt (b0 / 4) (omega arith),
  (letter-lt (b0 % 4 * 16) (omega arith), (pad_char-IsLetter, (pad_char-IsLetter, tt))),
)
base64_encode-IsLetter (b0 ∷ b1 ∷ []) (h0, (h1, _)) = rw (encode_two b0 b1 h0 h1) (
  letter-lt (b0 / 4) (omega arith),
  (
    letter-lt (b0 % 4 * 16 + b1 / 16) (omega arith),
    (letter-lt (b1 % 16 * 4) (omega arith), (pad_char-IsLetter, tt)),
  ),
)
base64_encode-IsLetter (b0 ∷ b1 ∷ b2 ∷ input) (h0, (h1, (h2, h))) =
    rw (encode_three b0 b1 b2 input h0 h1 h2) (
      letter-lt (b0 / 4) (omega arith),
      (
        letter-lt (b0 % 4 * 16 + b1 / 16) (omega arith),
        (
          letter-lt (b1 % 16 * 4 + b2 / 64) (omega arith),
          (letter-lt (b2 % 64) (omega arith), base64_encode-IsLetter input h),
        ),
      ),
    )

strip_whitespace-append :
    (xs ys : List ℕ) → strip_whitespace (xs ++ ys) ≡ strip_whitespace xs ++ strip_whitespace ys
unfolding strip_whitespace
strip_whitespace-append [] ys = refl
strip_whitespace-append (c ∷ xs) ys =
    kept (is_ascii_whitespace c) (strip_whitespace (xs ++ ys)) (strip_whitespace xs)
      (strip_whitespace ys) (strip_whitespace-append xs ys)
  where
    kept :
        (white : Bool) (s t u : List ℕ)
        → s ≡ t ++ u
        → (if white then s else c ∷ s) ≡ (if white then t else c ∷ t) ++ u
    kept true s t u e = e
    kept false s t u e = ap (λ r. c ∷ r) e

strip_letters : (xs : List ℕ) → All IsLetter xs → strip_whitespace xs ≡ xs
unfolding strip_whitespace is_ascii_whitespace
strip_letters [] h = refl
strip_letters (c ∷ xs) ((hc, _), h) = rw (dark c hc) (ap (λ r. c ∷ r) (strip_letters xs h))
  where
    dark :
        (c : ℕ)
        → 32 < c
        → (((c == 32) || (c == 9)) || ((c == 10) || ((c == 12) || (c == 13)))) ≡ false
    dark c h = ground arith

broken : (xs : List ℕ) → strip_whitespace (newline ∷ xs) ≡ strip_whitespace xs
unfolding strip_whitespace is_ascii_whitespace
broken xs = refl

-- The line breaks go, and what `body_lines` was given is left.
strip_whitespace-body_lines :
    (fuel : ℕ) (body : List ℕ)
    → length body ≤ fuel
    → All IsLetter body
    → strip_whitespace (newline ∷ body_lines fuel body) ≡ body
unfolding body_lines
strip_whitespace-body_lines zero [] l h = unfold strip_whitespace is_ascii_whitespace in refl
strip_whitespace-body_lines zero (b ∷ body) l h = absurd (omega arith)
strip_whitespace-body_lines (suc fuel) [] l h = unfold strip_whitespace is_ascii_whitespace in refl
strip_whitespace-body_lines (suc fuel) (b ∷ body) l h =
    let line = take 64 (b ∷ body) in
    let others = newline ∷ body_lines fuel (drop 64 (b ∷ body)) in
    broken (line ++ others)
    ∙ strip_whitespace-append line others
    ∙ ap₂ ◌++◌ (strip_letters line (All-take IsLetter 64 (b ∷ body) h)) (
        strip_whitespace-body_lines fuel (drop 64 (b ∷ body))
          (omega (arith, length-drop 64 (b ∷ body))) (All-drop IsLetter 64 (b ∷ body) h))
    ∙ take-append-drop 64 (b ∷ body)

-- No dash in the body.
abbrev IsDark : ℕ → Type 0
IsDark c = c ≢ 45

body_lines-IsDark : (fuel : ℕ) (body : List ℕ) → All IsDark body → All IsDark (body_lines fuel body)
unfolding body_lines
body_lines-IsDark zero body h = tt
body_lines-IsDark (suc fuel) [] h = tt
body_lines-IsDark (suc fuel) (b ∷ body) h =
    All-append IsDark (take 64 (b ∷ body)) (newline ∷ body_lines fuel (drop 64 (b ∷ body)))
      (All-take IsDark 64 (b ∷ body) h)
      (
        (λ e. absurd (omega (arith, e))),
        body_lines-IsDark fuel (drop 64 (b ∷ body)) (All-drop IsDark 64 (b ∷ body) h),
      )

letters-IsDark : (xs : List ℕ) → All IsLetter xs → All IsDark xs
letters-IsDark [] h = tt
letters-IsDark (c ∷ xs) ((_, hc), h) = (hc, letters-IsDark xs h)

starts_with-append : (needle rest : List ℕ) → starts_with (needle ++ rest) needle ≡ true
unfolding starts_with
starts_with-append [] rest = refl
starts_with-append (c ∷ needle) rest = rw (==_refl c, starts_with-append needle rest) refl

-- A needle that begins with a dash, behind a text without one.
find_behind :
    (xs needle rest : List ℕ)
    → All IsDark xs
    → find (xs ++ ((45 ∷ needle) ++ rest)) (45 ∷ needle) ≡ some (length xs)
unfolding find starts_with
find_behind [] needle rest h = rw (starts_with-append needle rest) refl
find_behind (c ∷ xs) needle rest (hc, h) =
    rw (different c hc, find_behind xs needle rest h) (ap some (omega arith))
  where
    different : (c : ℕ) → c ≢ 45 → (c == 45) ≡ false
    different c h = ground arith

decode_found :
    (input label : List ℕ) (i j : ℕ)
    → find input (begin_line label) ≡ some i
    → find (drop (i + length (begin_line label)) input) (end_line label) ≡ some j
    → decode input label
      ≡ base64_decode (strip_whitespace (take j (drop (i + length (begin_line label)) input)))
unfolding decode
decode_found input label i j hi hj = rw (hi, hj) refl

-- For every label and every list of bytes, `decode` under the label returns the bytes from the
-- text that `encode` makes of them under it.
pub armor_round_trip :
    (label der : List ℕ) → IsBytes der → decode (encode label der) label ≡ some der
unfolding encode
armor_round_trip label der h =
    let begin = begin_line label in
    let end = end_line label in
    let body = base64_encode der in
    let letters = base64_encode-IsLetter der h in
    let lines = newline ∷ body_lines (length body) body in
    let last = end ++ (newline ∷ []) in
    let dark : All IsDark lines = (
      (λ e. absurd (omega (arith, e))),
      body_lines-IsDark (length body) body (letters-IsDark body letters),
    ) in
    let whole : encode label der ≡ begin ++ (lines ++ last) =
      append_assoc begin (newline ∷ []) (body_lines (length body) body ++ last) in
    let start : drop (0 + length begin) (begin ++ (lines ++ last)) ≡ lines ++ last =
      drop_append (0 + length begin) begin (lines ++ last) (omega arith) in
    ap (λ input. decode input label) whole
    ∙ decode_found (begin ++ (lines ++ last)) label 0 (length lines)
        (find_behind [] (tail_of begin) (lines ++ last) tt)
        (ap (λ t. find t end) start ∙ find_behind lines (tail_of end) (newline ∷ []) dark)
    ∙ ap (λ t. base64_decode (strip_whitespace (take (length lines) t))) start
    ∙ ap (λ t. base64_decode (strip_whitespace t)) (take_append (length lines) lines last refl)
    ∙ ap base64_decode (strip_whitespace-body_lines (length body) body (omega arith) letters)
    ∙ base64_decode-base64_encode der h
  where
    tail_of : List ℕ → List ℕ
    tail_of [] = []
    tail_of (c ∷ text) = text
