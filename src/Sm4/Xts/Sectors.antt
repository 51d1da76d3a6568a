-- ===== src/Sm4/Xts/Sectors.antt =====
-- sm4/mode_xts.rs: a run of sectors against the one-shot functions on each of them.
use native.Mathlib.Nat.{div-add-mod'}
use gm_crypto_rs.Base.{
  ℕ, zero, suc, ◌+◌, ◌-◌, ◌*◌, ◌/◌, ◌%◌, ◌^◌, ◌≤◌, ◌==◌, leb, true, false, ◌&&◌, ◌||◌,
}
use gm_crypto_rs.Base.{List, [], ◌∷◌, ◌++◌, length, take, drop}
use gm_crypto_rs.Base.{Option, some, ◌>>=◌, Subtle, IsBytes, IsByte}
use gm_crypto_rs.Base.{
  ◌≡◌, ◌≢◌, refl, sym, ap, ap₂, ◌∙◌, arith, length-append, length-take, length-drop,
  take-append-drop, take_append, drop_append, All-take, All-drop,
}
use gm_crypto_rs.Sm4.Cipher.{Sm4Cipher, new}
use gm_crypto_rs.Sm4.Xts.{
  max_len, normal_blocks, split_keys, xts_encrypt, xts_decrypt, encrypt, to_le_bytes,
  xts_sector_in_place, each_sector, check_sectors, process_checked, process_sectors,
  encrypt_sectors, decrypt_sectors,
}
use gm_crypto_rs.Sm4.Xts.RoundTrip.{split_keys_differ, length-xts_encrypt, xts_decrypt-xts_encrypt}

-- The first of the sectors, and the others.
first_sector :
    (count size : ℕ) (buf : List ℕ)
    → length buf ≡ suc count * size
    → (length (take size buf) ≡ size) × (length (drop size buf) ≡ count * size)
first_sector count size buf e =
    let total : suc count * size ≡ size + count * size = grind arith in
    (omega (arith, length-take size buf, e, total), omega (arith, length-drop size buf, e, total))

no_sector : (size : ℕ) (buf : List ℕ) → length buf ≡ 0 * size → buf ≡ []
no_sector size [] e = refl
no_sector size (b ∷ buf) e = absurd (omega (arith, e))

whole_run : (len size : ℕ) → 16 ≤ size → len % size ≡ 0 → len ≡ len / size * size
whole_run len size h e =
    let parts : len / size * size + len % size ≡ len = div-add-mod' len size in
    omega (arith, parts, e)

module _ ⦃subtle : Subtle⦄ where
  -- The one-shot function on every sector, under the number of the sector.
  unfoldable pub sector_by_sector :
      (List ℕ → List ℕ → Option (List ℕ)) → ℕ → ℕ → ℕ → List ℕ → Option (List ℕ)
  sector_by_sector f zero sector_size number buf = some []
  sector_by_sector f (suc count) sector_size number buf = do
    out ← f (to_le_bytes number) (take sector_size buf)
    outs ← sector_by_sector f count sector_size (number + 1) (drop sector_size buf)
    some (out ++ outs)

  sector-xts_encrypt :
      (c1 c2 : Sm4Cipher) (tweak sector : List ℕ)
      → (length sector % 16 == 0) ≡ true
      → xts_sector_in_place c1 c2 tweak sector true ≡ xts_encrypt c1 c2 tweak sector
  unfolding xts_sector_in_place xts_encrypt normal_blocks
  sector-xts_encrypt c1 c2 tweak sector h = rw h refl

  sector-xts_decrypt :
      (c1 c2 : Sm4Cipher) (tweak sector : List ℕ)
      → (length sector % 16 == 0) ≡ true
      → xts_sector_in_place c1 c2 tweak sector false ≡ xts_decrypt c1 c2 tweak sector
  unfolding xts_sector_in_place xts_decrypt normal_blocks
  sector-xts_decrypt c1 c2 tweak sector h = rw h refl

  -- A whole number of sectors of whole blocks: what the loop makes of it, and back.
  each_sector_lem :
      (count : ℕ) (c1 c2 : Sm4Cipher) (size start i : ℕ) (buf : List ℕ)
      → IsBytes buf
      → length buf ≡ count * size
      → 16 ≤ size
      → (size % 16 == 0) ≡ true
      → let out = each_sector count (c1, c2) size start i buf true in
        (length out ≡ length buf) × (each_sector count (c1, c2) size start i out false ≡ buf)
  unfolding each_sector
  each_sector_lem zero c1 c2 size start i buf h e l w =
      let nothing = no_sector size buf e in (ap length (sym nothing), sym nothing)
  each_sector_lem (suc count) c1 c2 size start i buf h e l w =
      let tweak = to_le_bytes ((start + i) % 2 ^ 128) in
      let (wide, left) = first_sector count size buf e in
      let blocks : (length (take size buf) % 16 == 0) ≡ true = ap (λ n. n % 16 == 0) wide ∙ w in
      let others = each_sector count (c1, c2) size start (suc i) (drop size buf) true in
      let (same, back) =
        each_sector_lem count c1 c2 size start (suc i) (drop size buf) (All-drop IsByte size buf h)
          left l w in
      let first = xts_sector_in_place c1 c2 tweak (take size buf) true in
      let first_is = sector-xts_encrypt c1 c2 tweak (take size buf) blocks in
      let first_size : length first ≡ size =
        ap length first_is
        ∙ length-xts_encrypt c1 c2 tweak (take size buf) (omega (arith, wide))
        ∙ wide in
      (
        length-append first others ∙ omega (arith, first_size, same, length-drop size buf),
        ap₂
              (λ x y.
                xts_sector_in_place c1 c2 tweak x false
                ++ each_sector count (c1, c2) size start (suc i) y false)
              (take_append size first others first_size) (drop_append size first others first_size)
            ∙ ap₂ ◌++◌
                (sector-xts_decrypt c1 c2 tweak first (ap (λ n. n % 16 == 0) first_size ∙ w)
                  ∙ ap (xts_decrypt c1 c2 tweak) first_is
                  ∙ xts_decrypt-xts_encrypt c1 c2 tweak (take size buf) (All-take IsByte size buf h)
                      (omega (arith, wide)))
                back
            ∙ take-append-drop size buf,
      )

  each_sector-sector_by_sector :
      (key : List ℕ) (count : ℕ) (c1 c2 : Sm4Cipher) (size start i : ℕ) (buf : List ℕ)
      → split_keys key size ≡ some (c1, c2)
      → length buf ≡ count * size
      → (size % 16 == 0) ≡ true
      → start + (i + count) ≤ 2 ^ 128
      → sector_by_sector (encrypt key) count size (start + i) buf
        ≡ some (each_sector count (c1, c2) size start i buf true)
  unfolding sector_by_sector each_sector encrypt
  each_sector-sector_by_sector key zero c1 c2 size start i buf keys e w room = refl
  each_sector-sector_by_sector key (suc count) c1 c2 size start i buf keys e w room =
      let (wide, left) = first_sector count size buf e in
      let keys' : split_keys key (length (take size buf)) ≡ some (c1, c2) =
        ap (split_keys key) wide ∙ keys in
      let number : (start + i) % 2 ^ 128 ≡ start + i = omega (arith, room) in
      let next : start + i + 1 ≡ start + suc i = omega arith in
      let first_is =
        sector-xts_encrypt c1 c2 (to_le_bytes (start + i)) (take size buf)
          (ap (λ n. n % 16 == 0) wide ∙ w) in
      let rest =
        each_sector-sector_by_sector key count c1 c2 size start (suc i) (drop size buf) keys left w
          (omega arith) in
      rw (keys', ap (λ n. sector_by_sector (encrypt key) count size n (drop size buf)) next ∙ rest)
        (ap (λ x. some (x ++ each_sector count (c1, c2) size start (suc i) (drop size buf) true))
          (sym first_is
            ∙ ap (λ n. xts_sector_in_place c1 c2 (to_le_bytes n) (take size buf) true)
                (sym number)))

  check_sectors-some :
      (key : List ℕ) (size start len : ℕ)
      → IsBytes key
      → take 16 key ≢ drop 16 key
      → 16 ≤ size
      → size ≤ max_len
      → size % 16 ≡ 0
      → len % size ≡ 0
      → start + len / size ≤ 2 ^ 128
      → check_sectors key size start len ≡ some (new (take 16 key), new (drop 16 key))
  unfolding check_sectors
  check_sectors-some key size start len h differ lo hi blocks whole room =
      rw (sized size lo hi blocks, ap (λ n. n == 0) whole, numbered start (len / size) room)
        (split_keys_differ key size h differ lo hi)
    where
      sized :
          (n : ℕ)
          → 16 ≤ n
          → n ≤ max_len
          → n % 16 ≡ 0
          → ((leb 16 n && leb n max_len) && (n % 16 == 0)) ≡ true
      sized n lo hi e = ground arith

      numbered : (s n : ℕ) → s + n ≤ 2 ^ 128 → ((n == 0) || leb (s + (n - 1)) (2 ^ 128 - 1)) ≡ true
      numbered s n h = ground arith

  -- For key bytes whose first sixteen differ from the rest, sectors of whole blocks with a size
  -- in the range, a buffer of whole sectors, and sector numbers of 128 bits, `encrypt_sectors`
  -- puts into the buffer what the one-shot `encrypt` returns for one sector after the other, each
  -- under the little-endian number of the sector.
  pub encrypt_sectors-sector_by_sector :
      (key : List ℕ) (size start : ℕ) (buf : List ℕ)
      → IsBytes key
      → take 16 key ≢ drop 16 key
      → 16 ≤ size
      → size ≤ max_len
      → size % 16 ≡ 0
      → length buf % size ≡ 0
      → start + length buf / size ≤ 2 ^ 128
      → (out : List ℕ) × (encrypt_sectors key size start buf ≡ (some tt, out))
        × (sector_by_sector (encrypt key) (length buf / size) size start buf ≡ some out)
  unfolding encrypt_sectors process_sectors process_checked
  encrypt_sectors-sector_by_sector key size start buf h differ lo hi blocks whole room =
      let ciphers : Sm4Cipher × Sm4Cipher = (new (take 16 key), new (drop 16 key)) in
      let count = length buf / size in
      let checked =
        check_sectors-some key size start (length buf) h differ lo hi blocks whole room in
      let each =
        each_sector-sector_by_sector key count ciphers.0 ciphers.1 size start 0 buf
          (split_keys_differ key size h differ lo hi) (whole_run (length buf) size lo whole)
          (ap (λ n. n == 0) blocks) (omega (arith, room)) in
      let first : start + 0 ≡ start = omega arith in
      (
        each_sector count ciphers size start 0 buf true,
        rw checked refl,
        ap (λ n. sector_by_sector (encrypt key) count size n buf) (sym first) ∙ each,
      )

  -- For key bytes whose first sixteen differ from the rest, sectors of whole blocks with a size
  -- in the range, a buffer of whole sectors of bytes, and sector numbers of 128 bits,
  -- `encrypt_sectors` leaves as many bytes in the buffer, which `decrypt_sectors` turns into what
  -- they were.
  pub sectors_round_trip :
      (key : List ℕ) (size start : ℕ) (buf : List ℕ)
      → IsBytes key
      → IsBytes buf
      → take 16 key ≢ drop 16 key
      → 16 ≤ size
      → size ≤ max_len
      → size % 16 ≡ 0
      → length buf % size ≡ 0
      → start + length buf / size ≤ 2 ^ 128
      → (out : List ℕ) × (encrypt_sectors key size start buf ≡ (some tt, out))
        × (length out ≡ length buf)
        × (decrypt_sectors key size start out ≡ (some tt, buf))
  unfolding encrypt_sectors decrypt_sectors process_sectors process_checked
  sectors_round_trip key size start buf h hb differ lo hi blocks whole room =
      let ciphers : Sm4Cipher × Sm4Cipher = (new (take 16 key), new (drop 16 key)) in
      let count = length buf / size in
      let out = each_sector count ciphers size start 0 buf true in
      let checked =
        check_sectors-some key size start (length buf) h differ lo hi blocks whole room in
      let (same, back) =
        each_sector_lem count ciphers.0 ciphers.1 size start 0 buf hb
          (whole_run (length buf) size lo whole) lo (ap (λ n. n == 0) blocks) in
      let checked' : check_sectors key size start (length out) ≡ some ciphers =
        ap (check_sectors key size start) same ∙ checked in
      let count_is : length out / size ≡ count = ap (λ n. n / size) same in
      (
        out,
        rw checked refl,
        same,
        rw checked' (
            ap (λ n. (some tt, each_sector n ciphers size start 0 out false)) count_is
            ∙ ap (λ b. (some tt, b)) back),
      )
