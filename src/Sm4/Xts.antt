-- ===== src/Sm4/Xts.antt =====
-- sm4/mode_xts.rs: XTS of GB/T 17964, for one data unit and for a run of sectors.
pub mod Tweak
pub mod Units
pub mod Steal
pub mod RoundTrip
pub mod Sectors
use gm_crypto_rs.Base.{ℕ, zero, suc, ◌+◌, ◌-◌, ◌*◌, ◌/◌, ◌%◌, ◌^◌, ◌⊕◌, bit_and, bit_or, leb, ◌==◌}
use gm_crypto_rs.Base.{if◌then◌else◌, Bool, true, false, not, ◌&&◌, ◌||◌}
use gm_crypto_rs.Base.{
  List, [], ◌∷◌, ◌++◌, length, get_or, set, take, drop, flatten, xor_bytes, to_le,
}
use gm_crypto_rs.Base.{Option, none, some, ◌>>=◌, ◌>>◌, guard, Subtle}
use gm_crypto_rs.Sm4.Cipher
use gm_crypto_rs.Sm4.Cipher.{
  Sm4Cipher, encrypt_block, decrypt_block, encrypt_blocks, decrypt_blocks,
}

abbrev pub max_len : ℕ
max_len = 2 ^ 20 * 16

-- Every byte moves down by a bit, which goes into the next byte. The last one is returned.
unfoldable pub shift_bits : ℕ → List ℕ → List ℕ × ℕ
shift_bits carry [] = ([], carry)
shift_bits carry (b ∷ t) =
    let (shifted, last) = shift_bits (bit_and b 1) t in
    (bit_or (b / 2) (carry * 2 ^ 7 % 256) ∷ shifted, last)

unfoldable pub mul_alpha : List ℕ → List ℕ
mul_alpha t =
    let (shifted, carry) = shift_bits 0 t in
    set shifted 0 (get_or shifted 0 0 ⊕ bit_and 0xE1 ((256 - carry) % 256))

abbrev pub xor16 : List ℕ → List ℕ → List ℕ
xor16 a b = xor_bytes a b

-- `for (blk, tw) in blocks.iter_mut().zip(tweaks.iter())`
unfoldable pub xor_tweaks : List (List ℕ) → List (List ℕ) → List (List ℕ)
xor_tweaks [] tweaks = []
xor_tweaks (blk ∷ blocks) [] = blk ∷ blocks
xor_tweaks (blk ∷ blocks) (tw ∷ tweaks) = xor16 blk tw ∷ xor_tweaks blocks tweaks

-- The loop over `normal` blocks: the masked blocks, their tweaks, and the tweak after them.
unfoldable pub mask_units : ℕ → List ℕ → List ℕ → List (List ℕ) × List (List ℕ) × List ℕ
mask_units zero t input = ([], [], t)
mask_units (suc normal) t input =
    let (blocks, tweaks, last) = mask_units normal (mul_alpha t) (drop 16 input) in
    (xor16 (take 16 input) t ∷ blocks, t ∷ tweaks, last)

-- The number of blocks that no byte is stolen from.
unfoldable pub normal_blocks : ℕ → ℕ
normal_blocks len = if len % 16 == 0 then len / 16 else len / 16 - 1

-- `u128::to_le_bytes`
unfoldable pub to_le_bytes : ℕ → List ℕ
to_le_bytes n = to_le 16 n

module _ ⦃subtle : Subtle⦄ where
  unfoldable pub split_keys : List ℕ → ℕ → Option (Sm4Cipher × Sm4Cipher)
  split_keys key len = do
    guard (leb 16 len && leb len max_len)
    guard (not (subtle.ct_eq_bytes (take 16 key) (drop 16 key)))
    some (Cipher.new (take 16 key), Cipher.new (drop 16 key))

  -- What is left of the data is a block and `rem` bytes; both go out with bytes stolen.
  unfoldable pub encrypt_steal : Sm4Cipher → List ℕ → ℕ → List ℕ → List ℕ
  encrypt_steal c1 t_last rem input =
      let t_steal = mul_alpha t_last in
      let cc = xor16 (encrypt_block c1 (xor16 (take 16 input) t_last)) t_last in
      let pp = xor16 (encrypt_block c1 (xor16 (drop 16 input ++ drop rem cc) t_steal)) t_steal in
      pp ++ take rem cc

  unfoldable pub decrypt_steal : Sm4Cipher → List ℕ → ℕ → List ℕ → List ℕ
  decrypt_steal c1 t_last rem input =
      let t_steal = mul_alpha t_last in
      let pp = xor16 (decrypt_block c1 (xor16 (take 16 input) t_steal)) t_steal in
      let cc = xor16 (decrypt_block c1 (xor16 (drop 16 input ++ drop rem pp) t_last)) t_last in
      cc ++ take rem pp

  unfoldable pub xts_encrypt : Sm4Cipher → Sm4Cipher → List ℕ → List ℕ → List ℕ
  xts_encrypt c1 c2 tweak input =
      let rem = length input % 16 in
      let normal = normal_blocks (length input) in
      let (blocks, tweaks, t) = mask_units normal (encrypt_block c2 tweak) input in
      let out = flatten (xor_tweaks (encrypt_blocks c1 blocks) tweaks) in
      if rem == 0 then out else out ++ encrypt_steal c1 t rem (drop (normal * 16) input)

  unfoldable pub xts_decrypt : Sm4Cipher → Sm4Cipher → List ℕ → List ℕ → List ℕ
  xts_decrypt c1 c2 tweak input =
      let rem = length input % 16 in
      let normal = normal_blocks (length input) in
      let (blocks, tweaks, t) = mask_units normal (encrypt_block c2 tweak) input in
      let out = flatten (xor_tweaks (decrypt_blocks c1 blocks) tweaks) in
      if rem == 0 then out else out ++ decrypt_steal c1 t rem (drop (normal * 16) input)

  unfoldable pub encrypt : List ℕ → List ℕ → List ℕ → Option (List ℕ)
  encrypt key tweak data_unit = do
    (c1, c2) ← split_keys key (length data_unit)
    some (xts_encrypt c1 c2 tweak data_unit)

  unfoldable pub decrypt : List ℕ → List ℕ → List ℕ → Option (List ℕ)
  decrypt key tweak data_unit = do
    (c1, c2) ← split_keys key (length data_unit)
    some (xts_decrypt c1 c2 tweak data_unit)

  unfoldable pub xts_sector_in_place : Sm4Cipher → Sm4Cipher → List ℕ → List ℕ → Bool → List ℕ
  xts_sector_in_place c1 c2 tweak sector encrypt =
      let (blocks, tweaks, _) = mask_units (length sector / 16) (encrypt_block c2 tweak) sector in
      flatten
        (xor_tweaks (if encrypt then encrypt_blocks c1 blocks else decrypt_blocks c1 blocks) tweaks)

  -- `for (i, sector) in buf.chunks_mut(sector_size).enumerate()`, from `i` on.
  unfoldable pub each_sector : ℕ → Sm4Cipher × Sm4Cipher → ℕ → ℕ → ℕ → List ℕ → Bool → List ℕ
  each_sector zero ciphers sector_size start_sector i buf encrypt = []
  each_sector (suc count) ciphers sector_size start_sector i buf encrypt =
      let tweak = to_le_bytes ((start_sector + i) % 2 ^ 128) in
      xts_sector_in_place ciphers.0 ciphers.1 tweak (take sector_size buf) encrypt
      ++ each_sector count ciphers sector_size start_sector (suc i) (drop sector_size buf) encrypt

  -- Steps 1 to 4, which do not touch the buffer.
  unfoldable pub check_sectors : List ℕ → ℕ → ℕ → ℕ → Option (Sm4Cipher × Sm4Cipher)
  check_sectors key sector_size start_sector len = do
    guard ((leb 16 sector_size && leb sector_size max_len) && (sector_size % 16 == 0))
    guard (len % sector_size == 0)
    let sector_count = len / sector_size
    guard ((sector_count == 0) || leb (start_sector + (sector_count - 1)) (2 ^ 128 - 1))
    split_keys key sector_size

  -- The result, and the buffer after the call.
  unfoldable pub process_checked :
      Option (Sm4Cipher × Sm4Cipher) → ℕ → ℕ → List ℕ → Bool → Option (Unit {0}) × List ℕ
  process_checked none sector_size start_sector buf encrypt = (none, buf)
  process_checked (some ciphers) sector_size start_sector buf encrypt =
      let count = length buf / sector_size in
      (some tt, each_sector count ciphers sector_size start_sector 0 buf encrypt)

  unfoldable pub process_sectors : List ℕ → ℕ → ℕ → List ℕ → Bool → Option (Unit {0}) × List ℕ
  process_sectors key sector_size start_sector buf encrypt =
      process_checked (check_sectors key sector_size start_sector (length buf)) sector_size
        start_sector buf encrypt

  unfoldable pub encrypt_sectors : List ℕ → ℕ → ℕ → List ℕ → Option (Unit {0}) × List ℕ
  encrypt_sectors key sector_size start_sector buf =
      process_sectors key sector_size start_sector buf true

  unfoldable pub decrypt_sectors : List ℕ → ℕ → ℕ → List ℕ → Option (Unit {0}) × List ℕ
  decrypt_sectors key sector_size start_sector buf =
      process_sectors key sector_size start_sector buf false
