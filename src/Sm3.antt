-- ===== src/Sm3.antt =====
-- sm3.rs: the SM3 hash. `State` is the `[u32; 8]` of the compression function; the array of input
-- bytes and its fill level are the streaming buffer of Base.Stream.
pub mod Compress
pub mod Digest
pub mod Finalize
pub mod Streaming
mod Tests
mod Examples
use gm_crypto_rs.Base.{ℕ, ◌+◌, ◌-◌, ◌*◌, ◌%◌, ◌^◌, ltb, if◌then◌else◌, List, [], ◌∷◌, ◌++◌}
use gm_crypto_rs.Base.{length, set, replicate, to_be}
use gm_crypto_rs.Base.Stream.{Buffered, absorb, copy_into}
use Compress.{State, compress}

abbrev pub digest_size : ℕ
digest_size = 32

abbrev pub block_size : ℕ
block_size = 64

unfoldable pub iv : State
iv = record {
  a = 0x7380_166f;
  b = 0x4914_b2b9;
  c = 0x1724_42d7;
  d = 0xda8a_0600;
  e = 0xa96f_30bc;
  f = 0x1631_38aa;
  g = 0xe38d_ee4d;
  h = 0xb0fb_0e4e;
}

pub record Sm3 : Type 0 where
  pub state : State
  pub buffer : List ℕ
  pub buffer_len : ℕ
  pub total_len : ℕ

unfoldable pub new : Sm3
new = record { state = iv; buffer = replicate 64 0; buffer_len = 0; total_len = 0 }

-- The part that the streaming buffer works on.
abbrev pub buffered : Sm3 → Buffered State
buffered s = record { worker = s.state; buffer = s.buffer; buffer_len = s.buffer_len }

unfoldable pub update : Sm3 → List ℕ → Sm3
update s input =
    let b = absorb 64 compress (buffered s) input in
    record {
      state = b.worker;
      buffer = b.buffer;
      buffer_len = b.buffer_len;
      total_len = (s.total_len + length input) % 2 ^ 64;
    }

-- `for byte in &mut self.buffer[lo..hi] { *byte = 0; }`
abbrev pub zero_range : List ℕ → ℕ → ℕ → List ℕ
zero_range buffer lo hi = copy_into buffer lo (replicate (hi - lo) 0)

-- The words of the state, big-endian.
unfoldable pub state_bytes : State → List ℕ
state_bytes s =
    to_be 4 s.a
    ++ (to_be 4 s.b
        ++ (to_be 4 s.c
            ++ (to_be 4 s.d ++ (to_be 4 s.e ++ (to_be 4 s.f ++ (to_be 4 s.g ++ to_be 4 s.h))))))

-- The block that holds the length field.
unfoldable pub last_block : State → List ℕ → ℕ → ℕ → State
last_block state buffer buffer_len bit_len =
    compress state (copy_into (zero_range buffer buffer_len (64 - 8)) (64 - 8) (to_be 8 bit_len))

unfoldable pub finalize : Sm3 → List ℕ
finalize s =
    let bit_len = s.total_len * 8 % 2 ^ 64 in
    let buffer = set s.buffer s.buffer_len 0x80 in
    let buffer_len = s.buffer_len + 1 in
    state_bytes (
      if ltb (64 - 8) buffer_len
      then last_block (compress s.state (zero_range buffer buffer_len 64)) (replicate 64 0) 0
          bit_len
      else last_block s.state buffer buffer_len bit_len)

unfoldable pub hash : List ℕ → List ℕ
hash message = finalize (update new message)
