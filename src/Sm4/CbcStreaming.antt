-- ===== src/Sm4/CbcStreaming.antt =====
-- sm4/cbc_streaming.rs: the streaming CBC encryptor and decryptor, with the default features (one
-- block at a time).
pub mod Encryptor
pub mod Decryptor
use gm_crypto_rs.Base.{ℕ, ◌+◌, ◌-◌, ◌%◌, ◌==◌, if◌then◌else◌, not, List, [], ◌++◌, take}
use gm_crypto_rs.Base.{replicate, xor_bytes, Option, none, some, ◌>>=◌, ◌>>◌, guard, Subtle}
use gm_crypto_rs.Base.Stream.{Buffered, absorb, copy_into}
use gm_crypto_rs.Sm4.Cipher
use gm_crypto_rs.Sm4.Cipher.{Sm4Cipher, encrypt_block, decrypt_block}
use gm_crypto_rs.Sm4.Cbc.{Chain, strip_pkcs7_block}

pub record Sm4CbcEncryptor : Type 0 where
  pub cipher : Sm4Cipher
  pub prev : List ℕ
  pub buffer : List ℕ
  pub buffer_len : ℕ
  pub output : List ℕ

pub record Sm4CbcDecryptor : Type 0 where
  pub cipher : Sm4Cipher
  pub prev : List ℕ
  pub buffer : List ℕ
  pub buffer_len : ℕ
  pub output : List ℕ
  pub held_back : Option (List ℕ)

-- What one block of ciphertext changes: the chaining block, the output and the block held back.
pub record Held : Type 0 where
  pub prev : List ℕ
  pub output : List ℕ
  pub held_back : Option (List ℕ)

-- The parts that the streaming buffer works on.
abbrev pub encrypting : Sm4CbcEncryptor → Buffered Chain
encrypting e = record { worker = (e.prev, e.output); buffer = e.buffer; buffer_len = e.buffer_len }

abbrev pub decrypting : Sm4CbcDecryptor → Buffered Held
decrypting d = record {
  worker = record { prev = d.prev; output = d.output; held_back = d.held_back };
  buffer = d.buffer;
  buffer_len = d.buffer_len;
}

-- `core::mem::take(&mut self.output)`
unfoldable pub take_ciphertext : Sm4CbcEncryptor → Sm4CbcEncryptor × List ℕ
take_ciphertext e = (record e { output = [] }, e.output)

unfoldable pub take_plaintext : Sm4CbcDecryptor → Sm4CbcDecryptor × List ℕ
take_plaintext d = (record d { output = [] }, d.output)

module _ ⦃subtle : Subtle⦄ where
  unfoldable pub encrypt_one : Sm4Cipher → Chain → List ℕ → Chain
  encrypt_one cipher (prev, output) plaintext_block =
      let block = encrypt_block cipher (xor_bytes plaintext_block prev) in (block, output ++ block)

  unfoldable pub new_encryptor : List ℕ → List ℕ → Sm4CbcEncryptor
  new_encryptor key iv = record {
    cipher = Cipher.new key;
    prev = iv;
    buffer = replicate 16 0;
    buffer_len = 0;
    output = [];
  }

  unfoldable pub encrypt_update : Sm4CbcEncryptor → List ℕ → Sm4CbcEncryptor
  encrypt_update e input =
      let b = absorb 16 (encrypt_one e.cipher) (encrypting e) input in
      record {
        cipher = e.cipher;
        prev = b.worker.0;
        buffer = b.buffer;
        buffer_len = b.buffer_len;
        output = b.worker.1;
      }

  unfoldable pub encrypt_finalize : Sm4CbcEncryptor → List ℕ
  encrypt_finalize e =
      let pad_len = (16 - e.buffer_len) % 256 in
      let block = copy_into e.buffer e.buffer_len (replicate (16 - e.buffer_len) pad_len) in
      (encrypt_one e.cipher (e.prev, e.output) block).1

  -- `held_back.take()`, moved to the output.
  flush : List ℕ → Option (List ℕ) → List ℕ
  flush output none = output
  flush output (some prev_held) = output ++ prev_held

  unfoldable pub decrypt_one : Sm4Cipher → Held → List ℕ → Held
  unfolding flush
  decrypt_one cipher h ciphertext_block =
      let block = xor_bytes (decrypt_block cipher ciphertext_block) h.prev in
      record {
        prev = ciphertext_block;
        output = flush h.output h.held_back;
        held_back = some block;
      }

  unfoldable pub new_decryptor : List ℕ → List ℕ → Sm4CbcDecryptor
  new_decryptor key iv = record {
    cipher = Cipher.new key;
    prev = iv;
    buffer = replicate 16 0;
    buffer_len = 0;
    output = [];
    held_back = none;
  }

  unfoldable pub decrypt_update : Sm4CbcDecryptor → List ℕ → Sm4CbcDecryptor
  decrypt_update d input =
      let b = absorb 16 (decrypt_one d.cipher) (decrypting d) input in
      record {
        cipher = d.cipher;
        prev = b.worker.prev;
        buffer = b.buffer;
        buffer_len = b.buffer_len;
        output = b.worker.output;
        held_back = b.worker.held_back;
      }

  unfoldable pub decrypt_finalize : Sm4CbcDecryptor → Option (List ℕ)
  decrypt_finalize d = do
    guard (d.buffer_len == 0)
    last ← d.held_back
    stripped ← strip_pkcs7_block last
    some (d.output ++ take stripped last)
