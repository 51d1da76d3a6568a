-- ===== src/Lib.antt =====
-- gm-crypto-rs: the Chinese national cryptography suite (SM2, SM3, SM4) in Rust.
--
-- The model covers the core crate, crates/gmcrypto-core/src, with its default features, and GCM,
-- CCM and XTS of the features `sm4-aead` and `sm4-xts`. Bytes and machine words are native
-- numbers, with every wrap-around written out; slices, arrays and vectors are lists; `&mut self`
-- is a state that goes in and comes out; `None`, `Err` and a panic are `none`.
--
-- The parts, and how they build on each other:
--
--   Asn1       the DER layer (asn1). Reader has every function of asn1/reader.rs, Writer every
--              function of asn1/writer.rs, Sig is asn1/sig.rs, and Ciphertext is
--              asn1/ciphertext.rs. Form says which bytes an element has, Accepts and Integer are
--              about the readers on them, Collect is about `collect_sequence_of`, and Pad about
--              the 32-byte values in INTEGERs. Sig/Codec and Ciphertext/Codec hold the results on
--              the two codecs.
--   Sm2        sm2/raw_ciphertext.rs (RawCiphertext), the constants of sm2/curve.rs (Field),
--              `point_on_curve` of sm2/encrypt.rs (Curve), sm2/point.rs (Point), sm2/scalar_mul.rs
--              and sm2/comb_table.rs (ScalarMul), the two key types (Keys), sm2/sign.rs (Sign) and
--              sm2/verify.rs (Verify). Sign and Verify call ScalarMul, the hasher of Sm3 and the
--              codec of Asn1/Sig. Sign/Scalars has the equations modulo the order, Sign/Sample the
--              nonce sampler, Sign/Accepted what is returned, Sign/Verified and Verify/Exact are
--              about the verifier.
--   Sm3        sm3.rs. `new`, `update`, `finalize` and `hash` have the source's names, Compress is
--              the compression function. Digest is the hash of GB/T 32905.
--   Hmac       hmac.rs on top of Sm3, and Hmac/Rfc2104 the MAC of the RFC.
--   Kdf        kdf.rs on top of Hmac, Kdf/Reference the derived key of the RFC.
--   Pem        pem.rs: the Base64 codec and the armour. Pem/Armor is about the latter.
--   Sm4        Cipher is sm4/cipher.rs, Cbc is sm4/mode_cbc.rs, CbcStreaming is
--              sm4/cbc_streaming.rs, Ctr is sm4/mode_ctr.rs, CtrStreaming is sm4/ctr_streaming.rs,
--              Ccm is sm4/mode_ccm.rs and CcmStreaming the decryptor of sm4/ccm_streaming.rs,
--              whose encryptor is CcmStreaming/Encryptor. Masking is about a text under the
--              keystream of any numbered blocks, which CTR and CCM share. Xts is sm4/mode_xts.rs:
--              Xts/Units has the blocks that no byte is stolen from, Xts/Steal the last two,
--              Xts/Sectors the runs of sectors. Gcm is sm4/mode_gcm.rs, and Ghash the
--              multiplication in crates/gmcrypto-simd/src/ghash/software.rs, which stands for the
--              ones with special instructions as well. The streaming types have one function for
--              each method; their one-shot counterparts are their specification.
--   Base       what the others share: tests and Option chains, lists measured by native numbers,
--              bytes and words, the laws of the bit operations, counted loops. Base/Chunks is the
--              loop over whole blocks of a slice, Base/Stream the block buffer whose body
--              `Sm3::update`, `Sm4CbcEncryptor::update` and `Sm4CbcDecryptor::update` share.
--
-- Third-party code is a parameter. The record Base.Subtle has the operations of the crate `subtle`
-- that the program calls, with the values that its documentation states; Sm2.Field.CryptoBigint
-- has those of `crypto_bigint`, and Sm2.Sign.TryCryptoRng the source of random bytes. Base.Plain
-- and Sm2.Plain are models of the two by plain arithmetic, which the tests and the examples use.
--
-- Loops. The loop over blocks runs on fuel, the length of the slice; a block has at least one
-- element, so that is enough (Base.Chunks.run_blocks_fuel). `collect_sequence_of` runs on the
-- length of the body; each item that takes a byte uses one round up. A loop over a fixed range is
-- `for_range`, the loop that breaks a PEM body into lines runs on the length of the body, of which
-- each round takes a character at least, and other loops recurse on the list that they consume.
-- The loop that fills up a block with zeros (Sm4.Ccm.zero_pad) has 15 rounds, and 15 zeros are the
-- most that a block can lack (Sm4.Ccm.Tag.zero_pad_whole).
--
-- Not modelled: timing and the wiping of memory, which have no effect on results; the capacity of
-- vectors; the bitsliced and SIMD code (sm4/sbox_bitsliced.rs, sm4/sbox_bitsliced_simd.rs, the
-- batch paths of sm4/cipher.rs, the rest of crates/gmcrypto-simd), which the default features
-- leave out; the streaming GCM types; the key formats; SM2 encryption and key exchange, X.509 and
-- TLCP, which are not reached yet; that the addition formulas of sm2/point.rs form a group (where
-- a result needs it, it is a hypothesis on the points at hand); the C interface crates/gmcrypto-c.
-- The trait impls at the ends of sm3.rs, hmac.rs and sm4/cipher.rs only forward to the functions
-- above.
pub mod Base
pub mod Asn1
pub mod Sm2
pub mod Sm4
pub mod Sm3
pub mod Hmac
pub mod Kdf
pub mod Pem
