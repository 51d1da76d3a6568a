-- ===== src/Asn1.antt =====
-- The DER layer, crates/gmcrypto-core/src/asn1: the strict reader, the minimal writer and the two
-- SM2 codecs on top of them.
pub mod Reader
pub mod Writer
pub mod Form
pub mod Accepts
pub mod Collect
pub mod Integer
pub mod Pad
pub mod Sig
pub mod Ciphertext
mod Examples
