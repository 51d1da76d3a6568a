-- ===== src/Sm4.antt =====
-- SM4, crates/gmcrypto-core/src/sm4: the block cipher and its modes.
pub mod Cipher
pub mod Cbc
pub mod CbcStreaming
pub mod Ctr
pub mod CtrStreaming
pub mod Masking
pub mod Ccm
pub mod CcmStreaming
pub mod Xts
pub mod Ghash
pub mod Gcm
mod Tests
mod GcmTests
mod Examples
