-- ===== src/Sm2.antt =====
-- What is modelled of crates/gmcrypto-core/src/sm2: the field constants, the test that a point is on
-- the curve, and the raw byte form of a ciphertext.
pub mod Field
pub mod Curve
pub mod Point
pub mod ScalarMul
pub mod Keys
pub mod Sign
pub mod Verify
pub mod RawCiphertext
pub mod Plain
mod Examples
mod SignExamples
