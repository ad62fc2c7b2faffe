-- ===== src/Crypto.antt =====
-- crates/lockframe-crypto: sender keys.
pub mod Errors
pub mod Ratchet
pub mod Derivation
pub mod Encryption
