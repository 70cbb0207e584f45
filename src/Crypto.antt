-- ===== src/Crypto.antt =====
-- The parts of the cryptography code that the repository decides itself (common/src/crypto.rs and
-- common/src/crypto/): key material, sizes, and the modes of operations.
pub mod Keys
pub mod Modes
pub mod AesFacts
pub mod Accepted
pub mod Rsa
