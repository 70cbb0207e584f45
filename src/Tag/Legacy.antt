-- ===== src/Tag/Legacy.antt =====
-- The legacy serialization of key parameters (common/src/tag/legacy.rs).
pub mod Consume
pub mod Serialize
pub mod Deserialize
pub mod Layout
pub mod Format
pub mod Readers
pub mod RoundTrip
pub mod Panics
