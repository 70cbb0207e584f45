-- ===== src/Tag.antt =====
-- Tags and key parameters (common/src/tag.rs and common/src/tag/).
pub mod Legacy
pub mod Luhn
pub mod Imei
pub mod Info
pub mod Params
pub mod Digests
pub mod Begin
pub mod Characteristics
pub mod Order
pub mod Extract
pub mod Generate
