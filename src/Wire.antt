-- ===== src/Wire.antt =====
-- The types shared by the HAL service and the trusted application (the crate wire).
pub mod Params
pub mod Modes
pub mod Tokens
pub mod Errors
pub mod Tags
pub mod TagTypes
pub mod Formats
pub mod KeyParams
