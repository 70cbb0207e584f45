-- ===== src/Ta.antt =====
-- The trusted application (the crate ta).
pub mod Tokens
pub mod Platform
pub mod Auth
pub mod Operation
pub mod Response
pub mod Versions
pub mod Boot
pub mod UseCounts
pub mod SharedSecret
