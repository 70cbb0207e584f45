-- ===== src/Ta/Operation.antt =====
-- Operations in progress (ta/src/operation.rs), and the part of `KeyMintTa` that they use.
pub mod Table
pub mod Crypto
pub mod Confirm
pub mod Handlers
pub mod Lookup
pub mod Closures
pub mod Lifecycle
pub mod Progress
pub mod Failure
pub mod Finish
pub mod Stranded
pub mod Verdict
pub mod Begin
