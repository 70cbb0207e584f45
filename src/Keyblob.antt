-- ===== src/Keyblob.antt =====
-- Key blobs (common/src/keyblob.rs and its directory).
pub mod SddMem
