-- ===== src/KmError.antt =====
-- `Error` of common/src/lib.rs, and the results that carry it. The text of an error, and the inner
-- values of the CBOR, DER and RPC cases, are left out. Allocation always succeeds.
use platform_system_keymint.Common.{Outcome}
use platform_system_keymint.Wire.Errors.{ErrorCode}

pub data Error : Type 0 where
  cbor der rpc alloc : Error
  hal : ErrorCode → Error

abbrev pub Result : Type 0 → Type 0
Result = Outcome Error
