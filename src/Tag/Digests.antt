-- ===== src/Tag/Digests.antt =====
-- The lengths of digests (common/src/tag.rs).
use platform_system_keymint.Common.{ℕ, ok, err}
use platform_system_keymint.KmError.{Result, hal}
use platform_system_keymint.Wire.Errors.{ErrorCode}
use platform_system_keymint.Wire.Params.{Digest}

-- In bits.
unfoldable pub digest_len : Digest → Result ℕ
digest_len Digest.md5 = ok 128
digest_len Digest.sha1 = ok 160
digest_len Digest.sha224 = ok 224
digest_len Digest.sha256 = ok 256
digest_len Digest.sha384 = ok 384
digest_len Digest.sha512 = ok 512
digest_len Digest.none = err (hal ErrorCode.incompatible_digest)
