-- ===== src/Tag/Begin/Signatures.antt =====
-- The begin checks for RSA and EC keys, and for an RSA wrapping key (common/src/tag.rs).
use platform_system_keymint.Common.{
  ◌+◌, ◌*◌, Bool, true, false, ◌&&◌, ◌||◌, not, Option, none, some, List, ok, err, fail_if, ◌>>=◌,
  ◌>>◌, map_ok, if◌then◌else◌, ltb,
}
use platform_system_keymint.KmError.{Result, hal}
use platform_system_keymint.Wire.Errors.{ErrorCode}
use platform_system_keymint.Wire.Params.{Digest, digest_eq, EcCurve, ec_curve_eq}
use platform_system_keymint.Wire.Modes.{KeyPurpose, key_purpose_eq, PaddingMode, padding_mode_eq}
use platform_system_keymint.Wire.KeyParams.{KeyParam}
use platform_system_keymint.Tag.Params.{
  get_tag_value, get_opt_tag_value, contains_tag_value, get_padding_mode, get_digest, get_ec_curve,
  get_mgf_digest, unwrap_or,
}
use platform_system_keymint.Tag.Params.Select.{
  as_purpose, as_key_size, as_digest, as_padding, as_rsa_oaep_mgf_digest,
}
use platform_system_keymint.Tag.Digests.{digest_len}
use platform_system_keymint.Crypto.Modes.{DecryptionMode}
use platform_system_keymint.Tag.Begin.Ciphers.{BeginParamsToCheck}

unfoldable pub for_encryption : KeyPurpose → Bool
unfolding key_purpose_eq
for_encryption purpose =
    key_purpose_eq purpose KeyPurpose.encrypt
    || key_purpose_eq purpose KeyPurpose.decrypt
    || key_purpose_eq purpose KeyPurpose.wrap_key

unfoldable pub for_signing : KeyPurpose → Bool
unfolding key_purpose_eq
for_signing purpose = key_purpose_eq purpose KeyPurpose.sign

-- The digest, where the purpose and the padding use one.
unfoldable pub rsa_digest : KeyPurpose → PaddingMode → List KeyParam → Result (Option Digest)
unfolding for_signing for_encryption get_digest padding_mode_eq
rsa_digest purpose padding params =
    if for_signing purpose
      || (for_encryption purpose && padding_mode_eq padding PaddingMode.rsa_oaep)
    then map_ok some (get_digest params)
    else ok none

-- No digest, or `Digest::None`.
abbrev undigested : Option Digest → Bool
undigested none = true
undigested (some digest) = digest_eq digest Digest.none

unfoldable pub check_oaep : Option Digest → List KeyParam → Result (Unit {0})
unfolding get_mgf_digest digest_eq
check_oaep digest params = do
  fail_if (undigested digest) (hal ErrorCode.incompatible_digest)
  mgf_digest ← get_mgf_digest params
  fail_if (digest_eq mgf_digest Digest.none) (hal ErrorCode.unsupported_mgf_digest)

unfoldable pub check_pss : List KeyParam → Option Digest → Result (Unit {0})
unfolding get_tag_value as_key_size digest_len
check_pss chars none = err (hal ErrorCode.incompatible_digest)
check_pss chars (some digest) = do
  key_size_bits ← get_tag_value as_key_size chars ErrorCode.invalid_argument
  d ← digest_len digest
  fail_if (ltb key_size_bits (2 * d + 9)) (hal ErrorCode.incompatible_digest)

unfoldable pub check_pkcs1_sign : Option Digest → Result (Unit {0})
check_pkcs1_sign none = err (hal ErrorCode.incompatible_digest)
check_pkcs1_sign (some digest) = ok tt

-- The arms of `match padding`: a guard that fails goes to the last arm.
unfoldable pub check_rsa_padding :
    List KeyParam → KeyPurpose → List KeyParam → Option Digest → PaddingMode → Result (Unit {0})
unfolding for_encryption for_signing check_oaep check_pss check_pkcs1_sign
check_rsa_padding chars purpose params digest PaddingMode.none = ok tt
check_rsa_padding chars purpose params digest PaddingMode.rsa_oaep =
    if for_encryption purpose
    then check_oaep digest params
    else err (hal ErrorCode.unsupported_padding_mode)
check_rsa_padding chars purpose params digest PaddingMode.rsa_pss =
    if for_signing purpose
    then check_pss chars digest
    else err (hal ErrorCode.unsupported_padding_mode)
check_rsa_padding chars purpose params digest PaddingMode.rsa_pkcs115_encrypt =
    if for_encryption purpose then ok tt else err (hal ErrorCode.unsupported_padding_mode)
check_rsa_padding chars purpose params digest PaddingMode.rsa_pkcs115_sign =
    if for_signing purpose
    then check_pkcs1_sign digest
    else err (hal ErrorCode.unsupported_padding_mode)
check_rsa_padding chars purpose params digest PaddingMode.pkcs7 =
    err (hal ErrorCode.unsupported_padding_mode)

abbrev is_digest_none : Option Digest → Bool
is_digest_none none = false
is_digest_none (some digest) = digest_eq digest Digest.none

unfoldable pub check_begin_rsa_params :
    List KeyParam → KeyPurpose → List KeyParam → Result BeginParamsToCheck
unfolding get_padding_mode rsa_digest for_signing padding_mode_eq digest_eq check_rsa_padding
check_begin_rsa_params chars purpose params = do
  padding ← get_padding_mode params
  digest ← rsa_digest purpose padding params
  fail_if
      (for_signing purpose
        && padding_mode_eq padding PaddingMode.none
        && not (is_digest_none digest))
      (hal ErrorCode.incompatible_digest)
  check_rsa_padding chars purpose params digest padding
  ok (record { block_mode = false; padding = true; digest = true; mgf_digest = true })

unfoldable pub check_ec_digest : EcCurve → List KeyParam → Result (Unit {0})
unfolding get_digest digest_eq ec_curve_eq
check_ec_digest curve params = do
  digest ← get_digest params
  fail_if (digest_eq digest Digest.md5) (hal ErrorCode.unsupported_digest)
  fail_if (ec_curve_eq curve EcCurve.curve25519 && not (digest_eq digest Digest.none))
      (hal ErrorCode.unsupported_digest)

unfoldable pub check_begin_ec_params :
    List KeyParam → KeyPurpose → List KeyParam → Result BeginParamsToCheck
unfolding get_ec_curve check_ec_digest key_purpose_eq
check_begin_ec_params chars purpose params = do
  curve ← get_ec_curve chars
  if key_purpose_eq purpose KeyPurpose.sign then check_ec_digest curve params else ok tt
  ok (record { block_mode = false; padding = false; digest = true; mgf_digest = false })

-- A digest for the mask generation that is given must be among the key's.
unfoldable pub check_wrapping_mgf : List KeyParam → Option Digest → Result (Unit {0})
unfolding contains_tag_value as_rsa_oaep_mgf_digest digest_eq
check_wrapping_mgf chars none = ok tt
check_wrapping_mgf chars (some mgf_digest) =
    fail_if (not (contains_tag_value as_rsa_oaep_mgf_digest digest_eq chars mgf_digest))
      (hal ErrorCode.incompatible_digest)

unfoldable pub check_rsa_wrapping_key_params : List KeyParam → List KeyParam → Result DecryptionMode
unfolding contains_tag_value as_purpose key_purpose_eq get_tag_value as_padding padding_mode_eq
    as_digest digest_eq get_opt_tag_value as_rsa_oaep_mgf_digest check_wrapping_mgf
check_rsa_wrapping_key_params chars params = do
  fail_if (not (contains_tag_value as_purpose key_purpose_eq chars KeyPurpose.wrap_key))
      (hal ErrorCode.incompatible_purpose)
  padding_mode ← get_tag_value as_padding params ErrorCode.incompatible_padding_mode
  fail_if (not (padding_mode_eq padding_mode PaddingMode.rsa_oaep))
      (hal ErrorCode.incompatible_padding_mode)
  msg_digest ← get_tag_value as_digest params ErrorCode.incompatible_digest
  fail_if (not (digest_eq msg_digest Digest.sha256)) (hal ErrorCode.incompatible_digest)
  opt_mgf_digest ← get_opt_tag_value as_rsa_oaep_mgf_digest params ErrorCode.invalid_tag
  fail_if (is_digest_none opt_mgf_digest) (hal ErrorCode.unsupported_mgf_digest)
  fail_if (not (contains_tag_value as_padding padding_mode_eq chars padding_mode))
      (hal ErrorCode.incompatible_padding_mode)
  fail_if (not (contains_tag_value as_digest digest_eq chars msg_digest))
      (hal ErrorCode.incompatible_digest)
  check_wrapping_mgf chars opt_mgf_digest
  ok (DecryptionMode.oaep_padding msg_digest (unwrap_or Digest.sha1 opt_mgf_digest))
