-- ===== src/Tag/Begin.antt =====
-- Which operations a key may begin (common/src/tag.rs): `check_begin_params` and what it calls.
pub mod Ciphers
pub mod Signatures
pub mod Listed
pub mod Authorised
use platform_system_keymint.Common.{
  ℕ, [], ◌∷◌, Bool, true, false, ◌&&◌, ◌||◌, not, Option, none, some, List, ok, err, fail_if, ◌>>=◌,
  ◌>>◌, if◌then◌else◌,
}
use platform_system_keymint.KmError.{Result, hal}
use platform_system_keymint.Wire.Errors.{ErrorCode}
use platform_system_keymint.Wire.Params.{
  Algorithm, BlockMode, block_mode_eq, Digest, digest_eq, EcCurve,
}
use platform_system_keymint.Wire.Modes.{KeyPurpose, key_purpose_eq, PaddingMode, padding_mode_eq}
use platform_system_keymint.Wire.KeyParams.{KeyParam}
use platform_system_keymint.Tag.Params.{
  get_tag_value, get_opt_tag_value, get_bool_tag_value, contains_tag_value, get_algorithm,
  unwrap_or,
}
use platform_system_keymint.Tag.Params.Select.{
  as_purpose, as_block_mode, as_digest, as_padding, as_caller_nonce, as_rsa_oaep_mgf_digest,
  as_storage_key, as_nonce,
}
use platform_system_keymint.Tag.Begin.Ciphers.{
  BeginParamsToCheck, check_begin_aes_params, check_begin_3des_params, check_begin_hmac_params,
}
use platform_system_keymint.Tag.Begin.Signatures.{check_begin_rsa_params, check_begin_ec_params}

abbrev pub is_some : {A : Type 0} → Option A → Bool
is_some none = false
is_some (some v) = true

-- The pairs of `valid_purpose`.
unfoldable pub valid_purpose : Algorithm → KeyPurpose → Bool
valid_purpose Algorithm.aes KeyPurpose.encrypt = true
valid_purpose Algorithm.aes KeyPurpose.decrypt = true
valid_purpose Algorithm.triple_des KeyPurpose.encrypt = true
valid_purpose Algorithm.triple_des KeyPurpose.decrypt = true
valid_purpose Algorithm.hmac KeyPurpose.sign = true
valid_purpose Algorithm.hmac KeyPurpose.verify = true
valid_purpose Algorithm.ec KeyPurpose.sign = true
valid_purpose Algorithm.ec KeyPurpose.attest_key = true
valid_purpose Algorithm.ec KeyPurpose.agree_key = true
valid_purpose Algorithm.rsa KeyPurpose.sign = true
valid_purpose Algorithm.rsa KeyPurpose.decrypt = true
valid_purpose Algorithm.rsa KeyPurpose.attest_key = true
valid_purpose _ _ = false

-- A value of the parameters, where one is given, must be among those of the key.
unfoldable pub check_listed :
    {A : Type 0}
    → (KeyParam → Option A)
    → (A → A → Bool)
    → ErrorCode
    → List KeyParam
    → Option A
    → Result (Unit {0})
unfolding contains_tag_value
check_listed select eq e chars none = ok tt
check_listed select eq e chars (some v) =
    fail_if (not (contains_tag_value select eq chars v)) (hal e)

unfoldable has_mgf_digest : List KeyParam → Bool
unfolding as_rsa_oaep_mgf_digest
has_mgf_digest [] = false
has_mgf_digest (param ∷ params) = is_some (as_rsa_oaep_mgf_digest param) || has_mgf_digest params

-- The digest that the mask generation will use: SHA-1 where the key lists digests and none is given.
unfoldable pub mgf_digest_to_find : List KeyParam → Option Digest → Option Digest
unfolding has_mgf_digest
mgf_digest_to_find chars (some digest) = some digest
mgf_digest_to_find chars none = if has_mgf_digest chars then some Digest.sha1 else none

-- The checks that the flags of a `BeginParamsToCheck` ask for.
unfoldable pub check_block_mode : Bool → List KeyParam → List KeyParam → Result (Unit {0})
unfolding get_opt_tag_value as_block_mode check_listed block_mode_eq
check_block_mode false chars params = ok tt
check_block_mode true chars params =
    get_opt_tag_value as_block_mode params ErrorCode.unsupported_block_mode
    >>= check_listed as_block_mode block_mode_eq ErrorCode.incompatible_block_mode chars

unfoldable pub check_padding : Bool → List KeyParam → List KeyParam → Result (Unit {0})
unfolding get_opt_tag_value as_padding check_listed padding_mode_eq
check_padding false chars params = ok tt
check_padding true chars params =
    get_opt_tag_value as_padding params ErrorCode.unsupported_padding_mode
    >>= check_listed as_padding padding_mode_eq ErrorCode.incompatible_padding_mode chars

unfoldable pub check_digest : Bool → List KeyParam → List KeyParam → Result (Unit {0})
unfolding get_opt_tag_value as_digest check_listed digest_eq
check_digest false chars params = ok tt
check_digest true chars params =
    get_opt_tag_value as_digest params ErrorCode.unsupported_digest
    >>= check_listed as_digest digest_eq ErrorCode.incompatible_digest chars

unfoldable pub check_mgf_digest : Bool → List KeyParam → List KeyParam → Result (Unit {0})
unfolding get_opt_tag_value as_rsa_oaep_mgf_digest check_listed digest_eq mgf_digest_to_find
check_mgf_digest false chars params = ok tt
check_mgf_digest true chars params = do
  given ← get_opt_tag_value as_rsa_oaep_mgf_digest params ErrorCode.unsupported_mgf_digest
  check_listed as_rsa_oaep_mgf_digest digest_eq ErrorCode.incompatible_mgf_digest chars
      (mgf_digest_to_find chars given)

-- The checks of the algorithm.
unfoldable pub check_begin_for :
    Algorithm
    → List KeyParam
    → KeyPurpose
    → List KeyParam
    → Option (List ℕ)
    → Result BeginParamsToCheck
unfolding check_begin_rsa_params check_begin_ec_params check_begin_aes_params
    check_begin_3des_params check_begin_hmac_params
check_begin_for Algorithm.rsa chars purpose params given =
    check_begin_rsa_params chars purpose params
check_begin_for Algorithm.ec chars purpose params given = check_begin_ec_params chars purpose params
check_begin_for Algorithm.aes chars purpose params given = check_begin_aes_params chars params given
check_begin_for Algorithm.triple_des chars purpose params given =
    check_begin_3des_params params given
check_begin_for Algorithm.hmac chars purpose params given =
    check_begin_hmac_params chars purpose params

-- The checks that concern every algorithm; they give the caller's nonce.
unfoldable pub check_begin_general :
    Algorithm → List KeyParam → KeyPurpose → List KeyParam → Result (Option (List ℕ))
unfolding valid_purpose contains_tag_value as_purpose key_purpose_eq get_bool_tag_value
    as_storage_key get_opt_tag_value as_nonce as_caller_nonce
check_begin_general algo chars purpose params = do
  fail_if (not (valid_purpose algo purpose)) (hal ErrorCode.unsupported_purpose)
  fail_if (not (contains_tag_value as_purpose key_purpose_eq chars purpose))
      (hal ErrorCode.incompatible_purpose)
  storage_key ← get_bool_tag_value as_storage_key chars
  fail_if storage_key (hal ErrorCode.storage_key_unsupported)
  nonce ← get_opt_tag_value as_nonce params ErrorCode.invalid_tag
  caller_nonce ← get_bool_tag_value as_caller_nonce chars
  fail_if (not caller_nonce && is_some nonce && key_purpose_eq purpose KeyPurpose.encrypt)
      (hal ErrorCode.caller_nonce_prohibited)
  ok nonce

-- The parameters named by the check must be those that the key allows.
unfoldable pub check_named : BeginParamsToCheck → List KeyParam → List KeyParam → Result (Unit {0})
unfolding check_block_mode check_padding check_digest check_mgf_digest
check_named check chars params = do
  check_block_mode check.block_mode chars params
  check_padding check.padding chars params
  check_digest check.digest chars params
  check_mgf_digest check.mgf_digest chars params

unfoldable pub check_begin_params : List KeyParam → KeyPurpose → List KeyParam → Result (Unit {0})
unfolding get_algorithm check_begin_general check_begin_for check_named
check_begin_params chars purpose params = do
  algo ← get_algorithm chars
  given ← check_begin_general algo chars purpose params
  check ← check_begin_for algo chars purpose params given
  check_named check chars params
