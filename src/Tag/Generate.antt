-- ===== src/Tag/Generate.antt =====
-- The checks of parameters for key generation (common/src/tag.rs).

pub mod Import
pub mod Sizes
pub mod Deduced
pub mod Matching
use platform_system_keymint.Common.{
  ℕ, ◌%◌, Bool, true, false, ◌&&◌, ◌||◌, not, Option, none, some, List, [], ◌∷◌, ok, err, fail_if,
  ◌>>=◌, ◌>>◌, map_ok, if◌then◌else◌, leb, ◌==◌,
}
use platform_system_keymint.KmError.{Result, hal}
use platform_system_keymint.Wire.Errors.{ErrorCode}
use platform_system_keymint.Wire.Params.{
  Algorithm, BlockMode, block_mode_eq, Digest, digest_eq, EcCurve, ec_curve_eq,
}
use platform_system_keymint.Wire.Modes.{KeyPurpose, SecurityLevel, security_level_eq}
use platform_system_keymint.Wire.KeyParams.{KeyParam, KeyCharacteristics}
use platform_system_keymint.Crypto.Keys.{
  Variant, NistCurve, KeyGenInfo, valid_hal_size, valid_strongbox_hal_size,
}
use platform_system_keymint.Tag.Params.{
  get_tag_value, get_opt_tag_value, contains_tag_value, get_algorithm, get_ec_curve,
}
use platform_system_keymint.Tag.Params.Select.{
  as_purpose, as_key_size, as_block_mode, as_digest, as_min_mac_length, as_rsa_public_exponent,
}
use platform_system_keymint.Tag.Extract.{SecureStorage, extract_key_characteristics}

-- StrongBox has 2048 bits only.
unfoldable pub check_rsa_key_size : ℕ → SecurityLevel → Result (Unit {0})
unfolding security_level_eq
check_rsa_key_size key_size sec_level =
    if key_size == 2048
      || (not (security_level_eq sec_level SecurityLevel.strongbox)
          && (key_size == 512
              || key_size == 768
              || key_size == 1024
              || key_size == 3072
              || key_size == 4096))
    then ok tt
    else err (hal ErrorCode.unsupported_key_size)

-- The flags of the loop in `check_rsa_params`.
unfoldable pub rsa_non_attest : KeyPurpose → Bool
rsa_non_attest KeyPurpose.sign = true
rsa_non_attest KeyPurpose.decrypt = true
rsa_non_attest KeyPurpose.wrap_key = true
rsa_non_attest _ = false

unfoldable pub is_attest : KeyPurpose → Bool
is_attest KeyPurpose.attest_key = true
is_attest _ = false

-- Whether the loop over the purposes sees one that a flag stands for.
unfoldable pub sees : (KeyPurpose → Bool) → List KeyParam → Bool → Bool
unfolding as_purpose
sees flag [] seen = seen
sees flag (param ∷ params) seen = elim (as_purpose param) [
  | none ↦ sees flag params seen
  | some purpose ↦ sees flag params (flag purpose || seen)
]

unfoldable pub check_rsa_params : List KeyParam → Result (Unit {0})
unfolding sees rsa_non_attest is_attest
check_rsa_params params =
    fail_if (sees is_attest params false && sees rsa_non_attest params false)
      (hal ErrorCode.incompatible_purpose)

unfoldable pub check_rsa_gen_params : List KeyParam → SecurityLevel → Result KeyGenInfo
unfolding get_tag_value as_key_size check_rsa_key_size as_rsa_public_exponent check_rsa_params
check_rsa_gen_params params sec_level = do
  key_size ← get_tag_value as_key_size params ErrorCode.unsupported_key_size
  check_rsa_key_size key_size sec_level
  public_exponent ← get_tag_value as_rsa_public_exponent params ErrorCode.invalid_argument
  check_rsa_params params
  ok (KeyGenInfo.rsa key_size public_exponent)

unfoldable pub is_sign : KeyPurpose → Bool
is_sign KeyPurpose.sign = true
is_sign _ = false

unfoldable pub is_agree : KeyPurpose → Bool
is_agree KeyPurpose.agree_key = true
is_agree _ = false

-- `primary_purpose` of the loop in `check_ec_params`: the first purpose.
unfoldable pub first_purpose : List KeyParam → Option KeyPurpose → Option KeyPurpose
unfolding as_purpose
first_purpose [] first = first
first_purpose (param ∷ params) (some purpose) = first_purpose params (some purpose)
first_purpose (param ∷ params) none = elim (as_purpose param) [
  | none ↦ first_purpose params none
  | some purpose ↦ first_purpose params (some purpose)
]

-- The sizes that a curve goes with.
unfoldable pub curve_size_valid : EcCurve → ℕ → Bool
curve_size_valid EcCurve.p224 key_size = key_size == 224
curve_size_valid EcCurve.p256 key_size = key_size == 256
curve_size_valid EcCurve.p384 key_size = key_size == 384
curve_size_valid EcCurve.p521 key_size = key_size == 521
curve_size_valid EcCurve.curve25519 key_size = key_size == 256

unfoldable pub check_curve_size : EcCurve → Option ℕ → Result (Unit {0})
unfolding curve_size_valid
check_curve_size curve none = ok tt
check_curve_size curve (some key_size) =
    fail_if (not (curve_size_valid curve key_size)) (hal ErrorCode.invalid_argument)

unfoldable pub check_ec_params :
    EcCurve → List KeyParam → SecurityLevel → Result (Option KeyPurpose)
unfolding security_level_eq ec_curve_eq get_opt_tag_value as_key_size check_curve_size sees is_sign
    is_agree is_attest first_purpose
check_ec_params curve params sec_level = do
  fail_if
      (security_level_eq sec_level SecurityLevel.strongbox && not (ec_curve_eq curve EcCurve.p256))
      (hal ErrorCode.unsupported_ec_curve)
  given ← get_opt_tag_value as_key_size params ErrorCode.invalid_tag
  check_curve_size curve given
  let seen_attest = sees is_attest params false
  let seen_sign = sees is_sign params false
  let seen_agree = sees is_agree params false
  fail_if (seen_attest && (seen_sign || seen_agree)) (hal ErrorCode.incompatible_purpose)
  fail_if (ec_curve_eq curve EcCurve.curve25519 && seen_agree && (seen_sign || seen_attest))
      (hal ErrorCode.incompatible_purpose)
  ok (first_purpose params none)

-- `match (ec_curve, purpose)`
unfoldable pub ec_keygen_info : EcCurve → Option KeyPurpose → Result KeyGenInfo
ec_keygen_info EcCurve.curve25519 (some KeyPurpose.sign) = ok KeyGenInfo.ed25519
ec_keygen_info EcCurve.curve25519 (some KeyPurpose.attest_key) = ok KeyGenInfo.ed25519
ec_keygen_info EcCurve.curve25519 (some KeyPurpose.agree_key) = ok KeyGenInfo.x25519
ec_keygen_info EcCurve.curve25519 _ = err (hal ErrorCode.incompatible_purpose)
ec_keygen_info EcCurve.p224 purpose = ok (KeyGenInfo.nist_ec NistCurve.p224)
ec_keygen_info EcCurve.p256 purpose = ok (KeyGenInfo.nist_ec NistCurve.p256)
ec_keygen_info EcCurve.p384 purpose = ok (KeyGenInfo.nist_ec NistCurve.p384)
ec_keygen_info EcCurve.p521 purpose = ok (KeyGenInfo.nist_ec NistCurve.p521)

unfoldable pub check_ec_gen_params : List KeyParam → SecurityLevel → Result KeyGenInfo
unfolding get_ec_curve check_ec_params ec_keygen_info
check_ec_gen_params params sec_level = do
  ec_curve ← get_ec_curve params
  purpose ← check_ec_params ec_curve params sec_level
  ec_keygen_info ec_curve purpose

-- `key_size % 8`, and the range of a tag length in bits.
unfoldable pub mac_length_valid : ℕ → ℕ → ℕ → Bool
mac_length_valid least most bits = bits % 8 == 0 && leb least bits && leb bits most

unfoldable pub check_aes_params : List KeyParam → Result (Unit {0})
unfolding contains_tag_value as_block_mode block_mode_eq get_tag_value as_min_mac_length
    mac_length_valid
check_aes_params params =
    if contains_tag_value as_block_mode block_mode_eq params BlockMode.gcm
    then get_tag_value as_min_mac_length params ErrorCode.missing_min_mac_length >>= (λ min_mac_len.
      fail_if (not (mac_length_valid 96 128 min_mac_len))
        (hal ErrorCode.unsupported_min_mac_length))
    else ok tt

unfoldable pub aes_variant : ℕ → SecurityLevel → Result Variant
unfolding security_level_eq
aes_variant key_size sec_level =
    if key_size == 128
    then ok Variant.aes128
    else if key_size == 256
    then ok Variant.aes256
    else if key_size == 192 && not (security_level_eq sec_level SecurityLevel.strongbox)
    then ok Variant.aes192
    else err (hal ErrorCode.unsupported_key_size)

unfoldable pub check_aes_gen_params : List KeyParam → SecurityLevel → Result KeyGenInfo
unfolding get_tag_value as_key_size aes_variant check_aes_params
check_aes_gen_params params sec_level = do
  key_size ← get_tag_value as_key_size params ErrorCode.unsupported_key_size
  variant ← aes_variant key_size sec_level
  check_aes_params params
  ok (KeyGenInfo.aes variant)

unfoldable pub check_3des_gen_params : List KeyParam → Result KeyGenInfo
unfolding get_tag_value as_key_size
check_3des_gen_params params = do
  key_size ← get_tag_value as_key_size params ErrorCode.unsupported_key_size
  fail_if (not (key_size == 168)) (hal ErrorCode.unsupported_key_size)
  ok KeyGenInfo.triple_des

unfoldable pub check_hmac_params : List KeyParam → SecurityLevel → ℕ → Result (Unit {0})
unfolding security_level_eq valid_strongbox_hal_size valid_hal_size get_tag_value as_digest
    digest_eq as_min_mac_length mac_length_valid
check_hmac_params params sec_level key_size = do
  if security_level_eq sec_level SecurityLevel.strongbox
      then valid_strongbox_hal_size key_size
      else valid_hal_size key_size
  digest ← get_tag_value as_digest params ErrorCode.unsupported_digest
  fail_if (digest_eq digest Digest.none) (hal ErrorCode.unsupported_digest)
  min_mac_len ← get_tag_value as_min_mac_length params ErrorCode.missing_min_mac_length
  fail_if (not (mac_length_valid 64 512 min_mac_len)) (hal ErrorCode.unsupported_min_mac_length)

unfoldable pub check_hmac_gen_params : List KeyParam → SecurityLevel → Result KeyGenInfo
unfolding get_tag_value as_key_size check_hmac_params
check_hmac_gen_params params sec_level = do
  key_size ← get_tag_value as_key_size params ErrorCode.unsupported_key_size
  check_hmac_params params sec_level key_size
  ok (KeyGenInfo.hmac key_size)

-- The arms for the algorithm of the key.
unfoldable pub check_gen_params : Algorithm → List KeyParam → SecurityLevel → Result KeyGenInfo
unfolding check_rsa_gen_params check_ec_gen_params check_aes_gen_params check_3des_gen_params
    check_hmac_gen_params
check_gen_params Algorithm.rsa params sec_level = check_rsa_gen_params params sec_level
check_gen_params Algorithm.ec params sec_level = check_ec_gen_params params sec_level
check_gen_params Algorithm.aes params sec_level = check_aes_gen_params params sec_level
check_gen_params Algorithm.triple_des params sec_level = check_3des_gen_params params
check_gen_params Algorithm.hmac params sec_level = check_hmac_gen_params params sec_level

unfoldable pub extract_key_gen_characteristics :
    SecureStorage → List KeyParam → SecurityLevel → Result (List KeyCharacteristics × KeyGenInfo)
unfolding get_algorithm check_gen_params extract_key_characteristics
extract_key_gen_characteristics secure_storage params sec_level = do
  algorithm ← get_algorithm params
  keygen_info ← check_gen_params algorithm params sec_level
  chars ← extract_key_characteristics secure_storage params [] sec_level
  ok (chars, keygen_info)
