-- ===== src/Tests/Requests.antt =====
-- Runs of the checks on parameters (common/src/tag.rs).
use platform_system_keymint.Common.{
  ℕ, true, false, ◌*◌, ◌≡◌, refl, ◌↔◌, ◌&&◌, if◌then◌else◌, none, List, [], ◌∷◌, ◌++◌, length,
  replicate, All, ok, err,
}
use platform_system_keymint.KmError.{hal}
use platform_system_keymint.Wire.Errors.{ErrorCode}
use platform_system_keymint.Wire.Params.{
  Algorithm, BlockMode, block_mode_eq, block_mode_as_u32, Digest, digest_eq,
}
use platform_system_keymint.Wire.Modes.{
  KeyPurpose, key_purpose_eq, key_purpose_as_u32, PaddingMode, padding_mode_eq, padding_mode_as_u32,
  SecurityLevel, security_level_eq, security_level_as_u32,
}
use platform_system_keymint.Wire.Formats.{KeyFormat, key_format_eq, key_format_as_u32}
use platform_system_keymint.Wire.Tags.{Tag, tag_eq, tag_as_u32}
use platform_system_keymint.Wire.KeyParams.{KeyParam, tag, KeyCharacteristics}
use platform_system_keymint.Crypto.Keys.{KeyMaterial, KeyGenInfo, Variant}
use platform_system_keymint.Crypto.Modes.{aes_mode_new}
use platform_system_keymint.Crypto.Accepted.{check_begin_params-aes_mode_new}
use platform_system_keymint.Crypto.AesFacts.{Succeeds}
use platform_system_keymint.Crypto.Rsa.{HasRsaMode, check_begin_rsa_params-HasRsaMode}
use platform_system_keymint.Tag.Info.{info}
use platform_system_keymint.Tag.Info.Facts.{Describes, info-Describes}
use platform_system_keymint.Tag.Params.{
  tally, exactly_one, at_most_one, none_or_one, contains_from, get_tag_value, get_opt_tag_value,
  get_bool_tag_value, contains_tag_value, get_algorithm, get_block_mode, get_padding_mode,
  get_digest,
}
use platform_system_keymint.Tag.Params.Select.{
  as_purpose, as_algorithm, as_key_size, as_block_mode, as_digest, as_padding, as_caller_nonce,
  as_min_mac_length, as_storage_key, as_nonce, as_mac_length,
}
use platform_system_keymint.Tag.Params.Single.{values}
use platform_system_keymint.Tag.Characteristics.{characteristics_valid}
use platform_system_keymint.Tag.Characteristics.Distinct.{
  IsCharacteristic, NoRepeats, characteristics_valid-NoRepeats,
}
use platform_system_keymint.Tag.Order.{param_compare, sort_by, insert_by, compared, compare_bytes}
use platform_system_keymint.Tag.Extract.{
  SecureStorage, keymint_enforced_characteristics, keystore_enforced_characteristics,
  auto_added_characteristics, see_auth, see_auths, reject_incompatible_auth, collect_limit,
  collect_enforced, collect, at_levels, extract_key_characteristics,
}
use platform_system_keymint.Tag.Extract.Policed.{
  keep, all, for_keymint, for_keystore, allowed, auth_consistent, extract_key_characteristics-keep,
}
use platform_system_keymint.Tag.Generate.{
  mac_length_valid, check_aes_params, aes_variant, check_aes_gen_params, check_gen_params,
  extract_key_gen_characteristics,
}
use platform_system_keymint.Tag.Generate.Sizes.{
  IsSupported, extract_key_gen_characteristics-IsSupported,
}
use platform_system_keymint.Tag.Generate.Import.{
  Importers, match_or_deduce, require_matching_key_size, require_raw, check_aes_import_params,
  check_import_params,
}
use platform_system_keymint.Tag.Generate.Matching.{HasSize, check_import_params-HasSize}
use platform_system_keymint.Tag.Begin.{
  valid_purpose, check_listed, check_block_mode, check_padding, check_digest, check_mgf_digest,
  check_begin_for, check_begin_general, check_named, check_begin_params,
}
use platform_system_keymint.Tag.Begin.Ciphers.{
  contains, reject_tags, reject_some_digest, check_min_mac, check_gcm_mac, aes_padding_valid,
  aes_nonce_valid, check_begin_aes_params,
}
use platform_system_keymint.Tag.Begin.Signatures.{
  for_encryption, for_signing, rsa_digest, check_pkcs1_sign, check_rsa_padding,
  check_begin_rsa_params,
}

info-Describes_example : Describes Tag.key_size (info Tag.key_size)
info-Describes_example = info-Describes Tag.key_size

-- An AES-GCM key, and the parameters of an encryption with it.
abbrev gcm_key : List KeyParam
gcm_key =
    KeyParam.algorithm Algorithm.aes
    ∷ KeyParam.purpose KeyPurpose.encrypt
    ∷ KeyParam.purpose KeyPurpose.decrypt
    ∷ KeyParam.block_mode BlockMode.gcm
    ∷ KeyParam.padding PaddingMode.none
    ∷ KeyParam.key_size 256
    ∷ KeyParam.min_mac_length 96
    ∷ []

abbrev gcm_begin : List KeyParam
gcm_begin =
    KeyParam.block_mode BlockMode.gcm
    ∷ KeyParam.padding PaddingMode.none
    ∷ KeyParam.mac_length 128
    ∷ []

characteristics_valid-NoRepeats_example :
    (characteristics_valid gcm_key ≡ ok tt) ↔ (All IsCharacteristic gcm_key × NoRepeats gcm_key)
characteristics_valid-NoRepeats_example = characteristics_valid-NoRepeats gcm_key

gcm_begins : check_begin_params gcm_key KeyPurpose.encrypt gcm_begin ≡ ok tt
unfolding check_begin_params get_algorithm get_tag_value tally exactly_one as_algorithm
    check_begin_general valid_purpose contains_tag_value contains_from as_purpose key_purpose_eq
    key_purpose_as_u32 get_bool_tag_value none_or_one as_storage_key get_opt_tag_value at_most_one
    as_nonce as_caller_nonce check_begin_for check_begin_aes_params reject_tags contains tag tag_eq
    tag_as_u32 reject_some_digest as_digest get_block_mode get_padding_mode as_block_mode as_padding
    block_mode_eq block_mode_as_u32 check_gcm_mac as_mac_length check_min_mac as_min_mac_length
    aes_padding_valid aes_nonce_valid check_named check_block_mode check_padding check_digest
    check_mgf_digest check_listed padding_mode_eq padding_mode_as_u32
gcm_begins = refl

gcm_is_aes : get_algorithm gcm_key ≡ ok Algorithm.aes
unfolding get_algorithm get_tag_value tally exactly_one as_algorithm
gcm_is_aes = refl

gcm_checked : check_aes_params gcm_key ≡ ok tt
unfolding check_aes_params contains_tag_value contains_from as_block_mode block_mode_eq
    block_mode_as_u32 get_tag_value tally exactly_one as_min_mac_length mac_length_valid
gcm_checked = refl

no_caller_nonce : get_opt_tag_value as_nonce gcm_begin ErrorCode.invalid_tag ≡ ok none
unfolding get_opt_tag_value tally at_most_one as_nonce
no_caller_nonce = refl

check_begin_params-aes_mode_new_example : Succeeds (aes_mode_new gcm_begin none (λ i. i))
check_begin_params-aes_mode_new_example =
    check_begin_params-aes_mode_new gcm_key KeyPurpose.encrypt gcm_begin none (λ i. i) gcm_is_aes
      gcm_checked no_caller_nonce gcm_begins

-- An RSA signature.
abbrev rsa_begin : List KeyParam
rsa_begin = KeyParam.padding PaddingMode.rsa_pkcs115_sign ∷ KeyParam.digest Digest.sha256 ∷ []

rsa_begins :
    check_begin_rsa_params [] KeyPurpose.sign rsa_begin
    ≡ ok (record { block_mode = false; padding = true; digest = true; mgf_digest = true })
unfolding check_begin_rsa_params get_padding_mode get_tag_value tally exactly_one as_padding
    rsa_digest for_signing for_encryption key_purpose_eq key_purpose_as_u32 padding_mode_eq
    padding_mode_as_u32 get_digest as_digest digest_eq check_rsa_padding check_pkcs1_sign
rsa_begins = refl

check_begin_rsa_params-HasRsaMode_example : HasRsaMode KeyPurpose.sign rsa_begin
check_begin_rsa_params-HasRsaMode_example =
    check_begin_rsa_params-HasRsaMode [] KeyPurpose.sign rsa_begin
      (record { block_mode = false; padding = true; digest = true; mgf_digest = true }) rsa_begins

-- A request for an AES key.
abbrev aes_request : List KeyParam
aes_request = KeyParam.key_size 128 ∷ KeyParam.algorithm Algorithm.aes ∷ KeyParam.user_id 7 ∷ []

abbrev aes_chars : List KeyCharacteristics
aes_chars =
    record {
      security_level = SecurityLevel.strongbox;
      authorizations = KeyParam.algorithm Algorithm.aes ∷ KeyParam.key_size 128 ∷ [];
    }
    ∷ record { security_level = SecurityLevel.keystore; authorizations = KeyParam.user_id 7 ∷ [] }
    ∷ []

aes_generates :
    extract_key_gen_characteristics SecureStorage.available aes_request SecurityLevel.strongbox
    ≡ ok (aes_chars, KeyGenInfo.aes Variant.aes128)
unfolding extract_key_gen_characteristics get_algorithm get_tag_value tally exactly_one as_algorithm
    check_gen_params check_aes_gen_params as_key_size aes_variant check_aes_params
    contains_tag_value contains_from as_block_mode extract_key_characteristics collect contains tag
    tag_eq tag_as_u32 auto_added_characteristics security_level_eq security_level_as_u32
    collect_limit collect_enforced keymint_enforced_characteristics
    keystore_enforced_characteristics reject_incompatible_auth see_auths see_auth sort_by insert_by
    param_compare compared compare_bytes at_levels
aes_generates = refl

extract_key_gen_characteristics-IsSupported_example :
    IsSupported SecurityLevel.strongbox (KeyGenInfo.aes Variant.aes128)
extract_key_gen_characteristics-IsSupported_example =
    extract_key_gen_characteristics-IsSupported SecureStorage.available aes_request
      SecurityLevel.strongbox aes_chars (KeyGenInfo.aes Variant.aes128) aes_generates

extract_key_characteristics-keep_example :
    extract_key_characteristics SecureStorage.available aes_request [] SecurityLevel.strongbox ≡ (
      if all (allowed SecurityLevel.strongbox) (aes_request ++ [])
        && auth_consistent (keep (for_keymint SecureStorage.available) (aes_request ++ []))
      then ok (
          at_levels SecurityLevel.strongbox
            (sort_by param_compare (keep (for_keymint SecureStorage.available) (aes_request ++ [])))
            (sort_by param_compare
              (keep (for_keystore SecureStorage.available) (aes_request ++ []))))
      else err (hal ErrorCode.invalid_tag))
extract_key_characteristics-keep_example =
    extract_key_characteristics-keep SecureStorage.available aes_request [] SecurityLevel.strongbox

-- Importers that take the data as the key.
abbrev plain : Importers (List ℕ)
plain = record {
  rsa_pkcs8 = λ d ps. err (hal ErrorCode.unimplemented);
  ec_pkcs8 = λ d ps. err (hal ErrorCode.unimplemented);
  ec_raw_ed25519 = λ d ps. err (hal ErrorCode.unimplemented);
  ec_raw_x25519 = λ d ps. err (hal ErrorCode.unimplemented);
  aes = λ d ps. ok (KeyMaterial.aes d, length d * 8);
  des = λ d ps. ok (KeyMaterial.triple_des d);
  hmac = λ d ps. ok (KeyMaterial.hmac d, length d * 8);
}

abbrev import_request : List KeyParam
import_request = KeyParam.algorithm Algorithm.aes ∷ []

aes_imports :
    check_import_params plain Algorithm.aes import_request SecurityLevel.software KeyFormat.raw
      (replicate 16 7)
    ≡ ok (KeyParam.key_size 128 ∷ [], KeyMaterial.aes (replicate 16 7))
unfolding check_import_params check_aes_import_params require_raw key_format_eq key_format_as_u32
    security_level_eq security_level_as_u32 require_matching_key_size get_opt_tag_value tally
    at_most_one as_key_size match_or_deduce check_aes_params contains_tag_value contains_from
    as_block_mode
aes_imports = refl

check_import_params-HasSize_example :
    (n : ℕ) × (values as_key_size (import_request ++ (KeyParam.key_size 128 ∷ [])) ≡ n ∷ [])
    × HasSize plain Algorithm.aes import_request KeyFormat.raw
        (replicate 16 7)
        (KeyMaterial.aes (replicate 16 7))
        n
check_import_params-HasSize_example =
    check_import_params-HasSize plain Algorithm.aes import_request SecurityLevel.software
      KeyFormat.raw (replicate 16 7) (KeyParam.key_size 128 ∷ []) (KeyMaterial.aes (replicate 16 7))
      aes_imports
