-- ===== src/Wire/KeyParams.antt =====
-- `KeyParam` of wire/src/keymint.rs: the tags that a parameter list may hold, each with its value.
-- A `u32` or `u64` is a number, a `DateTime` (`i64`) its 64-bit pattern, a `Vec<u8>` a list of
-- numbers. The features hal_v2, hal_v3 and hal_v4 are on.
use platform_system_keymint.Common.{ℕ, ◌<◌, List, length}
use platform_system_keymint.Wire.Params.{Algorithm, BlockMode, Digest, EcCurve}
use platform_system_keymint.Wire.Modes.{KeyOrigin, KeyPurpose, PaddingMode, SecurityLevel}
use platform_system_keymint.Wire.Tags.{Tag}

pub data KeyParam : Type 0 where
  purpose : KeyPurpose → KeyParam
  algorithm : Algorithm → KeyParam
  key_size : ℕ → KeyParam
  block_mode : BlockMode → KeyParam
  digest : Digest → KeyParam
  padding : PaddingMode → KeyParam
  caller_nonce : KeyParam
  min_mac_length : ℕ → KeyParam
  ec_curve : EcCurve → KeyParam
  rsa_public_exponent : ℕ → KeyParam
  include_unique_id : KeyParam
  rsa_oaep_mgf_digest : Digest → KeyParam
  bootloader_only : KeyParam
  rollback_resistance : KeyParam
  early_boot_only : KeyParam
  active_datetime : ℕ → KeyParam
  origination_expire_datetime : ℕ → KeyParam
  usage_expire_datetime : ℕ → KeyParam
  max_uses_per_boot : ℕ → KeyParam
  usage_count_limit : ℕ → KeyParam
  user_id : ℕ → KeyParam
  user_secure_id : ℕ → KeyParam
  no_auth_required : KeyParam
  user_auth_type : ℕ → KeyParam
  auth_timeout : ℕ → KeyParam
  allow_while_on_body : KeyParam
  trusted_user_presence_required : KeyParam
  trusted_confirmation_required : KeyParam
  unlocked_device_required : KeyParam
  application_id : List ℕ → KeyParam
  application_data : List ℕ → KeyParam
  creation_datetime : ℕ → KeyParam
  origin : KeyOrigin → KeyParam
  root_of_trust : List ℕ → KeyParam
  os_version : ℕ → KeyParam
  os_patchlevel : ℕ → KeyParam
  attestation_challenge : List ℕ → KeyParam
  attestation_application_id : List ℕ → KeyParam
  attestation_id_brand : List ℕ → KeyParam
  attestation_id_device : List ℕ → KeyParam
  attestation_id_product : List ℕ → KeyParam
  attestation_id_serial : List ℕ → KeyParam
  attestation_id_imei : List ℕ → KeyParam
  attestation_id_second_imei : List ℕ → KeyParam
  attestation_id_meid : List ℕ → KeyParam
  attestation_id_manufacturer : List ℕ → KeyParam
  attestation_id_model : List ℕ → KeyParam
  vendor_patchlevel : ℕ → KeyParam
  boot_patchlevel : ℕ → KeyParam
  device_unique_attestation : KeyParam
  storage_key : KeyParam
  nonce : List ℕ → KeyParam
  mac_length : ℕ → KeyParam
  reset_since_id_rotation : KeyParam
  certificate_serial : List ℕ → KeyParam
  certificate_subject : List ℕ → KeyParam
  certificate_not_before : ℕ → KeyParam
  certificate_not_after : ℕ → KeyParam
  max_boot_level : ℕ → KeyParam
  module_hash : List ℕ → KeyParam

-- `KeyParam::tag`
unfoldable pub tag : KeyParam → Tag
tag (KeyParam.purpose _) = Tag.purpose
tag (KeyParam.algorithm _) = Tag.algorithm
tag (KeyParam.key_size _) = Tag.key_size
tag (KeyParam.block_mode _) = Tag.block_mode
tag (KeyParam.digest _) = Tag.digest
tag (KeyParam.padding _) = Tag.padding
tag KeyParam.caller_nonce = Tag.caller_nonce
tag (KeyParam.min_mac_length _) = Tag.min_mac_length
tag (KeyParam.ec_curve _) = Tag.ec_curve
tag (KeyParam.rsa_public_exponent _) = Tag.rsa_public_exponent
tag KeyParam.include_unique_id = Tag.include_unique_id
tag (KeyParam.rsa_oaep_mgf_digest _) = Tag.rsa_oaep_mgf_digest
tag KeyParam.bootloader_only = Tag.bootloader_only
tag KeyParam.rollback_resistance = Tag.rollback_resistance
tag KeyParam.early_boot_only = Tag.early_boot_only
tag (KeyParam.active_datetime _) = Tag.active_datetime
tag (KeyParam.origination_expire_datetime _) = Tag.origination_expire_datetime
tag (KeyParam.usage_expire_datetime _) = Tag.usage_expire_datetime
tag (KeyParam.max_uses_per_boot _) = Tag.max_uses_per_boot
tag (KeyParam.usage_count_limit _) = Tag.usage_count_limit
tag (KeyParam.user_id _) = Tag.user_id
tag (KeyParam.user_secure_id _) = Tag.user_secure_id
tag KeyParam.no_auth_required = Tag.no_auth_required
tag (KeyParam.user_auth_type _) = Tag.user_auth_type
tag (KeyParam.auth_timeout _) = Tag.auth_timeout
tag KeyParam.allow_while_on_body = Tag.allow_while_on_body
tag KeyParam.trusted_user_presence_required = Tag.trusted_user_presence_required
tag KeyParam.trusted_confirmation_required = Tag.trusted_confirmation_required
tag KeyParam.unlocked_device_required = Tag.unlocked_device_required
tag (KeyParam.application_id _) = Tag.application_id
tag (KeyParam.application_data _) = Tag.application_data
tag (KeyParam.creation_datetime _) = Tag.creation_datetime
tag (KeyParam.origin _) = Tag.origin
tag (KeyParam.root_of_trust _) = Tag.root_of_trust
tag (KeyParam.os_version _) = Tag.os_version
tag (KeyParam.os_patchlevel _) = Tag.os_patchlevel
tag (KeyParam.attestation_challenge _) = Tag.attestation_challenge
tag (KeyParam.attestation_application_id _) = Tag.attestation_application_id
tag (KeyParam.attestation_id_brand _) = Tag.attestation_id_brand
tag (KeyParam.attestation_id_device _) = Tag.attestation_id_device
tag (KeyParam.attestation_id_product _) = Tag.attestation_id_product
tag (KeyParam.attestation_id_serial _) = Tag.attestation_id_serial
tag (KeyParam.attestation_id_imei _) = Tag.attestation_id_imei
tag (KeyParam.attestation_id_second_imei _) = Tag.attestation_id_second_imei
tag (KeyParam.attestation_id_meid _) = Tag.attestation_id_meid
tag (KeyParam.attestation_id_manufacturer _) = Tag.attestation_id_manufacturer
tag (KeyParam.attestation_id_model _) = Tag.attestation_id_model
tag (KeyParam.vendor_patchlevel _) = Tag.vendor_patchlevel
tag (KeyParam.boot_patchlevel _) = Tag.boot_patchlevel
tag KeyParam.device_unique_attestation = Tag.device_unique_attestation
tag KeyParam.storage_key = Tag.storage_key
tag (KeyParam.nonce _) = Tag.nonce
tag (KeyParam.mac_length _) = Tag.mac_length
tag KeyParam.reset_since_id_rotation = Tag.reset_since_id_rotation
tag (KeyParam.certificate_serial _) = Tag.certificate_serial
tag (KeyParam.certificate_subject _) = Tag.certificate_subject
tag (KeyParam.certificate_not_before _) = Tag.certificate_not_before
tag (KeyParam.certificate_not_after _) = Tag.certificate_not_after
tag (KeyParam.max_boot_level _) = Tag.max_boot_level
tag (KeyParam.module_hash _) = Tag.module_hash

pub record KeyCharacteristics : Type 0 where
  pub security_level : SecurityLevel
  pub authorizations : List KeyParam

-- The values are in range of their Rust types.
abbrev pub Fits : KeyParam → Type 0
Fits (KeyParam.key_size v) = v < 4294967296
Fits (KeyParam.min_mac_length v) = v < 4294967296
Fits (KeyParam.rsa_public_exponent v) = v < 18446744073709551616
Fits (KeyParam.active_datetime v) = v < 18446744073709551616
Fits (KeyParam.origination_expire_datetime v) = v < 18446744073709551616
Fits (KeyParam.usage_expire_datetime v) = v < 18446744073709551616
Fits (KeyParam.max_uses_per_boot v) = v < 4294967296
Fits (KeyParam.usage_count_limit v) = v < 4294967296
Fits (KeyParam.user_id v) = v < 4294967296
Fits (KeyParam.user_secure_id v) = v < 18446744073709551616
Fits (KeyParam.user_auth_type v) = v < 4294967296
Fits (KeyParam.auth_timeout v) = v < 4294967296
Fits (KeyParam.application_id v) = length v < 4294967296
Fits (KeyParam.application_data v) = length v < 4294967296
Fits (KeyParam.creation_datetime v) = v < 18446744073709551616
Fits (KeyParam.root_of_trust v) = length v < 4294967296
Fits (KeyParam.os_version v) = v < 4294967296
Fits (KeyParam.os_patchlevel v) = v < 4294967296
Fits (KeyParam.attestation_challenge v) = length v < 4294967296
Fits (KeyParam.attestation_application_id v) = length v < 4294967296
Fits (KeyParam.attestation_id_brand v) = length v < 4294967296
Fits (KeyParam.attestation_id_device v) = length v < 4294967296
Fits (KeyParam.attestation_id_product v) = length v < 4294967296
Fits (KeyParam.attestation_id_serial v) = length v < 4294967296
Fits (KeyParam.attestation_id_imei v) = length v < 4294967296
Fits (KeyParam.attestation_id_second_imei v) = length v < 4294967296
Fits (KeyParam.attestation_id_meid v) = length v < 4294967296
Fits (KeyParam.attestation_id_manufacturer v) = length v < 4294967296
Fits (KeyParam.attestation_id_model v) = length v < 4294967296
Fits (KeyParam.vendor_patchlevel v) = v < 4294967296
Fits (KeyParam.boot_patchlevel v) = v < 4294967296
Fits (KeyParam.nonce v) = length v < 4294967296
Fits (KeyParam.mac_length v) = v < 4294967296
Fits (KeyParam.certificate_serial v) = length v < 4294967296
Fits (KeyParam.certificate_subject v) = length v < 4294967296
Fits (KeyParam.certificate_not_before v) = v < 18446744073709551616
Fits (KeyParam.certificate_not_after v) = v < 18446744073709551616
Fits (KeyParam.max_boot_level v) = v < 4294967296
Fits (KeyParam.module_hash v) = length v < 4294967296
Fits _ = Unit {0}
