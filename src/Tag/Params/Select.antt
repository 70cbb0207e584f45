-- ===== src/Tag/Params/Select.antt =====
-- The patterns that the macros of common/src/tag.rs match: the value of one variant of a parameter.
use platform_system_keymint.Common.{ℕ, Option, none, some, List}
use platform_system_keymint.Wire.Params.{Algorithm, BlockMode, Digest, EcCurve}
use platform_system_keymint.Wire.Modes.{KeyPurpose, PaddingMode}
use platform_system_keymint.Wire.KeyParams.{KeyParam}

unfoldable pub as_purpose : KeyParam → Option KeyPurpose
as_purpose (KeyParam.purpose v) = some v
as_purpose _ = none

unfoldable pub as_algorithm : KeyParam → Option Algorithm
as_algorithm (KeyParam.algorithm v) = some v
as_algorithm _ = none

unfoldable pub as_key_size : KeyParam → Option ℕ
as_key_size (KeyParam.key_size v) = some v
as_key_size _ = none

unfoldable pub as_block_mode : KeyParam → Option BlockMode
as_block_mode (KeyParam.block_mode v) = some v
as_block_mode _ = none

unfoldable pub as_digest : KeyParam → Option Digest
as_digest (KeyParam.digest v) = some v
as_digest _ = none

unfoldable pub as_padding : KeyParam → Option PaddingMode
as_padding (KeyParam.padding v) = some v
as_padding _ = none

unfoldable pub as_caller_nonce : KeyParam → Option (Unit {0})
as_caller_nonce KeyParam.caller_nonce = some tt
as_caller_nonce _ = none

unfoldable pub as_min_mac_length : KeyParam → Option ℕ
as_min_mac_length (KeyParam.min_mac_length v) = some v
as_min_mac_length _ = none

unfoldable pub as_ec_curve : KeyParam → Option EcCurve
as_ec_curve (KeyParam.ec_curve v) = some v
as_ec_curve _ = none

unfoldable pub as_rsa_public_exponent : KeyParam → Option ℕ
as_rsa_public_exponent (KeyParam.rsa_public_exponent v) = some v
as_rsa_public_exponent _ = none

unfoldable pub as_rsa_oaep_mgf_digest : KeyParam → Option Digest
as_rsa_oaep_mgf_digest (KeyParam.rsa_oaep_mgf_digest v) = some v
as_rsa_oaep_mgf_digest _ = none

unfoldable pub as_storage_key : KeyParam → Option (Unit {0})
as_storage_key KeyParam.storage_key = some tt
as_storage_key _ = none

unfoldable pub as_nonce : KeyParam → Option (List ℕ)
as_nonce (KeyParam.nonce v) = some v
as_nonce _ = none

unfoldable pub as_mac_length : KeyParam → Option ℕ
as_mac_length (KeyParam.mac_length v) = some v
as_mac_length _ = none

unfoldable pub as_certificate_serial : KeyParam → Option (List ℕ)
as_certificate_serial (KeyParam.certificate_serial v) = some v
as_certificate_serial _ = none

unfoldable pub as_certificate_subject : KeyParam → Option (List ℕ)
as_certificate_subject (KeyParam.certificate_subject v) = some v
as_certificate_subject _ = none

unfoldable pub as_application_id : KeyParam → Option (List ℕ)
as_application_id (KeyParam.application_id v) = some v
as_application_id _ = none

unfoldable pub as_application_data : KeyParam → Option (List ℕ)
as_application_data (KeyParam.application_data v) = some v
as_application_data _ = none
