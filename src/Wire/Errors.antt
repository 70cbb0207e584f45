-- ===== src/Wire/Errors.antt =====
-- Enumerations of the HAL interface (wire/src/keymint.rs). A value of `#[repr(i32)]` is its 32-bit
-- pattern, so that -1 is 2 ^ 32 - 1. `try_from` is `try_from_n!`, of wire/src/lib.rs.
use mathlib.Core.Option.{Option}
use platform_system_keymint.Common.{ℕ, ◌<◌, ◌≡◌, refl, arith, ◌==◌, if◌then◌else◌}

pub data ErrorCode : Type 0 where
  ok root_of_trust_already_set unsupported_purpose incompatible_purpose unsupported_algorithm
        incompatible_algorithm unsupported_key_size unsupported_block_mode :
      ErrorCode
  incompatible_block_mode unsupported_mac_length unsupported_padding_mode incompatible_padding_mode
        unsupported_digest incompatible_digest invalid_expiration_time invalid_user_id :
      ErrorCode
  invalid_authorization_timeout unsupported_key_format incompatible_key_format
        unsupported_key_encryption_algorithm unsupported_key_verification_algorithm
        invalid_input_length key_export_options_invalid delegation_not_allowed :
      ErrorCode
  key_not_yet_valid key_expired key_user_not_authenticated output_parameter_null
        invalid_operation_handle insufficient_buffer_space verification_failed too_many_operations :
      ErrorCode
  unexpected_null_pointer invalid_key_blob imported_key_not_encrypted imported_key_decryption_failed
        imported_key_not_signed imported_key_verification_failed invalid_argument unsupported_tag :
      ErrorCode
  invalid_tag memory_allocation_failed import_parameter_mismatch secure_hw_access_denied
        operation_cancelled concurrent_access_conflict secure_hw_busy
        secure_hw_communication_failed :
      ErrorCode
  unsupported_ec_field missing_nonce invalid_nonce missing_mac_length key_rate_limit_exceeded
        caller_nonce_prohibited key_max_ops_exceeded invalid_mac_length :
      ErrorCode
  missing_min_mac_length unsupported_min_mac_length unsupported_kdf unsupported_ec_curve
        key_requires_upgrade attestation_challenge_missing keymint_not_configured
        attestation_application_id_missing :
      ErrorCode
  cannot_attest_ids rollback_resistance_unavailable hardware_type_unavailable
        proof_of_presence_required concurrent_proof_of_presence_requested no_user_confirmation
        device_locked early_boot_ended :
      ErrorCode
  attestation_keys_not_provisioned attestation_ids_not_provisioned invalid_operation
        storage_key_unsupported incompatible_mgf_digest unsupported_mgf_digest missing_not_before
        missing_not_after :
      ErrorCode
  missing_issuer_subject invalid_issuer_subject boot_level_exceeded hardware_not_yet_available
        module_hash_already_set unimplemented version_mismatch unknown_error :
      ErrorCode
  encoding_error boring_ssl_error : ErrorCode

-- The discriminant as its 32-bit pattern: `as u32`.
unfoldable pub error_code_as_u32 : ErrorCode → ℕ
error_code_as_u32 ErrorCode.ok = 0
error_code_as_u32 ErrorCode.root_of_trust_already_set = 4294967295
error_code_as_u32 ErrorCode.unsupported_purpose = 4294967294
error_code_as_u32 ErrorCode.incompatible_purpose = 4294967293
error_code_as_u32 ErrorCode.unsupported_algorithm = 4294967292
error_code_as_u32 ErrorCode.incompatible_algorithm = 4294967291
error_code_as_u32 ErrorCode.unsupported_key_size = 4294967290
error_code_as_u32 ErrorCode.unsupported_block_mode = 4294967289
error_code_as_u32 ErrorCode.incompatible_block_mode = 4294967288
error_code_as_u32 ErrorCode.unsupported_mac_length = 4294967287
error_code_as_u32 ErrorCode.unsupported_padding_mode = 4294967286
error_code_as_u32 ErrorCode.incompatible_padding_mode = 4294967285
error_code_as_u32 ErrorCode.unsupported_digest = 4294967284
error_code_as_u32 ErrorCode.incompatible_digest = 4294967283
error_code_as_u32 ErrorCode.invalid_expiration_time = 4294967282
error_code_as_u32 ErrorCode.invalid_user_id = 4294967281
error_code_as_u32 ErrorCode.invalid_authorization_timeout = 4294967280
error_code_as_u32 ErrorCode.unsupported_key_format = 4294967279
error_code_as_u32 ErrorCode.incompatible_key_format = 4294967278
error_code_as_u32 ErrorCode.unsupported_key_encryption_algorithm = 4294967277
error_code_as_u32 ErrorCode.unsupported_key_verification_algorithm = 4294967276
error_code_as_u32 ErrorCode.invalid_input_length = 4294967275
error_code_as_u32 ErrorCode.key_export_options_invalid = 4294967274
error_code_as_u32 ErrorCode.delegation_not_allowed = 4294967273
error_code_as_u32 ErrorCode.key_not_yet_valid = 4294967272
error_code_as_u32 ErrorCode.key_expired = 4294967271
error_code_as_u32 ErrorCode.key_user_not_authenticated = 4294967270
error_code_as_u32 ErrorCode.output_parameter_null = 4294967269
error_code_as_u32 ErrorCode.invalid_operation_handle = 4294967268
error_code_as_u32 ErrorCode.insufficient_buffer_space = 4294967267
error_code_as_u32 ErrorCode.verification_failed = 4294967266
error_code_as_u32 ErrorCode.too_many_operations = 4294967265
error_code_as_u32 ErrorCode.unexpected_null_pointer = 4294967264
error_code_as_u32 ErrorCode.invalid_key_blob = 4294967263
error_code_as_u32 ErrorCode.imported_key_not_encrypted = 4294967262
error_code_as_u32 ErrorCode.imported_key_decryption_failed = 4294967261
error_code_as_u32 ErrorCode.imported_key_not_signed = 4294967260
error_code_as_u32 ErrorCode.imported_key_verification_failed = 4294967259
error_code_as_u32 ErrorCode.invalid_argument = 4294967258
error_code_as_u32 ErrorCode.unsupported_tag = 4294967257
error_code_as_u32 ErrorCode.invalid_tag = 4294967256
error_code_as_u32 ErrorCode.memory_allocation_failed = 4294967255
error_code_as_u32 ErrorCode.import_parameter_mismatch = 4294967252
error_code_as_u32 ErrorCode.secure_hw_access_denied = 4294967251
error_code_as_u32 ErrorCode.operation_cancelled = 4294967250
error_code_as_u32 ErrorCode.concurrent_access_conflict = 4294967249
error_code_as_u32 ErrorCode.secure_hw_busy = 4294967248
error_code_as_u32 ErrorCode.secure_hw_communication_failed = 4294967247
error_code_as_u32 ErrorCode.unsupported_ec_field = 4294967246
error_code_as_u32 ErrorCode.missing_nonce = 4294967245
error_code_as_u32 ErrorCode.invalid_nonce = 4294967244
error_code_as_u32 ErrorCode.missing_mac_length = 4294967243
error_code_as_u32 ErrorCode.key_rate_limit_exceeded = 4294967242
error_code_as_u32 ErrorCode.caller_nonce_prohibited = 4294967241
error_code_as_u32 ErrorCode.key_max_ops_exceeded = 4294967240
error_code_as_u32 ErrorCode.invalid_mac_length = 4294967239
error_code_as_u32 ErrorCode.missing_min_mac_length = 4294967238
error_code_as_u32 ErrorCode.unsupported_min_mac_length = 4294967237
error_code_as_u32 ErrorCode.unsupported_kdf = 4294967236
error_code_as_u32 ErrorCode.unsupported_ec_curve = 4294967235
error_code_as_u32 ErrorCode.key_requires_upgrade = 4294967234
error_code_as_u32 ErrorCode.attestation_challenge_missing = 4294967233
error_code_as_u32 ErrorCode.keymint_not_configured = 4294967232
error_code_as_u32 ErrorCode.attestation_application_id_missing = 4294967231
error_code_as_u32 ErrorCode.cannot_attest_ids = 4294967230
error_code_as_u32 ErrorCode.rollback_resistance_unavailable = 4294967229
error_code_as_u32 ErrorCode.hardware_type_unavailable = 4294967228
error_code_as_u32 ErrorCode.proof_of_presence_required = 4294967227
error_code_as_u32 ErrorCode.concurrent_proof_of_presence_requested = 4294967226
error_code_as_u32 ErrorCode.no_user_confirmation = 4294967225
error_code_as_u32 ErrorCode.device_locked = 4294967224
error_code_as_u32 ErrorCode.early_boot_ended = 4294967223
error_code_as_u32 ErrorCode.attestation_keys_not_provisioned = 4294967222
error_code_as_u32 ErrorCode.attestation_ids_not_provisioned = 4294967221
error_code_as_u32 ErrorCode.invalid_operation = 4294967220
error_code_as_u32 ErrorCode.storage_key_unsupported = 4294967219
error_code_as_u32 ErrorCode.incompatible_mgf_digest = 4294967218
error_code_as_u32 ErrorCode.unsupported_mgf_digest = 4294967217
error_code_as_u32 ErrorCode.missing_not_before = 4294967216
error_code_as_u32 ErrorCode.missing_not_after = 4294967215
error_code_as_u32 ErrorCode.missing_issuer_subject = 4294967214
error_code_as_u32 ErrorCode.invalid_issuer_subject = 4294967213
error_code_as_u32 ErrorCode.boot_level_exceeded = 4294967212
error_code_as_u32 ErrorCode.hardware_not_yet_available = 4294967211
error_code_as_u32 ErrorCode.module_hash_already_set = 4294967210
error_code_as_u32 ErrorCode.unimplemented = 4294967196
error_code_as_u32 ErrorCode.version_mismatch = 4294967195
error_code_as_u32 ErrorCode.unknown_error = 4294966296
error_code_as_u32 ErrorCode.encoding_error = 4294947296
error_code_as_u32 ErrorCode.boring_ssl_error = 4294937296

unfoldable pub error_code_try_from : ℕ → Option ErrorCode
error_code_try_from v =
    if v == 0
    then Option.some ErrorCode.ok
    else if v == 4294967295
    then Option.some ErrorCode.root_of_trust_already_set
    else if v == 4294967294
    then Option.some ErrorCode.unsupported_purpose
    else if v == 4294967293
    then Option.some ErrorCode.incompatible_purpose
    else if v == 4294967292
    then Option.some ErrorCode.unsupported_algorithm
    else if v == 4294967291
    then Option.some ErrorCode.incompatible_algorithm
    else if v == 4294967290
    then Option.some ErrorCode.unsupported_key_size
    else if v == 4294967289
    then Option.some ErrorCode.unsupported_block_mode
    else if v == 4294967288
    then Option.some ErrorCode.incompatible_block_mode
    else if v == 4294967287
    then Option.some ErrorCode.unsupported_mac_length
    else if v == 4294967286
    then Option.some ErrorCode.unsupported_padding_mode
    else if v == 4294967285
    then Option.some ErrorCode.incompatible_padding_mode
    else if v == 4294967284
    then Option.some ErrorCode.unsupported_digest
    else if v == 4294967283
    then Option.some ErrorCode.incompatible_digest
    else if v == 4294967282
    then Option.some ErrorCode.invalid_expiration_time
    else if v == 4294967281
    then Option.some ErrorCode.invalid_user_id
    else if v == 4294967280
    then Option.some ErrorCode.invalid_authorization_timeout
    else if v == 4294967279
    then Option.some ErrorCode.unsupported_key_format
    else if v == 4294967278
    then Option.some ErrorCode.incompatible_key_format
    else if v == 4294967277
    then Option.some ErrorCode.unsupported_key_encryption_algorithm
    else if v == 4294967276
    then Option.some ErrorCode.unsupported_key_verification_algorithm
    else if v == 4294967275
    then Option.some ErrorCode.invalid_input_length
    else if v == 4294967274
    then Option.some ErrorCode.key_export_options_invalid
    else if v == 4294967273
    then Option.some ErrorCode.delegation_not_allowed
    else if v == 4294967272
    then Option.some ErrorCode.key_not_yet_valid
    else if v == 4294967271
    then Option.some ErrorCode.key_expired
    else if v == 4294967270
    then Option.some ErrorCode.key_user_not_authenticated
    else if v == 4294967269
    then Option.some ErrorCode.output_parameter_null
    else if v == 4294967268
    then Option.some ErrorCode.invalid_operation_handle
    else if v == 4294967267
    then Option.some ErrorCode.insufficient_buffer_space
    else if v == 4294967266
    then Option.some ErrorCode.verification_failed
    else if v == 4294967265
    then Option.some ErrorCode.too_many_operations
    else if v == 4294967264
    then Option.some ErrorCode.unexpected_null_pointer
    else if v == 4294967263
    then Option.some ErrorCode.invalid_key_blob
    else if v == 4294967262
    then Option.some ErrorCode.imported_key_not_encrypted
    else if v == 4294967261
    then Option.some ErrorCode.imported_key_decryption_failed
    else if v == 4294967260
    then Option.some ErrorCode.imported_key_not_signed
    else if v == 4294967259
    then Option.some ErrorCode.imported_key_verification_failed
    else if v == 4294967258
    then Option.some ErrorCode.invalid_argument
    else if v == 4294967257
    then Option.some ErrorCode.unsupported_tag
    else if v == 4294967256
    then Option.some ErrorCode.invalid_tag
    else if v == 4294967255
    then Option.some ErrorCode.memory_allocation_failed
    else if v == 4294967252
    then Option.some ErrorCode.import_parameter_mismatch
    else if v == 4294967251
    then Option.some ErrorCode.secure_hw_access_denied
    else if v == 4294967250
    then Option.some ErrorCode.operation_cancelled
    else if v == 4294967249
    then Option.some ErrorCode.concurrent_access_conflict
    else if v == 4294967248
    then Option.some ErrorCode.secure_hw_busy
    else if v == 4294967247
    then Option.some ErrorCode.secure_hw_communication_failed
    else if v == 4294967246
    then Option.some ErrorCode.unsupported_ec_field
    else if v == 4294967245
    then Option.some ErrorCode.missing_nonce
    else if v == 4294967244
    then Option.some ErrorCode.invalid_nonce
    else if v == 4294967243
    then Option.some ErrorCode.missing_mac_length
    else if v == 4294967242
    then Option.some ErrorCode.key_rate_limit_exceeded
    else if v == 4294967241
    then Option.some ErrorCode.caller_nonce_prohibited
    else if v == 4294967240
    then Option.some ErrorCode.key_max_ops_exceeded
    else if v == 4294967239
    then Option.some ErrorCode.invalid_mac_length
    else if v == 4294967238
    then Option.some ErrorCode.missing_min_mac_length
    else if v == 4294967237
    then Option.some ErrorCode.unsupported_min_mac_length
    else if v == 4294967236
    then Option.some ErrorCode.unsupported_kdf
    else if v == 4294967235
    then Option.some ErrorCode.unsupported_ec_curve
    else if v == 4294967234
    then Option.some ErrorCode.key_requires_upgrade
    else if v == 4294967233
    then Option.some ErrorCode.attestation_challenge_missing
    else if v == 4294967232
    then Option.some ErrorCode.keymint_not_configured
    else if v == 4294967231
    then Option.some ErrorCode.attestation_application_id_missing
    else if v == 4294967230
    then Option.some ErrorCode.cannot_attest_ids
    else if v == 4294967229
    then Option.some ErrorCode.rollback_resistance_unavailable
    else if v == 4294967228
    then Option.some ErrorCode.hardware_type_unavailable
    else if v == 4294967227
    then Option.some ErrorCode.proof_of_presence_required
    else if v == 4294967226
    then Option.some ErrorCode.concurrent_proof_of_presence_requested
    else if v == 4294967225
    then Option.some ErrorCode.no_user_confirmation
    else if v == 4294967224
    then Option.some ErrorCode.device_locked
    else if v == 4294967223
    then Option.some ErrorCode.early_boot_ended
    else if v == 4294967222
    then Option.some ErrorCode.attestation_keys_not_provisioned
    else if v == 4294967221
    then Option.some ErrorCode.attestation_ids_not_provisioned
    else if v == 4294967220
    then Option.some ErrorCode.invalid_operation
    else if v == 4294967219
    then Option.some ErrorCode.storage_key_unsupported
    else if v == 4294967218
    then Option.some ErrorCode.incompatible_mgf_digest
    else if v == 4294967217
    then Option.some ErrorCode.unsupported_mgf_digest
    else if v == 4294967216
    then Option.some ErrorCode.missing_not_before
    else if v == 4294967215
    then Option.some ErrorCode.missing_not_after
    else if v == 4294967214
    then Option.some ErrorCode.missing_issuer_subject
    else if v == 4294967213
    then Option.some ErrorCode.invalid_issuer_subject
    else if v == 4294967212
    then Option.some ErrorCode.boot_level_exceeded
    else if v == 4294967211
    then Option.some ErrorCode.hardware_not_yet_available
    else if v == 4294967210
    then Option.some ErrorCode.module_hash_already_set
    else if v == 4294967196
    then Option.some ErrorCode.unimplemented
    else if v == 4294967195
    then Option.some ErrorCode.version_mismatch
    else if v == 4294966296
    then Option.some ErrorCode.unknown_error
    else if v == 4294947296
    then Option.some ErrorCode.encoding_error
    else if v == 4294937296
    then Option.some ErrorCode.boring_ssl_error
    else Option.none

pub error_code_try_from-as_u32 :
    (x : ErrorCode) → error_code_try_from (error_code_as_u32 x) ≡ Option.some x
unfolding error_code_try_from error_code_as_u32
error_code_try_from-as_u32 ErrorCode.ok = refl
error_code_try_from-as_u32 _ = refl

pub error_code_as_u32_lt : (x : ErrorCode) → error_code_as_u32 x < 4294967296
unfolding error_code_as_u32
error_code_as_u32_lt ErrorCode.ok = omega arith
error_code_as_u32_lt _ = omega arith
