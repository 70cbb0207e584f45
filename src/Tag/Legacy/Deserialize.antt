-- ===== src/Tag/Legacy/Deserialize.antt =====
-- `deserialize` of common/src/tag/legacy.rs.
use platform_system_keymint.Common.{
  ℕ, zero, suc, Option, List, [], ◌∷◌, ◌++◌, length, take, drop, leb, ltb, ok, err, ok_or, fail_if,
  panic_unless, ◌>>=◌, ◌>>◌,
}
use platform_system_keymint.Common.Bytes.{Endian}
use platform_system_keymint.KmError.{Result}
use platform_system_keymint.Wire.Params.{
  algorithm_try_from, block_mode_try_from, digest_try_from, ec_curve_try_from,
}
use platform_system_keymint.Wire.Modes.{
  key_origin_try_from, key_purpose_try_from, padding_mode_try_from,
}
use platform_system_keymint.Wire.Tags.{Tag, tag_try_from}
use platform_system_keymint.Wire.KeyParams.{KeyParam}
use platform_system_keymint.Tag.Legacy.Consume.{
  bad_blob, consume_bool, consume_u32, consume_i32, consume_u64, consume_i64, consume_blob,
}

-- What one parameter consumes of: the unparsed data, and the next offset into the blob data.
abbrev pub Reader : Type 0
Reader = Endian → List ℕ → ℕ → List ℕ → Result (KeyParam × List ℕ × ℕ)

-- One shape for each group of arms, over the variant that the arm builds.
unfoldable pub read_enum : {A : Type 0} → (A → KeyParam) → (ℕ → Option A) → Reader
unfolding consume_i32
read_enum variant try_from e input next blob_data = do
  (v, rest) ← consume_i32 e input
  x ← ok_or bad_blob (try_from v)
  ok (variant x, rest, next)

unfoldable pub read_u32 : (ℕ → KeyParam) → Reader
unfolding consume_u32
read_u32 variant e input next blob_data = do
  (v, rest) ← consume_u32 e input
  ok (variant v, rest, next)

unfoldable pub read_u64 : (ℕ → KeyParam) → Reader
unfolding consume_u64
read_u64 variant e input next blob_data = do
  (v, rest) ← consume_u64 e input
  ok (variant v, rest, next)

unfoldable pub read_date : (ℕ → KeyParam) → Reader
unfolding consume_i64
read_date variant e input next blob_data = do
  (v, rest) ← consume_i64 e input
  ok (variant v, rest, next)

unfoldable pub read_true : KeyParam → Reader
unfolding consume_bool
read_true variant e input next blob_data = do rest ← consume_bool input; ok (variant, rest, next)

unfoldable pub read_blob : (List ℕ → KeyParam) → Reader
unfolding consume_blob
read_blob variant e input next blob_data = do
  (v, rest, next') ← consume_blob e input next blob_data
  ok (variant v, rest, next')

-- The arms of `match tag`.
unfoldable pub consume_value : Tag → Reader
unfolding read_enum read_u32 read_u64 read_date read_true read_blob
consume_value Tag.purpose = read_enum KeyParam.purpose key_purpose_try_from
consume_value Tag.algorithm = read_enum KeyParam.algorithm algorithm_try_from
consume_value Tag.block_mode = read_enum KeyParam.block_mode block_mode_try_from
consume_value Tag.digest = read_enum KeyParam.digest digest_try_from
consume_value Tag.padding = read_enum KeyParam.padding padding_mode_try_from
consume_value Tag.ec_curve = read_enum KeyParam.ec_curve ec_curve_try_from
consume_value Tag.rsa_oaep_mgf_digest = read_enum KeyParam.rsa_oaep_mgf_digest digest_try_from
consume_value Tag.origin = read_enum KeyParam.origin key_origin_try_from
consume_value Tag.key_size = read_u32 KeyParam.key_size
consume_value Tag.min_mac_length = read_u32 KeyParam.min_mac_length
consume_value Tag.max_uses_per_boot = read_u32 KeyParam.max_uses_per_boot
consume_value Tag.usage_count_limit = read_u32 KeyParam.usage_count_limit
consume_value Tag.user_id = read_u32 KeyParam.user_id
consume_value Tag.user_auth_type = read_u32 KeyParam.user_auth_type
consume_value Tag.auth_timeout = read_u32 KeyParam.auth_timeout
consume_value Tag.os_version = read_u32 KeyParam.os_version
consume_value Tag.os_patchlevel = read_u32 KeyParam.os_patchlevel
consume_value Tag.vendor_patchlevel = read_u32 KeyParam.vendor_patchlevel
consume_value Tag.boot_patchlevel = read_u32 KeyParam.boot_patchlevel
consume_value Tag.mac_length = read_u32 KeyParam.mac_length
consume_value Tag.max_boot_level = read_u32 KeyParam.max_boot_level
consume_value Tag.rsa_public_exponent = read_u64 KeyParam.rsa_public_exponent
consume_value Tag.user_secure_id = read_u64 KeyParam.user_secure_id
consume_value Tag.caller_nonce = read_true KeyParam.caller_nonce
consume_value Tag.include_unique_id = read_true KeyParam.include_unique_id
consume_value Tag.bootloader_only = read_true KeyParam.bootloader_only
consume_value Tag.rollback_resistance = read_true KeyParam.rollback_resistance
consume_value Tag.early_boot_only = read_true KeyParam.early_boot_only
consume_value Tag.no_auth_required = read_true KeyParam.no_auth_required
consume_value Tag.allow_while_on_body = read_true KeyParam.allow_while_on_body
consume_value Tag.trusted_user_presence_required = read_true KeyParam.trusted_user_presence_required
consume_value Tag.trusted_confirmation_required = read_true KeyParam.trusted_confirmation_required
consume_value Tag.unlocked_device_required = read_true KeyParam.unlocked_device_required
consume_value Tag.device_unique_attestation = read_true KeyParam.device_unique_attestation
consume_value Tag.storage_key = read_true KeyParam.storage_key
consume_value Tag.reset_since_id_rotation = read_true KeyParam.reset_since_id_rotation
consume_value Tag.active_datetime = read_date KeyParam.active_datetime
consume_value Tag.origination_expire_datetime = read_date KeyParam.origination_expire_datetime
consume_value Tag.usage_expire_datetime = read_date KeyParam.usage_expire_datetime
consume_value Tag.creation_datetime = read_date KeyParam.creation_datetime
consume_value Tag.certificate_not_before = read_date KeyParam.certificate_not_before
consume_value Tag.certificate_not_after = read_date KeyParam.certificate_not_after
consume_value Tag.application_id = read_blob KeyParam.application_id
consume_value Tag.application_data = read_blob KeyParam.application_data
consume_value Tag.root_of_trust = read_blob KeyParam.root_of_trust
consume_value Tag.attestation_challenge = read_blob KeyParam.attestation_challenge
consume_value Tag.attestation_application_id = read_blob KeyParam.attestation_application_id
consume_value Tag.attestation_id_brand = read_blob KeyParam.attestation_id_brand
consume_value Tag.attestation_id_device = read_blob KeyParam.attestation_id_device
consume_value Tag.attestation_id_product = read_blob KeyParam.attestation_id_product
consume_value Tag.attestation_id_serial = read_blob KeyParam.attestation_id_serial
consume_value Tag.attestation_id_imei = read_blob KeyParam.attestation_id_imei
consume_value Tag.attestation_id_second_imei = read_blob KeyParam.attestation_id_second_imei
consume_value Tag.attestation_id_meid = read_blob KeyParam.attestation_id_meid
consume_value Tag.attestation_id_manufacturer = read_blob KeyParam.attestation_id_manufacturer
consume_value Tag.attestation_id_model = read_blob KeyParam.attestation_id_model
consume_value Tag.nonce = read_blob KeyParam.nonce
consume_value Tag.certificate_serial = read_blob KeyParam.certificate_serial
consume_value Tag.certificate_subject = read_blob KeyParam.certificate_subject
consume_value Tag.module_hash = read_blob KeyParam.module_hash
consume_value Tag.invalid = λ e input next blob_data. err bad_blob
consume_value Tag.hardware_type = λ e input next blob_data. err bad_blob
consume_value Tag.min_seconds_between_ops = λ e input next blob_data. err bad_blob
consume_value Tag.unique_id = λ e input next blob_data. err bad_blob
consume_value Tag.identity_credential_key = λ e input next blob_data. err bad_blob
consume_value Tag.associated_data = λ e input next blob_data. err bad_blob
consume_value Tag.confirmation_token = λ e input next blob_data. err bad_blob

-- One round of the loop: the tag, then its value.
unfoldable pub consume_param : Reader
unfolding consume_u32 consume_value
consume_param e input next blob_data = do
  (tag_num, rest) ← consume_u32 e input
  tag ← ok_or bad_blob (tag_try_from tag_num)
  consume_value tag e rest next blob_data

-- `for _i in 0..param_count`
unfoldable pub consume_params :
    Endian → ℕ → List ℕ → ℕ → List ℕ → List KeyParam → Result (List KeyParam × List ℕ)
unfolding consume_param
consume_params e zero input next blob_data results = ok (results, input)
consume_params e (suc n) input next blob_data results =
    consume_param e input next blob_data
    >>= (λ r. consume_params e n r.1 r.2 blob_data (results ++ (r.0 ∷ [])))

-- The parameters, and what is left of the input. `&data[..blob_data_size]` panics if the input is
-- shorter than the size that it claims.
unfoldable pub deserialize : Endian → List ℕ → Result (List KeyParam × List ℕ)
unfolding consume_u32 consume_params
deserialize e input = do
  (blob_data_size, after_size) ← consume_u32 e input
  panic_unless (leb blob_data_size (length after_size))
  let blob_data = take blob_data_size after_size
  (param_count, after_count) ← consume_u32 e (drop blob_data_size after_size)
  (param_size, body) ← consume_u32 e after_count
  fail_if (ltb (length body) param_size) bad_blob
  consume_params e param_count body 0 blob_data []
