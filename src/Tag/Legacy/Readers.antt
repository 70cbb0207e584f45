-- ===== src/Tag/Legacy/Readers.antt =====
-- Each reader of `deserialize` (common/src/tag/legacy.rs) reads back what the format stores for its
-- parameter, and leaves the rest of the input.
use platform_system_keymint.Common.{
  ℕ, ◌+◌, ◌<◌, ◌≡◌, refl, Option, some, List, [], ◌∷◌, ◌++◌, append_assoc, length, ok,
}
use platform_system_keymint.Common.Bytes.{Endian, to_ne_bytes}
use platform_system_keymint.Wire.Tags.{tag_as_u32, tag_try_from-as_u32, tag_as_u32_lt}
use platform_system_keymint.Wire.KeyParams.{KeyParam, tag, Fits}
use platform_system_keymint.Wire.Params.{
  algorithm_as_u32, algorithm_try_from, algorithm_try_from-as_u32, algorithm_as_u32_lt,
  block_mode_as_u32, block_mode_try_from, block_mode_try_from-as_u32, block_mode_as_u32_lt,
  digest_as_u32, digest_try_from, digest_try_from-as_u32, digest_as_u32_lt, ec_curve_as_u32,
  ec_curve_try_from, ec_curve_try_from-as_u32, ec_curve_as_u32_lt,
}
use platform_system_keymint.Wire.Modes.{
  key_origin_as_u32, key_origin_try_from, key_origin_try_from-as_u32, key_origin_as_u32_lt,
  key_purpose_as_u32, key_purpose_try_from, key_purpose_try_from-as_u32, key_purpose_as_u32_lt,
  padding_mode_as_u32, padding_mode_try_from, padding_mode_try_from-as_u32, padding_mode_as_u32_lt,
}
use platform_system_keymint.Tag.Legacy.Consume.{
  consume_bool, consume_u32, consume_i32, consume_u64, consume_i64, consume_u32-append,
  consume_u64-append, consume_blob-append,
}
use platform_system_keymint.Tag.Legacy.Deserialize.{
  read_enum, read_u32, read_u64, read_date, read_true, read_blob, consume_value, consume_param,
}
use platform_system_keymint.Tag.Legacy.Layout.{payload, blob_bytes, payload_bytes, next_offset}
use platform_system_keymint.Tag.Legacy.Format.{entry}

module _ (e : Endian) (rest : List ℕ) (o : ℕ) (blob_data : List ℕ) where
  read_enum-word :
      {A : Type 0} (variant : A → KeyParam) (try_from : ℕ → Option A) (as_u32 : A → ℕ) (x : A)
      → try_from (as_u32 x) ≡ some x
      → as_u32 x < 4294967296
      → read_enum variant try_from e (to_ne_bytes e 4 (as_u32 x) ++ rest) o blob_data
        ≡ ok (variant x, rest, o)
  unfolding read_enum consume_i32 consume_u32
  read_enum-word variant try_from as_u32 x back fits =
      rw (consume_u32-append e (as_u32 x) rest fits) (rw back)

  read_u32-word :
      (variant : ℕ → KeyParam) (v : ℕ)
      → v < 4294967296
      → read_u32 variant e (to_ne_bytes e 4 v ++ rest) o blob_data ≡ ok (variant v, rest, o)
  unfolding read_u32
  read_u32-word variant v fits = rw (consume_u32-append e v rest fits)

  read_u64-word :
      (variant : ℕ → KeyParam) (v : ℕ)
      → v < 18446744073709551616
      → read_u64 variant e (to_ne_bytes e 8 v ++ rest) o blob_data ≡ ok (variant v, rest, o)
  unfolding read_u64
  read_u64-word variant v fits = rw (consume_u64-append e v rest fits)

  read_date-word :
      (variant : ℕ → KeyParam) (v : ℕ)
      → v < 18446744073709551616
      → read_date variant e (to_ne_bytes e 8 v ++ rest) o blob_data ≡ ok (variant v, rest, o)
  unfolding read_date consume_i64 consume_u64
  read_date-word variant v fits = rw (consume_u64-append e v rest fits)

  read_true-one :
      (variant : KeyParam) → read_true variant e (0x01 ∷ rest) o blob_data ≡ ok (variant, rest, o)
  unfolding read_true consume_bool
  read_true-one variant = refl

read_blob-bytes :
    (e : Endian) (rest pre post : List ℕ) (variant : List ℕ → KeyParam) (v : List ℕ)
    → length pre + length v < 4294967296
    → read_blob variant e
        ((to_ne_bytes e 4 (length v) ++ to_ne_bytes e 4 (length pre)) ++ rest)
        (length pre)
        (pre ++ (v ++ post))
      ≡ ok (variant v, rest, length pre + length v)
unfolding read_blob
read_blob-bytes e rest pre post variant v h =
    rw append_assoc (rw (consume_blob-append e v rest pre post h))

consume_value-payload :
    (e : Endian) (rest pre post : List ℕ) (p : KeyParam)
    → Fits p
    → next_offset (payload p) (length pre) < 4294967296
    → consume_value
        (tag p)
        e
        (payload_bytes e (payload p) (length pre) ++ rest)
        (length pre)
        (pre ++ (blob_bytes (payload p) ++ post))
      ≡ ok (p, rest, next_offset (payload p) (length pre))
unfolding consume_value tag payload
consume_value-payload e rest pre post (KeyParam.purpose v) fits h =
    read_enum-word e rest (length pre) (pre ++ ([] ++ post)) KeyParam.purpose key_purpose_try_from
      key_purpose_as_u32 v (key_purpose_try_from-as_u32 v) (key_purpose_as_u32_lt v)
consume_value-payload e rest pre post (KeyParam.algorithm v) fits h =
    read_enum-word e rest (length pre) (pre ++ ([] ++ post)) KeyParam.algorithm algorithm_try_from
      algorithm_as_u32 v (algorithm_try_from-as_u32 v) (algorithm_as_u32_lt v)
consume_value-payload e rest pre post (KeyParam.block_mode v) fits h =
    read_enum-word e rest (length pre) (pre ++ ([] ++ post)) KeyParam.block_mode block_mode_try_from
      block_mode_as_u32 v (block_mode_try_from-as_u32 v) (block_mode_as_u32_lt v)
consume_value-payload e rest pre post (KeyParam.digest v) fits h =
    read_enum-word e rest (length pre) (pre ++ ([] ++ post)) KeyParam.digest digest_try_from
      digest_as_u32 v (digest_try_from-as_u32 v) (digest_as_u32_lt v)
consume_value-payload e rest pre post (KeyParam.padding v) fits h =
    read_enum-word e rest (length pre) (pre ++ ([] ++ post)) KeyParam.padding padding_mode_try_from
      padding_mode_as_u32 v (padding_mode_try_from-as_u32 v) (padding_mode_as_u32_lt v)
consume_value-payload e rest pre post (KeyParam.ec_curve v) fits h =
    read_enum-word e rest (length pre) (pre ++ ([] ++ post)) KeyParam.ec_curve ec_curve_try_from
      ec_curve_as_u32 v (ec_curve_try_from-as_u32 v) (ec_curve_as_u32_lt v)
consume_value-payload e rest pre post (KeyParam.rsa_oaep_mgf_digest v) fits h =
    read_enum-word e rest (length pre) (pre ++ ([] ++ post)) KeyParam.rsa_oaep_mgf_digest
      digest_try_from digest_as_u32 v (digest_try_from-as_u32 v) (digest_as_u32_lt v)
consume_value-payload e rest pre post (KeyParam.origin v) fits h =
    read_enum-word e rest (length pre) (pre ++ ([] ++ post)) KeyParam.origin key_origin_try_from
      key_origin_as_u32 v (key_origin_try_from-as_u32 v) (key_origin_as_u32_lt v)
consume_value-payload e rest pre post (KeyParam.key_size v) fits h =
    read_u32-word e rest (length pre) (pre ++ ([] ++ post)) KeyParam.key_size v fits
consume_value-payload e rest pre post (KeyParam.min_mac_length v) fits h =
    read_u32-word e rest (length pre) (pre ++ ([] ++ post)) KeyParam.min_mac_length v fits
consume_value-payload e rest pre post (KeyParam.max_uses_per_boot v) fits h =
    read_u32-word e rest (length pre) (pre ++ ([] ++ post)) KeyParam.max_uses_per_boot v fits
consume_value-payload e rest pre post (KeyParam.usage_count_limit v) fits h =
    read_u32-word e rest (length pre) (pre ++ ([] ++ post)) KeyParam.usage_count_limit v fits
consume_value-payload e rest pre post (KeyParam.user_id v) fits h =
    read_u32-word e rest (length pre) (pre ++ ([] ++ post)) KeyParam.user_id v fits
consume_value-payload e rest pre post (KeyParam.user_auth_type v) fits h =
    read_u32-word e rest (length pre) (pre ++ ([] ++ post)) KeyParam.user_auth_type v fits
consume_value-payload e rest pre post (KeyParam.auth_timeout v) fits h =
    read_u32-word e rest (length pre) (pre ++ ([] ++ post)) KeyParam.auth_timeout v fits
consume_value-payload e rest pre post (KeyParam.os_version v) fits h =
    read_u32-word e rest (length pre) (pre ++ ([] ++ post)) KeyParam.os_version v fits
consume_value-payload e rest pre post (KeyParam.os_patchlevel v) fits h =
    read_u32-word e rest (length pre) (pre ++ ([] ++ post)) KeyParam.os_patchlevel v fits
consume_value-payload e rest pre post (KeyParam.vendor_patchlevel v) fits h =
    read_u32-word e rest (length pre) (pre ++ ([] ++ post)) KeyParam.vendor_patchlevel v fits
consume_value-payload e rest pre post (KeyParam.boot_patchlevel v) fits h =
    read_u32-word e rest (length pre) (pre ++ ([] ++ post)) KeyParam.boot_patchlevel v fits
consume_value-payload e rest pre post (KeyParam.mac_length v) fits h =
    read_u32-word e rest (length pre) (pre ++ ([] ++ post)) KeyParam.mac_length v fits
consume_value-payload e rest pre post (KeyParam.max_boot_level v) fits h =
    read_u32-word e rest (length pre) (pre ++ ([] ++ post)) KeyParam.max_boot_level v fits
consume_value-payload e rest pre post (KeyParam.rsa_public_exponent v) fits h =
    read_u64-word e rest (length pre) (pre ++ ([] ++ post)) KeyParam.rsa_public_exponent v fits
consume_value-payload e rest pre post (KeyParam.user_secure_id v) fits h =
    read_u64-word e rest (length pre) (pre ++ ([] ++ post)) KeyParam.user_secure_id v fits
consume_value-payload e rest pre post KeyParam.caller_nonce fits h =
    read_true-one e rest (length pre) (pre ++ ([] ++ post)) KeyParam.caller_nonce
consume_value-payload e rest pre post KeyParam.include_unique_id fits h =
    read_true-one e rest (length pre) (pre ++ ([] ++ post)) KeyParam.include_unique_id
consume_value-payload e rest pre post KeyParam.bootloader_only fits h =
    read_true-one e rest (length pre) (pre ++ ([] ++ post)) KeyParam.bootloader_only
consume_value-payload e rest pre post KeyParam.rollback_resistance fits h =
    read_true-one e rest (length pre) (pre ++ ([] ++ post)) KeyParam.rollback_resistance
consume_value-payload e rest pre post KeyParam.early_boot_only fits h =
    read_true-one e rest (length pre) (pre ++ ([] ++ post)) KeyParam.early_boot_only
consume_value-payload e rest pre post KeyParam.no_auth_required fits h =
    read_true-one e rest (length pre) (pre ++ ([] ++ post)) KeyParam.no_auth_required
consume_value-payload e rest pre post KeyParam.allow_while_on_body fits h =
    read_true-one e rest (length pre) (pre ++ ([] ++ post)) KeyParam.allow_while_on_body
consume_value-payload e rest pre post KeyParam.trusted_user_presence_required fits h =
    read_true-one e rest (length pre) (pre ++ ([] ++ post)) KeyParam.trusted_user_presence_required
consume_value-payload e rest pre post KeyParam.trusted_confirmation_required fits h =
    read_true-one e rest (length pre) (pre ++ ([] ++ post)) KeyParam.trusted_confirmation_required
consume_value-payload e rest pre post KeyParam.unlocked_device_required fits h =
    read_true-one e rest (length pre) (pre ++ ([] ++ post)) KeyParam.unlocked_device_required
consume_value-payload e rest pre post KeyParam.device_unique_attestation fits h =
    read_true-one e rest (length pre) (pre ++ ([] ++ post)) KeyParam.device_unique_attestation
consume_value-payload e rest pre post KeyParam.storage_key fits h =
    read_true-one e rest (length pre) (pre ++ ([] ++ post)) KeyParam.storage_key
consume_value-payload e rest pre post KeyParam.reset_since_id_rotation fits h =
    read_true-one e rest (length pre) (pre ++ ([] ++ post)) KeyParam.reset_since_id_rotation
consume_value-payload e rest pre post (KeyParam.active_datetime v) fits h =
    read_date-word e rest (length pre) (pre ++ ([] ++ post)) KeyParam.active_datetime v fits
consume_value-payload e rest pre post (KeyParam.origination_expire_datetime v) fits h =
    read_date-word e rest (length pre) (pre ++ ([] ++ post)) KeyParam.origination_expire_datetime v
      fits
consume_value-payload e rest pre post (KeyParam.usage_expire_datetime v) fits h =
    read_date-word e rest (length pre) (pre ++ ([] ++ post)) KeyParam.usage_expire_datetime v fits
consume_value-payload e rest pre post (KeyParam.creation_datetime v) fits h =
    read_date-word e rest (length pre) (pre ++ ([] ++ post)) KeyParam.creation_datetime v fits
consume_value-payload e rest pre post (KeyParam.certificate_not_before v) fits h =
    read_date-word e rest (length pre) (pre ++ ([] ++ post)) KeyParam.certificate_not_before v fits
consume_value-payload e rest pre post (KeyParam.certificate_not_after v) fits h =
    read_date-word e rest (length pre) (pre ++ ([] ++ post)) KeyParam.certificate_not_after v fits
consume_value-payload e rest pre post (KeyParam.application_id v) fits h =
    read_blob-bytes e rest pre post KeyParam.application_id v h
consume_value-payload e rest pre post (KeyParam.application_data v) fits h =
    read_blob-bytes e rest pre post KeyParam.application_data v h
consume_value-payload e rest pre post (KeyParam.root_of_trust v) fits h =
    read_blob-bytes e rest pre post KeyParam.root_of_trust v h
consume_value-payload e rest pre post (KeyParam.attestation_challenge v) fits h =
    read_blob-bytes e rest pre post KeyParam.attestation_challenge v h
consume_value-payload e rest pre post (KeyParam.attestation_application_id v) fits h =
    read_blob-bytes e rest pre post KeyParam.attestation_application_id v h
consume_value-payload e rest pre post (KeyParam.attestation_id_brand v) fits h =
    read_blob-bytes e rest pre post KeyParam.attestation_id_brand v h
consume_value-payload e rest pre post (KeyParam.attestation_id_device v) fits h =
    read_blob-bytes e rest pre post KeyParam.attestation_id_device v h
consume_value-payload e rest pre post (KeyParam.attestation_id_product v) fits h =
    read_blob-bytes e rest pre post KeyParam.attestation_id_product v h
consume_value-payload e rest pre post (KeyParam.attestation_id_serial v) fits h =
    read_blob-bytes e rest pre post KeyParam.attestation_id_serial v h
consume_value-payload e rest pre post (KeyParam.attestation_id_imei v) fits h =
    read_blob-bytes e rest pre post KeyParam.attestation_id_imei v h
consume_value-payload e rest pre post (KeyParam.attestation_id_second_imei v) fits h =
    read_blob-bytes e rest pre post KeyParam.attestation_id_second_imei v h
consume_value-payload e rest pre post (KeyParam.attestation_id_meid v) fits h =
    read_blob-bytes e rest pre post KeyParam.attestation_id_meid v h
consume_value-payload e rest pre post (KeyParam.attestation_id_manufacturer v) fits h =
    read_blob-bytes e rest pre post KeyParam.attestation_id_manufacturer v h
consume_value-payload e rest pre post (KeyParam.attestation_id_model v) fits h =
    read_blob-bytes e rest pre post KeyParam.attestation_id_model v h
consume_value-payload e rest pre post (KeyParam.nonce v) fits h =
    read_blob-bytes e rest pre post KeyParam.nonce v h
consume_value-payload e rest pre post (KeyParam.certificate_serial v) fits h =
    read_blob-bytes e rest pre post KeyParam.certificate_serial v h
consume_value-payload e rest pre post (KeyParam.certificate_subject v) fits h =
    read_blob-bytes e rest pre post KeyParam.certificate_subject v h
consume_value-payload e rest pre post (KeyParam.module_hash v) fits h =
    read_blob-bytes e rest pre post KeyParam.module_hash v h

-- One round of the loop reads one entry.
pub consume_param-entry :
    (e : Endian) (rest pre post : List ℕ) (p : KeyParam)
    → Fits p
    → next_offset (payload p) (length pre) < 4294967296
    → consume_param e
        (entry e p (length pre) ++ rest)
        (length pre)
        (pre ++ (blob_bytes (payload p) ++ post))
      ≡ ok (p, rest, next_offset (payload p) (length pre))
unfolding consume_param
consume_param-entry e rest pre post p fits h = rw append_assoc (
    rw
      (consume_u32-append e (tag_as_u32 (tag p)) (payload_bytes e (payload p) (length pre) ++ rest)
        (tag_as_u32_lt (tag p)))
      (rw (tag_try_from-as_u32 (tag p)) (consume_value-payload e rest pre post p fits h)))
