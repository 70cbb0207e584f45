-- ===== src/Tag/Legacy/Layout.antt =====
-- The legacy format as the comment on `serialize` in common/src/tag/legacy.rs lays it out, and the
-- readers and writers of one parameter against it.
use native.Mathlib.Nat.{mod-eq_of_lt}
use platform_system_keymint.Common.{
  ℕ, ◌+◌, ◌<◌, ◌≡◌, refl, ap, List, [], ◌∷◌, ◌++◌, append_assoc, length, lt→ltb, ok, arith,
}
use platform_system_keymint.Common.Bytes.{Endian, to_ne_bytes}
use platform_system_keymint.Wire.KeyParams.{KeyParam}
use platform_system_keymint.Wire.Params.{
  algorithm_as_u32, block_mode_as_u32, digest_as_u32, ec_curve_as_u32,
}
use platform_system_keymint.Wire.Modes.{key_origin_as_u32, key_purpose_as_u32, padding_mode_as_u32}
use platform_system_keymint.Tag.Legacy.Serialize.{append_blob, append_value}

-- How a value is laid out after its tag: a 32-bit or 64-bit integer, one byte 1, or the size and
-- the offset of bytes that stand in the blob data.
pub data Payload : Type 0 where
  word4 word8 : ℕ → Payload
  one : Payload
  bytes : List ℕ → Payload

unfoldable pub payload : KeyParam → Payload
payload (KeyParam.purpose v) = word4 (key_purpose_as_u32 v)
payload (KeyParam.algorithm v) = word4 (algorithm_as_u32 v)
payload (KeyParam.block_mode v) = word4 (block_mode_as_u32 v)
payload (KeyParam.digest v) = word4 (digest_as_u32 v)
payload (KeyParam.padding v) = word4 (padding_mode_as_u32 v)
payload (KeyParam.ec_curve v) = word4 (ec_curve_as_u32 v)
payload (KeyParam.rsa_oaep_mgf_digest v) = word4 (digest_as_u32 v)
payload (KeyParam.origin v) = word4 (key_origin_as_u32 v)
payload (KeyParam.key_size v) = word4 v
payload (KeyParam.min_mac_length v) = word4 v
payload (KeyParam.max_uses_per_boot v) = word4 v
payload (KeyParam.usage_count_limit v) = word4 v
payload (KeyParam.user_id v) = word4 v
payload (KeyParam.user_auth_type v) = word4 v
payload (KeyParam.auth_timeout v) = word4 v
payload (KeyParam.os_version v) = word4 v
payload (KeyParam.os_patchlevel v) = word4 v
payload (KeyParam.vendor_patchlevel v) = word4 v
payload (KeyParam.boot_patchlevel v) = word4 v
payload (KeyParam.mac_length v) = word4 v
payload (KeyParam.max_boot_level v) = word4 v
payload (KeyParam.rsa_public_exponent v) = word8 v
payload (KeyParam.user_secure_id v) = word8 v
payload KeyParam.caller_nonce = one
payload KeyParam.include_unique_id = one
payload KeyParam.bootloader_only = one
payload KeyParam.rollback_resistance = one
payload KeyParam.early_boot_only = one
payload KeyParam.no_auth_required = one
payload KeyParam.allow_while_on_body = one
payload KeyParam.trusted_user_presence_required = one
payload KeyParam.trusted_confirmation_required = one
payload KeyParam.unlocked_device_required = one
payload KeyParam.device_unique_attestation = one
payload KeyParam.storage_key = one
payload KeyParam.reset_since_id_rotation = one
payload (KeyParam.active_datetime v) = word8 v
payload (KeyParam.origination_expire_datetime v) = word8 v
payload (KeyParam.usage_expire_datetime v) = word8 v
payload (KeyParam.creation_datetime v) = word8 v
payload (KeyParam.certificate_not_before v) = word8 v
payload (KeyParam.certificate_not_after v) = word8 v
payload (KeyParam.application_id v) = bytes v
payload (KeyParam.application_data v) = bytes v
payload (KeyParam.root_of_trust v) = bytes v
payload (KeyParam.attestation_challenge v) = bytes v
payload (KeyParam.attestation_application_id v) = bytes v
payload (KeyParam.attestation_id_brand v) = bytes v
payload (KeyParam.attestation_id_device v) = bytes v
payload (KeyParam.attestation_id_product v) = bytes v
payload (KeyParam.attestation_id_serial v) = bytes v
payload (KeyParam.attestation_id_imei v) = bytes v
payload (KeyParam.attestation_id_second_imei v) = bytes v
payload (KeyParam.attestation_id_meid v) = bytes v
payload (KeyParam.attestation_id_manufacturer v) = bytes v
payload (KeyParam.attestation_id_model v) = bytes v
payload (KeyParam.nonce v) = bytes v
payload (KeyParam.certificate_serial v) = bytes v
payload (KeyParam.certificate_subject v) = bytes v
payload (KeyParam.module_hash v) = bytes v

-- The contents of the blob data that the payload takes.
abbrev pub blob_bytes : Payload → List ℕ
blob_bytes (bytes v) = v
blob_bytes _ = []

abbrev pub payload_bytes : Endian → Payload → ℕ → List ℕ
payload_bytes e (word4 v) offset = to_ne_bytes e 4 v
payload_bytes e (word8 v) offset = to_ne_bytes e 8 v
payload_bytes e one offset = 0x01 ∷ []
payload_bytes e (bytes v) offset = to_ne_bytes e 4 (length v) ++ to_ne_bytes e 4 offset

-- The offset of the next blob.
abbrev pub next_offset : Payload → ℕ → ℕ
next_offset (bytes v) offset = offset + length v
next_offset _ offset = offset

append_blob_lem :
    (e : Endian) (v r : List ℕ) (o : ℕ)
    → o + length v < 4294967296
    → append_blob e v r o
      ≡ ok (r ++ (to_ne_bytes e 4 (length v) ++ to_ne_bytes e 4 o), o + length v)
unfolding append_blob
append_blob_lem e v r o h = rw (mod-eq_of_lt {n = length v} {m = 4294967296} (omega arith)) (
    rw (lt→ltb _ _ h) (
      ap (λ t. ok (t, o + length v))
        (append_assoc r (to_ne_bytes e 4 (length v)) (to_ne_bytes e 4 o))))

-- Each arm of the second loop of `serialize` appends the payload.
pub append_value-payload :
    (e : Endian) (p : KeyParam) (r : List ℕ) (o : ℕ)
    → next_offset (payload p) o < 4294967296
    → append_value e p r o ≡ ok (r ++ payload_bytes e (payload p) o, next_offset (payload p) o)
unfolding append_value payload
append_value-payload e (KeyParam.application_id v) r o h = append_blob_lem e v r o h
append_value-payload e (KeyParam.application_data v) r o h = append_blob_lem e v r o h
append_value-payload e (KeyParam.root_of_trust v) r o h = append_blob_lem e v r o h
append_value-payload e (KeyParam.attestation_challenge v) r o h = append_blob_lem e v r o h
append_value-payload e (KeyParam.attestation_application_id v) r o h = append_blob_lem e v r o h
append_value-payload e (KeyParam.attestation_id_brand v) r o h = append_blob_lem e v r o h
append_value-payload e (KeyParam.attestation_id_device v) r o h = append_blob_lem e v r o h
append_value-payload e (KeyParam.attestation_id_product v) r o h = append_blob_lem e v r o h
append_value-payload e (KeyParam.attestation_id_serial v) r o h = append_blob_lem e v r o h
append_value-payload e (KeyParam.attestation_id_imei v) r o h = append_blob_lem e v r o h
append_value-payload e (KeyParam.attestation_id_second_imei v) r o h = append_blob_lem e v r o h
append_value-payload e (KeyParam.attestation_id_meid v) r o h = append_blob_lem e v r o h
append_value-payload e (KeyParam.attestation_id_manufacturer v) r o h = append_blob_lem e v r o h
append_value-payload e (KeyParam.attestation_id_model v) r o h = append_blob_lem e v r o h
append_value-payload e (KeyParam.nonce v) r o h = append_blob_lem e v r o h
append_value-payload e (KeyParam.certificate_serial v) r o h = append_blob_lem e v r o h
append_value-payload e (KeyParam.certificate_subject v) r o h = append_blob_lem e v r o h
append_value-payload e (KeyParam.module_hash v) r o h = append_blob_lem e v r o h
append_value-payload e _ r o h = refl
