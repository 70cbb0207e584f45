-- ===== src/Tag/Legacy/Serialize.antt =====
-- `serialize` of common/src/tag/legacy.rs. The result buffer is passed along; the lengths that the
-- code writes back into it are written at the same offsets.
use platform_system_keymint.Common.{
  ℕ, ◌+◌, ◌-◌, ◌%◌, Option, none, some, List, [], ◌∷◌, ◌++◌, length, take, drop, replicate, ltb, ok,
  panic_unless, ◌>>=◌, ◌>>◌,
}
use platform_system_keymint.Common.Bytes.{Endian, to_ne_bytes}
use platform_system_keymint.KmError.{Result}
use platform_system_keymint.Wire.Tags.{tag_as_u32}
use platform_system_keymint.Wire.KeyParams.{KeyParam, tag}
use platform_system_keymint.Wire.Params.{
  algorithm_as_u32, block_mode_as_u32, digest_as_u32, ec_curve_as_u32,
}
use platform_system_keymint.Wire.Modes.{key_origin_as_u32, key_purpose_as_u32, padding_mode_as_u32}

-- `a + b` at `u32`, with overflow checks.
unfoldable pub add_u32 : ℕ → ℕ → Result ℕ
add_u32 a b = do panic_unless (ltb (a + b) 4294967296); ok (a + b)

-- The variants that hold a `Vec<u8>`.
unfoldable pub blob_of : KeyParam → Option (List ℕ)
blob_of (KeyParam.application_id v) = some v
blob_of (KeyParam.application_data v) = some v
blob_of (KeyParam.root_of_trust v) = some v
blob_of (KeyParam.attestation_challenge v) = some v
blob_of (KeyParam.attestation_application_id v) = some v
blob_of (KeyParam.attestation_id_brand v) = some v
blob_of (KeyParam.attestation_id_device v) = some v
blob_of (KeyParam.attestation_id_product v) = some v
blob_of (KeyParam.attestation_id_serial v) = some v
blob_of (KeyParam.attestation_id_imei v) = some v
blob_of (KeyParam.attestation_id_second_imei v) = some v
blob_of (KeyParam.attestation_id_meid v) = some v
blob_of (KeyParam.attestation_id_manufacturer v) = some v
blob_of (KeyParam.attestation_id_model v) = some v
blob_of (KeyParam.nonce v) = some v
blob_of (KeyParam.certificate_serial v) = some v
blob_of (KeyParam.certificate_subject v) = some v
blob_of (KeyParam.module_hash v) = some v
blob_of _ = none

-- The first loop: the contents of all the blobs, and their total size.
unfoldable pub append_blobs : List KeyParam → List ℕ → ℕ → Result (List ℕ × ℕ)
unfolding blob_of add_u32
append_blobs [] result blob_size = ok (result, blob_size)
append_blobs (p ∷ ps) result blob_size = elim (blob_of p) [
  | none ↦ append_blobs ps result blob_size
  | some v ↦
      add_u32 blob_size (length v % 4294967296) >>= (λ size. append_blobs ps (result ++ v) size)
]

unfoldable pub append_blob : Endian → List ℕ → List ℕ → ℕ → Result (List ℕ × ℕ)
unfolding add_u32
append_blob e v result blob_offset = do
  let blob_len = length v % 4294967296
  let result' = (result ++ to_ne_bytes e 4 blob_len) ++ to_ne_bytes e 4 blob_offset
  offset ← add_u32 blob_offset blob_len
  ok (result', offset)

-- The value of one parameter, appended after its tag.
unfoldable pub append_value : Endian → KeyParam → List ℕ → ℕ → Result (List ℕ × ℕ)
unfolding append_blob
append_value e (KeyParam.purpose v) r o = ok (r ++ to_ne_bytes e 4 (key_purpose_as_u32 v), o)
append_value e (KeyParam.algorithm v) r o = ok (r ++ to_ne_bytes e 4 (algorithm_as_u32 v), o)
append_value e (KeyParam.block_mode v) r o = ok (r ++ to_ne_bytes e 4 (block_mode_as_u32 v), o)
append_value e (KeyParam.digest v) r o = ok (r ++ to_ne_bytes e 4 (digest_as_u32 v), o)
append_value e (KeyParam.padding v) r o = ok (r ++ to_ne_bytes e 4 (padding_mode_as_u32 v), o)
append_value e (KeyParam.ec_curve v) r o = ok (r ++ to_ne_bytes e 4 (ec_curve_as_u32 v), o)
append_value e (KeyParam.rsa_oaep_mgf_digest v) r o = ok (r ++ to_ne_bytes e 4 (digest_as_u32 v), o)
append_value e (KeyParam.origin v) r o = ok (r ++ to_ne_bytes e 4 (key_origin_as_u32 v), o)
append_value e (KeyParam.key_size v) r o = ok (r ++ to_ne_bytes e 4 v, o)
append_value e (KeyParam.min_mac_length v) r o = ok (r ++ to_ne_bytes e 4 v, o)
append_value e (KeyParam.max_uses_per_boot v) r o = ok (r ++ to_ne_bytes e 4 v, o)
append_value e (KeyParam.usage_count_limit v) r o = ok (r ++ to_ne_bytes e 4 v, o)
append_value e (KeyParam.user_id v) r o = ok (r ++ to_ne_bytes e 4 v, o)
append_value e (KeyParam.user_auth_type v) r o = ok (r ++ to_ne_bytes e 4 v, o)
append_value e (KeyParam.auth_timeout v) r o = ok (r ++ to_ne_bytes e 4 v, o)
append_value e (KeyParam.os_version v) r o = ok (r ++ to_ne_bytes e 4 v, o)
append_value e (KeyParam.os_patchlevel v) r o = ok (r ++ to_ne_bytes e 4 v, o)
append_value e (KeyParam.vendor_patchlevel v) r o = ok (r ++ to_ne_bytes e 4 v, o)
append_value e (KeyParam.boot_patchlevel v) r o = ok (r ++ to_ne_bytes e 4 v, o)
append_value e (KeyParam.mac_length v) r o = ok (r ++ to_ne_bytes e 4 v, o)
append_value e (KeyParam.max_boot_level v) r o = ok (r ++ to_ne_bytes e 4 v, o)
append_value e (KeyParam.rsa_public_exponent v) r o = ok (r ++ to_ne_bytes e 8 v, o)
append_value e (KeyParam.user_secure_id v) r o = ok (r ++ to_ne_bytes e 8 v, o)
append_value e KeyParam.caller_nonce r o = ok (r ++ (0x01 ∷ []), o)
append_value e KeyParam.include_unique_id r o = ok (r ++ (0x01 ∷ []), o)
append_value e KeyParam.bootloader_only r o = ok (r ++ (0x01 ∷ []), o)
append_value e KeyParam.rollback_resistance r o = ok (r ++ (0x01 ∷ []), o)
append_value e KeyParam.early_boot_only r o = ok (r ++ (0x01 ∷ []), o)
append_value e KeyParam.no_auth_required r o = ok (r ++ (0x01 ∷ []), o)
append_value e KeyParam.allow_while_on_body r o = ok (r ++ (0x01 ∷ []), o)
append_value e KeyParam.trusted_user_presence_required r o = ok (r ++ (0x01 ∷ []), o)
append_value e KeyParam.trusted_confirmation_required r o = ok (r ++ (0x01 ∷ []), o)
append_value e KeyParam.unlocked_device_required r o = ok (r ++ (0x01 ∷ []), o)
append_value e KeyParam.device_unique_attestation r o = ok (r ++ (0x01 ∷ []), o)
append_value e KeyParam.storage_key r o = ok (r ++ (0x01 ∷ []), o)
append_value e KeyParam.reset_since_id_rotation r o = ok (r ++ (0x01 ∷ []), o)
append_value e (KeyParam.active_datetime v) r o = ok (r ++ to_ne_bytes e 8 v, o)
append_value e (KeyParam.origination_expire_datetime v) r o = ok (r ++ to_ne_bytes e 8 v, o)
append_value e (KeyParam.usage_expire_datetime v) r o = ok (r ++ to_ne_bytes e 8 v, o)
append_value e (KeyParam.creation_datetime v) r o = ok (r ++ to_ne_bytes e 8 v, o)
append_value e (KeyParam.certificate_not_before v) r o = ok (r ++ to_ne_bytes e 8 v, o)
append_value e (KeyParam.certificate_not_after v) r o = ok (r ++ to_ne_bytes e 8 v, o)
append_value e (KeyParam.application_id v) r o = append_blob e v r o
append_value e (KeyParam.application_data v) r o = append_blob e v r o
append_value e (KeyParam.root_of_trust v) r o = append_blob e v r o
append_value e (KeyParam.attestation_challenge v) r o = append_blob e v r o
append_value e (KeyParam.attestation_application_id v) r o = append_blob e v r o
append_value e (KeyParam.attestation_id_brand v) r o = append_blob e v r o
append_value e (KeyParam.attestation_id_device v) r o = append_blob e v r o
append_value e (KeyParam.attestation_id_product v) r o = append_blob e v r o
append_value e (KeyParam.attestation_id_serial v) r o = append_blob e v r o
append_value e (KeyParam.attestation_id_imei v) r o = append_blob e v r o
append_value e (KeyParam.attestation_id_second_imei v) r o = append_blob e v r o
append_value e (KeyParam.attestation_id_meid v) r o = append_blob e v r o
append_value e (KeyParam.attestation_id_manufacturer v) r o = append_blob e v r o
append_value e (KeyParam.attestation_id_model v) r o = append_blob e v r o
append_value e (KeyParam.nonce v) r o = append_blob e v r o
append_value e (KeyParam.certificate_serial v) r o = append_blob e v r o
append_value e (KeyParam.certificate_subject v) r o = append_blob e v r o
append_value e (KeyParam.module_hash v) r o = append_blob e v r o

-- The second loop.
unfoldable pub append_params : Endian → List KeyParam → List ℕ → ℕ → Result (List ℕ × ℕ)
unfolding append_value
append_params e [] result blob_offset = ok (result, blob_offset)
append_params e (p ∷ ps) result blob_offset =
    append_value e p (result ++ to_ne_bytes e 4 (tag_as_u32 (tag p))) blob_offset
    >>= (λ s. append_params e ps s.0 s.1)

unfoldable pub serialize : Endian → List KeyParam → Result (List ℕ)
unfolding append_blobs append_params
serialize e params = do
  (blobs, blob_size) ← append_blobs params (replicate 4 0) 0
  let result = to_ne_bytes e 4 blob_size ++ drop 4 blobs
  let counted = result ++ to_ne_bytes e 4 (length params % 4294967296)
  let params_size_offset = length counted
  let first_param_offset = params_size_offset + 4
  (written, _) ← append_params e params (counted ++ replicate 4 0) 0
  let serialized_size = (length written - first_param_offset) % 4294967296
  ok (
      take params_size_offset written
      ++ (to_ne_bytes e 4 serialized_size ++ drop (params_size_offset + 4) written))
