-- ===== src/Tag/Order.antt =====
-- The order of parameters: `param_compare` of common/src/tag/legacy.rs, and `sort_by`, which is
-- stable. The arms of the match pair equal variants and so equal tags; a flag has no value to compare.
-- A discriminant of `Tag` and a `DateTime` are signed.
pub mod Sorted
use Prim.Native.Nat.{compare, Ordering}
use platform_system_keymint.Common.{ℕ, ◌+◌, ◌%◌, Bool, true, false, List, [], ◌∷◌, if◌then◌else◌}
use platform_system_keymint.Wire.Params.{
  algorithm_as_u32, block_mode_as_u32, digest_as_u32, ec_curve_as_u32,
}
use platform_system_keymint.Wire.Modes.{key_origin_as_u32, key_purpose_as_u32, padding_mode_as_u32}
use platform_system_keymint.Wire.Tags.{Tag, tag_as_u32, tag_eq}
use platform_system_keymint.Wire.KeyParams.{KeyParam, tag}

-- `cmp` of byte strings; a number is a string of one.
unfoldable pub compare_bytes : List ℕ → List ℕ → Ordering
compare_bytes [] [] = Ordering.eq
compare_bytes [] (y ∷ ys) = Ordering.lt
compare_bytes (x ∷ xs) [] = Ordering.gt
compare_bytes (x ∷ xs) (y ∷ ys) = elim (compare x y) [
  | Ordering.lt ↦ Ordering.lt
  | Ordering.eq ↦ compare_bytes xs ys
  | Ordering.gt ↦ Ordering.gt
]

-- A signed number, shifted to order like an unsigned one.
abbrev signed_i64 : ℕ → ℕ
signed_i64 v = (v + 9223372036854775808) % 18446744073709551616

abbrev signed_i32 : ℕ → ℕ
signed_i32 v = (v + 2147483648) % 4294967296

-- The value that an arm compares.
unfoldable pub compared : KeyParam → List ℕ
unfolding key_purpose_as_u32 algorithm_as_u32 block_mode_as_u32 digest_as_u32 padding_mode_as_u32
    ec_curve_as_u32 key_origin_as_u32
compared (KeyParam.purpose v) = key_purpose_as_u32 v ∷ []
compared (KeyParam.algorithm v) = algorithm_as_u32 v ∷ []
compared (KeyParam.key_size v) = v ∷ []
compared (KeyParam.block_mode v) = block_mode_as_u32 v ∷ []
compared (KeyParam.digest v) = digest_as_u32 v ∷ []
compared (KeyParam.padding v) = padding_mode_as_u32 v ∷ []
compared (KeyParam.min_mac_length v) = v ∷ []
compared (KeyParam.ec_curve v) = ec_curve_as_u32 v ∷ []
compared (KeyParam.rsa_public_exponent v) = v ∷ []
compared (KeyParam.rsa_oaep_mgf_digest v) = digest_as_u32 v ∷ []
compared (KeyParam.active_datetime v) = signed_i64 v ∷ []
compared (KeyParam.origination_expire_datetime v) = signed_i64 v ∷ []
compared (KeyParam.usage_expire_datetime v) = signed_i64 v ∷ []
compared (KeyParam.max_uses_per_boot v) = v ∷ []
compared (KeyParam.usage_count_limit v) = v ∷ []
compared (KeyParam.user_id v) = v ∷ []
compared (KeyParam.user_secure_id v) = v ∷ []
compared (KeyParam.user_auth_type v) = v ∷ []
compared (KeyParam.auth_timeout v) = v ∷ []
compared (KeyParam.application_id v) = v
compared (KeyParam.application_data v) = v
compared (KeyParam.creation_datetime v) = signed_i64 v ∷ []
compared (KeyParam.origin v) = key_origin_as_u32 v ∷ []
compared (KeyParam.root_of_trust v) = v
compared (KeyParam.os_version v) = v ∷ []
compared (KeyParam.os_patchlevel v) = v ∷ []
compared (KeyParam.attestation_challenge v) = v
compared (KeyParam.attestation_application_id v) = v
compared (KeyParam.attestation_id_brand v) = v
compared (KeyParam.attestation_id_device v) = v
compared (KeyParam.attestation_id_product v) = v
compared (KeyParam.attestation_id_serial v) = v
compared (KeyParam.attestation_id_imei v) = v
compared (KeyParam.attestation_id_second_imei v) = v
compared (KeyParam.attestation_id_meid v) = v
compared (KeyParam.attestation_id_manufacturer v) = v
compared (KeyParam.attestation_id_model v) = v
compared (KeyParam.vendor_patchlevel v) = v ∷ []
compared (KeyParam.boot_patchlevel v) = v ∷ []
compared (KeyParam.nonce v) = v
compared (KeyParam.mac_length v) = v ∷ []
compared (KeyParam.certificate_serial v) = v
compared (KeyParam.certificate_subject v) = v
compared (KeyParam.certificate_not_before v) = signed_i64 v ∷ []
compared (KeyParam.certificate_not_after v) = signed_i64 v ∷ []
compared (KeyParam.max_boot_level v) = v ∷ []
compared (KeyParam.module_hash v) = v
compared _ = []

unfoldable pub param_compare : KeyParam → KeyParam → Ordering
unfolding tag tag_eq tag_as_u32 compared compare_bytes
param_compare left right =
    if tag_eq (tag left) (tag right)
    then compare_bytes (compared left) (compared right)
    else compare (signed_i32 (tag_as_u32 (tag left))) (signed_i32 (tag_as_u32 (tag right)))

abbrev pub is_gt : Ordering → Bool
is_gt Ordering.gt = true
is_gt _ = false

-- Before the first element that is not smaller.
unfoldable pub insert_by :
    (KeyParam → KeyParam → Ordering) → KeyParam → List KeyParam → List KeyParam
insert_by cmp x [] = x ∷ []
insert_by cmp x (y ∷ ys) =
    let rest = insert_by cmp x ys in if is_gt (cmp x y) then y ∷ rest else x ∷ y ∷ ys

unfoldable pub sort_by : (KeyParam → KeyParam → Ordering) → List KeyParam → List KeyParam
unfolding insert_by
sort_by cmp [] = []
sort_by cmp (x ∷ xs) = insert_by cmp x (sort_by cmp xs)
