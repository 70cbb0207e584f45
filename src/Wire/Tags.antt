-- ===== src/Wire/Tags.antt =====
-- Enumerations of the HAL interface (wire/src/keymint.rs). A value of `#[repr(i32)]` is its 32-bit
-- pattern, so that -1 is 2 ^ 32 - 1. `try_from` is `try_from_n!`, of wire/src/lib.rs.
use mathlib.Core.Option.{Option}
use platform_system_keymint.Common.{
  ℕ, ◌<◌, ◌≡◌, refl, Bool, true, arith, ◌==◌, if◌then◌else◌, ==→eq, ==_refl,
}

pub data Tag : Type 0 where
  invalid purpose algorithm key_size block_mode digest padding caller_nonce : Tag
  min_mac_length ec_curve rsa_public_exponent include_unique_id rsa_oaep_mgf_digest bootloader_only
        rollback_resistance hardware_type :
      Tag
  early_boot_only active_datetime origination_expire_datetime usage_expire_datetime
        min_seconds_between_ops max_uses_per_boot usage_count_limit user_id :
      Tag
  user_secure_id no_auth_required user_auth_type auth_timeout allow_while_on_body
        trusted_user_presence_required trusted_confirmation_required unlocked_device_required :
      Tag
  application_id application_data creation_datetime origin root_of_trust os_version os_patchlevel
        unique_id :
      Tag
  attestation_challenge attestation_application_id attestation_id_brand attestation_id_device
        attestation_id_product attestation_id_serial attestation_id_imei attestation_id_meid :
      Tag
  attestation_id_manufacturer attestation_id_model vendor_patchlevel boot_patchlevel
        device_unique_attestation identity_credential_key storage_key attestation_id_second_imei :
      Tag
  associated_data nonce mac_length reset_since_id_rotation confirmation_token certificate_serial
        certificate_subject certificate_not_before :
      Tag
  certificate_not_after max_boot_level module_hash : Tag

-- The discriminant as its 32-bit pattern: `as u32`.
unfoldable pub tag_as_u32 : Tag → ℕ
tag_as_u32 Tag.invalid = 0
tag_as_u32 Tag.purpose = 536870913
tag_as_u32 Tag.algorithm = 268435458
tag_as_u32 Tag.key_size = 805306371
tag_as_u32 Tag.block_mode = 536870916
tag_as_u32 Tag.digest = 536870917
tag_as_u32 Tag.padding = 536870918
tag_as_u32 Tag.caller_nonce = 1879048199
tag_as_u32 Tag.min_mac_length = 805306376
tag_as_u32 Tag.ec_curve = 268435466
tag_as_u32 Tag.rsa_public_exponent = 1342177480
tag_as_u32 Tag.include_unique_id = 1879048394
tag_as_u32 Tag.rsa_oaep_mgf_digest = 536871115
tag_as_u32 Tag.bootloader_only = 1879048494
tag_as_u32 Tag.rollback_resistance = 1879048495
tag_as_u32 Tag.hardware_type = 268435760
tag_as_u32 Tag.early_boot_only = 1879048497
tag_as_u32 Tag.active_datetime = 1610613136
tag_as_u32 Tag.origination_expire_datetime = 1610613137
tag_as_u32 Tag.usage_expire_datetime = 1610613138
tag_as_u32 Tag.min_seconds_between_ops = 805306771
tag_as_u32 Tag.max_uses_per_boot = 805306772
tag_as_u32 Tag.usage_count_limit = 805306773
tag_as_u32 Tag.user_id = 805306869
tag_as_u32 Tag.user_secure_id = 2684355062
tag_as_u32 Tag.no_auth_required = 1879048695
tag_as_u32 Tag.user_auth_type = 268435960
tag_as_u32 Tag.auth_timeout = 805306873
tag_as_u32 Tag.allow_while_on_body = 1879048698
tag_as_u32 Tag.trusted_user_presence_required = 1879048699
tag_as_u32 Tag.trusted_confirmation_required = 1879048700
tag_as_u32 Tag.unlocked_device_required = 1879048701
tag_as_u32 Tag.application_id = 2415919705
tag_as_u32 Tag.application_data = 2415919804
tag_as_u32 Tag.creation_datetime = 1610613437
tag_as_u32 Tag.origin = 268436158
tag_as_u32 Tag.root_of_trust = 2415919808
tag_as_u32 Tag.os_version = 805307073
tag_as_u32 Tag.os_patchlevel = 805307074
tag_as_u32 Tag.unique_id = 2415919811
tag_as_u32 Tag.attestation_challenge = 2415919812
tag_as_u32 Tag.attestation_application_id = 2415919813
tag_as_u32 Tag.attestation_id_brand = 2415919814
tag_as_u32 Tag.attestation_id_device = 2415919815
tag_as_u32 Tag.attestation_id_product = 2415919816
tag_as_u32 Tag.attestation_id_serial = 2415919817
tag_as_u32 Tag.attestation_id_imei = 2415919818
tag_as_u32 Tag.attestation_id_meid = 2415919819
tag_as_u32 Tag.attestation_id_manufacturer = 2415919820
tag_as_u32 Tag.attestation_id_model = 2415919821
tag_as_u32 Tag.vendor_patchlevel = 805307086
tag_as_u32 Tag.boot_patchlevel = 805307087
tag_as_u32 Tag.device_unique_attestation = 1879048912
tag_as_u32 Tag.identity_credential_key = 1879048913
tag_as_u32 Tag.storage_key = 1879048914
tag_as_u32 Tag.attestation_id_second_imei = 2415919827
tag_as_u32 Tag.associated_data = 2415920104
tag_as_u32 Tag.nonce = 2415920105
tag_as_u32 Tag.mac_length = 805307371
tag_as_u32 Tag.reset_since_id_rotation = 1879049196
tag_as_u32 Tag.confirmation_token = 2415920109
tag_as_u32 Tag.certificate_serial = 2147484654
tag_as_u32 Tag.certificate_subject = 2415920111
tag_as_u32 Tag.certificate_not_before = 1610613744
tag_as_u32 Tag.certificate_not_after = 1610613745
tag_as_u32 Tag.max_boot_level = 805307378
tag_as_u32 Tag.module_hash = 2415919828

unfoldable pub tag_try_from : ℕ → Option Tag
tag_try_from v =
    if v == 0
    then Option.some Tag.invalid
    else if v == 536870913
    then Option.some Tag.purpose
    else if v == 268435458
    then Option.some Tag.algorithm
    else if v == 805306371
    then Option.some Tag.key_size
    else if v == 536870916
    then Option.some Tag.block_mode
    else if v == 536870917
    then Option.some Tag.digest
    else if v == 536870918
    then Option.some Tag.padding
    else if v == 1879048199
    then Option.some Tag.caller_nonce
    else if v == 805306376
    then Option.some Tag.min_mac_length
    else if v == 268435466
    then Option.some Tag.ec_curve
    else if v == 1342177480
    then Option.some Tag.rsa_public_exponent
    else if v == 1879048394
    then Option.some Tag.include_unique_id
    else if v == 536871115
    then Option.some Tag.rsa_oaep_mgf_digest
    else if v == 1879048494
    then Option.some Tag.bootloader_only
    else if v == 1879048495
    then Option.some Tag.rollback_resistance
    else if v == 268435760
    then Option.some Tag.hardware_type
    else if v == 1879048497
    then Option.some Tag.early_boot_only
    else if v == 1610613136
    then Option.some Tag.active_datetime
    else if v == 1610613137
    then Option.some Tag.origination_expire_datetime
    else if v == 1610613138
    then Option.some Tag.usage_expire_datetime
    else if v == 805306771
    then Option.some Tag.min_seconds_between_ops
    else if v == 805306772
    then Option.some Tag.max_uses_per_boot
    else if v == 805306773
    then Option.some Tag.usage_count_limit
    else if v == 805306869
    then Option.some Tag.user_id
    else if v == 2684355062
    then Option.some Tag.user_secure_id
    else if v == 1879048695
    then Option.some Tag.no_auth_required
    else if v == 268435960
    then Option.some Tag.user_auth_type
    else if v == 805306873
    then Option.some Tag.auth_timeout
    else if v == 1879048698
    then Option.some Tag.allow_while_on_body
    else if v == 1879048699
    then Option.some Tag.trusted_user_presence_required
    else if v == 1879048700
    then Option.some Tag.trusted_confirmation_required
    else if v == 1879048701
    then Option.some Tag.unlocked_device_required
    else if v == 2415919705
    then Option.some Tag.application_id
    else if v == 2415919804
    then Option.some Tag.application_data
    else if v == 1610613437
    then Option.some Tag.creation_datetime
    else if v == 268436158
    then Option.some Tag.origin
    else if v == 2415919808
    then Option.some Tag.root_of_trust
    else if v == 805307073
    then Option.some Tag.os_version
    else if v == 805307074
    then Option.some Tag.os_patchlevel
    else if v == 2415919811
    then Option.some Tag.unique_id
    else if v == 2415919812
    then Option.some Tag.attestation_challenge
    else if v == 2415919813
    then Option.some Tag.attestation_application_id
    else if v == 2415919814
    then Option.some Tag.attestation_id_brand
    else if v == 2415919815
    then Option.some Tag.attestation_id_device
    else if v == 2415919816
    then Option.some Tag.attestation_id_product
    else if v == 2415919817
    then Option.some Tag.attestation_id_serial
    else if v == 2415919818
    then Option.some Tag.attestation_id_imei
    else if v == 2415919819
    then Option.some Tag.attestation_id_meid
    else if v == 2415919820
    then Option.some Tag.attestation_id_manufacturer
    else if v == 2415919821
    then Option.some Tag.attestation_id_model
    else if v == 805307086
    then Option.some Tag.vendor_patchlevel
    else if v == 805307087
    then Option.some Tag.boot_patchlevel
    else if v == 1879048912
    then Option.some Tag.device_unique_attestation
    else if v == 1879048913
    then Option.some Tag.identity_credential_key
    else if v == 1879048914
    then Option.some Tag.storage_key
    else if v == 2415919827
    then Option.some Tag.attestation_id_second_imei
    else if v == 2415920104
    then Option.some Tag.associated_data
    else if v == 2415920105
    then Option.some Tag.nonce
    else if v == 805307371
    then Option.some Tag.mac_length
    else if v == 1879049196
    then Option.some Tag.reset_since_id_rotation
    else if v == 2415920109
    then Option.some Tag.confirmation_token
    else if v == 2147484654
    then Option.some Tag.certificate_serial
    else if v == 2415920111
    then Option.some Tag.certificate_subject
    else if v == 1610613744
    then Option.some Tag.certificate_not_before
    else if v == 1610613745
    then Option.some Tag.certificate_not_after
    else if v == 805307378
    then Option.some Tag.max_boot_level
    else if v == 2415919828
    then Option.some Tag.module_hash
    else Option.none

pub tag_try_from-as_u32 : (x : Tag) → tag_try_from (tag_as_u32 x) ≡ Option.some x
unfolding tag_try_from tag_as_u32
tag_try_from-as_u32 Tag.invalid = refl
tag_try_from-as_u32 _ = refl

pub tag_as_u32_lt : (x : Tag) → tag_as_u32 x < 4294967296
unfolding tag_as_u32
tag_as_u32_lt Tag.invalid = omega arith
tag_as_u32_lt _ = omega arith

-- The derived `==` compares discriminants.
unfoldable pub tag_eq : Tag → Tag → Bool
unfolding tag_as_u32
tag_eq a b = tag_as_u32 a == tag_as_u32 b

pub tag_eq→eq : (a b : Tag) → tag_eq a b ≡ true → a ≡ b
unfolding tag_eq
tag_eq→eq a b h =
    cc (==→eq (tag_as_u32 a) (tag_as_u32 b) h, tag_try_from-as_u32 a, tag_try_from-as_u32 b)

pub tag_eq_refl : (a : Tag) → tag_eq a a ≡ true
unfolding tag_eq
tag_eq_refl a = ==_refl (tag_as_u32 a)
