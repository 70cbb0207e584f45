-- ===== src/Tag/Info/Table/Versions.antt =====
-- Entries of `INFO` (common/src/tag/info.rs).
use platform_system_keymint.Common.{true, false, none, some, List, [], ◌∷◌}
use platform_system_keymint.Wire.Tags.{Tag}
use platform_system_keymint.Wire.TagTypes.{TagType}
use platform_system_keymint.Tag.Info.Kinds.{
  Characteristic, OperationParam, ValueLifetime, CertGenParam, Info,
}

unfoldable pub info_from_vendor_patchlevel : List (Tag × Info)
info_from_vendor_patchlevel =
    (
      Tag.vendor_patchlevel,
      record {
        name = "VENDOR_PATCHLEVEL";
        tt = TagType.uint;
        ext_asn1_type = some "INTEGER";
        user_can_specify = false;
        characteristic = Characteristic.key_mint_enforced;
        op_param = OperationParam.not_operation_param;
        keymint_auto_adds = true;
        lifetime = ValueLifetime.fixed_at_startup;
        cert_gen = CertGenParam.not_required;
        bit_index = 48;
      },
    )
    ∷ (
      Tag.boot_patchlevel,
      record {
        name = "BOOT_PATCHLEVEL";
        tt = TagType.uint;
        ext_asn1_type = some "INTEGER";
        user_can_specify = false;
        characteristic = Characteristic.key_mint_enforced;
        op_param = OperationParam.not_operation_param;
        keymint_auto_adds = true;
        lifetime = ValueLifetime.fixed_at_boot;
        cert_gen = CertGenParam.not_required;
        bit_index = 49;
      },
    )
    ∷ (
      Tag.device_unique_attestation,
      record {
        name = "DEVICE_UNIQUE_ATTESTATION";
        tt = TagType.bool;
        ext_asn1_type = some "NULL";
        user_can_specify = true;
        characteristic = Characteristic.not_key_characteristic;
        op_param = OperationParam.key_gen_import;
        keymint_auto_adds = false;
        lifetime = ValueLifetime.variable;
        cert_gen = CertGenParam.special;
        bit_index = 50;
      },
    )
    ∷ (
      Tag.storage_key,
      record {
        name = "STORAGE_KEY";
        tt = TagType.bool;
        ext_asn1_type = none;
        user_can_specify = true;
        characteristic = Characteristic.key_mint_enforced;
        op_param = OperationParam.not_operation_param;
        keymint_auto_adds = false;
        lifetime = ValueLifetime.variable;
        cert_gen = CertGenParam.not_required;
        bit_index = 51;
      },
    )
    ∷ (
      Tag.nonce,
      record {
        name = "NONCE";
        tt = TagType.bytes;
        ext_asn1_type = none;
        user_can_specify = true;
        characteristic = Characteristic.not_key_characteristic;
        op_param = OperationParam.cipher_param;
        keymint_auto_adds = false;
        lifetime = ValueLifetime.variable;
        cert_gen = CertGenParam.not_required;
        bit_index = 52;
      },
    )
    ∷ (
      Tag.mac_length,
      record {
        name = "MAC_LENGTH";
        tt = TagType.uint;
        ext_asn1_type = none;
        user_can_specify = true;
        characteristic = Characteristic.not_key_characteristic;
        op_param = OperationParam.cipher_param;
        keymint_auto_adds = false;
        lifetime = ValueLifetime.variable;
        cert_gen = CertGenParam.not_required;
        bit_index = 53;
      },
    )
    ∷ (
      Tag.reset_since_id_rotation,
      record {
        name = "RESET_SINCE_ID_ROTATION";
        tt = TagType.bool;
        ext_asn1_type = some "part of UniqueID";
        user_can_specify = true;
        characteristic = Characteristic.not_key_characteristic;
        op_param = OperationParam.key_gen_import;
        keymint_auto_adds = false;
        lifetime = ValueLifetime.variable;
        cert_gen = CertGenParam.optional_for_attestation;
        bit_index = 54;
      },
    )
    ∷ (
      Tag.certificate_serial,
      record {
        name = "CERTIFICATE_SERIAL";
        tt = TagType.bignum;
        ext_asn1_type = none;
        user_can_specify = true;
        characteristic = Characteristic.not_key_characteristic;
        op_param = OperationParam.key_gen_import;
        keymint_auto_adds = false;
        lifetime = ValueLifetime.variable;
        cert_gen = CertGenParam.optional;
        bit_index = 55;
      },
    )
    ∷ (
      Tag.certificate_subject,
      record {
        name = "CERTIFICATE_SUBJECT";
        tt = TagType.bytes;
        ext_asn1_type = none;
        user_can_specify = true;
        characteristic = Characteristic.not_key_characteristic;
        op_param = OperationParam.key_gen_import;
        keymint_auto_adds = false;
        lifetime = ValueLifetime.variable;
        cert_gen = CertGenParam.optional;
        bit_index = 56;
      },
    )
    ∷ []
