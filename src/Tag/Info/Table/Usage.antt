-- ===== src/Tag/Info/Table/Usage.antt =====
-- Entries of `INFO` (common/src/tag/info.rs).
use platform_system_keymint.Common.{true, false, none, some, List, [], ◌∷◌}
use platform_system_keymint.Wire.Tags.{Tag}
use platform_system_keymint.Wire.TagTypes.{TagType}
use platform_system_keymint.Tag.Info.Kinds.{
  Characteristic, OperationParam, ValueLifetime, CertGenParam, Info,
}

unfoldable pub info_from_include_unique_id : List (Tag × Info)
info_from_include_unique_id =
    (
      Tag.include_unique_id,
      record {
        name = "INCLUDE_UNIQUE_ID";
        tt = TagType.bool;
        ext_asn1_type = none;
        user_can_specify = true;
        characteristic = Characteristic.not_key_characteristic;
        op_param = OperationParam.key_gen_import;
        keymint_auto_adds = false;
        lifetime = ValueLifetime.variable;
        cert_gen = CertGenParam.optional_for_attestation;
        bit_index = 10;
      },
    )
    ∷ (
      Tag.rsa_oaep_mgf_digest,
      record {
        name = "RSA_OAEP_MGF_DIGEST";
        tt = TagType.enum_rep;
        ext_asn1_type = some "SET OF INTEGER";
        user_can_specify = true;
        characteristic = Characteristic.key_mint_enforced;
        op_param = OperationParam.cipher_param_one_of;
        keymint_auto_adds = false;
        lifetime = ValueLifetime.variable;
        cert_gen = CertGenParam.not_required;
        bit_index = 11;
      },
    )
    ∷ (
      Tag.bootloader_only,
      record {
        name = "BOOTLOADER_ONLY";
        tt = TagType.bool;
        ext_asn1_type = none;
        user_can_specify = false;
        characteristic = Characteristic.key_mint_enforced;
        op_param = OperationParam.not_operation_param;
        keymint_auto_adds = false;
        lifetime = ValueLifetime.variable;
        cert_gen = CertGenParam.not_required;
        bit_index = 12;
      },
    )
    ∷ (
      Tag.rollback_resistance,
      record {
        name = "ROLLBACK_RESISTANCE";
        tt = TagType.bool;
        ext_asn1_type = some "NULL";
        user_can_specify = true;
        characteristic = Characteristic.key_mint_enforced;
        op_param = OperationParam.not_operation_param;
        keymint_auto_adds = false;
        lifetime = ValueLifetime.variable;
        cert_gen = CertGenParam.not_required;
        bit_index = 13;
      },
    )
    ∷ (
      Tag.early_boot_only,
      record {
        name = "EARLY_BOOT_ONLY";
        tt = TagType.bool;
        ext_asn1_type = some "NULL";
        user_can_specify = true;
        characteristic = Characteristic.key_mint_enforced;
        op_param = OperationParam.not_operation_param;
        keymint_auto_adds = false;
        lifetime = ValueLifetime.variable;
        cert_gen = CertGenParam.not_required;
        bit_index = 14;
      },
    )
    ∷ (
      Tag.active_datetime,
      record {
        name = "ACTIVE_DATETIME";
        tt = TagType.date;
        ext_asn1_type = some "INTEGER";
        user_can_specify = true;
        characteristic = Characteristic.keystore_enforced;
        op_param = OperationParam.not_operation_param;
        keymint_auto_adds = false;
        lifetime = ValueLifetime.variable;
        cert_gen = CertGenParam.not_required;
        bit_index = 15;
      },
    )
    ∷ (
      Tag.origination_expire_datetime,
      record {
        name = "ORIGINATION_EXPIRE_DATETIME";
        tt = TagType.date;
        ext_asn1_type = some "INTEGER";
        user_can_specify = true;
        characteristic = Characteristic.keystore_enforced;
        op_param = OperationParam.not_operation_param;
        keymint_auto_adds = false;
        lifetime = ValueLifetime.variable;
        cert_gen = CertGenParam.not_required;
        bit_index = 16;
      },
    )
    ∷ (
      Tag.usage_expire_datetime,
      record {
        name = "USAGE_EXPIRE_DATETIME";
        tt = TagType.date;
        ext_asn1_type = some "INTEGER";
        user_can_specify = true;
        characteristic = Characteristic.keystore_enforced;
        op_param = OperationParam.not_operation_param;
        keymint_auto_adds = false;
        lifetime = ValueLifetime.variable;
        cert_gen = CertGenParam.not_required;
        bit_index = 17;
      },
    )
    ∷ (
      Tag.max_uses_per_boot,
      record {
        name = "MAX_USES_PER_BOOT";
        tt = TagType.uint;
        ext_asn1_type = none;
        user_can_specify = true;
        characteristic = Characteristic.key_mint_enforced;
        op_param = OperationParam.not_operation_param;
        keymint_auto_adds = false;
        lifetime = ValueLifetime.variable;
        cert_gen = CertGenParam.not_required;
        bit_index = 18;
      },
    )
    ∷ (
      Tag.usage_count_limit,
      record {
        name = "USAGE_COUNT_LIMIT";
        tt = TagType.uint;
        ext_asn1_type = some "INTEGER";
        user_can_specify = true;
        characteristic = Characteristic.both_enforced;
        op_param = OperationParam.not_operation_param;
        keymint_auto_adds = false;
        lifetime = ValueLifetime.variable;
        cert_gen = CertGenParam.not_required;
        bit_index = 19;
      },
    )
    ∷ []
