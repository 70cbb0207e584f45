-- ===== src/Tag/Info/Table/Device.antt =====
-- Entries of `INFO` (common/src/tag/info.rs).
use platform_system_keymint.Common.{true, false, none, some, List, [], ◌∷◌}
use platform_system_keymint.Wire.Tags.{Tag}
use platform_system_keymint.Wire.TagTypes.{TagType}
use platform_system_keymint.Tag.Info.Kinds.{
  Characteristic, OperationParam, ValueLifetime, CertGenParam, Info,
}

unfoldable pub info_from_application_id : List (Tag × Info)
info_from_application_id =
    (
      Tag.application_id,
      record {
        name = "APPLICATION_ID";
        tt = TagType.bytes;
        ext_asn1_type = none;
        user_can_specify = true;
        characteristic = Characteristic.key_mint_hidden;
        op_param = OperationParam.cipher_param_exact_match;
        keymint_auto_adds = false;
        lifetime = ValueLifetime.variable;
        cert_gen = CertGenParam.not_required;
        bit_index = 29;
      },
    )
    ∷ (
      Tag.application_data,
      record {
        name = "APPLICATION_DATA";
        tt = TagType.bytes;
        ext_asn1_type = none;
        user_can_specify = true;
        characteristic = Characteristic.key_mint_hidden;
        op_param = OperationParam.cipher_param_exact_match;
        keymint_auto_adds = false;
        lifetime = ValueLifetime.variable;
        cert_gen = CertGenParam.not_required;
        bit_index = 30;
      },
    )
    ∷ (
      Tag.creation_datetime,
      record {
        name = "CREATION_DATETIME";
        tt = TagType.date;
        ext_asn1_type = some "INTEGER";
        user_can_specify = true;
        characteristic = Characteristic.keystore_enforced;
        op_param = OperationParam.not_operation_param;
        keymint_auto_adds = false;
        lifetime = ValueLifetime.variable;
        cert_gen = CertGenParam.special;
        bit_index = 31;
      },
    )
    ∷ (
      Tag.origin,
      record {
        name = "ORIGIN";
        tt = TagType.enum;
        ext_asn1_type = some "INTEGER";
        user_can_specify = false;
        characteristic = Characteristic.key_mint_enforced;
        op_param = OperationParam.not_operation_param;
        keymint_auto_adds = true;
        lifetime = ValueLifetime.variable;
        cert_gen = CertGenParam.not_required;
        bit_index = 32;
      },
    )
    ∷ (
      Tag.root_of_trust,
      record {
        name = "ROOT_OF_TRUST";
        tt = TagType.bytes;
        ext_asn1_type = some "RootOfTrust SEQUENCE";
        user_can_specify = false;
        characteristic = Characteristic.not_key_characteristic;
        op_param = OperationParam.not_operation_param;
        keymint_auto_adds = false;
        lifetime = ValueLifetime.fixed_at_boot;
        cert_gen = CertGenParam.not_required;
        bit_index = 33;
      },
    )
    ∷ (
      Tag.os_version,
      record {
        name = "OS_VERSION";
        tt = TagType.uint;
        ext_asn1_type = some "INTEGER";
        user_can_specify = false;
        characteristic = Characteristic.key_mint_enforced;
        op_param = OperationParam.not_operation_param;
        keymint_auto_adds = true;
        lifetime = ValueLifetime.fixed_at_boot;
        cert_gen = CertGenParam.not_required;
        bit_index = 34;
      },
    )
    ∷ (
      Tag.os_patchlevel,
      record {
        name = "OS_PATCHLEVEL";
        tt = TagType.uint;
        ext_asn1_type = some "INTEGER";
        user_can_specify = false;
        characteristic = Characteristic.key_mint_enforced;
        op_param = OperationParam.not_operation_param;
        keymint_auto_adds = true;
        lifetime = ValueLifetime.fixed_at_boot;
        cert_gen = CertGenParam.not_required;
        bit_index = 35;
      },
    )
    ∷ (
      Tag.unique_id,
      record {
        name = "UNIQUE_ID";
        tt = TagType.bytes;
        ext_asn1_type = some "OCTET STRING";
        user_can_specify = false;
        characteristic = Characteristic.not_key_characteristic;
        op_param = OperationParam.not_operation_param;
        keymint_auto_adds = false;
        lifetime = ValueLifetime.variable;
        cert_gen = CertGenParam.special;
        bit_index = 36;
      },
    )
    ∷ (
      Tag.attestation_challenge,
      record {
        name = "ATTESTATION_CHALLENGE";
        tt = TagType.bytes;
        ext_asn1_type = some "OCTET STRING";
        user_can_specify = true;
        characteristic = Characteristic.not_key_characteristic;
        op_param = OperationParam.key_gen_import;
        keymint_auto_adds = false;
        lifetime = ValueLifetime.variable;
        cert_gen = CertGenParam.required_for_attestation;
        bit_index = 37;
      },
    )
    ∷ []
