-- ===== src/Tag/Info/Table/Certificates.antt =====
-- Entries of `INFO` (common/src/tag/info.rs).
use platform_system_keymint.Common.{true, false, none, some, List, [], ◌∷◌}
use platform_system_keymint.Wire.Tags.{Tag}
use platform_system_keymint.Wire.TagTypes.{TagType}
use platform_system_keymint.Tag.Info.Kinds.{
  Characteristic, OperationParam, ValueLifetime, CertGenParam, Info,
}

unfoldable pub info_from_certificate_not_before : List (Tag × Info)
info_from_certificate_not_before =
    (
      Tag.certificate_not_before,
      record {
        name = "CERTIFICATE_NOT_BEFORE";
        tt = TagType.date;
        ext_asn1_type = none;
        user_can_specify = true;
        characteristic = Characteristic.not_key_characteristic;
        op_param = OperationParam.key_gen_import;
        keymint_auto_adds = false;
        lifetime = ValueLifetime.variable;
        cert_gen = CertGenParam.required;
        bit_index = 57;
      },
    )
    ∷ (
      Tag.certificate_not_after,
      record {
        name = "CERTIFICATE_NOT_AFTER";
        tt = TagType.date;
        ext_asn1_type = none;
        user_can_specify = true;
        characteristic = Characteristic.not_key_characteristic;
        op_param = OperationParam.key_gen_import;
        keymint_auto_adds = false;
        lifetime = ValueLifetime.variable;
        cert_gen = CertGenParam.required;
        bit_index = 58;
      },
    )
    ∷ (
      Tag.max_boot_level,
      record {
        name = "MAX_BOOT_LEVEL";
        tt = TagType.uint;
        ext_asn1_type = none;
        user_can_specify = true;
        characteristic = Characteristic.keystore_enforced;
        op_param = OperationParam.not_operation_param;
        keymint_auto_adds = false;
        lifetime = ValueLifetime.variable;
        cert_gen = CertGenParam.not_required;
        bit_index = 59;
      },
    )
    ∷ (
      Tag.module_hash,
      record {
        name = "MODULE_HASH";
        tt = TagType.bytes;
        ext_asn1_type = some "OCTET STRING";
        user_can_specify = false;
        characteristic = Characteristic.not_key_characteristic;
        op_param = OperationParam.not_operation_param;
        keymint_auto_adds = false;
        lifetime = ValueLifetime.fixed_at_startup;
        cert_gen = CertGenParam.not_required;
        bit_index = 60;
      },
    )
    ∷ []
