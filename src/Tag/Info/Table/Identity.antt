-- ===== src/Tag/Info/Table/Identity.antt =====
-- Entries of `INFO` (common/src/tag/info.rs).
use platform_system_keymint.Common.{true, false, some, List, [], ◌∷◌}
use platform_system_keymint.Wire.Tags.{Tag}
use platform_system_keymint.Wire.TagTypes.{TagType}
use platform_system_keymint.Tag.Info.Kinds.{
  Characteristic, OperationParam, ValueLifetime, CertGenParam, Info,
}

unfoldable pub info_from_attestation_application_id : List (Tag × Info)
info_from_attestation_application_id =
    (
      Tag.attestation_application_id,
      record {
        name = "ATTESTATION_APPLICATION_ID";
        tt = TagType.bytes;
        ext_asn1_type = some "OCTET STRING";
        user_can_specify = true;
        characteristic = Characteristic.not_key_characteristic;
        op_param = OperationParam.key_gen_import;
        keymint_auto_adds = false;
        lifetime = ValueLifetime.variable;
        cert_gen = CertGenParam.required_for_attestation;
        bit_index = 38;
      },
    )
    ∷ (
      Tag.attestation_id_brand,
      record {
        name = "ATTESTATION_ID_BRAND";
        tt = TagType.bytes;
        ext_asn1_type = some "OCTET STRING";
        user_can_specify = true;
        characteristic = Characteristic.not_key_characteristic;
        op_param = OperationParam.key_gen_import;
        keymint_auto_adds = false;
        lifetime = ValueLifetime.fixed_at_boot;
        cert_gen = CertGenParam.optional_for_attestation;
        bit_index = 39;
      },
    )
    ∷ (
      Tag.attestation_id_device,
      record {
        name = "ATTESTATION_ID_DEVICE";
        tt = TagType.bytes;
        ext_asn1_type = some "OCTET STRING";
        user_can_specify = true;
        characteristic = Characteristic.not_key_characteristic;
        op_param = OperationParam.key_gen_import;
        keymint_auto_adds = false;
        lifetime = ValueLifetime.fixed_at_boot;
        cert_gen = CertGenParam.optional_for_attestation;
        bit_index = 40;
      },
    )
    ∷ (
      Tag.attestation_id_product,
      record {
        name = "ATTESTATION_ID_PRODUCT";
        tt = TagType.bytes;
        ext_asn1_type = some "OCTET STRING";
        user_can_specify = true;
        characteristic = Characteristic.not_key_characteristic;
        op_param = OperationParam.key_gen_import;
        keymint_auto_adds = false;
        lifetime = ValueLifetime.fixed_at_boot;
        cert_gen = CertGenParam.optional_for_attestation;
        bit_index = 41;
      },
    )
    ∷ (
      Tag.attestation_id_serial,
      record {
        name = "ATTESTATION_ID_SERIAL";
        tt = TagType.bytes;
        ext_asn1_type = some "OCTET STRING";
        user_can_specify = true;
        characteristic = Characteristic.not_key_characteristic;
        op_param = OperationParam.key_gen_import;
        keymint_auto_adds = false;
        lifetime = ValueLifetime.fixed_at_boot;
        cert_gen = CertGenParam.optional_for_attestation;
        bit_index = 42;
      },
    )
    ∷ (
      Tag.attestation_id_imei,
      record {
        name = "ATTESTATION_ID_IMEI";
        tt = TagType.bytes;
        ext_asn1_type = some "OCTET STRING";
        user_can_specify = true;
        characteristic = Characteristic.not_key_characteristic;
        op_param = OperationParam.key_gen_import;
        keymint_auto_adds = false;
        lifetime = ValueLifetime.fixed_at_boot;
        cert_gen = CertGenParam.optional_for_attestation;
        bit_index = 43;
      },
    )
    ∷ (
      Tag.attestation_id_second_imei,
      record {
        name = "ATTESTATION_ID_SECOND_IMEI";
        tt = TagType.bytes;
        ext_asn1_type = some "OCTET STRING";
        user_can_specify = true;
        characteristic = Characteristic.not_key_characteristic;
        op_param = OperationParam.key_gen_import;
        keymint_auto_adds = false;
        lifetime = ValueLifetime.fixed_at_boot;
        cert_gen = CertGenParam.optional_for_attestation;
        bit_index = 44;
      },
    )
    ∷ (
      Tag.attestation_id_meid,
      record {
        name = "ATTESTATION_ID_MEID";
        tt = TagType.bytes;
        ext_asn1_type = some "OCTET STRING";
        user_can_specify = true;
        characteristic = Characteristic.not_key_characteristic;
        op_param = OperationParam.key_gen_import;
        keymint_auto_adds = false;
        lifetime = ValueLifetime.fixed_at_boot;
        cert_gen = CertGenParam.optional_for_attestation;
        bit_index = 45;
      },
    )
    ∷ (
      Tag.attestation_id_manufacturer,
      record {
        name = "ATTESTATION_ID_MANUFACTURER";
        tt = TagType.bytes;
        ext_asn1_type = some "OCTET STRING";
        user_can_specify = true;
        characteristic = Characteristic.not_key_characteristic;
        op_param = OperationParam.key_gen_import;
        keymint_auto_adds = false;
        lifetime = ValueLifetime.fixed_at_boot;
        cert_gen = CertGenParam.optional_for_attestation;
        bit_index = 46;
      },
    )
    ∷ (
      Tag.attestation_id_model,
      record {
        name = "ATTESTATION_ID_MODEL";
        tt = TagType.bytes;
        ext_asn1_type = some "OCTET STRING";
        user_can_specify = true;
        characteristic = Characteristic.not_key_characteristic;
        op_param = OperationParam.key_gen_import;
        keymint_auto_adds = false;
        lifetime = ValueLifetime.fixed_at_boot;
        cert_gen = CertGenParam.optional_for_attestation;
        bit_index = 47;
      },
    )
    ∷ []
