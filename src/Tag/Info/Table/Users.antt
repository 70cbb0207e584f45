-- ===== src/Tag/Info/Table/Users.antt =====
-- Entries of `INFO` (common/src/tag/info.rs).
use platform_system_keymint.Common.{true, false, none, some, List, [], ◌∷◌}
use platform_system_keymint.Wire.Tags.{Tag}
use platform_system_keymint.Wire.TagTypes.{TagType}
use platform_system_keymint.Tag.Info.Kinds.{
  Characteristic, OperationParam, ValueLifetime, CertGenParam, Info,
}

unfoldable pub info_from_user_id : List (Tag × Info)
info_from_user_id =
    (
      Tag.user_id,
      record {
        name = "USER_ID";
        tt = TagType.uint;
        ext_asn1_type = none;
        user_can_specify = true;
        characteristic = Characteristic.keystore_enforced;
        op_param = OperationParam.not_operation_param;
        keymint_auto_adds = false;
        lifetime = ValueLifetime.variable;
        cert_gen = CertGenParam.not_required;
        bit_index = 20;
      },
    )
    ∷ (
      Tag.user_secure_id,
      record {
        name = "USER_SECURE_ID";
        tt = TagType.ulong_rep;
        ext_asn1_type = none;
        user_can_specify = true;
        characteristic = Characteristic.key_mint_enforced;
        op_param = OperationParam.cipher_explicit_arg_one_of;
        keymint_auto_adds = false;
        lifetime = ValueLifetime.variable;
        cert_gen = CertGenParam.not_required;
        bit_index = 21;
      },
    )
    ∷ (
      Tag.no_auth_required,
      record {
        name = "NO_AUTH_REQUIRED";
        tt = TagType.bool;
        ext_asn1_type = some "NULL";
        user_can_specify = true;
        characteristic = Characteristic.key_mint_enforced;
        op_param = OperationParam.not_operation_param;
        keymint_auto_adds = false;
        lifetime = ValueLifetime.variable;
        cert_gen = CertGenParam.not_required;
        bit_index = 22;
      },
    )
    ∷ (
      Tag.user_auth_type,
      record {
        name = "USER_AUTH_TYPE";
        tt = TagType.enum;
        ext_asn1_type = some "INTEGER";
        user_can_specify = true;
        characteristic = Characteristic.key_mint_enforced;
        op_param = OperationParam.cipher_param_one_of;
        keymint_auto_adds = false;
        lifetime = ValueLifetime.variable;
        cert_gen = CertGenParam.not_required;
        bit_index = 23;
      },
    )
    ∷ (
      Tag.auth_timeout,
      record {
        name = "AUTH_TIMEOUT";
        tt = TagType.uint;
        ext_asn1_type = some "INTEGER";
        user_can_specify = true;
        characteristic = Characteristic.key_mint_enforced;
        op_param = OperationParam.not_operation_param;
        keymint_auto_adds = false;
        lifetime = ValueLifetime.variable;
        cert_gen = CertGenParam.not_required;
        bit_index = 24;
      },
    )
    ∷ (
      Tag.allow_while_on_body,
      record {
        name = "ALLOW_WHILE_ON_BODY";
        tt = TagType.bool;
        ext_asn1_type = some "NULL";
        user_can_specify = true;
        characteristic = Characteristic.keystore_enforced;
        op_param = OperationParam.not_operation_param;
        keymint_auto_adds = false;
        lifetime = ValueLifetime.variable;
        cert_gen = CertGenParam.not_required;
        bit_index = 25;
      },
    )
    ∷ (
      Tag.trusted_user_presence_required,
      record {
        name = "TRUSTED_USER_PRESENCE_REQUIRED";
        tt = TagType.bool;
        ext_asn1_type = some "NULL";
        user_can_specify = true;
        characteristic = Characteristic.key_mint_enforced;
        op_param = OperationParam.not_operation_param;
        keymint_auto_adds = false;
        lifetime = ValueLifetime.variable;
        cert_gen = CertGenParam.not_required;
        bit_index = 26;
      },
    )
    ∷ (
      Tag.trusted_confirmation_required,
      record {
        name = "TRUSTED_CONFIRMATION_REQUIRED";
        tt = TagType.bool;
        ext_asn1_type = some "NULL";
        user_can_specify = true;
        characteristic = Characteristic.key_mint_enforced;
        op_param = OperationParam.not_operation_param;
        keymint_auto_adds = false;
        lifetime = ValueLifetime.variable;
        cert_gen = CertGenParam.not_required;
        bit_index = 27;
      },
    )
    ∷ (
      Tag.unlocked_device_required,
      record {
        name = "UNLOCKED_DEVICE_REQUIRED";
        tt = TagType.bool;
        ext_asn1_type = some "NULL";
        user_can_specify = true;
        characteristic = Characteristic.keystore_enforced;
        op_param = OperationParam.not_operation_param;
        keymint_auto_adds = false;
        lifetime = ValueLifetime.variable;
        cert_gen = CertGenParam.not_required;
        bit_index = 28;
      },
    )
    ∷ []
