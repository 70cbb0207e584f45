-- ===== src/Tag/Info/Table/Cipher.antt =====
-- Entries of `INFO` (common/src/tag/info.rs).
use platform_system_keymint.Common.{true, false, none, some, List, [], ◌∷◌}
use platform_system_keymint.Wire.Tags.{Tag}
use platform_system_keymint.Wire.TagTypes.{TagType}
use platform_system_keymint.Tag.Info.Kinds.{
  Characteristic, OperationParam, ValueLifetime, CertGenParam, Info,
}

unfoldable pub info_from_purpose : List (Tag × Info)
info_from_purpose =
    (
      Tag.purpose,
      record {
        name = "PURPOSE";
        tt = TagType.enum_rep;
        ext_asn1_type = some "SET OF INTEGER";
        user_can_specify = true;
        characteristic = Characteristic.key_mint_enforced;
        op_param = OperationParam.cipher_explicit_arg_one_of;
        keymint_auto_adds = false;
        lifetime = ValueLifetime.variable;
        cert_gen = CertGenParam.not_required;
        bit_index = 0;
      },
    )
    ∷ (
      Tag.algorithm,
      record {
        name = "ALGORITHM";
        tt = TagType.enum;
        ext_asn1_type = some "INTEGER";
        user_can_specify = true;
        characteristic = Characteristic.key_mint_enforced;
        op_param = OperationParam.not_operation_param;
        keymint_auto_adds = false;
        lifetime = ValueLifetime.variable;
        cert_gen = CertGenParam.not_required;
        bit_index = 1;
      },
    )
    ∷ (
      Tag.key_size,
      record {
        name = "KEY_SIZE";
        tt = TagType.uint;
        ext_asn1_type = some "INTEGER";
        user_can_specify = true;
        characteristic = Characteristic.key_mint_enforced;
        op_param = OperationParam.not_operation_param;
        keymint_auto_adds = false;
        lifetime = ValueLifetime.variable;
        cert_gen = CertGenParam.not_required;
        bit_index = 2;
      },
    )
    ∷ (
      Tag.block_mode,
      record {
        name = "BLOCK_MODE";
        tt = TagType.enum_rep;
        ext_asn1_type = none;
        user_can_specify = true;
        characteristic = Characteristic.key_mint_enforced;
        op_param = OperationParam.cipher_param_one_of;
        keymint_auto_adds = false;
        lifetime = ValueLifetime.variable;
        cert_gen = CertGenParam.not_required;
        bit_index = 3;
      },
    )
    ∷ (
      Tag.digest,
      record {
        name = "DIGEST";
        tt = TagType.enum_rep;
        ext_asn1_type = some "SET OF INTEGER";
        user_can_specify = true;
        characteristic = Characteristic.key_mint_enforced;
        op_param = OperationParam.cipher_param_one_of;
        keymint_auto_adds = false;
        lifetime = ValueLifetime.variable;
        cert_gen = CertGenParam.not_required;
        bit_index = 4;
      },
    )
    ∷ (
      Tag.padding,
      record {
        name = "PADDING";
        tt = TagType.enum_rep;
        ext_asn1_type = some "SET OF INTEGER";
        user_can_specify = true;
        characteristic = Characteristic.key_mint_enforced;
        op_param = OperationParam.cipher_param_one_of;
        keymint_auto_adds = false;
        lifetime = ValueLifetime.variable;
        cert_gen = CertGenParam.not_required;
        bit_index = 5;
      },
    )
    ∷ (
      Tag.caller_nonce,
      record {
        name = "CALLER_NONCE";
        tt = TagType.bool;
        ext_asn1_type = none;
        user_can_specify = true;
        characteristic = Characteristic.key_mint_enforced;
        op_param = OperationParam.not_operation_param;
        keymint_auto_adds = false;
        lifetime = ValueLifetime.variable;
        cert_gen = CertGenParam.not_required;
        bit_index = 6;
      },
    )
    ∷ (
      Tag.min_mac_length,
      record {
        name = "MIN_MAC_LENGTH";
        tt = TagType.uint;
        ext_asn1_type = none;
        user_can_specify = true;
        characteristic = Characteristic.key_mint_enforced;
        op_param = OperationParam.not_operation_param;
        keymint_auto_adds = false;
        lifetime = ValueLifetime.variable;
        cert_gen = CertGenParam.not_required;
        bit_index = 7;
      },
    )
    ∷ (
      Tag.ec_curve,
      record {
        name = "EC_CURVE";
        tt = TagType.enum;
        ext_asn1_type = some "INTEGER";
        user_can_specify = true;
        characteristic = Characteristic.key_mint_enforced;
        op_param = OperationParam.not_operation_param;
        keymint_auto_adds = false;
        lifetime = ValueLifetime.variable;
        cert_gen = CertGenParam.not_required;
        bit_index = 8;
      },
    )
    ∷ (
      Tag.rsa_public_exponent,
      record {
        name = "RSA_PUBLIC_EXPONENT";
        tt = TagType.ulong;
        ext_asn1_type = some "INTEGER";
        user_can_specify = true;
        characteristic = Characteristic.key_mint_enforced;
        op_param = OperationParam.not_operation_param;
        keymint_auto_adds = false;
        lifetime = ValueLifetime.variable;
        cert_gen = CertGenParam.not_required;
        bit_index = 9;
      },
    )
    ∷ []
