-- ===== src/Tag/Info/Kinds.antt =====
-- What is known about a tag (common/src/tag/info.rs).
use Prim.Native.String.{String}
use platform_system_keymint.Common.{ℕ, Bool, Option}
use platform_system_keymint.Wire.TagTypes.{TagType}

-- How a tag acts as a key characteristic.
pub data Characteristic : Type 0 where
  key_mint_enforced key_mint_hidden keystore_enforced both_enforced not_key_characteristic :
      Characteristic

-- How a tag acts as a parameter of an operation.
pub data OperationParam : Type 0 where
  key_gen_import cipher_explicit_arg_one_of cipher_param_one_of cipher_param_exact_match
        cipher_param not_operation_param :
      OperationParam

-- How long the value of a tag stays.
pub data ValueLifetime : Type 0 where
  fixed_at_boot fixed_at_startup variable : ValueLifetime

-- The role of a tag in certificate generation.
pub data CertGenParam : Type 0 where
  not_required required required_for_attestation optional optional_for_attestation special :
      CertGenParam

-- `UserSpecifiable` and `AutoAddedCharacteristic` hold one `bool` each.
pub record Info : Type 0 where
  pub name : String
  pub tt : TagType
  pub ext_asn1_type : Option String
  pub user_can_specify : Bool
  pub characteristic : Characteristic
  pub op_param : OperationParam
  pub keymint_auto_adds : Bool
  pub lifetime : ValueLifetime
  pub cert_gen : CertGenParam
  pub bit_index : ℕ
