-- ===== src/Tag/Extract.antt =====
-- The characteristics of a new key (common/src/tag.rs, with the lists of common/src/tag/info.rs).
pub mod Policed
use platform_system_keymint.Common.{
  ℕ, Bool, true, false, ◌&&◌, ◌||◌, not, Option, none, some, List, [], ◌∷◌, ◌++◌, ok, fail_if,
  ◌>>=◌, ◌>>◌, if◌then◌else◌, ◌==◌,
}
use platform_system_keymint.KmError.{Result, hal}
use platform_system_keymint.Wire.Errors.{ErrorCode}
use platform_system_keymint.Wire.Modes.{SecurityLevel, security_level_eq}
use platform_system_keymint.Wire.Tags.{Tag}
use platform_system_keymint.Wire.KeyParams.{KeyParam, tag, KeyCharacteristics}
use platform_system_keymint.Tag.Begin.Ciphers.{contains}
use platform_system_keymint.Tag.Order.{param_compare, sort_by}

pub data SecureStorage : Type 0 where
  available unavailable : SecureStorage

unfoldable pub keystore_enforced_characteristics : List Tag
keystore_enforced_characteristics =
    Tag.active_datetime ∷ Tag.origination_expire_datetime ∷ Tag.usage_expire_datetime ∷ Tag.user_id
    ∷ Tag.allow_while_on_body ∷ Tag.creation_datetime ∷ Tag.max_boot_level
    ∷ Tag.unlocked_device_required ∷ []

unfoldable pub keymint_enforced_characteristics : List Tag
keymint_enforced_characteristics =
    Tag.user_secure_id ∷ Tag.algorithm ∷ Tag.ec_curve ∷ Tag.user_auth_type ∷ Tag.origin
    ∷ Tag.purpose ∷ Tag.block_mode ∷ Tag.digest ∷ Tag.padding ∷ Tag.rsa_oaep_mgf_digest
    ∷ Tag.key_size ∷ Tag.min_mac_length ∷ Tag.max_uses_per_boot ∷ Tag.auth_timeout ∷ Tag.os_version
    ∷ Tag.os_patchlevel ∷ Tag.vendor_patchlevel ∷ Tag.boot_patchlevel ∷ Tag.rsa_public_exponent
    ∷ Tag.caller_nonce ∷ Tag.bootloader_only ∷ Tag.rollback_resistance ∷ Tag.early_boot_only
    ∷ Tag.no_auth_required ∷ Tag.trusted_user_presence_required ∷ Tag.trusted_confirmation_required
    ∷ Tag.storage_key ∷ []

unfoldable pub auto_added_characteristics : List Tag
auto_added_characteristics =
    Tag.origin ∷ Tag.os_version ∷ Tag.os_patchlevel ∷ Tag.vendor_patchlevel ∷ Tag.boot_patchlevel
    ∷ []

-- The flags of `reject_incompatible_auth`.
pub record AuthSeen : Type 0 where
  pub user_secure_id : Bool
  pub auth_type : Bool
  pub no_auth : Bool

unfoldable pub see_auth : KeyParam → AuthSeen → AuthSeen
see_auth (KeyParam.user_secure_id _) seen = record seen { user_secure_id = true }
see_auth (KeyParam.user_auth_type _) seen = record seen { auth_type = true }
see_auth KeyParam.no_auth_required seen = record seen { no_auth = true }
see_auth _ seen = seen

unfoldable pub see_auths : List KeyParam → AuthSeen → AuthSeen
unfolding see_auth
see_auths [] seen = seen
see_auths (param ∷ params) seen = see_auths params (see_auth param seen)

unfoldable pub reject_incompatible_auth : List KeyParam → Result (Unit {0})
unfolding see_auths
reject_incompatible_auth params = do
  let seen =
      see_auths params (record { user_secure_id = false; auth_type = false; no_auth = false })
  fail_if (seen.no_auth && seen.user_secure_id) (hal ErrorCode.invalid_tag)
  fail_if (seen.no_auth && seen.auth_type) (hal ErrorCode.invalid_tag)
  fail_if (seen.user_secure_id && not seen.auth_type) (hal ErrorCode.invalid_tag)

-- The characteristics collected so far.
pub record Collected : Type 0 where
  pub chars : List KeyParam
  pub keystore_chars : List KeyParam

-- A use limit of one is for KeyMint where storage is available.
unfoldable pub collect_limit : SecureStorage → KeyParam → Collected → Collected
collect_limit SecureStorage.available (KeyParam.usage_count_limit use_limit) c =
    if use_limit == 1
    then record c { chars = c.chars ++ (KeyParam.usage_count_limit use_limit ∷ []) }
    else record c {
      keystore_chars = c.keystore_chars ++ (KeyParam.usage_count_limit use_limit ∷ []);
    }
collect_limit SecureStorage.unavailable (KeyParam.usage_count_limit use_limit) c = record c {
  keystore_chars = c.keystore_chars ++ (KeyParam.usage_count_limit use_limit ∷ []);
}
collect_limit secure_storage _ c = c

unfoldable pub collect_enforced : KeyParam → Collected → Collected
unfolding contains tag keymint_enforced_characteristics keystore_enforced_characteristics
collect_enforced param c =
    if contains keymint_enforced_characteristics (tag param)
    then record c { chars = c.chars ++ (param ∷ []) }
    else if contains keystore_enforced_characteristics (tag param)
    then record c { keystore_chars = c.keystore_chars ++ (param ∷ []) }
    else c

-- The loop of `extract_key_characteristics`.
unfoldable pub collect :
    SecureStorage → SecurityLevel → List KeyParam → Collected → Result Collected
unfolding contains tag auto_added_characteristics security_level_eq collect_limit collect_enforced
collect secure_storage sec_level [] c = ok c
collect secure_storage sec_level (param ∷ params) c = do
  fail_if (contains auto_added_characteristics (tag param)) (hal ErrorCode.invalid_tag)
  fail_if
      (security_level_eq sec_level SecurityLevel.strongbox
        && contains (Tag.max_uses_per_boot ∷ Tag.rollback_resistance ∷ []) (tag param))
      (hal ErrorCode.invalid_tag)
  collect secure_storage sec_level params
      (collect_enforced param (collect_limit secure_storage param c))

-- The lists at their security levels; an empty list for Keystore is left out.
unfoldable pub at_levels : SecurityLevel → List KeyParam → List KeyParam → List KeyCharacteristics
at_levels sec_level chars [] = record { security_level = sec_level; authorizations = chars } ∷ []
at_levels sec_level chars (param ∷ params) =
    record { security_level = sec_level; authorizations = chars }
    ∷ record { security_level = SecurityLevel.keystore; authorizations = param ∷ params }
    ∷ []

unfoldable pub extract_key_characteristics :
    SecureStorage → List KeyParam → List KeyParam → SecurityLevel → Result (List KeyCharacteristics)
unfolding collect reject_incompatible_auth sort_by param_compare at_levels
extract_key_characteristics secure_storage params extra_params sec_level = do
  c ←
      collect secure_storage sec_level (params ++ extra_params)
        (record { chars = []; keystore_chars = [] })
  reject_incompatible_auth c.chars
  ok (at_levels sec_level (sort_by param_compare c.chars) (sort_by param_compare c.keystore_chars))
