-- ===== src/Ta/Versions.antt =====
-- The versions that a key blob is bound to (`keyblob_parse_decrypt`, ta/src/lib.rs): the loop over
-- the key's characteristics after the blob is decrypted.
pub mod Current
use platform_system_keymint.Common.{
  ℕ, Bool, true, false, not, Option, none, some, List, [], ◌∷◌, ok, err, panic, fail_if, ◌>>=◌,
  ◌>>◌, ltb, ◌==◌, if◌then◌else◌,
}
use platform_system_keymint.KmError.{Result, hal}
use platform_system_keymint.Wire.Errors.{ErrorCode}
use platform_system_keymint.Wire.KeyParams.{KeyParam}

pub record HalInfo : Type 0 where
  pub os_version : ℕ
  pub os_patchlevel : ℕ
  pub vendor_patchlevel : ℕ

-- The function `check` inside.
unfoldable pub check : ℕ → ℕ → Result (Unit {0})
check v curr =
    if ltb v curr
    then err (hal ErrorCode.key_requires_upgrade)
    else if v == curr
    then ok tt
    else err (hal ErrorCode.invalid_key_blob)

-- One turn of the loop. What is not known yet is not checked, with a message in the log.
unfoldable pub check_param : Option HalInfo → Option ℕ → KeyParam → Result (Unit {0})
unfolding check
check_param (some info) boot_patchlevel (KeyParam.os_version v) =
    if info.os_version == 0
    then fail_if (not (v == 0)) (hal ErrorCode.key_requires_upgrade)
    else check v info.os_version
check_param (some info) boot_patchlevel (KeyParam.os_patchlevel v) = check v info.os_patchlevel
check_param (some info) boot_patchlevel (KeyParam.vendor_patchlevel v) =
    check v info.vendor_patchlevel
check_param hal_info (some level) (KeyParam.boot_patchlevel v) = check v level
check_param hal_info boot_patchlevel p = ok tt

-- The loop, for the HAL information and the patch level of the boot information.
unfoldable pub check_versions : Option HalInfo → Option ℕ → List KeyParam → Result (Unit {0})
unfolding check_param
check_versions hal_info boot_patchlevel [] = ok tt
check_versions hal_info boot_patchlevel (p ∷ ps) =
    check_param hal_info boot_patchlevel p >> check_versions hal_info boot_patchlevel ps
