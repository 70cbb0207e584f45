-- ===== src/Tests/Booting.antt =====
-- Versions and boot information.
use platform_system_keymint.Common.{
  ℕ, ◌≡◌, ◌↔◌, true, false, Option, none, some, List, [], ◌∷◌, All, ok,
}
use platform_system_keymint.KmError.{Error, hal}
use platform_system_keymint.Wire.Errors.{ErrorCode}
use platform_system_keymint.Wire.KeyParams.{KeyParam}
use platform_system_keymint.Wire.Tokens.{VerifiedBootState}
use platform_system_keymint.Ta.Versions.{HalInfo, check_versions}
use platform_system_keymint.Ta.Versions.Current.{current, Agrees, check_versions-All}
use platform_system_keymint.Ta.Boot.{BootInfo, BootState}
use platform_system_keymint.Ta.Boot.Latch.{Call}

abbrev versions : Option HalInfo
versions = some (record { os_version = 13; os_patchlevel = 202305; vendor_patchlevel = 20230501 })

abbrev old_key : List KeyParam
old_key = KeyParam.os_version 13 ∷ KeyParam.key_size 256 ∷ KeyParam.os_patchlevel 202212 ∷ []

check_versions-All_example :
    (check_versions versions none old_key ≡ ok tt)
    ↔ All (λ p. Agrees (current versions none p)) old_key
check_versions-All_example = check_versions-All versions none old_key

abbrev outdated : Error
outdated = hal ErrorCode.key_requires_upgrade

abbrev verified : BootInfo
verified = record {
  verified_boot_key = 1 ∷ [];
  device_boot_locked = true;
  verified_boot_state = VerifiedBootState.verified;
  verified_boot_hash = 2 ∷ [];
  boot_patchlevel = 20230501;
}

abbrev unlocked : BootInfo
unlocked = record verified { device_boot_locked = false }

abbrev booted : BootState
booted = record {
  boot_info = some verified;
  rot_data = some (1 ∷ []);
  hal_info = none;
  in_early_boot = true;
}

abbrev encode : BootInfo → Option (List ℕ)
encode info = some info.verified_boot_key

abbrev calls : List Call
calls = Call.set_boot unlocked ∷ Call.end_boot ∷ Call.set_boot verified ∷ []
