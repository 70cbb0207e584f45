-- ===== src/Ta/Boot.antt =====
-- What the bootloader and the HAL tell the trusted application once (`set_boot_info`,
-- `set_hal_info` and the end of early boot, ta/src/lib.rs).
pub mod Latch
use platform_system_keymint.Common.{
  ℕ, Bool, true, false, ◌&&◌, not, Option, none, some, List, [], ◌∷◌, ok, err, if◌then◌else◌, ◌==◌,
}
use platform_system_keymint.Common.Bytes.{bytes_eq}
use platform_system_keymint.KmError.{Result, hal}
use platform_system_keymint.Wire.Errors.{ErrorCode}
use platform_system_keymint.Wire.Tokens.{VerifiedBootState, verified_boot_state_eq}
use platform_system_keymint.Ta.Versions.{HalInfo}

pub record BootInfo : Type 0 where
  pub verified_boot_key : List ℕ
  pub device_boot_locked : Bool
  pub verified_boot_state : VerifiedBootState
  pub verified_boot_hash : List ℕ
  pub boot_patchlevel : ℕ

-- The fields of `KeyMintTa` that are set at the start.
pub record BootState : Type 0 where
  pub boot_info : Option BootInfo
  pub rot_data : Option (List ℕ)
  pub hal_info : Option HalInfo
  pub in_early_boot : Bool

abbrev bool_eq : Bool → Bool → Bool
bool_eq true b = b
bool_eq false b = not b

-- The derived equality.
unfoldable pub boot_info_eq : BootInfo → BootInfo → Bool
boot_info_eq a b =
    bytes_eq a.verified_boot_key b.verified_boot_key
    && (bool_eq a.device_boot_locked b.device_boot_locked
        && (verified_boot_state_eq a.verified_boot_state b.verified_boot_state
            && (bytes_eq a.verified_boot_hash b.verified_boot_hash
                && (a.boot_patchlevel == b.boot_patchlevel))))

-- `encode` is `into_vec` of the root of trust, `none` if it fails.
unfoldable pub set_boot_info :
    (BootInfo → Option (List ℕ)) → BootInfo → BootState → Result (Unit {0}) × BootState
set_boot_info encode info s =
    if not s.in_early_boot then (err (hal ErrorCode.early_boot_ended), s) else elim s.boot_info [
      | some existing ↦ (
        if boot_info_eq existing info then ok tt else err (hal ErrorCode.root_of_trust_already_set),
        s,
      )
      | none ↦ elim (encode info) [
        | some rot ↦ (ok tt, record s { boot_info = some info; rot_data = some rot })
        | none ↦ (err (hal ErrorCode.encoding_error), record s { boot_info = some info })
      ]
    ]

unfoldable pub set_hal_info : HalInfo → BootState → BootState
set_hal_info info s = elim s.hal_info [ none ↦ record s { hal_info = some info } | some _ ↦ s ]

abbrev pub early_boot_ended : BootState → BootState
early_boot_ended s = record s { in_early_boot = false }
