-- ===== src/Wire/Tokens.antt =====
-- Enumerations of the HAL interface (wire/src/keymint.rs). A value of `#[repr(i32)]` is its 32-bit
-- pattern, so that -1 is 2 ^ 32 - 1. `try_from` is `try_from_n!`, of wire/src/lib.rs.
use mathlib.Core.Option.{Option}
use platform_system_keymint.Common.{
  ℕ, ◌<◌, ◌≡◌, refl, Bool, true, arith, ◌==◌, if◌then◌else◌, ==→eq, ==_refl,
}

pub data HardwareAuthenticatorType : Type 0 where
  none password fingerprint any : HardwareAuthenticatorType

-- The discriminant as its 32-bit pattern: `as u32`.
unfoldable pub hardware_authenticator_type_as_u32 : HardwareAuthenticatorType → ℕ
hardware_authenticator_type_as_u32 HardwareAuthenticatorType.none = 0
hardware_authenticator_type_as_u32 HardwareAuthenticatorType.password = 1
hardware_authenticator_type_as_u32 HardwareAuthenticatorType.fingerprint = 2
hardware_authenticator_type_as_u32 HardwareAuthenticatorType.any = 4294967295

unfoldable pub hardware_authenticator_type_try_from : ℕ → Option HardwareAuthenticatorType
hardware_authenticator_type_try_from v =
    if v == 0
    then Option.some HardwareAuthenticatorType.none
    else if v == 1
    then Option.some HardwareAuthenticatorType.password
    else if v == 2
    then Option.some HardwareAuthenticatorType.fingerprint
    else if v == 4294967295
    then Option.some HardwareAuthenticatorType.any
    else Option.none

pub hardware_authenticator_type_try_from-as_u32 :
    (x : HardwareAuthenticatorType)
    → hardware_authenticator_type_try_from (hardware_authenticator_type_as_u32 x) ≡ Option.some x
unfolding hardware_authenticator_type_try_from hardware_authenticator_type_as_u32
hardware_authenticator_type_try_from-as_u32 HardwareAuthenticatorType.none = refl
hardware_authenticator_type_try_from-as_u32 _ = refl

pub hardware_authenticator_type_as_u32_lt :
    (x : HardwareAuthenticatorType) → hardware_authenticator_type_as_u32 x < 4294967296
unfolding hardware_authenticator_type_as_u32
hardware_authenticator_type_as_u32_lt HardwareAuthenticatorType.none = omega arith
hardware_authenticator_type_as_u32_lt _ = omega arith

-- The derived `==` compares discriminants.
unfoldable pub hardware_authenticator_type_eq :
    HardwareAuthenticatorType → HardwareAuthenticatorType → Bool
unfolding hardware_authenticator_type_as_u32
hardware_authenticator_type_eq a b =
    hardware_authenticator_type_as_u32 a == hardware_authenticator_type_as_u32 b

pub hardware_authenticator_type_eq→eq :
    (a b : HardwareAuthenticatorType) → hardware_authenticator_type_eq a b ≡ true → a ≡ b
unfolding hardware_authenticator_type_eq
hardware_authenticator_type_eq→eq a b h = cc (
  ==→eq (hardware_authenticator_type_as_u32 a) (hardware_authenticator_type_as_u32 b) h,
  hardware_authenticator_type_try_from-as_u32 a,
  hardware_authenticator_type_try_from-as_u32 b,
)

pub hardware_authenticator_type_eq_refl :
    (a : HardwareAuthenticatorType) → hardware_authenticator_type_eq a a ≡ true
unfolding hardware_authenticator_type_eq
hardware_authenticator_type_eq_refl a = ==_refl (hardware_authenticator_type_as_u32 a)

pub data VerifiedBootState : Type 0 where
  verified self_signed unverified failed : VerifiedBootState

-- The discriminant as its 32-bit pattern: `as u32`.
unfoldable pub verified_boot_state_as_u32 : VerifiedBootState → ℕ
verified_boot_state_as_u32 VerifiedBootState.verified = 0
verified_boot_state_as_u32 VerifiedBootState.self_signed = 1
verified_boot_state_as_u32 VerifiedBootState.unverified = 2
verified_boot_state_as_u32 VerifiedBootState.failed = 3

unfoldable pub verified_boot_state_try_from : ℕ → Option VerifiedBootState
verified_boot_state_try_from v =
    if v == 0
    then Option.some VerifiedBootState.verified
    else if v == 1
    then Option.some VerifiedBootState.self_signed
    else if v == 2
    then Option.some VerifiedBootState.unverified
    else if v == 3
    then Option.some VerifiedBootState.failed
    else Option.none

pub verified_boot_state_try_from-as_u32 :
    (x : VerifiedBootState)
    → verified_boot_state_try_from (verified_boot_state_as_u32 x) ≡ Option.some x
unfolding verified_boot_state_try_from verified_boot_state_as_u32
verified_boot_state_try_from-as_u32 VerifiedBootState.verified = refl
verified_boot_state_try_from-as_u32 _ = refl

pub verified_boot_state_as_u32_lt :
    (x : VerifiedBootState) → verified_boot_state_as_u32 x < 4294967296
unfolding verified_boot_state_as_u32
verified_boot_state_as_u32_lt VerifiedBootState.verified = omega arith
verified_boot_state_as_u32_lt _ = omega arith

-- The derived `==` compares discriminants.
unfoldable pub verified_boot_state_eq : VerifiedBootState → VerifiedBootState → Bool
unfolding verified_boot_state_as_u32
verified_boot_state_eq a b = verified_boot_state_as_u32 a == verified_boot_state_as_u32 b

pub verified_boot_state_eq→eq :
    (a b : VerifiedBootState) → verified_boot_state_eq a b ≡ true → a ≡ b
unfolding verified_boot_state_eq
verified_boot_state_eq→eq a b h = cc (
  ==→eq (verified_boot_state_as_u32 a) (verified_boot_state_as_u32 b) h,
  verified_boot_state_try_from-as_u32 a,
  verified_boot_state_try_from-as_u32 b,
)

pub verified_boot_state_eq_refl : (a : VerifiedBootState) → verified_boot_state_eq a a ≡ true
unfolding verified_boot_state_eq
verified_boot_state_eq_refl a = ==_refl (verified_boot_state_as_u32 a)
