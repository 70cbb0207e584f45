-- ===== src/Wire/Formats.antt =====
-- Enumerations of the HAL interface (wire/src/keymint.rs). A value of `#[repr(i32)]` is its 32-bit
-- pattern, so that -1 is 2 ^ 32 - 1. `try_from` is `try_from_n!`, of wire/src/lib.rs.
use mathlib.Core.Option.{Option}
use platform_system_keymint.Common.{
  ℕ, ◌<◌, ◌≡◌, refl, Bool, true, arith, ◌==◌, if◌then◌else◌, ==→eq, ==_refl,
}

pub data KeyFormat : Type 0 where
  x509 pkcs8 raw : KeyFormat

-- The discriminant as its 32-bit pattern: `as u32`.
unfoldable pub key_format_as_u32 : KeyFormat → ℕ
key_format_as_u32 KeyFormat.x509 = 0
key_format_as_u32 KeyFormat.pkcs8 = 1
key_format_as_u32 KeyFormat.raw = 3

unfoldable pub key_format_try_from : ℕ → Option KeyFormat
key_format_try_from v =
    if v == 0
    then Option.some KeyFormat.x509
    else if v == 1
    then Option.some KeyFormat.pkcs8
    else if v == 3
    then Option.some KeyFormat.raw
    else Option.none

pub key_format_try_from-as_u32 :
    (x : KeyFormat) → key_format_try_from (key_format_as_u32 x) ≡ Option.some x
unfolding key_format_try_from key_format_as_u32
key_format_try_from-as_u32 KeyFormat.x509 = refl
key_format_try_from-as_u32 _ = refl

pub key_format_as_u32_lt : (x : KeyFormat) → key_format_as_u32 x < 4294967296
unfolding key_format_as_u32
key_format_as_u32_lt KeyFormat.x509 = omega arith
key_format_as_u32_lt _ = omega arith

-- The derived `==` compares discriminants.
unfoldable pub key_format_eq : KeyFormat → KeyFormat → Bool
unfolding key_format_as_u32
key_format_eq a b = key_format_as_u32 a == key_format_as_u32 b

pub key_format_eq→eq : (a b : KeyFormat) → key_format_eq a b ≡ true → a ≡ b
unfolding key_format_eq
key_format_eq→eq a b h = cc (
  ==→eq (key_format_as_u32 a) (key_format_as_u32 b) h,
  key_format_try_from-as_u32 a,
  key_format_try_from-as_u32 b,
)

pub key_format_eq_refl : (a : KeyFormat) → key_format_eq a a ≡ true
unfolding key_format_eq
key_format_eq_refl a = ==_refl (key_format_as_u32 a)
