-- ===== src/Wire/Modes.antt =====
-- Enumerations of the HAL interface (wire/src/keymint.rs). A value of `#[repr(i32)]` is its 32-bit
-- pattern, so that -1 is 2 ^ 32 - 1. `try_from` is `try_from_n!`, of wire/src/lib.rs.
use mathlib.Core.Option.{Option}
use platform_system_keymint.Common.{
  ℕ, ◌<◌, ◌≡◌, refl, Bool, true, arith, ◌==◌, if◌then◌else◌, ==→eq, ==_refl,
}

pub data KeyOrigin : Type 0 where
  generated derived imported reserved securely_imported : KeyOrigin

-- The discriminant as its 32-bit pattern: `as u32`.
unfoldable pub key_origin_as_u32 : KeyOrigin → ℕ
key_origin_as_u32 KeyOrigin.generated = 0
key_origin_as_u32 KeyOrigin.derived = 1
key_origin_as_u32 KeyOrigin.imported = 2
key_origin_as_u32 KeyOrigin.reserved = 3
key_origin_as_u32 KeyOrigin.securely_imported = 4

unfoldable pub key_origin_try_from : ℕ → Option KeyOrigin
key_origin_try_from v =
    if v == 0
    then Option.some KeyOrigin.generated
    else if v == 1
    then Option.some KeyOrigin.derived
    else if v == 2
    then Option.some KeyOrigin.imported
    else if v == 3
    then Option.some KeyOrigin.reserved
    else if v == 4
    then Option.some KeyOrigin.securely_imported
    else Option.none

pub key_origin_try_from-as_u32 :
    (x : KeyOrigin) → key_origin_try_from (key_origin_as_u32 x) ≡ Option.some x
unfolding key_origin_try_from key_origin_as_u32
key_origin_try_from-as_u32 KeyOrigin.generated = refl
key_origin_try_from-as_u32 _ = refl

pub key_origin_as_u32_lt : (x : KeyOrigin) → key_origin_as_u32 x < 4294967296
unfolding key_origin_as_u32
key_origin_as_u32_lt KeyOrigin.generated = omega arith
key_origin_as_u32_lt _ = omega arith

-- The derived `==` compares discriminants.
unfoldable pub key_origin_eq : KeyOrigin → KeyOrigin → Bool
unfolding key_origin_as_u32
key_origin_eq a b = key_origin_as_u32 a == key_origin_as_u32 b

pub key_origin_eq→eq : (a b : KeyOrigin) → key_origin_eq a b ≡ true → a ≡ b
unfolding key_origin_eq
key_origin_eq→eq a b h = cc (
  ==→eq (key_origin_as_u32 a) (key_origin_as_u32 b) h,
  key_origin_try_from-as_u32 a,
  key_origin_try_from-as_u32 b,
)

pub key_origin_eq_refl : (a : KeyOrigin) → key_origin_eq a a ≡ true
unfolding key_origin_eq
key_origin_eq_refl a = ==_refl (key_origin_as_u32 a)

pub data KeyPurpose : Type 0 where
  encrypt decrypt sign verify wrap_key agree_key attest_key : KeyPurpose

-- The discriminant as its 32-bit pattern: `as u32`.
unfoldable pub key_purpose_as_u32 : KeyPurpose → ℕ
key_purpose_as_u32 KeyPurpose.encrypt = 0
key_purpose_as_u32 KeyPurpose.decrypt = 1
key_purpose_as_u32 KeyPurpose.sign = 2
key_purpose_as_u32 KeyPurpose.verify = 3
key_purpose_as_u32 KeyPurpose.wrap_key = 5
key_purpose_as_u32 KeyPurpose.agree_key = 6
key_purpose_as_u32 KeyPurpose.attest_key = 7

unfoldable pub key_purpose_try_from : ℕ → Option KeyPurpose
key_purpose_try_from v =
    if v == 0
    then Option.some KeyPurpose.encrypt
    else if v == 1
    then Option.some KeyPurpose.decrypt
    else if v == 2
    then Option.some KeyPurpose.sign
    else if v == 3
    then Option.some KeyPurpose.verify
    else if v == 5
    then Option.some KeyPurpose.wrap_key
    else if v == 6
    then Option.some KeyPurpose.agree_key
    else if v == 7
    then Option.some KeyPurpose.attest_key
    else Option.none

pub key_purpose_try_from-as_u32 :
    (x : KeyPurpose) → key_purpose_try_from (key_purpose_as_u32 x) ≡ Option.some x
unfolding key_purpose_try_from key_purpose_as_u32
key_purpose_try_from-as_u32 KeyPurpose.encrypt = refl
key_purpose_try_from-as_u32 _ = refl

pub key_purpose_as_u32_lt : (x : KeyPurpose) → key_purpose_as_u32 x < 4294967296
unfolding key_purpose_as_u32
key_purpose_as_u32_lt KeyPurpose.encrypt = omega arith
key_purpose_as_u32_lt _ = omega arith

-- The derived `==` compares discriminants.
unfoldable pub key_purpose_eq : KeyPurpose → KeyPurpose → Bool
unfolding key_purpose_as_u32
key_purpose_eq a b = key_purpose_as_u32 a == key_purpose_as_u32 b

pub key_purpose_eq→eq : (a b : KeyPurpose) → key_purpose_eq a b ≡ true → a ≡ b
unfolding key_purpose_eq
key_purpose_eq→eq a b h = cc (
  ==→eq (key_purpose_as_u32 a) (key_purpose_as_u32 b) h,
  key_purpose_try_from-as_u32 a,
  key_purpose_try_from-as_u32 b,
)

pub key_purpose_eq_refl : (a : KeyPurpose) → key_purpose_eq a a ≡ true
unfolding key_purpose_eq
key_purpose_eq_refl a = ==_refl (key_purpose_as_u32 a)

pub data PaddingMode : Type 0 where
  none rsa_oaep rsa_pss rsa_pkcs115_encrypt rsa_pkcs115_sign pkcs7 : PaddingMode

-- The discriminant as its 32-bit pattern: `as u32`.
unfoldable pub padding_mode_as_u32 : PaddingMode → ℕ
padding_mode_as_u32 PaddingMode.none = 1
padding_mode_as_u32 PaddingMode.rsa_oaep = 2
padding_mode_as_u32 PaddingMode.rsa_pss = 3
padding_mode_as_u32 PaddingMode.rsa_pkcs115_encrypt = 4
padding_mode_as_u32 PaddingMode.rsa_pkcs115_sign = 5
padding_mode_as_u32 PaddingMode.pkcs7 = 64

unfoldable pub padding_mode_try_from : ℕ → Option PaddingMode
padding_mode_try_from v =
    if v == 1
    then Option.some PaddingMode.none
    else if v == 2
    then Option.some PaddingMode.rsa_oaep
    else if v == 3
    then Option.some PaddingMode.rsa_pss
    else if v == 4
    then Option.some PaddingMode.rsa_pkcs115_encrypt
    else if v == 5
    then Option.some PaddingMode.rsa_pkcs115_sign
    else if v == 64
    then Option.some PaddingMode.pkcs7
    else Option.none

pub padding_mode_try_from-as_u32 :
    (x : PaddingMode) → padding_mode_try_from (padding_mode_as_u32 x) ≡ Option.some x
unfolding padding_mode_try_from padding_mode_as_u32
padding_mode_try_from-as_u32 PaddingMode.none = refl
padding_mode_try_from-as_u32 _ = refl

pub padding_mode_as_u32_lt : (x : PaddingMode) → padding_mode_as_u32 x < 4294967296
unfolding padding_mode_as_u32
padding_mode_as_u32_lt PaddingMode.none = omega arith
padding_mode_as_u32_lt _ = omega arith

-- The derived `==` compares discriminants.
unfoldable pub padding_mode_eq : PaddingMode → PaddingMode → Bool
unfolding padding_mode_as_u32
padding_mode_eq a b = padding_mode_as_u32 a == padding_mode_as_u32 b

pub padding_mode_eq→eq : (a b : PaddingMode) → padding_mode_eq a b ≡ true → a ≡ b
unfolding padding_mode_eq
padding_mode_eq→eq a b h = cc (
  ==→eq (padding_mode_as_u32 a) (padding_mode_as_u32 b) h,
  padding_mode_try_from-as_u32 a,
  padding_mode_try_from-as_u32 b,
)

pub padding_mode_eq_refl : (a : PaddingMode) → padding_mode_eq a a ≡ true
unfolding padding_mode_eq
padding_mode_eq_refl a = ==_refl (padding_mode_as_u32 a)

pub data SecurityLevel : Type 0 where
  software trusted_environment strongbox keystore : SecurityLevel

-- The discriminant as its 32-bit pattern: `as u32`.
unfoldable pub security_level_as_u32 : SecurityLevel → ℕ
security_level_as_u32 SecurityLevel.software = 0
security_level_as_u32 SecurityLevel.trusted_environment = 1
security_level_as_u32 SecurityLevel.strongbox = 2
security_level_as_u32 SecurityLevel.keystore = 100

unfoldable pub security_level_try_from : ℕ → Option SecurityLevel
security_level_try_from v =
    if v == 0
    then Option.some SecurityLevel.software
    else if v == 1
    then Option.some SecurityLevel.trusted_environment
    else if v == 2
    then Option.some SecurityLevel.strongbox
    else if v == 100
    then Option.some SecurityLevel.keystore
    else Option.none

pub security_level_try_from-as_u32 :
    (x : SecurityLevel) → security_level_try_from (security_level_as_u32 x) ≡ Option.some x
unfolding security_level_try_from security_level_as_u32
security_level_try_from-as_u32 SecurityLevel.software = refl
security_level_try_from-as_u32 _ = refl

pub security_level_as_u32_lt : (x : SecurityLevel) → security_level_as_u32 x < 4294967296
unfolding security_level_as_u32
security_level_as_u32_lt SecurityLevel.software = omega arith
security_level_as_u32_lt _ = omega arith

-- The derived `==` compares discriminants.
unfoldable pub security_level_eq : SecurityLevel → SecurityLevel → Bool
unfolding security_level_as_u32
security_level_eq a b = security_level_as_u32 a == security_level_as_u32 b

pub security_level_eq→eq : (a b : SecurityLevel) → security_level_eq a b ≡ true → a ≡ b
unfolding security_level_eq
security_level_eq→eq a b h = cc (
  ==→eq (security_level_as_u32 a) (security_level_as_u32 b) h,
  security_level_try_from-as_u32 a,
  security_level_try_from-as_u32 b,
)

pub security_level_eq_refl : (a : SecurityLevel) → security_level_eq a a ≡ true
unfolding security_level_eq
security_level_eq_refl a = ==_refl (security_level_as_u32 a)
