-- ===== src/Ta/Tokens.antt =====
-- Tokens that the trusted application authenticates, and the bytes that their MACs cover
-- (wire/src/keymint.rs, wire/src/secureclock.rs, ta/src/lib.rs, ta/src/clock.rs). An `i64` is its
-- 64-bit pattern.
pub mod Injective
use platform_system_keymint.Common.{ℕ, ◌+◌, ◌%◌, List, [], ◌∷◌, ◌++◌}
use platform_system_keymint.Common.Bytes.{Endian, big, to_ne_bytes}
use platform_system_keymint.Wire.Tokens.{
  HardwareAuthenticatorType, hardware_authenticator_type_as_u32,
}

pub record HardwareAuthToken : Type 0 where
  pub challenge : ℕ
  pub user_id : ℕ
  pub authenticator_id : ℕ
  pub authenticator_type : HardwareAuthenticatorType
  pub timestamp : ℕ
  pub mac : List ℕ

pub record TimeStampToken : Type 0 where
  pub challenge : ℕ
  pub timestamp : ℕ
  pub mac : List ℕ

-- `to_be_bytes`
abbrev to_be_bytes : ℕ → ℕ → List ℕ
to_be_bytes = to_ne_bytes big

-- "Auth Verification"
abbrev pub time_stamp_mac_label : List ℕ
time_stamp_mac_label =
    65 ∷ 117 ∷ 116 ∷ 104 ∷ 32 ∷ 86 ∷ 101 ∷ 114 ∷ 105 ∷ 102 ∷ 105 ∷ 99 ∷ 97 ∷ 116 ∷ 105 ∷ 111 ∷ 110
    ∷ []

unfoldable pub hardware_auth_token_mac_input : Endian → HardwareAuthToken → List ℕ
hardware_auth_token_mac_input e token =
    to_be_bytes 1 0
    ++ (to_ne_bytes e 8 token.challenge
        ++ (to_ne_bytes e 8 token.user_id
            ++ (to_ne_bytes e 8 token.authenticator_id
                ++ (to_be_bytes 4 (hardware_authenticator_type_as_u32 token.authenticator_type)
                    ++ to_be_bytes 8 token.timestamp))))

unfoldable pub timestamp_token_mac_input : TimeStampToken → List ℕ
timestamp_token_mac_input token =
    time_stamp_mac_label
    ++ (to_be_bytes 8 token.challenge ++ (to_be_bytes 8 token.timestamp ++ to_be_bytes 4 1))

-- The order of `i64` on its patterns: the pattern shifted so that the least integer is 0.
abbrev pub i64_rank : ℕ → ℕ
i64_rank v = (v + 9223372036854775808) % 18446744073709551616
