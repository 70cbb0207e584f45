-- ===== src/Tests/Tokens.antt =====
-- Tokens on a small device.
use platform_system_keymint.Common.{
  arith, ℕ, ◌≢◌, ◌↔◌, ◌≡◌, refl, false, Option, none, some, List, [], ◌∷◌, replicate, ok,
}
use platform_system_keymint.Common.Bytes.{little, to_ne_bytes, le_bytes}
use platform_system_keymint.Wire.Tokens.{
  HardwareAuthenticatorType, hardware_authenticator_type_as_u32,
}
use platform_system_keymint.Ta.Tokens.{
  HardwareAuthToken, TimeStampToken, hardware_auth_token_mac_input, timestamp_token_mac_input,
}
use platform_system_keymint.Ta.Auth.{
  AuthInfo, check_auth_token, verify_device_hmac, device_hmac, any_id, check_time, check_challenge,
  check_subsequent_auth, auth_info_new, auth_info_of, gather, gather_param,
}
use platform_system_keymint.Ta.Auth.Validity.{
  IsAuthentic, check_auth_token-IsAuthentic, IsSubsequentAuth,
}
use platform_system_keymint.Ta.Auth.Subsequent.{check_subsequent_auth-IsSubsequentAuth}
use platform_system_keymint.Wire.KeyParams.{KeyParam}
use platform_system_keymint.Ta.Auth.Info.{
  secure_ids, auth_types, timeouts, needs_no_auth, to_list, auth_info_new-some,
}
use platform_system_keymint.Ta.Tokens.Injective.{IsRanged, SameClaims, mac_input-SameClaims}
use platform_system_keymint.Tests.Device.{device, env}

-- The challenge is 5, the user 7, and the authenticator 9 of type 1.
abbrev pub token : ℕ → List ℕ → HardwareAuthToken
token time mac = record {
  challenge = 5;
  user_id = 7;
  authenticator_id = 9;
  authenticator_type = HardwareAuthenticatorType.password;
  timestamp = time;
  mac = mac;
}

abbrev pub password_key : Option ℕ → AuthInfo
password_key timeout = record { secure_ids = 3 ∷ 7 ∷ []; auth_type = 1; timeout_secs = timeout }

abbrev pub fresh : HardwareAuthToken
fresh = token 100 (replicate 32 122)

pub fresh_accepted :
    check_auth_token device env fresh (password_key none) none none (some 5) ≡ ok tt
unfolding check_auth_token hardware_auth_token_mac_input verify_device_hmac device_hmac any_id
    check_time check_challenge to_ne_bytes le_bytes hardware_authenticator_type_as_u32
fresh_accepted = refl

check_auth_token-IsAuthentic_example :
    (check_auth_token device env fresh (password_key none) none none (some 5) ≡ ok tt)
    ↔ IsAuthentic device env fresh (password_key none) none none (some 5)
check_auth_token-IsAuthentic_example =
    check_auth_token-IsAuthentic device env fresh (password_key none) none none (some 5)

abbrev stamp : TimeStampToken
stamp = record { challenge = 5; timestamp = 150; mac = replicate 32 49 }

stamp_accepted :
    check_subsequent_auth device env 5 (some (password_key (some 30))) (some fresh) (some stamp)
    ≡ ok false
unfolding check_subsequent_auth check_auth_token hardware_auth_token_mac_input
    timestamp_token_mac_input verify_device_hmac device_hmac any_id check_time check_challenge
    to_ne_bytes le_bytes hardware_authenticator_type_as_u32
stamp_accepted = refl

check_subsequent_auth-IsSubsequentAuth_example :
    IsSubsequentAuth device env 5 (password_key (some 30)) (some fresh) (some stamp) false
check_subsequent_auth-IsSubsequentAuth_example =
    check_subsequent_auth-IsSubsequentAuth device env 5 (password_key (some 30)) (some fresh)
      (some stamp) false stamp_accepted

abbrev characteristics : List KeyParam
characteristics =
    KeyParam.user_secure_id 3
    ∷ KeyParam.key_size 256
    ∷ KeyParam.user_auth_type 1
    ∷ KeyParam.auth_timeout 30
    ∷ []

abbrev info : AuthInfo
info = record { secure_ids = 3 ∷ []; auth_type = 1; timeout_secs = some 30 }

info_found : auth_info_new characteristics ≡ ok (some info)
unfolding auth_info_new gather gather_param auth_info_of
info_found = refl

auth_info_new-some_example :
    (secure_ids characteristics ≡ info.secure_ids)
    × (info.secure_ids ≢ [])
    × (auth_types characteristics ≡ info.auth_type ∷ [])
    × (timeouts characteristics ≡ to_list info.timeout_secs)
    × (needs_no_auth characteristics ≡ false)
auth_info_new-some_example = auth_info_new-some characteristics info info_found

abbrev open_characteristics : List KeyParam
open_characteristics = KeyParam.no_auth_required ∷ KeyParam.key_size 256 ∷ []

no_info_found : auth_info_new open_characteristics ≡ ok none
unfolding auth_info_new gather gather_param auth_info_of
no_info_found = refl

fresh-IsRanged : IsRanged fresh
fresh-IsRanged = record {
  challenge = omega arith;
  user = omega arith;
  authenticator = omega arith;
  time = omega arith;
}

abbrev forged : HardwareAuthToken
forged = token 100 []

forged-IsRanged : IsRanged forged
forged-IsRanged = record {
  challenge = omega arith;
  user = omega arith;
  authenticator = omega arith;
  time = omega arith;
}

same_input :
    hardware_auth_token_mac_input little fresh ≡ hardware_auth_token_mac_input little forged
unfolding hardware_auth_token_mac_input
same_input = refl

mac_input-SameClaims_example : SameClaims fresh forged
mac_input-SameClaims_example =
    mac_input-SameClaims little fresh forged fresh-IsRanged forged-IsRanged same_input
