-- ===== src/Ta/Auth.antt =====
-- Checks of authentication tokens (ta/src/operation.rs, ta/src/lib.rs).
pub mod Validity
pub mod Subsequent
pub mod Info
use Prim.Native.Nat.{bit_and}
use platform_system_keymint.Common.{
  ℕ, ◌+◌, ◌*◌, Bool, true, false, ◌||◌, ◌&&◌, not, Option, none, some, List, [], ◌∷◌, ◌++◌, ok, err,
  panic, ok_or, fail_if, panic_unless, ◌>>=◌, ◌>>◌, ltb, ◌==◌, if◌then◌else◌,
}
use platform_system_keymint.KmError.{Error, Result, hal}
use platform_system_keymint.Wire.Errors.{ErrorCode}
use platform_system_keymint.Wire.KeyParams.{KeyParam}
use platform_system_keymint.Wire.Tokens.{hardware_authenticator_type_as_u32}
use platform_system_keymint.Ta.Tokens.{
  HardwareAuthToken, TimeStampToken, hardware_auth_token_mac_input, timestamp_token_mac_input,
  i64_rank,
}
use platform_system_keymint.Ta.Platform.{Platform, Env}

pub record AuthInfo : Type 0 where
  pub secure_ids : List ℕ
  pub auth_type : ℕ
  pub timeout_secs : Option ℕ

-- What the loop of `AuthInfo::new` gathers.
pub record Gathered : Type 0 where
  pub secure_ids : List ℕ
  pub auth_type : Option ℕ
  pub timeout_secs : Option ℕ
  pub no_auth_required : Bool

abbrev bad_blob : Error
bad_blob = hal ErrorCode.invalid_key_blob

abbrev pub not_authenticated : Error
not_authenticated = hal ErrorCode.key_user_not_authenticated

abbrev pub is_some {ℓ} : {A : Type ℓ} → Option A → Bool
is_some none = false
is_some (some _) = true

unfoldable pub gather_param : KeyParam → Gathered → Result Gathered
gather_param (KeyParam.user_secure_id sid) g =
    ok (record g { secure_ids = g.secure_ids ++ (sid ∷ []) })
gather_param (KeyParam.user_auth_type atype) g =
    if is_some g.auth_type then err bad_blob else ok (record g { auth_type = some atype })
gather_param (KeyParam.auth_timeout secs) g =
    if is_some g.timeout_secs then err bad_blob else ok (record g { timeout_secs = some secs })
gather_param KeyParam.no_auth_required g = ok (record g { no_auth_required = true })
gather_param _ g = ok g

unfoldable pub gather : List KeyParam → Gathered → Result Gathered
unfolding gather_param
gather [] g = ok g
gather (p ∷ ps) g = gather_param p g >>= gather ps

-- `AuthInfo::new` after its loop.
unfoldable pub auth_info_of : List ℕ → Gathered → Result (Option AuthInfo)
auth_info_of [] g = ok none
auth_info_of (sid ∷ sids) g = elim g.auth_type [
  | none ↦ err not_authenticated
  | some auth_type ↦
      if g.no_auth_required
      then err bad_blob
      else ok (
          some (record {
            secure_ids = sid ∷ sids;
            auth_type = auth_type;
            timeout_secs = g.timeout_secs;
          }))
]

unfoldable pub auth_info_new : List KeyParam → Result (Option AuthInfo)
unfolding gather auth_info_of
auth_info_new key_chars = do
  g ←
      gather key_chars (record {
        secure_ids = [];
        auth_type = none;
        timeout_secs = none;
        no_auth_required = false;
      })
  auth_info_of g.secure_ids g

-- `iter().any(…)` over the key's secure ids.
unfoldable pub any_id : List ℕ → HardwareAuthToken → Bool
any_id [] token = false
any_id (sid ∷ sids) token =
    (token.user_id == sid || token.authenticator_id == sid) || any_id sids token

module _ (P : Platform) (env : Env) where
  unfoldable pub device_hmac : List ℕ → Result (List ℕ)
  device_hmac input = elim env.device_hmac [
    | none ↦ err (hal ErrorCode.hardware_not_yet_available)
    | some hmac ↦ hmac input
  ]

  unfoldable pub verify_device_hmac : List ℕ → List ℕ → Result Bool
  unfolding device_hmac
  verify_device_hmac input mac = do remac ← device_hmac input; ok (P.eq mac remac)

  -- `now.milliseconds > timestamp.milliseconds + 1000 * timeout_secs`; the sum is checked.
  unfoldable pub check_time : HardwareAuthToken → Option ℕ → Option ℕ → Result (Unit {0})
  check_time token (some now) (some secs) = do
    panic_unless (ltb (i64_rank token.timestamp + 1000 * secs) 18446744073709551616)
    fail_if (ltb (i64_rank token.timestamp + 1000 * secs) (i64_rank now)) not_authenticated
  check_time token (some now) none = ok tt
  check_time token none timeout = ok tt

  unfoldable pub check_challenge : HardwareAuthToken → Option ℕ → Result (Unit {0})
  check_challenge token none = ok tt
  check_challenge token (some challenge) =
      fail_if (not (token.challenge == challenge)) not_authenticated

  unfoldable pub check_auth_token :
      HardwareAuthToken → AuthInfo → Option ℕ → Option ℕ → Option ℕ → Result (Unit {0})
  unfolding verify_device_hmac any_id check_time check_challenge
  check_auth_token token info now timeout challenge = do
    verified ← verify_device_hmac (hardware_auth_token_mac_input P.endian token) token.mac
    fail_if (not verified) not_authenticated
    fail_if
        (bit_and (hardware_authenticator_type_as_u32 token.authenticator_type) info.auth_type == 0)
        not_authenticated
    fail_if (not (any_id info.secure_ids token)) not_authenticated
    check_time token now timeout
    check_challenge token challenge

  -- `check_subsequent_auth`, for the operation's handle and authentication data.
  unfoldable pub check_subsequent_auth :
      ℕ → Option AuthInfo → Option HardwareAuthToken → Option TimeStampToken → Result Bool
  unfolding check_auth_token
  check_subsequent_auth handle none auth_token timestamp_token = ok false
  check_subsequent_auth handle (some info) auth_token timestamp_token = do
    token ← ok_or not_authenticated auth_token
    elim info.timeout_secs [
      | none ↦ check_auth_token token info none none (some handle) >> ok true
      | some secs ↦ do
        fail_if (is_some env.clock) (hal ErrorCode.invalid_authorization_timeout)
        stamp ← ok_or (hal ErrorCode.invalid_argument) timestamp_token
        fail_if (not (stamp.challenge == handle)) (hal ErrorCode.invalid_argument)
        verified ← verify_device_hmac (timestamp_token_mac_input stamp) stamp.mac
        fail_if (not verified) (hal ErrorCode.invalid_argument)
        check_auth_token token info (some stamp.timestamp) (some secs) (some handle)
        ok false
    ]
