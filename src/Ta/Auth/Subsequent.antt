-- ===== src/Ta/Auth/Subsequent.antt =====
-- What `check_subsequent_auth` (ta/src/operation.rs) accepts.
use platform_system_keymint.Common.{
  ℕ, ◌≡◌, refl, Bool, true, false, inl, inr, Option, none, some, ok, Outcome-cases, Option-cases,
  Bool-cases, ◌==◌, ==→eq, arith,
}
use platform_system_keymint.Ta.Tokens.{HardwareAuthToken, TimeStampToken, timestamp_token_mac_input}
use platform_system_keymint.Ta.Platform.{Platform, Env}
use platform_system_keymint.Ta.Auth.{
  AuthInfo, verify_device_hmac, check_auth_token, check_subsequent_auth,
}
use platform_system_keymint.Ta.Auth.Validity.{
  verify-HasMac, IsSubsequentAuth, check_auth_token-IsAuthentic,
}

module _ (P : Platform) (env : Env) where
  by_timeout :
      (handle : ℕ) (info : AuthInfo) (token : HardwareAuthToken) (stamp : Option TimeStampToken)
      (secs : ℕ) (again : Bool)
      → info.timeout_secs ≡ some secs
      → check_subsequent_auth P env handle (some info) (some token) stamp ≡ ok again
      → (t : TimeStampToken) × (again ≡ false)
        × (env.clock ≡ none)
        × (stamp ≡ some t)
        × (t.challenge ≡ handle)
        × (verify_device_hmac P env (timestamp_token_mac_input t) t.mac ≡ ok true)
        × (check_auth_token P env token info (some t.timestamp) (some secs) (some handle) ≡ ok tt)
  unfolding check_subsequent_auth
  by_timeout handle info token none secs again w h = ground (arith)
  by_timeout handle info token (some t) secs again w h = elim (Option-cases env.clock) [
    | inr (now, c) ↦ ground (arith)
    | inl c ↦ elim (Bool-cases (t.challenge == handle)) [
      | inr f ↦ ground (arith)
      | inl same ↦
          elim (Outcome-cases (verify_device_hmac P env (timestamp_token_mac_input t) t.mac)) [
            | inr bad ↦ ground (arith)
            | inl (v, q) ↦
                elim (Outcome-cases (
                  check_auth_token P env token info (some t.timestamp) (some secs) (some handle))) [
                    | inr bad ↦ ground (arith)
                    | inl (u, r) ↦ (t, ground (arith), c, refl, ==→eq _ _ same, ground (arith), r)
                  ]
          ]
    ]
  ]

  each_time :
      (handle : ℕ) (info : AuthInfo) (token : HardwareAuthToken) (stamp : Option TimeStampToken)
      (again : Bool)
      → info.timeout_secs ≡ none
      → check_subsequent_auth P env handle (some info) (some token) stamp ≡ ok again
      → (again ≡ true) × (check_auth_token P env token info none none (some handle) ≡ ok tt)
  unfolding check_subsequent_auth
  each_time handle info token stamp again w h = ground (arith)

  subsequent-given :
      (handle : ℕ) (info : AuthInfo) (token : HardwareAuthToken) (stamp : Option TimeStampToken)
      (again : Bool)
      → check_subsequent_auth P env handle (some info) (some token) stamp ≡ ok again
      → IsSubsequentAuth P env handle info (some token) stamp again
  subsequent-given handle info token stamp again h = elim (Option-cases info.timeout_secs) [
    | inl w ↦
        let (a, c) = each_time handle info token stamp again w h in
        record {
          token = token;
          token_given = refl;
          timed =
              inl
                (w, a, (check_auth_token-IsAuthentic P env token info none none (some handle)).0 c);
        }
    | inr (secs, w) ↦
        let (t, a, no_clock, given, same, v, c) =
          by_timeout handle info token stamp secs again w h in
        record {
          token = token;
          token_given = refl;
          timed = inr (
            secs,
            t,
            w,
            a,
            no_clock,
            given,
            same,
            verify-HasMac P env _ _ v,
            (check_auth_token-IsAuthentic P env token info (some t.timestamp) (some secs)
                  (some handle)).0
                c,
          );
        }
  ]

  no_token :
      (handle : ℕ) (info : AuthInfo) (stamp : Option TimeStampToken) (again : Bool)
      → check_subsequent_auth P env handle (some info) none stamp ≡ ok again
      → ⊥
  unfolding check_subsequent_auth
  no_token handle info stamp again h = cc

  -- When `check_subsequent_auth` accepts a call on an operation that has authentication data, an
  -- authentic token with the operation's handle as its challenge was given. Without a timeout the
  -- result asks for the check on every call. With a timeout there is no clock, a timestamp token
  -- with the same challenge and a verified MAC was given, the token is recent at its time, and the
  -- result says that no later call needs the check.
  pub check_subsequent_auth-IsSubsequentAuth :
      (handle : ℕ) (info : AuthInfo) (auth_token : Option HardwareAuthToken)
      (stamp : Option TimeStampToken) (again : Bool)
      → check_subsequent_auth P env handle (some info) auth_token stamp ≡ ok again
      → IsSubsequentAuth P env handle info auth_token stamp again
  check_subsequent_auth-IsSubsequentAuth handle info none stamp again h =
      absurd (no_token handle info stamp again h)
  check_subsequent_auth-IsSubsequentAuth handle info (some token) stamp again h =
      subsequent-given handle info token stamp again h
