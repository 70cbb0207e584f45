-- ===== src/Ta/Auth/Validity.antt =====
-- What `check_auth_token` and `check_subsequent_auth` (ta/src/operation.rs) accept.
use Prim.Native.Nat.{bit_and}
use platform_system_keymint.Common.{
  ℕ, zero, suc, ◌+◌, ◌*◌, ◌≤◌, ◌<◌, ◌≡◌, ◌↔◌, refl, Bool, true, false, ◌⊎◌, inl, inr, Option, none,
  some, List, [], ◌∷◌, get_elem?, ok, >>=-eq-ok, Outcome-cases, Bool-cases, ◌==◌, arith,
}
use platform_system_keymint.Wire.Tokens.{hardware_authenticator_type_as_u32}
use platform_system_keymint.Ta.Tokens.{
  HardwareAuthToken, TimeStampToken, hardware_auth_token_mac_input, timestamp_token_mac_input,
  i64_rank,
}
use platform_system_keymint.Ta.Platform.{Platform, Env}
use platform_system_keymint.Ta.Auth.{
  AuthInfo, any_id, device_hmac, verify_device_hmac, check_time, check_challenge, check_auth_token,
}

-- One of the key's secure ids is the token's user or its authenticator.
abbrev pub NamesId : List ℕ → HardwareAuthToken → Type 0
NamesId ids token =
    (k sid : ℕ) × (get_elem? ids k ≡ some sid)
    × ((token.user_id ≡ sid) ⊎ (token.authenticator_id ≡ sid))

NamesId-cons :
    (x : ℕ) (ids : List ℕ) (token : HardwareAuthToken) → NamesId ids token → NamesId (x ∷ ids) token
NamesId-cons x ids token (k, sid, at_k, same) = (suc k, sid, at_k, same)

any_id-NamesId :
    (ids : List ℕ) (token : HardwareAuthToken) → any_id ids token ≡ true → NamesId ids token
unfolding any_id
any_id-NamesId [] token h = cc
any_id-NamesId (x ∷ ids) token h = elim (Bool-cases (token.user_id == x)) [
  | inl u ↦ (zero, x, refl, inl (ground arith))
  | inr no_user ↦ elim (Bool-cases (token.authenticator_id == x)) [
    | inl a ↦ (zero, x, refl, inr (ground arith))
    | inr no_auth ↦ NamesId-cons x ids token (any_id-NamesId ids token (ground arith))
  ]
]

NamesId-any_id :
    (ids : List ℕ) (token : HardwareAuthToken) (k sid : ℕ)
    → get_elem? ids k ≡ some sid
    → (token.user_id ≡ sid) ⊎ (token.authenticator_id ≡ sid)
    → any_id ids token ≡ true
unfolding any_id
NamesId-any_id [] token k sid e same = cc
NamesId-any_id (x ∷ ids) token zero sid e same = ground (arith)
NamesId-any_id (x ∷ ids) token (suc k) sid e same =
    ground (arith, NamesId-any_id ids token k sid e same)

-- The token is not older than the timeout, at a given time. The sum does not overflow an `i64`.
abbrev pub IsRecent : HardwareAuthToken → Option ℕ → Option ℕ → Type 0
IsRecent token (some now) (some secs) =
    (i64_rank token.timestamp + 1000 * secs < 18446744073709551616)
    × (i64_rank now ≤ i64_rank token.timestamp + 1000 * secs)
IsRecent token (some now) none = Unit {0}
IsRecent token none timeout = Unit {0}

abbrev pub MatchesChallenge : HardwareAuthToken → Option ℕ → Type 0
MatchesChallenge token none = Unit {0}
MatchesChallenge token (some challenge) = token.challenge ≡ challenge

module _ (P : Platform) (env : Env) where
  -- The MAC of some bytes verifies under the device's HMAC key.
  abbrev pub HasMac : List ℕ → List ℕ → Type 0
  HasMac input mac =
      (remac : List ℕ) × (device_hmac P env input ≡ ok remac) × (P.eq mac remac ≡ true)

  pub record IsAuthentic (token : HardwareAuthToken) (info : AuthInfo)
      (now timeout challenge : Option ℕ) : Type 0 where
    pub mac_verified : HasMac (hardware_auth_token_mac_input P.endian token) token.mac
    pub type_overlaps :
        (bit_and (hardware_authenticator_type_as_u32 token.authenticator_type) info.auth_type == 0)
        ≡ false
    pub id_named : NamesId info.secure_ids token
    pub recent : IsRecent token now timeout
    pub challenge_matches : MatchesChallenge token challenge

  pub verify-HasMac :
      (input mac : List ℕ) → verify_device_hmac P env input mac ≡ ok true → HasMac input mac
  unfolding verify_device_hmac
  verify-HasMac input mac h = elim (Outcome-cases (device_hmac P env input)) [
    | inl (remac, q) ↦ (remac, q, ground (arith))
    | inr (inl (x, q)) ↦ ground (arith)
    | inr (inr q) ↦ ground (arith)
  ]

  HasMac-verify :
      (input mac : List ℕ) → HasMac input mac → verify_device_hmac P env input mac ≡ ok true
  unfolding verify_device_hmac
  HasMac-verify input mac (remac, q, same) = ground (arith)

  time-IsRecent :
      (token : HardwareAuthToken) (now timeout : Option ℕ)
      → (check_time P env token now timeout ≡ ok tt) ↔ IsRecent token now timeout
  unfolding check_time
  time-IsRecent token none timeout = (λ h. tt, λ h. refl)
  time-IsRecent token (some now) none = (λ h. tt, λ h. refl)
  time-IsRecent token (some now) (some secs) = (λ h. ground arith, λ h. ground arith)

  challenge_lem :
      (token : HardwareAuthToken) (challenge : Option ℕ)
      → (check_challenge P env token challenge ≡ ok tt) ↔ MatchesChallenge token challenge
  unfolding check_challenge
  challenge_lem token none = (λ h. tt, λ h. refl)
  challenge_lem token (some challenge) = (λ h. ground arith, λ h. ground arith)

  check_auth_token-ok :
      (token : HardwareAuthToken) (info : AuthInfo) (now timeout challenge : Option ℕ)
      → check_auth_token P env token info now timeout challenge ≡ ok tt
      → IsAuthentic token info now timeout challenge
  unfolding check_auth_token
  check_auth_token-ok token info now timeout challenge h =
      let input = hardware_auth_token_mac_input P.endian token in
      let (verified, q, h1) = >>=-eq-ok (verify_device_hmac P env input token.mac) _ h in
      let (t, timely, h2) =
        >>=-eq-ok (check_time P env token now timeout) (λ _. check_challenge P env token challenge)
          (ground (arith)) in
      record {
        mac_verified = verify-HasMac input token.mac (ground (arith));
        type_overlaps = ground (arith);
        id_named = any_id-NamesId info.secure_ids token (ground (arith));
        recent = (time-IsRecent token now timeout).0 timely;
        challenge_matches = (challenge_lem token challenge).0 h2;
      }

  ok-check_auth_token :
      (token : HardwareAuthToken) (info : AuthInfo) (now timeout challenge : Option ℕ)
      → IsAuthentic token info now timeout challenge
      → check_auth_token P env token info now timeout challenge ≡ ok tt
  unfolding check_auth_token
  ok-check_auth_token token info now timeout challenge a =
      let (k, sid, at_k, same) = a.id_named in
      let input = hardware_auth_token_mac_input P.endian token in
      rw (HasMac-verify input token.mac a.mac_verified) (
        rw (a.type_overlaps) (
          rw (NamesId-any_id info.secure_ids token k sid at_k same) (
            rw ((time-IsRecent token now timeout).1 a.recent)
              ((challenge_lem token challenge).1 a.challenge_matches))))

  -- `check_auth_token` accepts exactly the tokens whose MAC verifies over the serialized token,
  -- whose type overlaps the key's, that name one of the key's secure ids, that are not too old at
  -- the given time (the sum staying within an `i64`), and whose challenge is the one given.
  pub check_auth_token-IsAuthentic :
      (token : HardwareAuthToken) (info : AuthInfo) (now timeout challenge : Option ℕ)
      → (check_auth_token P env token info now timeout challenge ≡ ok tt)
        ↔ IsAuthentic token info now timeout challenge
  check_auth_token-IsAuthentic token info now timeout challenge = (
    check_auth_token-ok token info now timeout challenge,
    ok-check_auth_token token info now timeout challenge,
  )

  -- What an operation with authentication data needs on a call after `begin`.
  pub record IsSubsequentAuth (handle : ℕ) (info : AuthInfo) (auth_token : Option HardwareAuthToken)
      (stamp : Option TimeStampToken) (again : Bool) : Type 0 where
    pub token : HardwareAuthToken
    pub token_given : auth_token ≡ some token
    pub timed :
        ((info.timeout_secs ≡ none)
          × (again ≡ true)
          × IsAuthentic token info none none (some handle))
        ⊎ ((secs : ℕ) × (t : TimeStampToken) × (info.timeout_secs ≡ some secs)
            × (again ≡ false)
            × (env.clock ≡ none)
            × (stamp ≡ some t)
            × (t.challenge ≡ handle)
            × HasMac (timestamp_token_mac_input t) t.mac
            × IsAuthentic token info (some t.timestamp) (some secs) (some handle))
