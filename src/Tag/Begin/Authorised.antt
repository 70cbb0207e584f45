-- ===== src/Tag/Begin/Authorised.antt =====
-- What a key must allow for an operation to begin (common/src/tag.rs).
use platform_system_keymint.Common.{
  ℕ, ◌≡◌, false, Option, List, [], ◌∷◌, ok, ◌>>=◌, ◌⊎◌, arith, >>=-eq-ok,
}
use platform_system_keymint.Wire.Errors.{ErrorCode}
use platform_system_keymint.Wire.Params.{Algorithm}
use platform_system_keymint.Wire.Modes.{KeyPurpose, key_purpose_eq}
use platform_system_keymint.Wire.KeyParams.{KeyParam}
use platform_system_keymint.Tag.Params.{get_opt_tag_value, get_algorithm}
use platform_system_keymint.Tag.Params.Select.{as_nonce, as_caller_nonce}
use platform_system_keymint.Tag.Params.Single.{values}
use platform_system_keymint.Tag.Begin.{
  check_begin_for, check_begin_general, check_named, check_begin_params,
}
use platform_system_keymint.Tag.Begin.Ciphers.{BeginParamsToCheck}

-- A nonce that the caller gives is one that the key allows, or it is not for encryption.
abbrev pub NonceAllowed : List KeyParam → KeyPurpose → List KeyParam → Type 0
NonceAllowed chars purpose params =
    (values as_caller_nonce chars ≡ tt ∷ [])
    ⊎ (values as_nonce params ≡ [])
    ⊎ (key_purpose_eq purpose KeyPurpose.encrypt ≡ false)

-- The steps of a check that succeeds.
pub begin_parts :
    (chars : List KeyParam) (purpose : KeyPurpose) (params : List KeyParam)
    → check_begin_params chars purpose params ≡ ok tt
    → (algo : Algorithm) × (given : Option (List ℕ)) × (check : BeginParamsToCheck) × (get_algorithm
          chars
        ≡ ok algo)
      × (check_begin_general algo chars purpose params ≡ ok given)
      × (check_begin_for algo chars purpose params given ≡ ok check)
      × (check_named check chars params ≡ ok tt)
unfolding check_begin_params
begin_parts chars purpose params h =
    let a =
      >>=-eq-ok (get_algorithm chars)
        (λ algo. check_begin_general algo chars purpose params >>= λ given.
          check_begin_for algo chars purpose params given >>= λ check.
          check_named check chars params)
        h in
    let b =
      >>=-eq-ok (check_begin_general a.0 chars purpose params)
        (λ given. check_begin_for a.0 chars purpose params given >>= λ check.
          check_named check chars params)
        a.2 in
    let c =
      >>=-eq-ok (check_begin_for a.0 chars purpose params b.0)
        (λ check. check_named check chars params) b.2 in
    (a.0, b.0, c.0, a.1, b.1, c.1, c.2)

-- The nonce is the one that the parameters hold.
pub general_nonce :
    (algo : Algorithm) (chars : List KeyParam) (purpose : KeyPurpose) (params : List KeyParam)
    (given : Option (List ℕ))
    → check_begin_general algo chars purpose params ≡ ok given
    → get_opt_tag_value as_nonce params ErrorCode.invalid_tag ≡ ok given
unfolding check_begin_general
general_nonce algo chars purpose params given h = ground arith
