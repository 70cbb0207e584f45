-- ===== src/Tests/Running.antt =====
-- Operations in progress on a small device.
use platform_system_keymint.Common.{
  ℕ, ◌≡◌, ◌≢◌, ◌⊎◌, refl, Bool, true, false, none, some, [], ◌∷◌, ok, err,
}
use platform_system_keymint.Common.Bytes.{to_ne_bytes, le_bytes}
use platform_system_keymint.KmError.{Error, hal}
use platform_system_keymint.Wire.Errors.{ErrorCode}
use platform_system_keymint.Wire.Tokens.{hardware_authenticator_type_as_u32}
use platform_system_keymint.Ta.Tokens.{hardware_auth_token_mac_input}
use platform_system_keymint.Ta.Auth.{
  check_auth_token, verify_device_hmac, device_hmac, any_id, check_time, check_challenge,
  check_subsequent_auth,
}
use platform_system_keymint.Ta.Operation.Crypto.{
  hmac_sign, aes_gcm, Operation, update, accumulate, check_size, max_size, crypto_update,
}
use platform_system_keymint.Ta.Operation.Table.{KeyMintTa, find_op, op_index, invalid_operation}
use platform_system_keymint.Ta.Operation.Lookup.{IsUnique}
use platform_system_keymint.Ta.Operation.Handlers.{with_authed_operation, op_update, op_update_aad}
use platform_system_keymint.Ta.Operation.Progress.{Progress, op_update-Progress}
use platform_system_keymint.Ta.Operation.Lifecycle.{authed}
use platform_system_keymint.Ta.Operation.Failure.{
  Destroyed, with_authed_operation-eq-err, op_update_unauthenticated, op_update_aad-after-op_update,
}
use platform_system_keymint.Tests.Device.{device, env}
use platform_system_keymint.Tests.Tokens.{fresh, password_key}

-- A signature that needs a confirmation and a token.
abbrev pub signing : Operation device
signing = record {
  handle = 5;
  aad_allowed = false;
  slot_to_delete = some 2;
  trusted_conf_data = some (1 ∷ 2 ∷ []);
  auth_info = some (password_key none);
  crypto_op = hmac_sign (1 ∷ 2 ∷ []) 4;
  input_size = 2;
}

abbrev pub sealing : Operation device
sealing = record {
  handle = 6;
  aad_allowed = true;
  slot_to_delete = none;
  trusted_conf_data = none;
  auth_info = none;
  crypto_op = aes_gcm [];
  input_size = 0;
}

abbrev pub running : KeyMintTa device
running = record {
  operations = none ∷ some sealing ∷ some signing ∷ [];
  presence_required_op = some 5;
  sdd_mgr = some tt;
}

pub running-IsUnique : IsUnique running.operations
unfolding find_op
running-IsUnique = (refl, (refl, tt))

updated : (op_update device env 5 (3 ∷ []) (some fresh) none running).0 ≡ ok []
unfolding op_update with_authed_operation op_index find_op check_subsequent_auth check_auth_token
    hardware_auth_token_mac_input verify_device_hmac device_hmac any_id check_time check_challenge
    to_ne_bytes le_bytes hardware_authenticator_type_as_u32 update accumulate check_size max_size
    crypto_update
updated = refl

op_update-Progress_example :
    Progress device env 5
      (3 ∷ [])
      (some fresh)
      none
      running
      []
      (op_update device env 5 (3 ∷ []) (some fresh) none running).1
op_update-Progress_example =
    op_update-Progress device env 5 (3 ∷ []) (some fresh) none running [] running-IsUnique updated

sealed : (op_update device env 6 (3 ∷ []) none none running).0 ≡ ok (3 ∷ [])
unfolding op_update with_authed_operation op_index find_op check_subsequent_auth check_auth_token
    hardware_auth_token_mac_input verify_device_hmac device_hmac any_id check_time check_challenge
    to_ne_bytes le_bytes hardware_authenticator_type_as_u32 update accumulate check_size max_size
    crypto_update
sealed = refl

op_update_aad-after-op_update_example :
    (op_update_aad device env 6
      (4 ∷ [])
      none
      none
      (op_update device env 6 (3 ∷ []) none none running).1).0
    ≢ ok tt
op_update_aad-after-op_update_example =
    op_update_aad-after-op_update device env 6 (3 ∷ []) none none running (3 ∷ []) (4 ∷ []) none
      none running-IsUnique sealed

abbrev absent : Error
absent = hal ErrorCode.proof_of_presence_required

refused :
    (with_authed_operation device env 6 none none (update device true false (3 ∷ [])) running).0
    ≡ err absent
unfolding op_update with_authed_operation op_index find_op check_subsequent_auth check_auth_token
    hardware_auth_token_mac_input verify_device_hmac device_hmac any_id check_time check_challenge
    to_ne_bytes le_bytes hardware_authenticator_type_as_u32 update accumulate check_size max_size
    crypto_update
refused = refl

with_authed_operation-eq-err_example :
    ((absent ≡ invalid_operation)
      × (find_op running.operations 6 ≡ none)
      × ((with_authed_operation device env 6 none none
            (update device true false (3 ∷ []))
            running).1
          ≡ running))
    ⊎ ((i : ℕ) × (op : Operation device) × (find_op running.operations 6 ≡ some (i, op))
        × (check_subsequent_auth device env op.handle op.auth_info none none ≡ err absent)
        × ((with_authed_operation device env 6 none none
              (update device true false (3 ∷ []))
              running).1
            ≡ running))
    ⊎ ((i : ℕ) × (op : Operation device) × (again : Bool) × (find_op running.operations 6
          ≡ some (i, op))
        × (check_subsequent_auth device env op.handle op.auth_info none none ≡ ok again)
        × (update device true false (3 ∷ []) (authed again op) ≡ err absent)
        × Destroyed 6 running
            (with_authed_operation device env 6 none none
              (update device true false (3 ∷ []))
              running).1)
with_authed_operation-eq-err_example =
    with_authed_operation-eq-err device env 6 none none (update device true false (3 ∷ [])) running
      absent running-IsUnique refused

pub signing_found : find_op running.operations 5 ≡ some (2, signing)
unfolding find_op
signing_found = refl

pub signing_unauthenticated :
    check_subsequent_auth device env signing.handle signing.auth_info none none
    ≡ err (hal ErrorCode.key_user_not_authenticated)
unfolding check_subsequent_auth
signing_unauthenticated = refl

op_update_unauthenticated_example : op_update device env 5 (3 ∷ []) none none running ≡ (
  err (hal ErrorCode.key_user_not_authenticated),
  record running { presence_required_op = none },
)
op_update_unauthenticated_example =
    op_update_unauthenticated device env 5 (3 ∷ []) none none running 2 signing
      (hal ErrorCode.key_user_not_authenticated) signing_found refl signing_unauthenticated
