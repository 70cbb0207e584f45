-- ===== src/Tests/Ending.antt =====
-- The end of operations on a small device.
use platform_system_keymint.Common.{
  ℕ, ◌≡◌, ◌↔◌, refl, Option, none, some, List, [], ◌∷◌, replicate, ok, err, panic, arith,
}
use platform_system_keymint.Common.Bytes.{to_ne_bytes, le_bytes}
use platform_system_keymint.KmError.{hal}
use platform_system_keymint.Wire.Errors.{ErrorCode}
use platform_system_keymint.Wire.Params.{Digest}
use platform_system_keymint.Wire.Modes.{KeyPurpose}
use platform_system_keymint.Wire.Tokens.{hardware_authenticator_type_as_u32}
use platform_system_keymint.Ta.Tokens.{hardware_auth_token_mac_input}
use platform_system_keymint.Ta.Auth.{
  check_auth_token, verify_device_hmac, device_hmac, any_id, check_time, check_challenge,
  check_subsequent_auth,
}
use platform_system_keymint.Ta.Operation.Crypto.{
  CryptoOperation, accumulate, check_size, max_size, crypto_finish, accumulating_end, verify_end,
}
use platform_system_keymint.Ta.Operation.Table.{find_op, op_index}
use platform_system_keymint.Ta.Operation.Confirm.{
  finish_conf_data, verify_confirmation_token, finish_confirmation, finish_result,
}
use platform_system_keymint.Ta.Operation.Handlers.{
  take_operation, finish_presence, finish_deletion, op_finish,
}
use platform_system_keymint.Ta.Operation.Progress.{Changed}
use platform_system_keymint.Ta.Operation.Finish.{Finished, op_finish-Finished, op_finish-removes}
use platform_system_keymint.Ta.Operation.Verdict.{
  Verifies, verify_end-eq-ok, IsConfirmed, op_finish-IsConfirmed, all_data, IsWithinLimit,
}
use platform_system_keymint.Ta.Operation.Begin.{hmac_begin}
use platform_system_keymint.Tag.Digests.{digest_len}
use platform_system_keymint.Ta.Operation.Begin.Admission.{hmac_begin-panic}
use platform_system_keymint.Tests.Device.{device, env, sum_mac}
use platform_system_keymint.Tests.Tokens.{fresh}
use platform_system_keymint.Ta.Operation.Stranded.{IsStranded, op_finish_unauthenticated}
use platform_system_keymint.Tests.Running.{
  signing, running, running-IsUnique, signing_found, signing_unauthenticated,
}

-- The confirmation covers the bytes 1, 2 and 3.
abbrev confirmation : Option (List ℕ)
confirmation = some (replicate 32 6)

signed :
    (op_finish device env 5 (some (3 ∷ [])) none (some fresh) none confirmation running).0
    ≡ ok (6 ∷ 6 ∷ 6 ∷ 6 ∷ [])
unfolding op_finish take_operation op_index find_op check_subsequent_auth check_auth_token
    hardware_auth_token_mac_input verify_device_hmac device_hmac any_id check_time check_challenge
    to_ne_bytes le_bytes hardware_authenticator_type_as_u32 finish_presence finish_result
    finish_conf_data accumulate check_size max_size crypto_finish accumulating_end
    finish_confirmation verify_confirmation_token finish_deletion
signed = refl

op_finish-Finished_example :
    Finished device env 5
      (some (3 ∷ []))
      none
      (some fresh)
      none
      confirmation
      running
      (6 ∷ 6 ∷ 6 ∷ 6 ∷ [])
op_finish-Finished_example =
    op_finish-Finished device env 5 (some (3 ∷ [])) none (some fresh) none confirmation running
      (6 ∷ 6 ∷ 6 ∷ 6 ∷ []) signed

abbrev earlier : List ℕ
earlier = 1 ∷ 2 ∷ []

abbrev later : Option (List ℕ)
later = some (3 ∷ [])

op_finish-IsConfirmed_example :
    IsConfirmed device env (all_data earlier later) confirmation × IsWithinLimit earlier later
op_finish-IsConfirmed_example =
    op_finish-IsConfirmed device env 5 2 signing earlier later none (some fresh) none confirmation
      running (6 ∷ 6 ∷ 6 ∷ 6 ∷ []) signing_found refl signed

op_finish-removes_example :
    (find_op
        (op_finish device env 5 (some (3 ∷ [])) none (some fresh) none none running).1.operations
        5
      ≡ none)
    × Changed 5 running
        (op_finish device env 5 (some (3 ∷ [])) none (some fresh) none none running).1
op_finish-removes_example =
    op_finish-removes device env 5 (some (3 ∷ [])) none (some fresh) none none running
      running-IsUnique

op_finish_unauthenticated_example :
    ((op_finish device env 5 none none none none none running).0
      ≡ err (hal ErrorCode.key_user_not_authenticated))
    × IsStranded 5 (op_finish device env 5 none none none none none running).1
    × Changed 5 running (op_finish device env 5 none none none none none running).1
op_finish_unauthenticated_example =
    op_finish_unauthenticated device env 5 none none none none none running 2 signing
      (hal ErrorCode.key_user_not_authenticated) running-IsUnique refl signing_found
      signing_unauthenticated

verify_end-eq-ok_example :
    (verify_end device (1 ∷ []) 2 32 (some (2 ∷ [])) (some (replicate 4 3)) ≡ ok [])
    ↔ Verifies device (1 ∷ []) 2 32 (some (2 ∷ [])) (replicate 4 3)
verify_end-eq-ok_example = verify_end-eq-ok device (1 ∷ []) 2 32 (some (2 ∷ [])) (replicate 4 3)

sha256_bits : digest_len Digest.sha256 ≡ ok 256
unfolding digest_len
sha256_bits = refl

mac_found : accumulating_end device (1 ∷ []) none ≡ ok (sum_mac (1 ∷ []))
unfolding accumulating_end
mac_found = refl

hmac_begin-panic_example :
    (op : CryptoOperation device) × (hmac_begin device KeyPurpose.verify
        (ok 0)
        (ok 64)
        Digest.sha256
        (ok (1 ∷ []))
      ≡ ok op)
    × (crypto_finish device op none (some (replicate 33 0)) ≡ panic)
hmac_begin-panic_example =
    hmac_begin-panic device 64 256 Digest.sha256 (1 ∷ []) (ok 0) none (replicate 33 0)
      (sum_mac (1 ∷ [])) sha256_bits mac_found (omega arith) (omega arith) (omega arith)
      (omega arith)
