-- ===== src/Tests/Starting.antt =====
-- The start of operations on a small device, and its counts and messages.
use platform_system_keymint.Common.{
  ℕ, ◌≡◌, ◌⊎◌, refl, true, false, Option, none, some, List, [], ◌∷◌, ◌++◌, All, ok, arith,
}
use platform_system_keymint.Common.Bytes.{to_ne_bytes, le_bytes}
use platform_system_keymint.Wire.Tokens.{hardware_authenticator_type_as_u32}
use platform_system_keymint.Ta.Tokens.{HardwareAuthToken, hardware_auth_token_mac_input}
use platform_system_keymint.Ta.Auth.{
  AuthInfo, check_auth_token, verify_device_hmac, device_hmac, any_id, check_time, check_challenge,
}
use platform_system_keymint.Ta.Auth.Validity.{IsAuthentic}
use platform_system_keymint.Ta.Operation.Crypto.{Operation}
use platform_system_keymint.Ta.Operation.Table.{
  find_op, free_index, new_operation_index, new_op_handle,
}
use platform_system_keymint.Ta.Operation.Progress.{Changed}
use platform_system_keymint.Ta.Operation.Begin.{begin_auth, begin_presence, admit}
use platform_system_keymint.Ta.Operation.Begin.Admission.{
  begin_auth-eq-ok, new_op_handle-fresh, admit-Changed, admit-presence_required_op,
}
use platform_system_keymint.Ta.UseCounts.{UseCount, update_use_count}
use platform_system_keymint.Ta.UseCounts.Limit.{Counted, update_use_count-Counted}
use platform_system_keymint.Ta.Response.{split_rsp, collect, Bounded, split_rsp-collect}
use platform_system_keymint.Tests.Device.{device, mac_env}
use platform_system_keymint.Tests.Tokens.{fresh, password_key}
use platform_system_keymint.Tests.Running.{signing, running, running-IsUnique}

abbrev no_info : Option AuthInfo
no_info = none

begun :
    begin_auth device (mac_env (some 150) true) (some (password_key (some 30))) (some fresh)
    ≡ ok no_info
unfolding begin_auth check_auth_token hardware_auth_token_mac_input verify_device_hmac device_hmac
    any_id check_time check_challenge to_ne_bytes le_bytes hardware_authenticator_type_as_u32
begun = refl

begin_auth-eq-ok_example :
    (no_info ≡ some (password_key (some 30)))
    ⊎ ((token : HardwareAuthToken) × (secs : ℕ) × (now : ℕ) × (no_info ≡ none)
        × (some fresh ≡ some token)
        × ((password_key (some 30)).timeout_secs ≡ some secs)
        × ((mac_env (some 150) true).clock ≡ some now)
        × IsAuthentic device
            (mac_env (some 150) true)
            token
            (password_key (some 30))
            (some now)
            (some secs)
            none)
begin_auth-eq-ok_example =
    begin_auth-eq-ok device (mac_env (some 150) true) (password_key (some 30)) (some fresh) no_info
      begun

abbrev draws : List ℕ
draws = 5 ∷ 6 ∷ 8 ∷ []

eight_unused : find_op running.operations 8 ≡ none
unfolding find_op
eight_unused = refl

new_op_handle-fresh_example :
    (h : ℕ) × (new_op_handle running.operations draws ≡ some h)
    × (find_op running.operations h ≡ none)
new_op_handle-fresh_example = new_op_handle-fresh running.operations draws 2 8 refl eight_unused

abbrev starting : Operation device
starting = record signing { handle = 8 }

first_free : new_operation_index running.operations ≡ ok 0
unfolding new_operation_index free_index
first_free = refl

admit-Changed_example :
    (find_op (admit 0 starting false running).operations 8 ≡ some (0, starting))
    × Changed 8 running (admit 0 starting false running)
admit-Changed_example =
    admit-Changed starting 0 false running first_free eight_unused running-IsUnique

presence_passed : begin_presence false running ≡ ok tt
unfolding begin_presence
presence_passed = refl

admit-presence_required_op_example : (admit 0 starting false running).presence_required_op ≡ some 5
admit-presence_required_op_example =
    admit-presence_required_op starting 5 0 false running refl presence_passed

abbrev table : List (Option UseCount)
table = none ∷ some (record { key_id = 1 ∷ []; count = 1 }) ∷ []

update_use_count-Counted_example : Counted (1 ∷ []) 2 table (update_use_count (1 ∷ []) 2 table)
update_use_count-Counted_example = update_use_count-Counted (1 ∷ []) 2 table

split_rsp-collect_example :
    (msgs : List (List ℕ)) × (split_rsp (1 ∷ 2 ∷ 3 ∷ 4 ∷ 5 ∷ []) 3 ≡ ok msgs)
    × All (Bounded 3) msgs
    × (collect (msgs ++ ((7 ∷ []) ∷ [])) ≡ some (1 ∷ 2 ∷ 3 ∷ 4 ∷ 5 ∷ [], (7 ∷ []) ∷ []))
split_rsp-collect_example =
    split_rsp-collect (1 ∷ 2 ∷ 3 ∷ 4 ∷ 5 ∷ []) 3 ((7 ∷ []) ∷ []) (omega arith) (omega arith)
