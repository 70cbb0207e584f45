-- ===== src/Ta/Operation/Begin.antt =====
-- The parts of `begin_operation` (ta/src/operation.rs) that decide about authentication, presence
-- and the table, and the HMAC operations that it makes.
pub mod Admission
use platform_system_keymint.Common.{
  ℕ, ◌/◌, Bool, true, false, ◌&&◌, Option, none, some, List, ok, err, panic, fail_if, ok_or, ◌>>=◌,
  ◌>>◌, if◌then◌else◌,
}
use platform_system_keymint.KmError.{Error, Result, hal}
use platform_system_keymint.Wire.Errors.{ErrorCode}
use platform_system_keymint.Wire.Params.{Digest}
use platform_system_keymint.Wire.Modes.{KeyPurpose}
use platform_system_keymint.Tag.Digests.{digest_len}
use platform_system_keymint.Ta.Tokens.{HardwareAuthToken}
use platform_system_keymint.Ta.Platform.{Platform, Env}
use platform_system_keymint.Ta.Auth.{AuthInfo, check_auth_token, is_some, not_authenticated}
use platform_system_keymint.Ta.Operation.Crypto.{CryptoOperation, hmac_sign, hmac_verify, Operation}
use platform_system_keymint.Ta.Operation.Table.{KeyMintTa, new_operation_index}
use platform_system_keymint.Ta.Operation.Handlers.{store}

-- The authentication data that the operation keeps. A present token is checked even where it is
-- not needed yet.
unfoldable pub begin_auth :
    (P : Platform) → Env → Option AuthInfo → Option HardwareAuthToken → Result (Option AuthInfo)
begin_auth P env none auth_token = ok none
begin_auth P env (some info) auth_token = elim info.timeout_secs [
  | none ↦ ok (some info)
  | some secs ↦ elim env.clock [
    | some now ↦ do
      token ← ok_or not_authenticated auth_token
      check_auth_token P env token info (some now) (some secs) none
      ok none
    | none ↦ elim auth_token [
      | none ↦ ok (some info)
      | some token ↦ check_auth_token P env token info none none none >> ok (some info)
    ]
  ]
]

-- At most one operation with proof of presence can be in flight.
unfoldable pub begin_presence : {P : Platform} → Bool → KeyMintTa P → Result (Unit {0})
begin_presence required s =
    fail_if (required && is_some s.presence_required_op)
      (hal ErrorCode.concurrent_proof_of_presence_requested)

-- The HMAC arm, for the values that `get_tag_value!` and `hmac.begin` give. The tag lengths are
-- bits, and the largest tag of a verification is taken as it is.
unfoldable pub hmac_begin :
    (P : Platform)
    → KeyPurpose
    → Result ℕ
    → Result ℕ
    → Digest
    → Result P.Accumulating
    → Result (CryptoOperation P)
unfolding digest_len
hmac_begin P KeyPurpose.sign mac_length min_mac_length digest began = do
  bits ← mac_length
  op ← began
  ok (hmac_sign op (bits / 8))
hmac_begin P KeyPurpose.verify mac_length min_mac_length digest began = do
  bits ← min_mac_length
  max_tag_len ← digest_len digest
  op ← began
  ok (hmac_verify op (bits / 8) max_tag_len)
hmac_begin P _ mac_length min_mac_length digest began = err (hal ErrorCode.incompatible_purpose)

-- The end of `begin_operation`: the operation is stored at the index drawn at its start.
unfoldable pub admit : {P : Platform} → ℕ → Operation P → Bool → KeyMintTa P → KeyMintTa P
admit op_idx op presence_required s =
    if presence_required
    then record (store op_idx (some op) s) { presence_required_op = some op.handle }
    else store op_idx (some op) s
