-- ===== src/Ta/Operation/Confirm.antt =====
-- The result of `op_finish` (ta/src/operation.rs): the end of the cryptographic operation, and the
-- trusted confirmation of the data that it covered.
use platform_system_keymint.Common.{
  ℕ, true, false, not, Option, none, some, List, length, ok, err, panic, ◌>>=◌, ◌>>◌, ◌==◌,
  if◌then◌else◌,
}
use platform_system_keymint.KmError.{Result, hal}
use platform_system_keymint.Wire.Errors.{ErrorCode}
use platform_system_keymint.Ta.Platform.{Platform, Env}
use platform_system_keymint.Ta.Auth.{verify_device_hmac}
use platform_system_keymint.Ta.Operation.Crypto.{
  Operation, confirmation_token_size, accumulate, check_size, crypto_finish,
}

module _ (P : Platform) (env : Env) where
  unfoldable pub finish_conf_data : Option (List ℕ) → Option (List ℕ) → Result (Option (List ℕ))
  finish_conf_data conf none = ok conf
  finish_conf_data conf (some input) = accumulate P conf input

  abbrev pub length_of : Option (List ℕ) → ℕ
  length_of none = 0
  length_of (some input) = length input

  unfoldable pub verify_confirmation_token : List ℕ → Option (List ℕ) → Result (Unit {0})
  verify_confirmation_token conf none = err (hal ErrorCode.no_user_confirmation)
  verify_confirmation_token conf (some token) =
      if not (length token == confirmation_token_size)
      then err (hal ErrorCode.invalid_argument)
      else elim (verify_device_hmac P env conf token) [
        | ok true ↦ ok tt
        | ok false ↦ err (hal ErrorCode.no_user_confirmation)
        | err _ ↦ err (hal ErrorCode.verification_failed)
        | panic ↦ panic
      ]

  unfoldable pub finish_confirmation : Option (List ℕ) → Option (List ℕ) → Result (Unit {0})
  unfolding verify_confirmation_token
  finish_confirmation none token = ok tt
  finish_confirmation (some conf) token = verify_confirmation_token conf token

  -- `op_finish` from the confirmation data to the verification of the confirmation token.
  unfoldable pub finish_result :
      Operation P → Option (List ℕ) → Option (List ℕ) → Option (List ℕ) → Result (List ℕ)
  unfolding finish_conf_data finish_confirmation
  finish_result op input signature confirmation_token = do
    conf ← finish_conf_data op.trusted_conf_data input
    sized ← check_size P op (length_of input)
    result ← crypto_finish P sized.crypto_op input signature
    finish_confirmation conf confirmation_token
    ok result
