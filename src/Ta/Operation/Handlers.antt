-- ===== src/Ta/Operation/Handlers.antt =====
-- The request handlers `op_update_aad`, `op_update`, `op_finish` and `op_abort` of
-- ta/src/operation.rs. A handler returns its result and the state that it leaves.
use platform_system_keymint.Common.{
  ℕ, Bool, false, ◌&&◌, not, Option, none, some, List, set, ok, err, panic, fail_if, ◌==◌,
  if◌then◌else◌,
}
use platform_system_keymint.KmError.{Result, hal}
use platform_system_keymint.Wire.Errors.{ErrorCode}
use platform_system_keymint.Ta.Tokens.{HardwareAuthToken, TimeStampToken}
use platform_system_keymint.Ta.Platform.{Platform, Env}
use platform_system_keymint.Ta.Auth.{check_subsequent_auth}
use platform_system_keymint.Ta.Operation.Crypto.{Operation, update_aad, update}
use platform_system_keymint.Ta.Operation.Confirm.{finish_result}
use platform_system_keymint.Ta.Operation.Table.{KeyMintTa, op_index}

-- A handler: its result, and the state afterwards.
abbrev pub Action : Platform → Type 0 → Type 0
Action P A = KeyMintTa P → Result A × KeyMintTa P

infixl 5 ◌>>=◌ ◌>>◌
abbrev pub ◌>>=◌ : {P : Platform} {A B : Type 0} → Action P A → (A → Action P B) → Action P B
◌>>=◌ m f s =
    let (r, s') = m s in elim r [ ok a ↦ f a s' | err e ↦ (err e, s') | panic ↦ (panic, s') ]

abbrev pub ◌>>◌ : {P : Platform} {A B : Type 0} → Action P A → Action P B → Action P B
m >> k = m >>= λ _. k

abbrev pub lift : {P : Platform} {A : Type 0} → Result A → Action P A
lift r s = (r, s)

abbrev pub is_for : Option ℕ → ℕ → Bool
is_for none handle = false
is_for (some h) handle = h == handle

module _ {P : Platform} where
  abbrev pub clear_presence : ℕ → KeyMintTa P → KeyMintTa P
  clear_presence handle s =
      if is_for s.presence_required_op handle then record s { presence_required_op = none } else s

  abbrev pub store : ℕ → Option (Operation P) → KeyMintTa P → KeyMintTa P
  store i o s = record s { operations = set s.operations i o }

  -- The end of `with_authed_operation`: a failure destroys the operation.
  settle : {A : Type 0} → ℕ → ℕ → Result (A × Operation P) → Action P A
  settle handle i (ok (a, op)) s = (ok a, store i (some op) s)
  settle handle i (err e) s = (err e, store i none (clear_presence handle s))
  settle handle i panic s = (panic, s)

module _ (P : Platform) (env : Env) where
  unfoldable pub with_authed_operation :
      {A : Type 0}
      → ℕ
      → Option HardwareAuthToken
      → Option TimeStampToken
      → (Operation P → Result (A × Operation P))
      → Action P A
  unfolding settle
  with_authed_operation handle auth_token timestamp_token f s =
      elim (op_index s.operations handle) [
        | err e ↦ (err e, s)
        | panic ↦ (panic, s)
        | ok (i, op) ↦
            elim (check_subsequent_auth P env op.handle op.auth_info auth_token timestamp_token) [
              | err e ↦ (err e, s)
              | panic ↦ (panic, s)
              | ok check_again ↦
                  settle handle i (f (if check_again then op else record op { auth_info = none })) s
            ]
      ]

  unfoldable pub op_update_aad :
      ℕ → List ℕ → Option HardwareAuthToken → Option TimeStampToken → Action P (Unit {0})
  unfolding with_authed_operation
  op_update_aad handle input auth_token timestamp_token =
      with_authed_operation handle auth_token timestamp_token (update_aad P input)

  unfoldable pub op_update :
      ℕ → List ℕ → Option HardwareAuthToken → Option TimeStampToken → Action P (List ℕ)
  unfolding with_authed_operation
  op_update handle input auth_token timestamp_token s =
      with_authed_operation handle auth_token timestamp_token
        (update P (is_for s.presence_required_op handle) env.tup_available input)
        (clear_presence handle s)

  unfoldable pub take_operation : ℕ → Action P (Operation P)
  take_operation handle s = elim (op_index s.operations handle) [
    | ok (i, op) ↦ (ok op, store i none s)
    | err e ↦ (err e, s)
    | panic ↦ (panic, s)
  ]

  -- `op_finish` between the authentication and the confirmation data.
  unfoldable pub finish_presence : ℕ → Action P (Unit {0})
  finish_presence handle s = (
    fail_if (is_for s.presence_required_op handle && not env.tup_available)
        (hal ErrorCode.proof_of_presence_required),
    clear_presence handle s,
  )

  -- A failure to delete is only logged; a panic is one.
  logged : Result (Unit {0}) → Result (Unit {0})
  logged (err _) = ok tt
  logged r = r

  unfoldable pub finish_deletion : Option ℕ → Action P (Unit {0})
  unfolding logged
  finish_deletion (some slot) s = elim s.sdd_mgr [
    | none ↦ (ok tt, s)
    | some mgr ↦
        let (r, mgr') = P.delete_secret mgr slot in (logged r, record s { sdd_mgr = some mgr' })
  ]
  finish_deletion none s = (ok tt, s)

  unfoldable pub op_finish :
      ℕ
      → Option (List ℕ)
      → Option (List ℕ)
      → Option HardwareAuthToken
      → Option TimeStampToken
      → Option (List ℕ)
      → Action P (List ℕ)
  unfolding take_operation finish_presence finish_result finish_deletion
  op_finish handle input signature auth_token timestamp_token confirmation_token = do
    op ← take_operation handle
    lift (check_subsequent_auth P env op.handle op.auth_info auth_token timestamp_token)
    finish_presence handle
    result ← lift (finish_result P env op input signature confirmation_token)
    finish_deletion op.slot_to_delete
    lift (ok result)

  unfoldable pub op_abort : ℕ → Action P (Unit {0})
  unfolding take_operation
  op_abort handle s = (take_operation handle >> lift (ok tt)) (clear_presence handle s)
