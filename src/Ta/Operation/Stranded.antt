-- ===== src/Ta/Operation/Stranded.antt =====
-- What a failed authentication in `op_finish` (ta/src/operation.rs) leaves behind.
use platform_system_keymint.Common.{
  ℕ, ◌≡◌, refl, ap, ◌∙◌, true, Option, none, some, List, err, arith,
}
use platform_system_keymint.Ta.Tokens.{HardwareAuthToken, TimeStampToken}
use platform_system_keymint.Ta.Platform.{Platform, Env}
use platform_system_keymint.Ta.Auth.{check_subsequent_auth}
use platform_system_keymint.Ta.Operation.Crypto.{Operation}
use platform_system_keymint.Ta.Operation.Table.{KeyMintTa, find_op, invalid_operation}
use platform_system_keymint.Ta.Operation.Lookup.{IsUnique}
use platform_system_keymint.Ta.Operation.Handlers.{store, op_finish}
use platform_system_keymint.Ta.Operation.Progress.{Changed}
use platform_system_keymint.KmError.{Error, hal}
use platform_system_keymint.Wire.Errors.{ErrorCode}
use platform_system_keymint.Ta.Operation.Begin.{begin_presence}
use platform_system_keymint.Ta.Operation.Finish.{
  take_operation-found, op_finish-missing, op_finish-removes,
}

module _ (P : Platform) (env : Env) (h : ℕ) (input signature : Option (List ℕ))
    (auth_token : Option HardwareAuthToken) (stamp : Option TimeStampToken)
    (confirmation : Option (List ℕ)) (s : KeyMintTa P) where
  unauthenticated-state :
      (i : ℕ) (op : Operation P) (x : Error)
      → find_op s.operations h ≡ some (i, op)
      → check_subsequent_auth P env op.handle op.auth_info auth_token stamp ≡ err x
      → op_finish P env h input signature auth_token stamp confirmation s ≡ (err x, store i none s)
  unfolding op_finish
  unauthenticated-state i op x q c = let t = take_operation-found P env h s i op q in ground (arith)

kept_presence :
    (P : Platform) (i : ℕ) (s : KeyMintTa P)
    → (store i none s).presence_required_op ≡ s.presence_required_op
unfolding store
kept_presence P i s = refl

-- An operation is gone from a state that still requires presence for its handle.
pub record IsStranded {P : Platform} (h : ℕ) (s : KeyMintTa P) : Type 0 where
  pub gone : find_op s.operations h ≡ none
  pub still_required : s.presence_required_op ≡ some h
  pub no_begin : begin_presence true s ≡ err (hal ErrorCode.concurrent_proof_of_presence_requested)
  pub no_finish :
      (env : Env) (input signature : Option (List ℕ)) (auth_token : Option HardwareAuthToken)
      (stamp : Option TimeStampToken) (confirmation : Option (List ℕ))
      → op_finish P env h input signature auth_token stamp confirmation s
        ≡ (err invalid_operation, s)

stranded :
    (P : Platform) (h : ℕ) (s : KeyMintTa P)
    → find_op s.operations h ≡ none
    → s.presence_required_op ≡ some h
    → IsStranded h s
unfolding begin_presence
stranded P h s missing required = record {
  gone = missing;
  still_required = required;
  no_begin = rw required refl;
  no_finish = λ env input signature auth_token stamp confirmation.
      op_finish-missing P env h input signature auth_token stamp confirmation s missing;
}

-- When presence is required for an operation and `op_finish` fails to authenticate, the operation
-- is gone while presence stays required for its handle. No operation with proof of presence can
-- begin in that state, and no further `op_finish` on the handle changes it. All other operations
-- are kept.
pub op_finish_unauthenticated :
    (P : Platform) (env : Env) (h : ℕ) (input signature : Option (List ℕ))
    (auth_token : Option HardwareAuthToken) (stamp : Option TimeStampToken)
    (confirmation : Option (List ℕ)) (s : KeyMintTa P) (i : ℕ) (op : Operation P) (x : Error)
    → IsUnique s.operations
    → s.presence_required_op ≡ some h
    → find_op s.operations h ≡ some (i, op)
    → check_subsequent_auth P env op.handle op.auth_info auth_token stamp ≡ err x
    → ((op_finish P env h input signature auth_token stamp confirmation s).0 ≡ err x)
      × IsStranded h (op_finish P env h input signature auth_token stamp confirmation s).1
      × Changed h s (op_finish P env h input signature auth_token stamp confirmation s).1
op_finish_unauthenticated P env h input signature auth_token stamp confirmation s i op x u required
      q c =
    let (missing, changed) =
      op_finish-removes P env h input signature auth_token stamp confirmation s u in
    let state =
      unauthenticated-state P env h input signature auth_token stamp confirmation s i op x q c in
    (
      ap (λ r. r.0) state,
      stranded P h (op_finish P env h input signature auth_token stamp confirmation s).1 missing
          (ap (λ r. r.1.presence_required_op) state ∙ kept_presence P i s ∙ required),
      changed,
    )
