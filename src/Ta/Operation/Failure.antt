-- ===== src/Ta/Operation/Failure.antt =====
-- What failing calls of `op_update` and `op_update_aad` (ta/src/operation.rs) leave.
use mathlib.Core.Path.{subst}
use platform_system_keymint.Common.{
  ℕ, ◌≡◌, ◌≢◌, sym, ap, ◌∙◌, Bool, true, false, ◌⊎◌, inl, inr, Option, none, some, List, ok, err,
  Outcome-cases, Option-cases, arith,
}
use platform_system_keymint.KmError.{Error, Result}
use platform_system_keymint.Ta.Tokens.{HardwareAuthToken, TimeStampToken}
use platform_system_keymint.Ta.Platform.{Platform, Env}
use platform_system_keymint.Ta.Auth.{check_subsequent_auth}
use platform_system_keymint.Ta.Operation.Crypto.{Operation, update, update_aad}
use platform_system_keymint.Ta.Operation.Table.{KeyMintTa, op_index, find_op, invalid_operation}
use platform_system_keymint.Ta.Operation.Lookup.{IsUnique, find_op-set_none}
use platform_system_keymint.Ta.Operation.Handlers.{
  is_for, clear_presence, store, with_authed_operation, op_update_aad, op_update,
}
use platform_system_keymint.Ta.Operation.Lifecycle.{
  authed, with_authed_operation-eq-ok, with_authed_operation_unauthenticated,
  with_authed_operation_failed,
}
use platform_system_keymint.Ta.Operation.Progress.{
  Changed, Changed-clear, clear_presence-operations, clear_presence-spent, store-none-Changed,
  op_update-Progress,
}

-- The operation with handle `h` is gone, no proof of presence is expected for it, and no other
-- operation changed.
pub record Destroyed {P : Platform} (h : ℕ) (s s' : KeyMintTa P) : Type 0 where
  pub gone : find_op s'.operations h ≡ none
  pub presence_spent : is_for s'.presence_required_op h ≡ false
  pub frame : Changed h s s'

store-none-Destroyed :
    {P : Platform} (h i : ℕ) (op : Operation P) (s : KeyMintTa P)
    → find_op s.operations h ≡ some (i, op)
    → IsUnique s.operations
    → Destroyed h s (store i none (clear_presence h s))
store-none-Destroyed h i op s q u =
    let same_ops = clear_presence-operations h s in
    let q' = ap (λ o. find_op o h) same_ops ∙ q in
    let u' = subst IsUnique (sym same_ops) u in
    record {
      gone = find_op-set_none (clear_presence h s).operations h i op u' q';
      presence_spent = clear_presence-spent h s;
      frame = Changed-clear h s (store-none-Changed h i op (clear_presence h s) q' u');
    }

module _ (P : Platform) where
  aad_closed-ne-ok :
      (aad : List ℕ) (op : Operation P) (again : Bool) (op' : Operation P)
      → op.aad_allowed ≡ false
      → update_aad P aad (authed again op) ≢ ok (tt, op')
  unfolding update_aad
  aad_closed-ne-ok aad op true op' c e = ground (arith)
  aad_closed-ne-ok aad op false op' c e = ground (arith)

module _ (P : Platform) (env : Env) {A : Type 0} (h : ℕ) (auth_token : Option HardwareAuthToken)
    (stamp : Option TimeStampToken) (f : Operation P → Result (A × Operation P))
    (s : KeyMintTa P) where
  -- `with_authed_operation` fails in three ways: there is no operation with the handle and the
  -- state stays the same, or its authentication fails and the state stays the same, or the
  -- operation itself fails and is destroyed, with no effect on others.
  pub with_authed_operation-eq-err :
      (x : Error)
      → IsUnique s.operations
      → (with_authed_operation P env h auth_token stamp f s).0 ≡ err x
      → ((x ≡ invalid_operation)
          × (find_op s.operations h ≡ none)
          × ((with_authed_operation P env h auth_token stamp f s).1 ≡ s))
        ⊎ ((i : ℕ) × (op : Operation P) × (find_op s.operations h ≡ some (i, op))
            × (check_subsequent_auth P env op.handle op.auth_info auth_token stamp ≡ err x)
            × ((with_authed_operation P env h auth_token stamp f s).1 ≡ s))
        ⊎ ((i : ℕ) × (op : Operation P) × (again : Bool) × (find_op s.operations h ≡ some (i, op))
            × (check_subsequent_auth P env op.handle op.auth_info auth_token stamp ≡ ok again)
            × (f (authed again op) ≡ err x)
            × Destroyed h s (with_authed_operation P env h auth_token stamp f s).1)
  unfolding with_authed_operation op_index
  with_authed_operation-eq-err x u e = elim (Option-cases (find_op s.operations h)) [
    | inl q ↦ inl (ground (arith))
    | inr ((i, op), q) ↦
        elim (Outcome-cases (check_subsequent_auth P env op.handle op.auth_info auth_token stamp)) [
          | inr (inr c) ↦ ground (arith)
          | inr (inl (y, c)) ↦ inr (inl (i, op, q, ground (arith), ground (arith)))
          | inl (again, c) ↦ elim (Outcome-cases (f (authed again op))) [
            | inl (r, k) ↦ ground (arith)
            | inr (inr k) ↦ ground (arith)
            | inr (inl (y, k)) ↦
                let same : y ≡ x = ground (arith) in
                inr (
                  inr (
                    i,
                    op,
                    again,
                    q,
                    c,
                    k ∙ ap err same,
                    subst (Destroyed h s)
                        (sym (
                          ap (λ r. r.1)
                            (with_authed_operation_failed P env h auth_token stamp f s i op again y
                              q c k)))
                        (store-none-Destroyed h i op s q u),
                  ))
          ]
        ]
  ]

module _ (P : Platform) (env : Env) (h : ℕ) (input : List ℕ) (auth_token : Option HardwareAuthToken)
    (stamp : Option TimeStampToken) (s : KeyMintTa P) where
  -- When trusted presence is required for an operation and the authentication of an `op_update`
  -- on it fails, the operation stays as it was and presence is no longer required for it.
  pub op_update_unauthenticated :
      (i : ℕ) (op : Operation P) (x : Error)
      → find_op s.operations h ≡ some (i, op)
      → s.presence_required_op ≡ some h
      → check_subsequent_auth P env op.handle op.auth_info auth_token stamp ≡ err x
      → op_update P env h input auth_token stamp s
        ≡ (err x, record s { presence_required_op = none })
  unfolding op_update
  op_update_unauthenticated i op x q required c =
      let cleared : clear_presence h s ≡ record s { presence_required_op = none } =
        ground (arith) in
      with_authed_operation_unauthenticated P env h auth_token stamp
        (update P (is_for s.presence_required_op h) env.tup_available input) (clear_presence h s) i
        op x (ap (λ o. find_op o h) (clear_presence-operations h s) ∙ q) c
      ∙ ap (λ t. (err x, t)) cleared

  -- After a successful `op_update`, additional authenticated data is refused for the operation,
  -- whatever tokens come with it.
  pub op_update_aad-after-op_update :
      (output aad : List ℕ) (auth_token' : Option HardwareAuthToken)
      (stamp' : Option TimeStampToken)
      → IsUnique s.operations
      → (op_update P env h input auth_token stamp s).0 ≡ ok output
      → (op_update_aad P env h aad auth_token' stamp'
          (op_update P env h input auth_token stamp s).1).0
        ≢ ok tt
  unfolding op_update_aad
  op_update_aad-after-op_update output aad auth_token' stamp' u e accepted =
      let p = op_update-Progress P env h input auth_token stamp s output u e in
      let r =
        with_authed_operation-eq-ok P env h auth_token' stamp' (update_aad P aad)
          (op_update P env h input auth_token stamp s).1 tt accepted in
      aad_closed-ne-ok P aad p.after r.again r.after p.updated.aad_closed (
        subst (λ o. update_aad P aad (authed r.again o) ≡ ok (tt, r.after))
          (ground (arith, r.found, p.is)) r.called)
