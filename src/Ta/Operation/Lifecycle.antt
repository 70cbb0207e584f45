-- ===== src/Ta/Operation/Lifecycle.antt =====
-- What each handler of ta/src/operation.rs does to the operation table.
use platform_system_keymint.Common.{
  ℕ, ◌≡◌, Bool, inl, inr, Option, none, some, ok, err, Outcome-cases, Option-cases, if◌then◌else◌,
  arith,
}
use platform_system_keymint.KmError.{Error, Result}
use platform_system_keymint.Ta.Tokens.{HardwareAuthToken, TimeStampToken}
use platform_system_keymint.Ta.Platform.{Platform, Env}
use platform_system_keymint.Ta.Auth.{check_subsequent_auth}
use platform_system_keymint.Ta.Operation.Crypto.{Operation}
use platform_system_keymint.Ta.Operation.Table.{KeyMintTa, op_index, find_op, invalid_operation}
use platform_system_keymint.Ta.Operation.Handlers.{clear_presence, store, with_authed_operation}

-- The operation that the closure of `with_authed_operation` is called with.
abbrev pub authed : {P : Platform} → Bool → Operation P → Operation P
authed again op = if again then op else record op { auth_info = none }

module _ (P : Platform) (env : Env) {A : Type 0} (h : ℕ) (auth_token : Option HardwareAuthToken)
    (stamp : Option TimeStampToken) (f : Operation P → Result (A × Operation P))
    (s : KeyMintTa P) where
  -- What a successful call of `with_authed_operation` went through.
  pub record Ran (a : A) : Type 0 where
    pub index : ℕ
    pub before : Operation P
    pub again : Bool
    pub after : Operation P
    pub found : find_op s.operations h ≡ some (index, before)
    pub checked :
        check_subsequent_auth P env before.handle before.auth_info auth_token stamp ≡ ok again
    pub called : f (authed again before) ≡ ok (a, after)
    pub stored : (with_authed_operation P env h auth_token stamp f s).1 ≡ store index (some after) s

  pub with_authed_operation-eq-ok :
      (a : A) → (with_authed_operation P env h auth_token stamp f s).0 ≡ ok a → Ran a
  unfolding with_authed_operation op_index
  with_authed_operation-eq-ok a e = elim (Option-cases (find_op s.operations h)) [
    | inl missing ↦ ground (arith)
    | inr ((i, op), q) ↦
        elim (Outcome-cases (check_subsequent_auth P env op.handle op.auth_info auth_token stamp)) [
          | inl (again, c) ↦ elim (Outcome-cases (f (authed again op))) [
            | inl ((a', op'), k) ↦ record {
              index = i;
              before = op;
              again = again;
              after = op';
              found = q;
              checked = c;
              called = ground (arith);
              stored = ground (arith);
            }
            | inr (inl (x, k)) ↦ ground (arith)
            | inr (inr k) ↦ ground (arith)
          ]
          | inr (inl (x, k)) ↦ ground (arith)
          | inr (inr k) ↦ ground (arith)
        ]
  ]

  -- A failed authentication leaves the state alone.
  pub with_authed_operation_unauthenticated :
      (i : ℕ) (op : Operation P) (x : Error)
      → find_op s.operations h ≡ some (i, op)
      → check_subsequent_auth P env op.handle op.auth_info auth_token stamp ≡ err x
      → with_authed_operation P env h auth_token stamp f s ≡ (err x, s)
  unfolding with_authed_operation op_index
  with_authed_operation_unauthenticated i op x q c = ground (arith)

  -- A failure of the operation drops it, and the proof of presence that was expected for it.
  pub with_authed_operation_failed :
      (i : ℕ) (op : Operation P) (again : Bool) (x : Error)
      → find_op s.operations h ≡ some (i, op)
      → check_subsequent_auth P env op.handle op.auth_info auth_token stamp ≡ ok again
      → f (authed again op) ≡ err x
      → with_authed_operation P env h auth_token stamp f s
        ≡ (err x, store i none (clear_presence h s))
  unfolding with_authed_operation op_index
  with_authed_operation_failed i op again x q c k = ground (arith)

  pub with_authed_operation_missing :
      find_op s.operations h ≡ none
      → with_authed_operation P env h auth_token stamp f s ≡ (err invalid_operation, s)
  unfolding with_authed_operation op_index
  with_authed_operation_missing q = ground (arith)
