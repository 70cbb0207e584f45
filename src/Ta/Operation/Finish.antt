-- ===== src/Ta/Operation/Finish.antt =====
-- What `op_finish` and `op_abort` (ta/src/operation.rs) do.
use mathlib.Core.Path.{subst}
use platform_system_keymint.Common.{
  ℕ, ◌+◌, ◌≡◌, refl, sym, ap, ◌∙◌, Bool, true, false, ◌⊎◌, inl, inr, Option, none, some, List, ok,
  err, set, >>=-eq-ok, Outcome-cases, Option-cases, Bool-cases, arith,
}
use platform_system_keymint.Ta.Tokens.{HardwareAuthToken, TimeStampToken}
use platform_system_keymint.Ta.Platform.{Platform, Env}
use platform_system_keymint.Ta.Auth.{check_subsequent_auth}
use platform_system_keymint.Ta.Operation.Crypto.{Operation, check_size, crypto_finish}
use platform_system_keymint.Ta.Operation.Confirm.{
  finish_conf_data, finish_confirmation, finish_result, length_of,
}
use platform_system_keymint.Ta.Operation.Table.{KeyMintTa, op_index, find_op, invalid_operation}
use platform_system_keymint.Ta.Operation.Lookup.{IsUnique, find_op-set_none}
use platform_system_keymint.Ta.Operation.Handlers.{
  is_for, clear_presence, store, take_operation, finish_presence, finish_deletion, op_finish,
  op_abort,
}
use platform_system_keymint.Ta.Operation.Progress.{
  Changed, Changed-clear, clear_presence-operations, clear_presence-spent, store-none-Changed,
}

module _ (P : Platform) (env : Env) where
  finish_deletion-operations :
      (slot : Option ℕ) (s : KeyMintTa P)
      → (finish_deletion P env slot s).1.operations ≡ s.operations
  unfolding finish_deletion
  finish_deletion-operations none s = refl
  finish_deletion-operations (some slot) s = elim (Option-cases s.sdd_mgr) [
    | inl no_mgr ↦ ground (arith)
    | inr (mgr, q) ↦ ground (arith)
  ]

  finish_presence-operations :
      (h : ℕ) (s : KeyMintTa P) → (finish_presence P env h s).1.operations ≡ s.operations
  unfolding finish_presence
  finish_presence-operations h s = clear_presence-operations h s

  pub take_operation-found :
      (h : ℕ) (s : KeyMintTa P) (i : ℕ) (op : Operation P)
      → find_op s.operations h ≡ some (i, op)
      → take_operation P env h s ≡ (ok op, store i none s)
  unfolding take_operation op_index
  take_operation-found h s i op q = ground (arith)

  take_operation-missing :
      (h : ℕ) (s : KeyMintTa P)
      → find_op s.operations h ≡ none
      → take_operation P env h s ≡ (err invalid_operation, s)
  unfolding take_operation op_index
  take_operation-missing h s q = ground (arith)

module _ (P : Platform) (env : Env) (h : ℕ) (input signature : Option (List ℕ))
    (auth_token : Option HardwareAuthToken) (stamp : Option TimeStampToken)
    (confirmation : Option (List ℕ)) (s : KeyMintTa P) where
  op_finish-operations :
      (i : ℕ) (op : Operation P)
      → find_op s.operations h ≡ some (i, op)
      → (op_finish P env h input signature auth_token stamp confirmation s).1.operations
        ≡ set s.operations i none
  unfolding op_finish
  op_finish-operations i op q =
      let s1 : KeyMintTa P = store i none s in
      let s2 = (finish_presence P env h s1).1 in
      let t = take_operation-found P env h s i op q in
      let k = finish_presence-operations P env h s1 in
      elim (Outcome-cases (check_subsequent_auth P env op.handle op.auth_info auth_token stamp)) [
        | inr bad ↦ ground (arith)
        | inl (again, c) ↦ elim (Outcome-cases (finish_presence P env h s1).0) [
          | inr bad ↦ ground (arith)
          | inl (u, p) ↦
              elim (Outcome-cases (finish_result P env op input signature confirmation)) [
                | inr bad ↦ ground (arith)
                | inl (r, c') ↦
                    elim (Outcome-cases (finish_deletion P env op.slot_to_delete s2).0) [
                      | inr bad ↦
                          ground (arith, finish_deletion-operations P env op.slot_to_delete s2)
                      | inl (v, d) ↦
                          ground (arith, finish_deletion-operations P env op.slot_to_delete s2)
                    ]
              ]
        ]
      ]

  pub op_finish-missing :
      find_op s.operations h ≡ none
      → op_finish P env h input signature auth_token stamp confirmation s
        ≡ (err invalid_operation, s)
  unfolding op_finish
  op_finish-missing q = let t = take_operation-missing P env h s q in ground (arith)

  -- Whatever `op_finish` returns, and even if it panics, there is no operation with its handle
  -- afterwards, all other operations are as they were, and the handles are still different.
  pub op_finish-removes :
      IsUnique s.operations
      → (find_op (op_finish P env h input signature auth_token stamp confirmation s).1.operations h
          ≡ none)
        × Changed h s (op_finish P env h input signature auth_token stamp confirmation s).1
  op_finish-removes u = elim (Option-cases (find_op s.operations h)) [
    | inl q ↦ rw (op_finish-missing q) (q, record { others = λ h' ne. refl; unique = u })
    | inr ((i, op), q) ↦
        let kept : (op_finish P env h input signature auth_token stamp confirmation s).1.operations
            ≡ (store i none s).operations =
          op_finish-operations i op q in
        let c = store-none-Changed h i op s q u in
        (
          ap (λ o. find_op o h) kept ∙ find_op-set_none s.operations h i op u q,
          record {
            others = λ h' ne. ap (λ o. find_op o h') kept ∙ c.others h' ne;
            unique = subst IsUnique (sym kept) c.unique;
          },
        )
  ]

  -- What a successful `op_finish` went through.
  pub record Finished (result : List ℕ) : Type 0 where
    pub index : ℕ
    pub op : Operation P
    pub again : Bool
    pub conf : Option (List ℕ)
    pub was : find_op s.operations h ≡ some (index, op)
    pub authenticated :
        check_subsequent_auth P env op.handle op.auth_info auth_token stamp ≡ ok again
    pub present : (is_for s.presence_required_op h ≡ false) ⊎ (env.tup_available ≡ true)
    pub accumulated : finish_conf_data P env op.trusted_conf_data input ≡ ok conf
    pub sized :
        check_size P op (length_of P env input)
        ≡ ok (record op { input_size = op.input_size + length_of P env input })
    pub computed : crypto_finish P op.crypto_op input signature ≡ ok result
    pub confirmed : finish_confirmation P env conf confirmation ≡ ok tt

  result-Finished :
      (i : ℕ) (op : Operation P) (again : Bool) (result : List ℕ)
      → find_op s.operations h ≡ some (i, op)
      → check_subsequent_auth P env op.handle op.auth_info auth_token stamp ≡ ok again
      → (is_for s.presence_required_op h ≡ false) ⊎ (env.tup_available ≡ true)
      → finish_result P env op input signature confirmation ≡ ok result
      → Finished result
  unfolding finish_result check_size
  result-Finished i op again result q c present e =
      let (conf, accumulated, e1) =
        >>=-eq-ok (finish_conf_data P env op.trusted_conf_data input) _ e in
      let (sized, fits, e2) = >>=-eq-ok (check_size P op (length_of P env input)) _ e1 in
      record {
        index = i;
        op = op;
        again = again;
        conf = conf;
        was = q;
        authenticated = c;
        present = present;
        accumulated = accumulated;
        sized = ground (arith);
        computed = ground (arith);
        confirmed = ground (arith);
      }

  presence-ok :
      (i : ℕ) (u : Unit {0})
      → (finish_presence P env h (store i none s)).0 ≡ ok u
      → (is_for s.presence_required_op h ≡ false) ⊎ (env.tup_available ≡ true)
  unfolding finish_presence
  presence-ok i u e = elim (Bool-cases (is_for s.presence_required_op h)) [
    | inr f ↦ inl f
    | inl t ↦ inr (ground (arith))
  ]

  -- A successful `op_finish` found the operation and passed its authentication. If presence was
  -- required for it there was trusted user presence. The input was added to the data to be
  -- confirmed and counted, both within their limits, the result is that of the cryptographic
  -- operation, and the confirmation token, if one is needed, was verified over all of that data.
  pub op_finish-Finished :
      (result : List ℕ)
      → (op_finish P env h input signature auth_token stamp confirmation s).0 ≡ ok result
      → Finished result
  unfolding op_finish
  op_finish-Finished result e = elim (Option-cases (find_op s.operations h)) [
    | inl q ↦ cc (op_finish-missing q)
    | inr ((i, op), q) ↦
        let t = take_operation-found P env h s i op q in
        elim (Outcome-cases (check_subsequent_auth P env op.handle op.auth_info auth_token stamp)) [
          | inr bad ↦ ground (arith)
          | inl (again, c) ↦ elim (Outcome-cases (finish_presence P env h (store i none s)).0) [
            | inr bad ↦ ground (arith)
            | inl (u, p) ↦
                elim (Outcome-cases (finish_result P env op input signature confirmation)) [
                  | inr bad ↦ ground (arith)
                  | inl (r, c') ↦
                      result-Finished i op again result q c (presence-ok i u p) (ground (arith))
                ]
          ]
        ]
  ]

module _ (P : Platform) (env : Env) (h : ℕ) (s : KeyMintTa P) where
  op_abort-found :
      (i : ℕ) (op : Operation P)
      → find_op (clear_presence h s).operations h ≡ some (i, op)
      → op_abort P env h s ≡ (ok tt, store i none (clear_presence h s))
  unfolding op_abort
  op_abort-found i op q =
      let t = take_operation-found P env h (clear_presence h s) i op q in ground (arith)

  -- `op_abort` removes the operation and the requirement of presence for it, and no other.
  pub op_abort-removes :
      (i : ℕ) (op : Operation P)
      → find_op s.operations h ≡ some (i, op)
      → IsUnique s.operations
      → ((op_abort P env h s).0 ≡ ok tt)
        × (find_op (op_abort P env h s).1.operations h ≡ none)
        × (is_for (op_abort P env h s).1.presence_required_op h ≡ false)
        × Changed h s (op_abort P env h s).1
  op_abort-removes i op q u =
      let same_ops = clear_presence-operations h s in
      let q' = ap (λ o. find_op o h) same_ops ∙ q in
      let u' = subst IsUnique (sym same_ops) u in
      rw (op_abort-found i op q') (
        refl,
        find_op-set_none (clear_presence h s).operations h i op u' q',
        clear_presence-spent h s,
        Changed-clear h s (store-none-Changed h i op (clear_presence h s) q' u'),
      )
