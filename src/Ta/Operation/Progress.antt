-- ===== src/Ta/Operation/Progress.antt =====
-- What `op_update` and `op_update_aad` (ta/src/operation.rs) leave in the operation table.
use mathlib.Core.Path.{subst}
use platform_system_keymint.Common.{
  ℕ, ◌≡◌, ◌≢◌, refl, sym, ap, ◌∙◌, Bool, false, inl, inr, Option, none, some, List, ok, Bool-cases,
  arith,
}
use platform_system_keymint.Ta.Tokens.{HardwareAuthToken, TimeStampToken}
use platform_system_keymint.Ta.Platform.{Platform, Env}
use platform_system_keymint.Ta.Auth.{check_subsequent_auth}
use platform_system_keymint.Ta.Operation.Crypto.{Operation, update}
use platform_system_keymint.Ta.Operation.Table.{KeyMintTa, find_op}
use platform_system_keymint.Ta.Operation.Lookup.{
  IsUnique, find_op-handle, find_op-set_ne, find_op-set_self, IsUnique-set,
}
use platform_system_keymint.Ta.Operation.Handlers.{is_for, clear_presence, store, op_update}
use platform_system_keymint.Ta.Operation.Closures.{Updated, update-Updated}
use platform_system_keymint.Ta.Operation.Lifecycle.{authed, Ran, with_authed_operation-eq-ok}

-- No handle but `h` changed its entry, and the handles are still different.
pub record Changed {P : Platform} (h : ℕ) (s s' : KeyMintTa P) : Type 0 where
  pub others : (h' : ℕ) → h' ≢ h → find_op s'.operations h' ≡ find_op s.operations h'
  pub unique : IsUnique s'.operations

module _ {P : Platform} (h : ℕ) (s : KeyMintTa P) where
  pub clear_presence-operations : (clear_presence h s).operations ≡ s.operations
  clear_presence-operations = elim (Bool-cases (is_for s.presence_required_op h)) [
    | inl t ↦ rw t refl
    | inr f ↦ rw f refl
  ]

module _ {P : Platform} (h i : ℕ) (op : Operation P) (s : KeyMintTa P) where
  pub store-some-Changed :
      (op' : Operation P)
      → find_op s.operations h ≡ some (i, op)
      → op'.handle ≡ h
      → IsUnique s.operations
      → Changed h s (store i (some op') s)
  store-some-Changed op' q k u = record {
    others = λ h' ne. (find_op-set_ne s.operations h h' i op op' ne k q).1;
    unique = (IsUnique-set s.operations h i op op' k q u).1;
  }

  pub store-none-Changed :
      find_op s.operations h ≡ some (i, op) → IsUnique s.operations → Changed h s (store i none s)
  store-none-Changed q u = record {
    others = λ h' ne.
        (find_op-set_ne s.operations h h' i op op ne (find_op-handle s.operations h i op q) q).0;
    unique = (IsUnique-set s.operations h i op op (find_op-handle s.operations h i op q) q u).0;
  }

module _ {P : Platform} (h : ℕ) (s : KeyMintTa P) where
  pub clear_presence-spent : is_for (clear_presence h s).presence_required_op h ≡ false
  clear_presence-spent = elim (Bool-cases (is_for s.presence_required_op h)) [
    | inl t ↦ rw t refl
    | inr f ↦ rw f (rw f refl)
  ]

  pub Changed-clear : {s' : KeyMintTa P} → Changed h (clear_presence h s) s' → Changed h s s'
  Changed-clear c = record {
    others = λ h' ne. c.others h' ne ∙ ap (λ o. find_op o h') (clear_presence-operations h s);
    unique = c.unique;
  }

module _ (P : Platform) (env : Env) (h : ℕ) (input : List ℕ) (auth_token : Option HardwareAuthToken)
    (stamp : Option TimeStampToken) (s : KeyMintTa P) where
  -- The state after a successful update.
  pub record Progress (output : List ℕ) (s' : KeyMintTa P) : Type 0 where
    pub index : ℕ
    pub before : Operation P
    pub after : Operation P
    pub again : Bool
    pub was : find_op s.operations h ≡ some (index, before)
    pub is : find_op s'.operations h ≡ some (index, after)
    pub authenticated : check_subsequent_auth P env h before.auth_info auth_token stamp ≡ ok again
    pub updated :
        Updated P
          (is_for s.presence_required_op h)
          env.tup_available
          input
          (authed again before)
          output
          after
    pub presence_spent : is_for s'.presence_required_op h ≡ false
    pub frame : Changed h s s'

  Ran-Progress :
      (output : List ℕ)
      → IsUnique s.operations
      → Ran P env h auth_token stamp
          (update P (is_for s.presence_required_op h) env.tup_available input)
          (clear_presence h s)
          output
      → Progress output (op_update P env h input auth_token stamp s).1
  unfolding op_update
  Ran-Progress output u r =
      let same_ops = clear_presence-operations h s in
      let q : find_op s.operations h ≡ some (r.index, r.before) =
        sym (ap (λ o. find_op o h) same_ops) ∙ r.found in
      let k = find_op-handle s.operations h r.index r.before q in
      let up =
        update-Updated P (is_for s.presence_required_op h) env.tup_available input
          (authed r.again r.before) output r.after r.called in
      let kept : r.after.handle ≡ h = ground (arith, up.handle_kept) in
      record {
        index = r.index;
        before = r.before;
        after = r.after;
        again = r.again;
        was = q;
        is = rw r.stored (
            find_op-set_self (clear_presence h s).operations h r.index r.before r.after kept
              r.found);
        authenticated =
            ap (λ n. check_subsequent_auth P env n r.before.auth_info auth_token stamp) (sym k)
            ∙ r.checked;
        updated = up;
        presence_spent = rw r.stored (clear_presence-spent h s);
        frame = rw r.stored (
            Changed-clear h s (
              store-some-Changed h r.index r.before (clear_presence h s) r.after r.found kept
                (subst IsUnique (sym same_ops) u)));
      }

  -- A successful `op_update` found the operation, passed its authentication and, if presence was
  -- required for it, had trusted user presence. It fed the input to the cryptographic operation,
  -- counted it within the size limit, added it to the data to be confirmed within its limit,
  -- closed the additional data, and spent the requirement of presence. It stored the operation in
  -- the same entry, changed no other operation, and the handles in the table are still different.
  pub op_update-Progress :
      (output : List ℕ)
      → IsUnique s.operations
      → (op_update P env h input auth_token stamp s).0 ≡ ok output
      → Progress output (op_update P env h input auth_token stamp s).1
  unfolding op_update
  op_update-Progress output u e = Ran-Progress output u (
      with_authed_operation-eq-ok P env h auth_token stamp
        (update P (is_for s.presence_required_op h) env.tup_available input) (clear_presence h s)
        output e)
