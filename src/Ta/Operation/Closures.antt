-- ===== src/Ta/Operation/Closures.antt =====
-- What the closures of `op_update` and `op_update_aad` (ta/src/operation.rs) do to an operation.
use platform_system_keymint.Common.{ℕ, ◌+◌, ◌≡◌, Bool, true, false, ◌⊎◌, List, length, ok, arith}
use platform_system_keymint.Ta.Platform.{Platform}
use platform_system_keymint.Ta.Operation.Crypto.{
  Operation, max_size, exceeds, accumulate, crypto_update, update, update_aad,
}

module _ (P : Platform) where
  -- What a successful update did.
  pub record Updated (check_presence tup : Bool) (input : List ℕ) (op : Operation P)
      (output : List ℕ) (op' : Operation P) : Type 0 where
    pub present : (check_presence ≡ false) ⊎ (tup ≡ true)
    pub handle_kept : op'.handle ≡ op.handle
    pub aad_closed : op'.aad_allowed ≡ false
    pub auth_kept : op'.auth_info ≡ op.auth_info
    pub slot_kept : op'.slot_to_delete ≡ op.slot_to_delete
    pub counted : op'.input_size ≡ op.input_size + length input
    pub in_limit : exceeds P op'.input_size (max_size P op.crypto_op) ≡ false
    pub accumulated : accumulate P op.trusted_conf_data input ≡ ok op'.trusted_conf_data
    pub fed : crypto_update P op.crypto_op input ≡ ok (output, op'.crypto_op)

  pub update-Updated :
      (check_presence tup : Bool) (input : List ℕ) (op : Operation P) (output : List ℕ)
      (op' : Operation P)
      → update P check_presence tup input op ≡ ok (output, op')
      → Updated check_presence tup input op output op'
  unfolding update
  update-Updated check_presence tup input op output op' e = ground (arith)

  -- Additional data is taken by an AES-GCM operation alone, and only while it is allowed.
  pub update_aad-eq-ok :
      (input : List ℕ) (op op' : Operation P)
      → update_aad P input op ≡ ok (tt, op')
      → (op.aad_allowed ≡ true)
        × (op'.handle ≡ op.handle)
        × (op'.aad_allowed ≡ true)
        × (op'.input_size ≡ op.input_size)
  unfolding update_aad
  update_aad-eq-ok input op op' e = ground (arith)
