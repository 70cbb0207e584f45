-- ===== src/Ta/Operation/Table.antt =====
-- The operation table of `KeyMintTa` (ta/src/lib.rs, ta/src/operation.rs): looking up, taking,
-- placing, and drawing a new handle.
use platform_system_keymint.Common.{
  ℕ, suc, Option, none, some, List, [], ◌∷◌, ok_or, ◌==◌, if◌then◌else◌,
}
use platform_system_keymint.KmError.{Error, Result, hal}
use platform_system_keymint.Wire.Errors.{ErrorCode}
use platform_system_keymint.Ta.Platform.{Platform}
use platform_system_keymint.Ta.Operation.Crypto.{Operation}

-- The fields of `KeyMintTa` that operations read or write, and `dev.sdd_mgr`.
pub record KeyMintTa (P : Platform) : Type 0 where
  pub operations : List (Option (Operation P))
  pub presence_required_op : Option ℕ
  pub sdd_mgr : Option P.SddManager

abbrev pub invalid_operation : Error
invalid_operation = hal ErrorCode.invalid_operation

module _ {P : Platform} where
  -- `iter().position(…)`: the first entry with this handle, with its operation.
  unfoldable pub find_op : List (Option (Operation P)) → ℕ → Option (ℕ × Operation P)
  find_op [] handle = none
  find_op (none ∷ ops) handle = elim (find_op ops handle) [
    | none ↦ none
    | some (i, o) ↦ some (suc i, o)
  ]
  find_op (some op ∷ ops) handle =
      let rest = find_op ops handle in
      if op.handle == handle
      then some (0, op)
      else elim rest [ none ↦ none | some (i, o) ↦ some (suc i, o) ]

  -- `op_index`, with the `unwrap` of the entry that its callers make.
  unfoldable pub op_index : List (Option (Operation P)) → ℕ → Result (ℕ × Operation P)
  unfolding find_op
  op_index ops handle = ok_or invalid_operation (find_op ops handle)

  unfoldable pub free_index : List (Option (Operation P)) → Option ℕ
  free_index [] = none
  free_index (none ∷ ops) = some 0
  free_index (some op ∷ ops) = elim (free_index ops) [ none ↦ none | some i ↦ some (suc i) ]

  unfoldable pub new_operation_index : List (Option (Operation P)) → Result ℕ
  unfolding free_index
  new_operation_index ops = ok_or (hal ErrorCode.too_many_operations) (free_index ops)

  -- `new_op_handle` over the values that the generator gives: the first that is not in use.
  -- `none` says that all of these values were in use and the loop goes on.
  unfoldable pub new_op_handle : List (Option (Operation P)) → List ℕ → Option ℕ
  unfolding find_op
  new_op_handle ops [] = none
  new_op_handle ops (draw ∷ draws) = elim (find_op ops draw) [
    | none ↦ some draw
    | some _ ↦ new_op_handle ops draws
  ]
