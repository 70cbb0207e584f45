-- ===== src/Ta/Operation/Lookup.antt =====
-- Laws of the operation table (ta/src/operation.rs): at most one operation has a given handle, and
-- storing, dropping and adding operations changes the entry of that handle alone.
use platform_system_keymint.Common.{
  ℕ, ◌≡◌, ◌≢◌, refl, inl, inr, Option, none, some, List, [], ◌∷◌, set, ◌==◌, if◌then◌else◌,
  Option-cases, Bool-cases, arith,
}
use platform_system_keymint.Ta.Platform.{Platform}
use platform_system_keymint.Ta.Operation.Crypto.{Operation}
use platform_system_keymint.Ta.Operation.Table.{find_op, free_index}

module _ {P : Platform} where
  -- No two operations in the table have the same handle.
  abbrev pub IsUnique : List (Option (Operation P)) → Type 0
  IsUnique [] = Unit {0}
  IsUnique (none ∷ ops) = IsUnique ops
  IsUnique (some op ∷ ops) = (find_op ops op.handle ≡ none) × IsUnique ops

  pub find_op-handle :
      (ops : List (Option (Operation P))) (h i : ℕ) (op : Operation P)
      → find_op ops h ≡ some (i, op)
      → op.handle ≡ h
  unfolding find_op
  find_op-handle [] h i op e = cc
  find_op-handle (none ∷ ops) h i op e = elim (Option-cases (find_op ops h)) [
    | inl no_op ↦ ground (arith)
    | inr (r, q) ↦ ground (arith, find_op-handle ops h r.0 r.1)
  ]
  find_op-handle (some o ∷ ops) h i op e = elim (Option-cases (find_op ops h)) [
    | inl no_op ↦ ground (arith)
    | inr (r, q) ↦ ground (arith, find_op-handle ops h r.0 r.1)
  ]

  -- After the entry is cleared its handle is not found.
  pub find_op-set_none :
      (ops : List (Option (Operation P))) (h i : ℕ) (op : Operation P)
      → IsUnique ops
      → find_op ops h ≡ some (i, op)
      → find_op (set ops i none) h ≡ none
  unfolding find_op
  find_op-set_none [] h i op u e = cc
  find_op-set_none (none ∷ ops) h i op u e = elim (Option-cases (find_op ops h)) [
    | inl no_op ↦ ground (arith)
    | inr (r, q) ↦ ground (arith, find_op-set_none ops h r.0 r.1 u q)
  ]
  find_op-set_none (some o ∷ ops) h i op u e = elim (Option-cases (find_op ops h)) [
    | inl no_op ↦ ground (arith)
    | inr (r, q) ↦ ground (arith, find_op-set_none ops h r.0 r.1 u.1 q)
  ]

  -- Other handles are found as before, whatever is stored for this one.
  pub find_op-set_ne :
      (ops : List (Option (Operation P))) (h h' i : ℕ) (op op' : Operation P)
      → h' ≢ h
      → op'.handle ≡ h
      → find_op ops h ≡ some (i, op)
      → (find_op (set ops i none) h' ≡ find_op ops h')
        × (find_op (set ops i (some op')) h' ≡ find_op ops h')
  unfolding find_op
  find_op-set_ne [] h h' i op op' ne k e = cc
  find_op-set_ne (none ∷ ops) h h' i op op' ne k e = elim (Option-cases (find_op ops h)) [
    | inl no_op ↦ ground (arith)
    | inr (r, q) ↦ ground (arith, find_op-set_ne ops h h' r.0 r.1 op' ne k q)
  ]
  find_op-set_ne (some o ∷ ops) h h' i op op' ne k e = elim (Option-cases (find_op ops h)) [
    | inl no_op ↦ ground (arith)
    | inr (r, q) ↦ ground (arith, find_op-set_ne ops h h' r.0 r.1 op' ne k q)
  ]

  -- What is stored for a handle is found under it.
  pub find_op-set_self :
      (ops : List (Option (Operation P))) (h i : ℕ) (op op' : Operation P)
      → op'.handle ≡ h
      → find_op ops h ≡ some (i, op)
      → find_op (set ops i (some op')) h ≡ some (i, op')
  unfolding find_op
  find_op-set_self [] h i op op' k e = cc
  find_op-set_self (none ∷ ops) h i op op' k e = elim (Option-cases (find_op ops h)) [
    | inl no_op ↦ ground (arith)
    | inr (r, q) ↦ ground (arith, find_op-set_self ops h r.0 r.1 op' k q)
  ]
  find_op-set_self (some o ∷ ops) h i op op' k e = elim (Option-cases (find_op ops h)) [
    | inl no_op ↦ ground (arith)
    | inr (r, q) ↦ ground (arith, find_op-set_self ops h r.0 r.1 op' k q)
  ]

  pub IsUnique-set :
      (ops : List (Option (Operation P))) (h i : ℕ) (op op' : Operation P)
      → op'.handle ≡ h
      → find_op ops h ≡ some (i, op)
      → IsUnique ops
      → IsUnique (set ops i none) × IsUnique (set ops i (some op'))
  unfolding find_op
  IsUnique-set [] h i op op' k e u = cc
  IsUnique-set (none ∷ ops) h i op op' k e u = elim (Option-cases (find_op ops h)) [
    | inl no_op ↦ ground (arith)
    | inr (r, q) ↦ ground (arith, IsUnique-set ops h r.0 r.1 op' k q u)
  ]
  IsUnique-set (some o ∷ ops) h i op op' k e u = elim (Option-cases (find_op ops h)) [
    | inl no_op ↦ ground (arith)
    | inr (r, q) ↦ elim (Bool-cases (o.handle == h)) [
      | inl same ↦ ground (arith)
      | inr other ↦ ground (
        arith,
        IsUnique-set ops h r.0 r.1 op' k q u.1,
        find_op-set_ne ops h o.handle r.0 r.1 op' (ground arith) k q,
      )
    ]
  ]

  -- Placing an operation with a new handle in a free entry.
  pub find_op-place :
      (ops : List (Option (Operation P))) (h h' i : ℕ) (op : Operation P)
      → op.handle ≡ h
      → find_op ops h ≡ none
      → free_index ops ≡ some i
      → find_op (set ops i (some op)) h' ≡ (if h == h' then some (i, op) else find_op ops h')
  unfolding find_op free_index
  find_op-place [] h h' i op k e f = cc
  find_op-place (none ∷ ops) h h' i op k e f = elim (Option-cases (find_op ops h')) [
    | inl no_op ↦ ground (arith)
    | inr (r, q) ↦ ground (arith)
  ]
  find_op-place (some o ∷ ops) h h' i op k e f = elim (Option-cases (free_index ops)) [
    | inl full ↦ ground (arith)
    | inr (r, q) ↦ ground (arith, find_op-place ops h h' r op k (ground arith) q)
  ]

  pub IsUnique-place :
      (ops : List (Option (Operation P))) (i : ℕ) (op : Operation P)
      → find_op ops op.handle ≡ none
      → free_index ops ≡ some i
      → IsUnique ops
      → IsUnique (set ops i (some op))
  unfolding find_op free_index
  IsUnique-place [] i op e f u = cc
  IsUnique-place (none ∷ ops) i op e f u = elim (Option-cases (find_op ops op.handle)) [
    | inl no_op ↦ ground (arith)
    | inr (r, q) ↦ ground (arith)
  ]
  IsUnique-place (some o ∷ ops) i op e f u = elim (Option-cases (free_index ops)) [
    | inl full ↦ ground (arith)
    | inr (r, q) ↦ elim (Option-cases (find_op ops op.handle)) [
      | inl no_op ↦ ground (
        arith,
        IsUnique-place ops r op no_op q u.1,
        find_op-place ops op.handle o.handle r op refl no_op q,
      )
      | inr (m, found) ↦ ground (arith)
    ]
  ]

  -- A full table has an operation in every entry.
  abbrev pub IsFull : List (Option (Operation P)) → Type 0
  IsFull [] = Unit {0}
  IsFull (none ∷ ops) = ⊥
  IsFull (some op ∷ ops) = IsFull ops

  pub free_index-none : (ops : List (Option (Operation P))) → free_index ops ≡ none → IsFull ops
  unfolding free_index
  free_index-none [] e = tt
  free_index-none (none ∷ ops) e = cc
  free_index-none (some o ∷ ops) e = free_index-none ops (ground arith)
