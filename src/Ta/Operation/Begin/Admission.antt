-- ===== src/Ta/Operation/Begin/Admission.antt =====
-- What `begin_operation` (ta/src/operation.rs) admits to the operation table.
use mathlib.Core.Path.{subst}
use platform_system_keymint.Common.{
  zero, suc, ℕ, ◌*◌, ◌/◌, ◌≤◌, ◌<◌, ◌≡◌, refl, sym, ap, ◌∙◌, Bool, true, false, ◌⊎◌, inl, inr,
  Option, none, some, List, [], ◌∷◌, length, get_elem?, set, ok, err, panic, if◌then◌else◌, ==_refl,
  ne→==_false, Option-cases, Outcome-cases, arith,
}
use platform_system_keymint.KmError.{Result, hal}
use platform_system_keymint.Wire.Errors.{ErrorCode}
use platform_system_keymint.Wire.Params.{Digest}
use platform_system_keymint.Wire.Modes.{KeyPurpose}
use platform_system_keymint.Tag.Digests.{digest_len}
use platform_system_keymint.Ta.Tokens.{HardwareAuthToken}
use platform_system_keymint.Ta.Platform.{Platform, Env}
use platform_system_keymint.Ta.Auth.{AuthInfo, check_auth_token}
use platform_system_keymint.Ta.Auth.Validity.{IsAuthentic, check_auth_token-IsAuthentic}
use platform_system_keymint.Ta.Operation.Crypto.{
  CryptoOperation, hmac_verify, Operation, accumulating_end, crypto_finish,
}
use platform_system_keymint.Ta.Operation.Table.{
  KeyMintTa, find_op, free_index, new_operation_index, new_op_handle,
}
use platform_system_keymint.Ta.Operation.Lookup.{
  IsUnique, IsUnique-place, find_op-place, IsFull, free_index-none,
}
use platform_system_keymint.Ta.Operation.Progress.{Changed}
use platform_system_keymint.Ta.Operation.Verdict.{verify_end-panic}
use platform_system_keymint.Ta.Operation.Begin.{begin_auth, begin_presence, hmac_begin, admit}

module _ (P : Platform) (env : Env) where
  -- The authentication of `begin_operation` either leaves the whole check to later calls, or drops
  -- it after a token was authentic and recent by the device's own clock.
  pub begin_auth-eq-ok :
      (info : AuthInfo) (auth_token : Option HardwareAuthToken) (kept : Option AuthInfo)
      → begin_auth P env (some info) auth_token ≡ ok kept
      → (kept ≡ some info)
        ⊎ ((token : HardwareAuthToken) × (secs : ℕ) × (now : ℕ) × (kept ≡ none)
            × (auth_token ≡ some token)
            × (info.timeout_secs ≡ some secs)
            × (env.clock ≡ some now)
            × IsAuthentic P env token info (some now) (some secs) none)
  unfolding begin_auth
  begin_auth-eq-ok info none kept e = elim (Option-cases info.timeout_secs) [
    | inl q ↦ inl (ground (arith))
    | inr (secs, q) ↦ elim (Option-cases env.clock) [
      | inl c ↦ inl (ground (arith))
      | inr (now, c) ↦ ground (arith)
    ]
  ]
  begin_auth-eq-ok info (some token) kept e = elim (Option-cases info.timeout_secs) [
    | inl q ↦ inl (ground (arith))
    | inr (secs, q) ↦ elim (Option-cases env.clock) [
      | inl c ↦ elim (Outcome-cases (check_auth_token P env token info none none none)) [
        | inl (u, k) ↦ inl (ground (arith))
        | inr bad ↦ ground (arith)
      ]
      | inr (now, c) ↦
          elim (Outcome-cases (check_auth_token P env token info (some now) (some secs) none)) [
            | inr bad ↦ ground (arith)
            | inl (u, k) ↦ inr (
              token,
              secs,
              now,
              ground (arith),
              refl,
              q,
              c,
              (check_auth_token-IsAuthentic P env token info (some now) (some secs) none).0 k,
            )
          ]
    ]
  ]

module _ {P : Platform} where
  -- A drawn handle is not in use, and drawing ends as soon as a value is not in use.
  pub new_op_handle-fresh :
      (ops : List (Option (Operation P))) (draws : List ℕ) (i draw : ℕ)
      → get_elem? draws i ≡ some draw
      → find_op ops draw ≡ none
      → (h : ℕ) × (new_op_handle ops draws ≡ some h) × (find_op ops h ≡ none)
  unfolding new_op_handle
  new_op_handle-fresh ops [] i draw e q = cc
  new_op_handle-fresh ops (d ∷ draws) zero draw e q = (d, ground (arith), ground (arith))
  new_op_handle-fresh ops (d ∷ draws) (suc i) draw e q = elim (Option-cases (find_op ops d)) [
    | inl free ↦ (d, ground (arith), free)
    | inr (o, used) ↦
        let (h, r, f) = new_op_handle-fresh ops draws i draw e q in (h, ground (arith), f)
  ]

  -- `begin_operation` refuses for lack of room only when every entry of the table holds an operation.
  pub new_operation_index-IsFull :
      (ops : List (Option (Operation P)))
      → new_operation_index ops ≡ err (hal ErrorCode.too_many_operations)
      → IsFull ops
  unfolding new_operation_index
  new_operation_index-IsFull ops e = elim (Option-cases (free_index ops)) [
    | inl q ↦ free_index-none ops q
    | inr (i, q) ↦ ground (arith)
  ]

  admit-operations :
      (op : Operation P) (i : ℕ) (presence : Bool) (s : KeyMintTa P)
      → (admit i op presence s).operations ≡ set s.operations i (some op)
  unfolding admit
  admit-operations op i true s = refl
  admit-operations op i false s = refl

  index-free :
      (ops : List (Option (Operation P))) (i : ℕ)
      → new_operation_index ops ≡ ok i
      → free_index ops ≡ some i
  unfolding new_operation_index
  index-free ops i e = elim (Option-cases (free_index ops)) [
    | inl q ↦ ground (arith)
    | inr (j, q) ↦ ground (arith)
  ]

  -- An operation that is admitted under a handle that is not in use, at the index that was free,
  -- is found under its handle, no other operation changes, and the handles are still different.
  pub admit-Changed :
      (op : Operation P) (i : ℕ) (presence : Bool) (s : KeyMintTa P)
      → new_operation_index s.operations ≡ ok i
      → find_op s.operations op.handle ≡ none
      → IsUnique s.operations
      → (find_op (admit i op presence s).operations op.handle ≡ some (i, op))
        × Changed op.handle s (admit i op presence s)
  admit-Changed op i presence s e q u =
      let free = index-free s.operations i e in
      let k = admit-operations op i presence s in
      (
        ap (λ o. find_op o op.handle) k
            ∙ find_op-place s.operations op.handle op.handle i op refl q free
            ∙ ap (λ b. if b then some (i, op) else find_op s.operations op.handle)
                (==_refl op.handle),
        record {
          others = λ h' ne.
              ap (λ o. find_op o h') k
              ∙ find_op-place s.operations op.handle h' i op refl q free
              ∙ ap (λ b. if b then some (i, op) else find_op s.operations h')
                  (ne→==_false op.handle h' (λ p. ne (sym p)));
          unique = subst IsUnique (sym k) (IsUnique-place s.operations i op q free u);
        },
      )

-- While a proof of presence is expected for one operation, an operation that passes the check of
-- `begin_operation` is admitted without taking its place.
pub admit-presence_required_op :
    {P : Platform} (op : Operation P) (h i : ℕ) (required : Bool) (s : KeyMintTa P)
    → s.presence_required_op ≡ some h
    → begin_presence required s ≡ ok tt
    → (admit i op required s).presence_required_op ≡ some h
unfolding begin_presence admit
admit-presence_required_op op h i true s q e = ground (arith)
admit-presence_required_op op h i false s q e = ground (arith)

-- A verification that begins with a digest of a number of bits accepts signatures of fewer bytes
-- than that number. When the MAC has an eighth as many bytes, a signature that is longer than the
-- MAC makes `op_finish` panic in its cryptographic operation.
pub hmac_begin-panic :
    (P : Platform) (min_bits bits : ℕ) (digest : Digest) (acc : P.Accumulating)
    (mac_length : Result ℕ) (input : Option (List ℕ)) (sig got : List ℕ)
    → digest_len digest ≡ ok bits
    → accumulating_end P acc input ≡ ok got
    → 8 * length got ≡ bits
    → min_bits / 8 ≤ length sig
    → length got < length sig
    → length sig < bits
    → (op : CryptoOperation P) × (hmac_begin P KeyPurpose.verify mac_length
          (ok min_bits)
          digest
          (ok acc)
        ≡ ok op)
      × (crypto_finish P op input (some sig) ≡ panic)
unfolding hmac_begin crypto_finish
hmac_begin-panic P min_bits bits digest acc mac_length input sig got d g size lo long hi = (
  hmac_verify acc (min_bits / 8) bits,
  ground (arith),
  verify_end-panic P acc (min_bits / 8) bits input sig got lo hi g long,
)
