-- ===== src/Keyblob/SddMem/Laws.antt =====
-- What the in-memory manager of secure deletion secrets (common/src/keyblob/sdd_mem.rs) keeps.
use platform_system_keymint.Common.{
  ℕ, zero, suc, ◌≤◌, ◌≡◌, ◌≢◌, ◌↔◌, refl, sym, ap, ◌∙◌, ◌⊎◌, inl, inr, Option, none, some, List, [],
  ◌∷◌, length, get_elem?, set, replicate, get_elem?-set_self, get_elem?-set_ne, get_elem?-some_lt,
  get_elem?-none_le, length-set, ok, err, panic, Option-cases, arith,
}
use platform_system_keymint.KmError.{Result, hal}
use platform_system_keymint.Wire.Errors.{ErrorCode}
use platform_system_keymint.Keyblob.SddMem.{
  SecureDeletionData, InMemorySlotManager, get_factory_reset_secret,
  get_or_create_factory_reset_secret, free_slot, new_secret, get_secret, delete_secret, delete_all,
  clear,
}

free_slot-empty :
    (slots : List (Option SecureDeletionData)) (i : ℕ)
    → free_slot slots ≡ some i
    → get_elem? slots i ≡ some none
unfolding free_slot
free_slot-empty [] i e = cc
free_slot-empty (none ∷ slots) i e = ground (arith)
free_slot-empty (some d ∷ slots) i e = elim (Option-cases (free_slot slots)) [
  | inl full ↦ ground (arith)
  | inr (j, q) ↦ ground (arith, free_slot-empty slots j q)
]

-- The manager holds at the slot what it says, and every other slot as before.
pub record Stored (slot : ℕ) (r : Result SecureDeletionData) (m m' : InMemorySlotManager)
    : Type 0 where
  pub own : get_secret m' slot ≡ r
  pub others : (slot' : ℕ) → slot' ≢ slot → get_secret m' slot' ≡ get_secret m slot'
  pub same_size : length m'.slots ≡ length m.slots

same_slot :
    (m m' : InMemorySlotManager) (slot : ℕ)
    → get_elem? m'.slots slot ≡ get_elem? m.slots slot
    → get_secret m' slot ≡ get_secret m slot
unfolding get_secret
same_slot m m' slot e = rw (e, get_secret) refl

set-Stored :
    (slot : ℕ) (o v : Option SecureDeletionData) (r : Result SecureDeletionData)
    (m m' : InMemorySlotManager)
    → get_elem? m.slots slot ≡ some o
    → m'.slots ≡ set m.slots slot v
    → r ≡ elim v [ none ↦ err (hal ErrorCode.invalid_key_blob) | some sdd ↦ ok sdd ]
    → Stored slot r m m'
unfolding get_secret
set-Stored slot o v r m m' q e same =
    let at_slot = get_elem?-set_self m.slots slot v (get_elem?-some_lt m.slots slot o q) in
    record {
      own = elim (Option-cases v) [ inl n ↦ ground (arith) | inr (sdd, n) ↦ ground (arith) ];
      others = λ slot' ne.
          same_slot m m' slot' (
            ap (λ l. get_elem? l slot') e
            ∙ get_elem?-set_ne m.slots slot slot' v (λ k. ne (sym k)));
      same_size = ap length e ∙ length-set m.slots slot v;
    }

empty_slot :
    (m : InMemorySlotManager) (slot : ℕ)
    → get_elem? m.slots slot ≡ some none
    → get_secret m slot ≡ err (hal ErrorCode.invalid_key_blob)
unfolding get_secret
empty_slot m slot q = ground (arith)

held_slot :
    (m : InMemorySlotManager) (slot : ℕ) (sdd : SecureDeletionData)
    → get_secret m slot ≡ ok sdd
    → get_elem? m.slots slot ≡ some (some sdd)
unfolding get_secret
held_slot m slot sdd e = ground (arith)

no_panic :
    (m : InMemorySlotManager) (slot : ℕ) (o : Option SecureDeletionData)
    → get_elem? m.slots slot ≡ some o
    → (delete_secret slot m).0 ≢ panic
unfolding delete_secret
no_panic m slot none q h = ground (arith)
no_panic m slot (some d) q h = ground (arith)

created-slots :
    (draw : List ℕ) (m : InMemorySlotManager)
    → ((get_or_create_factory_reset_secret draw m).1.slots ≡ m.slots)
      × (secret : SecureDeletionData) × ((get_or_create_factory_reset_secret draw m).0 ≡ ok secret)
unfolding get_or_create_factory_reset_secret get_factory_reset_secret
created-slots draw m = elim (Option-cases m.factory_secret) [
  | inl q ↦ (
    ground (arith),
    record { factory_reset_secret = draw; secure_deletion_secret = replicate 16 0 },
    ground (arith),
  )
  | inr (f, q) ↦ (
    ground (arith),
    record { factory_reset_secret = f; secure_deletion_secret = replicate 16 0 },
    ground (arith),
  )
]

-- With at most 2 ^ 32 slots, a successful `new_secret` gives a slot that held nothing, and
-- `get_secret` then gives the new data for that slot and what it gave before for every other.
pub new_secret-Stored :
    (factory_draw draw : List ℕ) (m : InMemorySlotManager) (slot : ℕ) (sdd : SecureDeletionData)
    → length m.slots ≤ 4294967296
    → (new_secret factory_draw draw m).0 ≡ ok (slot, sdd)
    → (get_secret m slot ≡ err (hal ErrorCode.invalid_key_blob))
      × (sdd.secure_deletion_secret ≡ draw)
      × Stored slot (ok sdd) m (new_secret factory_draw draw m).1
unfolding new_secret
new_secret-Stored factory_draw draw m slot sdd h e = elim (Option-cases (free_slot m.slots)) [
  | inl full ↦ ground (arith)
  | inr (idx, q) ↦
      let (kept, secret, s) = created-slots factory_draw m in
      let free = free_slot-empty m.slots idx q in
      let below = get_elem?-some_lt m.slots idx none free in
      let same : slot ≡ idx = ground (arith) in
      (
        empty_slot m slot (ap (get_elem? m.slots) same ∙ free),
        ground (arith),
        set-Stored slot none (some sdd) (ok sdd) m (new_secret factory_draw draw m).1
            (ap (get_elem? m.slots) same ∙ free) (ground (arith)) refl,
      )
]

-- `delete_secret` of a slot that holds data succeeds, and `get_secret` then fails for that slot
-- and gives what it gave before for every other.
pub delete_secret-Stored :
    (m : InMemorySlotManager) (slot : ℕ) (sdd : SecureDeletionData)
    → get_secret m slot ≡ ok sdd
    → ((delete_secret slot m).0 ≡ ok tt)
      × Stored slot (err (hal ErrorCode.invalid_key_blob)) m (delete_secret slot m).1
unfolding delete_secret
delete_secret-Stored m slot sdd e =
    let held = held_slot m slot sdd e in
    (
      ground (arith),
      set-Stored slot (some sdd) none (err (hal ErrorCode.invalid_key_blob)) m
          (delete_secret slot m).1 held (ground (arith)) refl,
    )

-- `delete_secret` panics exactly for a slot number outside the slots, for which `get_secret`
-- returns an error.
pub delete_secret-panic_iff :
    (m : InMemorySlotManager) (slot : ℕ)
    → ((delete_secret slot m).0 ≡ panic)
      ↔ ((length m.slots ≤ slot) × (get_secret m slot ≡ err (hal ErrorCode.invalid_key_blob)))
unfolding delete_secret get_secret
delete_secret-panic_iff m slot = elim (Option-cases (get_elem? m.slots slot)) [
  | inl q ↦ (λ h. (get_elem?-none_le m.slots slot q, ground (arith)), λ h. ground (arith))
  | inr (o, q) ↦
      let below = get_elem?-some_lt m.slots slot o q in
      (λ h. absurd (no_panic m slot o q h), λ h. ground (arith))
]

clear-get :
    (slots : List (Option SecureDeletionData)) (slot : ℕ)
    → (get_elem? (clear slots) slot ≡ none) ⊎ (get_elem? (clear slots) slot ≡ some none)
unfolding clear
clear-get [] slot = inl refl
clear-get (o ∷ slots) zero = inr refl
clear-get (o ∷ slots) (suc slot) = clear-get slots slot

-- After `delete_all` no slot gives data and there is no factory reset secret.
pub delete_all-deletes :
    (m : InMemorySlotManager) (slot : ℕ)
    → (get_secret (delete_all m) slot ≡ err (hal ErrorCode.invalid_key_blob))
      × (get_factory_reset_secret (delete_all m) ≡ err (hal ErrorCode.unknown_error))
unfolding delete_all get_factory_reset_secret get_secret
delete_all-deletes m slot = elim (clear-get m.slots slot) [
  | inl q ↦ (ground (arith), refl)
  | inr q ↦ (ground (arith), refl)
]
