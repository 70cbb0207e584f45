-- ===== src/Keyblob/SddMem.antt =====
-- The in-memory manager of secure deletion secrets (common/src/keyblob/sdd_mem.rs). An operation
-- returns its result and the manager that it leaves. A slot is a `u32`, and `N` is the number of
-- slots. What the generator writes is an argument, read only where the code fills bytes.
pub mod Laws
use platform_system_keymint.Common.{
  ℕ, zero, suc, ◌+◌, ◌%◌, ◌<◌, ◌≤◌, ◌≡◌, ◌≢◌, ◌↔◌, refl, sym, ap, ◌∙◌, Bool, true, false, not, ◌⊎◌,
  inl, inr, Option, none, some, List, [], ◌∷◌, length, get_elem?, set, replicate,
  get_elem?-set_self, get_elem?-set_ne, get_elem?-some_lt, get_elem?-none_le, length-set, ok, err,
  panic, ltb, if◌then◌else◌, Option-cases, Bool-cases, arith,
}
use platform_system_keymint.KmError.{Error, Result, hal}
use platform_system_keymint.Wire.Errors.{ErrorCode}

pub record SecureDeletionData : Type 0 where
  pub factory_reset_secret : List ℕ
  pub secure_deletion_secret : List ℕ

pub record InMemorySlotManager : Type 0 where
  pub factory_secret : Option (List ℕ)
  pub slots : List (Option SecureDeletionData)

abbrev pub empty_manager : ℕ → InMemorySlotManager
empty_manager n = record { factory_secret = none; slots = replicate n none }

unfoldable pub get_factory_reset_secret : InMemorySlotManager → Result SecureDeletionData
get_factory_reset_secret m = elim m.factory_secret [
  | some secret ↦
      ok (record { factory_reset_secret = secret; secure_deletion_secret = replicate 16 0 })
  | none ↦ err (hal ErrorCode.unknown_error)
]

abbrev create_factory_secret : List ℕ → InMemorySlotManager → InMemorySlotManager
create_factory_secret draw m = elim m.factory_secret [
  | some _ ↦ m
  | none ↦ record m { factory_secret = some draw }
]

unfoldable pub get_or_create_factory_reset_secret :
    List ℕ → InMemorySlotManager → Result SecureDeletionData × InMemorySlotManager
unfolding get_factory_reset_secret
get_or_create_factory_reset_secret draw m =
    let m' = create_factory_secret draw m in (get_factory_reset_secret m', m')

-- The first empty slot of the loop of `new_secret`.
unfoldable pub free_slot : List (Option SecureDeletionData) → Option ℕ
free_slot [] = none
free_slot (none ∷ slots) = some 0
free_slot (some _ ∷ slots) = elim (free_slot slots) [ none ↦ none | some i ↦ some (suc i) ]

unfoldable pub new_secret :
    List ℕ → List ℕ → InMemorySlotManager → Result (ℕ × SecureDeletionData) × InMemorySlotManager
unfolding free_slot get_or_create_factory_reset_secret
new_secret factory_draw draw m = elim (free_slot m.slots) [
  | none ↦ (err (hal ErrorCode.rollback_resistance_unavailable), m)
  | some idx ↦
      let (r, m') = get_or_create_factory_reset_secret factory_draw m in
      elim r [
        | err e ↦ (err e, m')
        | panic ↦ (panic, m')
        | ok secret ↦
            let sdd = record secret { secure_deletion_secret = draw } in
            (ok (idx % 4294967296, sdd), record m' { slots = set m'.slots idx (some sdd) })
      ]
]

unfoldable pub get_secret : InMemorySlotManager → ℕ → Result SecureDeletionData
get_secret m slot = elim (get_elem? m.slots slot) [
  | none ↦ err (hal ErrorCode.invalid_key_blob)
  | some none ↦ err (hal ErrorCode.invalid_key_blob)
  | some (some sdd) ↦ ok sdd
]

-- `self.slots[slot.0 as usize]` panics out of bounds.
unfoldable pub delete_secret : ℕ → InMemorySlotManager → Result (Unit {0}) × InMemorySlotManager
delete_secret slot m = elim (get_elem? m.slots slot) [
  | none ↦ (panic, m)
  | some none ↦ (err (hal ErrorCode.invalid_key_blob), record m { slots = set m.slots slot none })
  | some (some _) ↦ (ok tt, record m { slots = set m.slots slot none })
]

clear : List (Option SecureDeletionData) → List (Option SecureDeletionData)
clear [] = []
clear (_ ∷ slots) = none ∷ clear slots

unfoldable pub delete_all : InMemorySlotManager → InMemorySlotManager
unfolding clear
delete_all m = record { factory_secret = none; slots = clear m.slots }
