-- ===== src/Ta/UseCounts.antt =====
-- `update_use_count` (ta/src/lib.rs): how often keys with a limit per boot were used.
pub mod Limit
pub mod Scan
use platform_system_keymint.Common.{
  ℕ, zero, suc, ◌+◌, Bool, true, false, ◌&&◌, Option, none, some, List, [], ◌∷◌, length, get_elem?,
  set, ok, err, panic, leb, ◌==◌, if◌then◌else◌,
}
use platform_system_keymint.Common.Bytes.{bytes_eq}
use platform_system_keymint.KmError.{Error, Result, hal}
use platform_system_keymint.Wire.Errors.{ErrorCode}

-- The use count of a key, by the key's identifier.
pub record UseCount : Type 0 where
  pub key_id : List ℕ
  pub count : ℕ

abbrev pub first : Option ℕ → ℕ → Option ℕ
first none idx = some idx
first (some i) idx = some i

-- The loop: the first free index and the index of the key, where it stops.
unfoldable pub scan : List ℕ → List (Option UseCount) → ℕ → Option ℕ → Option ℕ × Option ℕ
unfolding bytes_eq
scan key_id [] idx free_idx = (free_idx, none)
scan key_id (none ∷ rest) idx free_idx = scan key_id rest (suc idx) (first free_idx idx)
scan key_id (some c ∷ rest) idx free_idx =
    let later = scan key_id rest (suc idx) free_idx in
    if bytes_eq c.key_id key_id then (free_idx, some idx) else later

-- The increment of the entry at an index. The `unwrap` panics on a free entry.
unfoldable pub increment :
    List (Option UseCount) → ℕ → ℕ → Result (Unit {0}) × List (Option UseCount)
increment table idx max_uses = elim (get_elem? table idx) [
  | none ↦ (panic, table)
  | some none ↦ (panic, table)
  | some (some c) ↦
      if leb max_uses c.count
      then (err (hal ErrorCode.key_max_ops_exceeded), table)
      else (ok tt, set table idx (some (record c { count = suc c.count })))
]

unfoldable pub update_use_count :
    List ℕ → ℕ → List (Option UseCount) → Result (Unit {0}) × List (Option UseCount)
unfolding scan increment
update_use_count key_id max_uses table =
    let (free_idx, slot_idx) = scan key_id table 0 none in
    elim slot_idx [
      | some idx ↦ increment table idx max_uses
      | none ↦ elim free_idx [
        | some idx ↦
            increment (set table idx (some (record { key_id = key_id; count = 0 }))) idx max_uses
        | none ↦ (err (hal ErrorCode.too_many_operations), table)
      ]
    ]
