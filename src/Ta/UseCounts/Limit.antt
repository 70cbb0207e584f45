-- ===== src/Ta/UseCounts/Limit.antt =====
-- A key with a use limit per boot is used at most that often (`update_use_count`, ta/src/lib.rs).
use mathlib.Core.Path.{subst}
use platform_system_keymint.Common.{
  ℕ, suc, ◌<◌, ◌≤◌, ◌≡◌, refl, sym, ap, ◌∙◌, ◌⊎◌, inl, inr, Option, none, some, List, get_elem?,
  set, set-set, get_elem?-set_self, get_elem?-some_lt, ok, err, leb, if◌then◌else◌, Option-cases,
  Bool-cases, arith,
}
use platform_system_keymint.Common.Bytes.{bytes_eq, bytes_eq→eq}
use platform_system_keymint.KmError.{Result, hal}
use platform_system_keymint.Wire.Errors.{ErrorCode}
use platform_system_keymint.Ta.UseCounts.{UseCount, scan, increment, update_use_count}
use platform_system_keymint.Ta.UseCounts.Scan.{
  uses, Writes, IsFullWithout, scan-Found, scan-absent, scan-Free, scan-IsFullWithout,
}

-- The outcomes of a use of a key with a limit.
pub record Counted (key : List ℕ) (max_uses : ℕ) (table : List (Option UseCount))
    (r : Result (Unit {0}) × List (Option UseCount)) : Type 0 where
  pub outcome :
      ((r.0 ≡ ok tt)
        × (uses table key < max_uses)
        × ((k : List ℕ)
            → uses r.1 k ≡ (if bytes_eq key k then suc (uses table key) else uses table k)))
      ⊎ ((r.0 ≡ err (hal ErrorCode.key_max_ops_exceeded))
          × (max_uses ≤ uses table key)
          × ((k : List ℕ) → uses r.1 k ≡ uses table k))
      ⊎ ((r.0 ≡ err (hal ErrorCode.too_many_operations))
          × IsFullWithout key table
          × (uses table key ≡ 0)
          × (r.1 ≡ table))

use_known :
    (key : List ℕ) (max_uses : ℕ) (table : List (Option UseCount)) (j : ℕ) (entry : UseCount)
    → get_elem? table j ≡ some (some entry)
    → entry.key_id ≡ key
    → uses table key ≡ entry.count
    → Writes table j key
    → Counted key max_uses table (increment table j max_uses)
unfolding increment
use_known key max_uses table j entry held own n w = elim (Bool-cases (leb max_uses entry.count)) [
  | inl t ↦ record {
    outcome = inr (
        inl (
          rw (held, increment) (rw t refl),
          ground (arith),
          λ k. rw (held, increment) (rw t refl),
        ));
  }
  | inr f ↦ record {
    outcome = inl (
      rw (held, increment) (rw f refl),
      ground (arith),
      λ k.
          rw (held, increment)
            (rw f (w (record entry { count = suc entry.count }) own k ∙ rw n refl)),
    );
  }
]

-- The table with a fresh entry has the same uses.
fresh-uses :
    (key : List ℕ) (table : List (Option UseCount)) (j : ℕ) (c : UseCount)
    → uses table key ≡ 0
    → c.key_id ≡ key
    → c.count ≡ 0
    → Writes table j key
    → (k : List ℕ) → uses (set table j (some c)) k ≡ uses table k
fresh-uses key table j c zero_uses own empty w k = elim (Bool-cases (bytes_eq key k)) [
  | inl t ↦ w c own k ∙ rw t (empty ∙ sym zero_uses ∙ ap (uses table) (bytes_eq→eq key k t))
  | inr f ↦ w c own k ∙ rw f refl
]

-- Counts are compared with a table that has the same uses.
Counted-same :
    (key : List ℕ) (max_uses : ℕ) (table table' : List (Option UseCount))
    (r : Result (Unit {0}) × List (Option UseCount))
    → ((k : List ℕ) → uses table' k ≡ uses table k)
    → ((r.0 ≡ err (hal ErrorCode.too_many_operations)) → ⊥)
    → Counted key max_uses table' r
    → Counted key max_uses table r
Counted-same key max_uses table table' r same not_full c = elim c.outcome [
  | inl (e, below, after) ↦ record {
    outcome = inl (
      e,
      subst (λ n. n < max_uses) (same key) below,
      λ k. after k ∙ rw (same key) (rw (same k) refl),
    );
  }
  | inr (inl (e, reached, after)) ↦ record {
    outcome = inr (inl (e, subst (λ n. max_uses ≤ n) (same key) reached, λ k. after k ∙ same k));
  }
  | inr (inr (e, full, none_yet, kept)) ↦ absurd (not_full e)
]

increment-ne-full :
    (table : List (Option UseCount)) (j max_uses : ℕ)
    → ((increment table j max_uses).0 ≡ err (hal ErrorCode.too_many_operations))
    → ⊥
unfolding increment
increment-ne-full table j max_uses h = ground (arith)

use_new :
    (key : List ℕ) (max_uses : ℕ) (table : List (Option UseCount)) (j : ℕ)
    → get_elem? table j ≡ some none
    → uses table key ≡ 0
    → Writes table j key
    → Counted key max_uses table
        (increment (set table j (some (record { key_id = key; count = 0 }))) j max_uses)
use_new key max_uses table j held none_yet w =
    let c : UseCount = record { key_id = key; count = 0 } in
    let table' = set table j (some c) in
    let same = fresh-uses key table j c none_yet refl refl w in
    Counted-same key max_uses table table' (increment table' j max_uses) same
      (increment-ne-full table' j max_uses)
      (use_known key max_uses table' j c
        (get_elem?-set_self table j (some c) (get_elem?-some_lt table j none held)) refl
        (same key ∙ none_yet)
        (λ c' own k.
          ap (λ t. uses t k) (set-set table j (some c) (some c'))
          ∙ w c' own k
          ∙ ap (λ n. if bytes_eq key k then c'.count else n) (sym (same k))))

-- `update_use_count` never panics. It succeeds only while the recorded uses of the key are below
-- the limit, and then adds one to them. It fails only when the limit is reached, or when every
-- entry of the table is taken and by another key. The uses of other keys never change.
pub update_use_count-Counted :
    (key : List ℕ) (max_uses : ℕ) (table : List (Option UseCount))
    → Counted key max_uses table (update_use_count key max_uses table)
unfolding update_use_count
update_use_count-Counted key max_uses table = elim (Option-cases (scan key table 0 none).1) [
  | inr (j, q) ↦
      let r = scan-Found key table 0 none j q in
      let here : j ≡ r.offset = omega (arith, r.at_offset) in
      rw (q, update_use_count)
        (use_known key max_uses table j r.entry (ap (get_elem? table) here ∙ r.held) r.own_key
          r.own_count (subst (λ i. Writes table i key) (sym here) r.writes))
  | inl q ↦ elim (Option-cases (scan key table 0 none).0) [
    | inr (j, g) ↦
        let r = scan-Free key table 0 j q g in
        let here : j ≡ r.offset = omega (arith, r.at_offset) in
        rw (q, update_use_count)
          (rw (g, update_use_count)
            (use_new key max_uses table j (ap (get_elem? table) here ∙ r.held)
              (scan-absent key table 0 none q)
              (subst (λ i. Writes table i key) (sym here) r.writes)))
    | inl g ↦
        rw (q, update_use_count)
          (rw (g, update_use_count)
            (record {
              outcome = inr (
                  inr (
                    refl,
                    scan-IsFullWithout key table 0 q g,
                    scan-absent key table 0 none q,
                    refl,
                  ));
            }))
  ]
]
