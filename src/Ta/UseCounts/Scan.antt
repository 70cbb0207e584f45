-- ===== src/Ta/UseCounts/Scan.antt =====
-- What the loop of `update_use_count` (ta/src/lib.rs) finds in the table.
use platform_system_keymint.Common.{
  ℕ, zero, suc, ◌+◌, ◌≡◌, refl, sym, ap, ◌∙◌, true, false, ◌⊎◌, inl, inr, Option, none, some, List,
  [], ◌∷◌, get_elem?, set, if◌then◌else◌, Bool-cases, arith,
}
use platform_system_keymint.Common.Bytes.{bytes_eq, bytes_eq_refl, bytes_eq→eq}
use platform_system_keymint.Ta.UseCounts.{UseCount, first, scan}

-- The uses that the table records for a key: 0 if it has no entry.
unfoldable pub uses : List (Option UseCount) → List ℕ → ℕ
uses [] key_id = 0
uses (none ∷ rest) key_id = uses rest key_id
uses (some c ∷ rest) key_id =
    let later = uses rest key_id in if bytes_eq c.key_id key_id then c.count else later

-- Writing an entry for the key at an index changes the uses of that key alone.
abbrev pub Writes : List (Option UseCount) → ℕ → List ℕ → Type 0
Writes table k key =
    (c : UseCount)
    → c.key_id ≡ key
    → (k' : List ℕ)
    → uses (set table k (some c)) k' ≡ (if bytes_eq key k' then c.count else uses table k')

Writes-none :
    (rest : List (Option UseCount)) (k : ℕ) (key : List ℕ)
    → Writes rest k key
    → Writes (none ∷ rest) (suc k) key
unfolding uses
Writes-none rest k key w c e k' = w c e k'

Writes-some :
    (o : UseCount) (rest : List (Option UseCount)) (k : ℕ) (key : List ℕ)
    → bytes_eq o.key_id key ≡ false
    → Writes rest k key
    → Writes (some o ∷ rest) (suc k) key
unfolding uses
Writes-some o rest k key f w c e k' = elim (Bool-cases (bytes_eq o.key_id k')) [
  | inr other ↦ rw (w c e k', uses) (rw other refl)
  | inl same ↦ elim (Bool-cases (bytes_eq key k')) [
    | inr ne ↦ rw same (rw ne refl)
    | inl same' ↦ absurd (
        cc (
          f,
          ap (λ l. bytes_eq l key) (bytes_eq→eq o.key_id k' same ∙ sym (bytes_eq→eq key k' same')),
          bytes_eq_refl key,
        ))
  ]
]

Writes-here :
    (v : Option UseCount) (rest : List (Option UseCount)) (key : List ℕ)
    → (v ≡ none) ⊎ ((o : UseCount) × (v ≡ some o) × (bytes_eq o.key_id key ≡ true))
    → Writes (v ∷ rest) zero key
unfolding uses
Writes-here none rest key h c e k' = rw e refl
Writes-here (some o) rest key (inl h) c e k' = cc
Writes-here (some o) rest key (inr (p, same, t)) c e k' = elim (Bool-cases (bytes_eq key k')) [
  | inl s ↦ rw (e, uses) (rw s refl)
  | inr n ↦ rw (e, uses) (rw n (rw (bytes_eq→eq o.key_id key (ground (arith)), uses) (rw n refl)))
]

pub record Found (key : List ℕ) (table : List (Option UseCount)) (idx j : ℕ) : Type 0 where
  pub offset : ℕ
  pub entry : UseCount
  pub at_offset : j ≡ idx + offset
  pub held : get_elem? table offset ≡ some (some entry)
  pub own_key : entry.key_id ≡ key
  pub own_count : uses table key ≡ entry.count
  pub writes : Writes table offset key

pub record Free (key : List ℕ) (table : List (Option UseCount)) (idx j : ℕ) : Type 0 where
  pub offset : ℕ
  pub at_offset : j ≡ idx + offset
  pub held : get_elem? table offset ≡ some none
  pub writes : Writes table offset key

pub scan-Found :
    (key : List ℕ) (table : List (Option UseCount)) (idx : ℕ) (free : Option ℕ) (j : ℕ)
    → (scan key table idx free).1 ≡ some j
    → Found key table idx j
unfolding scan uses
scan-Found key [] idx free j e = cc
scan-Found key (none ∷ rest) idx free j e =
    let r = scan-Found key rest (suc idx) (first free idx) j e in
    record {
      offset = suc r.offset;
      entry = r.entry;
      at_offset = omega (arith, r.at_offset);
      held = r.held;
      own_key = r.own_key;
      own_count = r.own_count;
      writes = Writes-none rest r.offset key r.writes;
    }
scan-Found key (some o ∷ rest) idx free j e = elim (Bool-cases (bytes_eq o.key_id key)) [
  | inl t ↦ record {
    offset = 0;
    entry = o;
    at_offset = ground (arith);
    held = refl;
    own_key = bytes_eq→eq o.key_id key t;
    own_count = ground (arith);
    writes = Writes-here (some o) rest key (inr (o, refl, t));
  }
  | inr f ↦
      let r = scan-Found key rest (suc idx) free j (ground (arith)) in
      record {
        offset = suc r.offset;
        entry = r.entry;
        at_offset = omega (arith, r.at_offset);
        held = r.held;
        own_key = r.own_key;
        own_count = rw (f, uses) r.own_count;
        writes = Writes-some o rest r.offset key f r.writes;
      }
]

pub scan-absent :
    (key : List ℕ) (table : List (Option UseCount)) (idx : ℕ) (free : Option ℕ)
    → (scan key table idx free).1 ≡ none
    → uses table key ≡ 0
unfolding scan uses
scan-absent key [] idx free e = refl
scan-absent key (none ∷ rest) idx free e = scan-absent key rest (suc idx) (first free idx) e
scan-absent key (some o ∷ rest) idx free e = elim (Bool-cases (bytes_eq o.key_id key)) [
  | inl t ↦ ground (arith)
  | inr f ↦ rw (f, uses) (scan-absent key rest (suc idx) free (ground (arith)))
]

-- Every entry is taken, and by another key.
abbrev pub IsFullWithout : List ℕ → List (Option UseCount) → Type 0
IsFullWithout key [] = Unit {0}
IsFullWithout key (none ∷ rest) = ⊥
IsFullWithout key (some c ∷ rest) = ((c.key_id ≡ key) → ⊥) × IsFullWithout key rest

scan_keeps_free :
    (key : List ℕ) (table : List (Option UseCount)) (idx i : ℕ)
    → (scan key table idx (some i)).0 ≡ some i
unfolding scan
scan_keeps_free key [] idx i = refl
scan_keeps_free key (none ∷ rest) idx i = scan_keeps_free key rest (suc idx) i
scan_keeps_free key (some o ∷ rest) idx i = elim (Bool-cases (bytes_eq o.key_id key)) [
  | inl t ↦ ground (arith)
  | inr f ↦ ground (arith, scan_keeps_free key rest (suc idx) i)
]

pub scan-Free :
    (key : List ℕ) (table : List (Option UseCount)) (idx j : ℕ)
    → (scan key table idx none).1 ≡ none
    → (scan key table idx none).0 ≡ some j
    → Free key table idx j
unfolding scan
scan-Free key [] idx j e g = cc
scan-Free key (none ∷ rest) idx j e g = record {
  offset = 0;
  at_offset = ground (arith, scan_keeps_free key rest (suc idx) idx);
  held = refl;
  writes = Writes-here none rest key (inl refl);
}
scan-Free key (some o ∷ rest) idx j e g = elim (Bool-cases (bytes_eq o.key_id key)) [
  | inl t ↦ ground (arith)
  | inr f ↦
      let r = scan-Free key rest (suc idx) j (ground (arith)) (ground (arith)) in
      record {
        offset = suc r.offset;
        at_offset = omega (arith, r.at_offset);
        held = r.held;
        writes = Writes-some o rest r.offset key f r.writes;
      }
]

pub scan-IsFullWithout :
    (key : List ℕ) (table : List (Option UseCount)) (idx : ℕ)
    → (scan key table idx none).1 ≡ none
    → (scan key table idx none).0 ≡ none
    → IsFullWithout key table
unfolding scan
scan-IsFullWithout key [] idx e g = tt
scan-IsFullWithout key (none ∷ rest) idx e g = cc (scan_keeps_free key rest (suc idx) idx, g)
scan-IsFullWithout key (some o ∷ rest) idx e g = elim (Bool-cases (bytes_eq o.key_id key)) [
  | inl t ↦ ground (arith)
  | inr f ↦ (
    λ same. cc (f, ap (λ k. bytes_eq k key) same, bytes_eq_refl key),
    scan-IsFullWithout key rest (suc idx) (ground (arith)) (ground (arith)),
  )
]
