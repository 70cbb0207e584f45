-- ===== src/Tag/Order/Sorted.antt =====
-- `sort_by` puts parameters in order (`param_compare` of common/src/tag/legacy.rs).
use Prim.Native.Nat.{compare, Ordering}
use mathlib.Core.Path.{subst}
use platform_system_keymint.Common.{
  ℕ, ◌+◌, ◌%◌, ◌≡◌, refl, Bool, true, false, List, [], ◌∷◌, ◌⊎◌, inl, inr, ◌↔◌, arith, Bool-cases,
  if◌then◌else◌,
}
use platform_system_keymint.Wire.Tags.{Tag, tag_as_u32, tag_eq}
use platform_system_keymint.Wire.KeyParams.{KeyParam, tag}
use platform_system_keymint.Tag.Params.Contained.{Among}
use platform_system_keymint.Tag.Order.{
  compare_bytes, compared, param_compare, is_gt, insert_by, sort_by,
}

-- No element is greater than the next one.
abbrev pub InOrder : List KeyParam → Type 0
InOrder [] = Unit {0}
InOrder (x ∷ []) = Unit {0}
InOrder (x ∷ y ∷ ys) = (is_gt (param_compare x y) ≡ false) × InOrder (y ∷ ys)

bytes_asym :
    (xs ys : List ℕ) → is_gt (compare_bytes xs ys) ≡ true → is_gt (compare_bytes ys xs) ≡ false
unfolding compare_bytes
bytes_asym [] [] h = cc
bytes_asym [] (y ∷ ys) h = cc
bytes_asym (x ∷ xs) [] h = refl
bytes_asym (x ∷ xs) (y ∷ ys) h = ground (arith, bytes_asym xs ys)

number_asym : (a b : ℕ) → is_gt (compare a b) ≡ true → is_gt (compare b a) ≡ false
number_asym a b h = ground arith

tag_eq_sym : (t u : Tag) → tag_eq t u ≡ tag_eq u t
unfolding tag_eq
tag_eq_sym t u = ground arith

asym_if :
    (b : Bool) (o q : Ordering) (m n : ℕ)
    → (is_gt o ≡ true → is_gt q ≡ false)
    → is_gt (if b then o else compare m n) ≡ true
    → is_gt (if b then q else compare n m) ≡ false
asym_if true o q m n f h = f h
asym_if false o q m n f h = number_asym m n h

param_compare_asym :
    (x y : KeyParam) → is_gt (param_compare x y) ≡ true → is_gt (param_compare y x) ≡ false
unfolding param_compare
param_compare_asym x y h =
    subst
      (λ b.
        is_gt (
          if b
          then compare_bytes (compared y) (compared x)
          else compare (signed (tag y)) (signed (tag x)))
        ≡ false)
      (tag_eq_sym (tag x) (tag y))
      (asym_if (tag_eq (tag x) (tag y)) (compare_bytes (compared x) (compared y))
        (compare_bytes (compared y) (compared x)) (signed (tag x)) (signed (tag y))
        (bytes_asym (compared x) (compared y)) h)
  where
    signed : Tag → ℕ
    signed t = (tag_as_u32 t + 2147483648) % 4294967296

-- An element that is not smaller than the first goes behind it.
insert_after :
    (y x : KeyParam) (ys : List KeyParam)
    → InOrder (y ∷ ys)
    → is_gt (param_compare y x) ≡ false
    → InOrder (y ∷ insert_by param_compare x ys)
unfolding insert_by
insert_after y x [] h le = (le, tt)
insert_after y x (z ∷ zs) h le = elim (Bool-cases (is_gt (param_compare x z))) [
  | inl e ↦ rw (e, insert_by) (h.0, insert_after z x zs h.1 (param_compare_asym x z e))
  | inr e ↦ rw (e, insert_by) (le, (e, h.1))
]

insert_by-InOrder :
    (x : KeyParam) (ys : List KeyParam) → InOrder ys → InOrder (insert_by param_compare x ys)
unfolding insert_by
insert_by-InOrder x [] h = tt
insert_by-InOrder x (y ∷ ys) h = elim (Bool-cases (is_gt (param_compare x y))) [
  | inl e ↦ rw (e, insert_by) (insert_after y x ys h (param_compare_asym x y e))
  | inr e ↦ rw (e, insert_by) (e, h)
]

insert_by-Among :
    (p x : KeyParam) (ys : List KeyParam)
    → Among p (insert_by param_compare x ys) ↔ ((x ≡ p) ⊎ Among p ys)
unfolding insert_by
insert_by-Among p x [] = (λ m. m, λ m. m)
insert_by-Among p x (y ∷ ys) = elim (Bool-cases (is_gt (param_compare x y))) [
  | inl e ↦
      rw (e, insert_by)
        (
          λ m. elim m [
            | inl h ↦ inr (inl h)
            | inr t ↦ elim ((insert_by-Among p x ys).0 t) [ inl h ↦ inl h | inr r ↦ inr (inr r) ]
          ],
          λ m. elim m [
            | inl h ↦ inr ((insert_by-Among p x ys).1 (inl h))
            | inr t ↦ elim t [ inl h ↦ inl h | inr r ↦ inr ((insert_by-Among p x ys).1 (inr r)) ]
          ],
        )
  | inr e ↦ rw (e, insert_by) (λ m. m, λ m. m)
]

-- The sorted list is in order, and holds exactly the elements of the list.
pub sort_by-InOrder :
    (xs : List KeyParam)
    → InOrder (sort_by param_compare xs)
      × ((p : KeyParam) → Among p (sort_by param_compare xs) ↔ Among p xs)
unfolding sort_by
sort_by-InOrder [] = (tt, λ p. (λ m. m, λ m. m))
sort_by-InOrder (x ∷ xs) =
    let rest = sort_by-InOrder xs in
    (
      insert_by-InOrder x (sort_by param_compare xs) rest.0,
      λ p. (
        λ m. elim ((insert_by-Among p x (sort_by param_compare xs)).0 m) [
          | inl h ↦ inl h
          | inr t ↦ inr ((rest.1 p).0 t)
        ],
        λ m. elim m [
          | inl h ↦ (insert_by-Among p x (sort_by param_compare xs)).1 (inl h)
          | inr t ↦ (insert_by-Among p x (sort_by param_compare xs)).1 (inr ((rest.1 p).1 t))
        ],
      ),
    )
