-- ===== src/Tag/Params/Contained.antt =====
-- What `contains_tag_value!` of common/src/tag.rs finds.
use mathlib.Core.Path.{subst}
use platform_system_keymint.Common.{
  ◌≡◌, refl, Bool, true, false, Option, List, [], ◌∷◌, ◌⊎◌, inl, inr, arith, Option-cases,
  Bool-cases, if◌then◌else◌,
}
use platform_system_keymint.Wire.KeyParams.{KeyParam}
use platform_system_keymint.Tag.Params.Single.{values, values-none, values-some}
use platform_system_keymint.Tag.Params.{contains_from, contains_tag_value}

-- A value is in a list.
abbrev pub Among : {A : Type 0} → A → List A → Type 0
Among v [] = ⊥
Among v (w ∷ ws) = (w ≡ v) ⊎ Among v ws

module _ {A : Type 0} (select : KeyParam → Option A) (eq : A → A → Bool)
    (eq→ : (a b : A) → eq a b ≡ true → a ≡ b) where
  contains_from-Among :
      (v : A) (ps : List KeyParam) (found : Bool)
      → contains_from select eq v ps found ≡ true
      → (found ≡ true) ⊎ Among v (values select ps)
  unfolding contains_from values
  contains_from-Among v [] found h = inl h
  contains_from-Among v (p ∷ ps) found h = elim (Option-cases (select p)) [
    | inl e ↦ ground (arith, contains_from-Among v ps found)
    | inr (w, e) ↦ elim (Bool-cases (eq w v)) [
      | inl t ↦ ground (arith, eq→ w v t)
      | inr t ↦ ground (arith, contains_from-Among v ps found)
    ]
  ]

  -- A value that `contains_tag_value!` finds is one of those that the list holds.
  pub contains_tag_value-Among :
      (ps : List KeyParam) (v : A)
      → contains_tag_value select eq ps v ≡ true
      → Among v (values select ps)
  unfolding contains_tag_value
  contains_tag_value-Among ps v h = elim (contains_from-Among v ps false h) [
    | inl e ↦ cc
    | inr m ↦ m
  ]

module _ {A : Type 0} (select : KeyParam → Option A) (eq : A → A → Bool)
    (eq_refl : (a : A) → eq a a ≡ true) where
  contains_from-found : (v : A) (ps : List KeyParam) → contains_from select eq v ps true ≡ true
  unfolding contains_from
  contains_from-found v [] = refl
  contains_from-found v (p ∷ ps) = ground (arith, contains_from-found v ps)

  contains_from-true :
      (v : A) (ps : List KeyParam) (found : Bool)
      → Among v (values select ps)
      → contains_from select eq v ps found ≡ true
  unfolding contains_from values
  contains_from-true v [] found m = absurd m
  contains_from-true v (p ∷ ps) found m = elim (Option-cases (select p)) [
    | inl e ↦
        rw (e, contains_from)
          (contains_from-true v ps found (subst (λ l. Among v l) (values-none select p ps e) m))
    | inr (w, e) ↦ elim (subst (λ l. Among v l) (values-some select p ps w e) m) [
      | inl same ↦ ground (arith, contains_from-found v ps, eq_refl v)
      | inr more ↦
          rw (e, contains_from) (contains_from-true v ps (if eq w v then true else found) more)
    ]
  ]

  -- A value that the list holds is found.
  pub Among-contains_tag_value :
      (ps : List KeyParam) (v : A)
      → Among v (values select ps)
      → contains_tag_value select eq ps v ≡ true
  unfolding contains_tag_value
  Among-contains_tag_value ps v m = contains_from-true v ps false m
