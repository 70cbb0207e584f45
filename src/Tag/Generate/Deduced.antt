-- ===== src/Tag/Generate/Deduced.antt =====
-- What an import deduces from a key (common/src/tag.rs).
use mathlib.Core.Path.{subst}
use platform_system_keymint.Common.{
  ℕ, ◌≡◌, refl, sym, ◌∙◌, Bool, true, Option, none, some, List, [], ◌∷◌, ◌++◌, append-nil, ok, err,
  panic, ◌>>=◌, inl, inr, arith, Bool-cases, >>=-eq-ok, ==→eq, ◌==◌, ap, append_assoc,
}
use platform_system_keymint.KmError.{Result}
use platform_system_keymint.Wire.Errors.{ErrorCode}
use platform_system_keymint.Wire.Params.{EcCurve, ec_curve_eq}
use platform_system_keymint.Wire.KeyParams.{KeyParam}
use platform_system_keymint.Tag.Params.{get_opt_tag_value}
use platform_system_keymint.Tag.Params.Select.{as_key_size}
use platform_system_keymint.Tag.Params.Single.{
  values, get_opt_tag_value-ok_some, get_opt_tag_value-ok_none, values-append, values-some,
  values-none,
}
use platform_system_keymint.Tag.Generate.Import.{match_or_deduce, require_matching_key_size}

-- A value that is matched or deduced is the only one of its variant in the whole list.
matched :
    {A : Type 0} (select : KeyParam → Option A) (eq : A → A → Bool)
    (eq→ : (a b : A) → eq a b ≡ true → a ≡ b) (build : A → KeyParam)
    (built : (a : A) → select (build a) ≡ some a) (ps deduced : List KeyParam) (actual : A)
    (given : Option A)
    → get_opt_tag_value select ps ErrorCode.invalid_tag ≡ ok given
    → match_or_deduce eq build actual given ≡ ok deduced
    → values select (ps ++ deduced) ≡ actual ∷ []
unfolding match_or_deduce values
matched select eq eq→ build built ps deduced actual none g m =
    let e : build actual ∷ [] ≡ deduced = cc in
    values-append select ps deduced
    ∙ rw (get_opt_tag_value-ok_none select ps ErrorCode.invalid_tag g) (
        subst (λ l. values select l ≡ actual ∷ []) e
          (values-some select (build actual) [] actual (built actual)))
matched select eq eq→ build built ps deduced actual (some v) g m = elim (Bool-cases (eq v actual)) [
  | inl t ↦
      let e : [] ≡ deduced = ground arith in
      subst (λ l. values select (ps ++ l) ≡ actual ∷ []) e
        (ap (values select) (append-nil ps)
          ∙ get_opt_tag_value-ok_some select ps ErrorCode.invalid_tag v g
          ∙ ap (λ w. w ∷ []) (eq→ v actual t))
  | inr f ↦ absurd (ground arith)
]

pub matching_key_size :
    (ps deduced : List KeyParam) (n : ℕ)
    → require_matching_key_size ps n ≡ ok deduced
    → values as_key_size (ps ++ deduced) ≡ n ∷ []
unfolding require_matching_key_size as_key_size
matching_key_size ps deduced n h =
    let found =
      >>=-eq-ok (get_opt_tag_value as_key_size ps ErrorCode.invalid_tag)
        (match_or_deduce (λ a b. a == b) KeyParam.key_size n) h in
    matched as_key_size (λ a b. a == b) ==→eq KeyParam.key_size (λ a. refl) ps deduced n found.0
      found.1 found.2

-- What is deduced for one variant is of no other.
other_variant :
    {A B : Type 0} (select : KeyParam → Option B) (eq : A → A → Bool) (build : A → KeyParam)
    (unrelated : (a : A) → select (build a) ≡ none) (deduced : List KeyParam) (actual : A)
    (given : Option A)
    → match_or_deduce eq build actual given ≡ ok deduced
    → values select deduced ≡ []
unfolding match_or_deduce values
other_variant select eq build unrelated deduced actual none m =
    let e : build actual ∷ [] ≡ deduced = cc in
    subst (λ l. values select l ≡ []) e (values-none select (build actual) [] (unrelated actual))
other_variant select eq build unrelated deduced actual (some v) m =
    elim (Bool-cases (eq v actual)) [
      | inl t ↦ let e : [] ≡ deduced = ground arith in subst (λ l. values select l ≡ []) e refl
      | inr f ↦ absurd (ground arith)
    ]

pub no_size_in :
    (exponents : List KeyParam) (e : ℕ) (given : Option ℕ)
    → match_or_deduce (λ a b. a == b) KeyParam.rsa_public_exponent e given ≡ ok exponents
    → values as_key_size exponents ≡ []
unfolding as_key_size
no_size_in exponents e given h =
    other_variant as_key_size (λ a b. a == b) KeyParam.rsa_public_exponent (λ a. refl) exponents e
      given h

-- Two deduced lists, of which the second has no size.
pub both :
    (ps sizes others deduced : List KeyParam) (n : ℕ)
    → sizes ++ others ≡ deduced
    → values as_key_size (ps ++ sizes) ≡ n ∷ []
    → values as_key_size others ≡ []
    → values as_key_size (ps ++ deduced) ≡ n ∷ []
both ps sizes others deduced n e h k =
    subst (λ l. values as_key_size (ps ++ l) ≡ n ∷ []) e
      (ap (values as_key_size) (sym (append_assoc ps sizes others))
        ∙ values-append as_key_size (ps ++ sizes) others
        ∙ rw (h, k) refl)

pub no_size_in_curves :
    (curves : List KeyParam) (c : EcCurve) (given : Option EcCurve)
    → match_or_deduce ec_curve_eq KeyParam.ec_curve c given ≡ ok curves
    → values as_key_size curves ≡ []
unfolding as_key_size
no_size_in_curves curves c given h =
    other_variant as_key_size ec_curve_eq KeyParam.ec_curve (λ a. refl) curves c given h

-- The same with the size in the second.
pub both_after :
    (ps others sizes deduced : List KeyParam) (n : ℕ)
    → others ++ sizes ≡ deduced
    → values as_key_size (ps ++ sizes) ≡ n ∷ []
    → values as_key_size others ≡ []
    → values as_key_size (ps ++ deduced) ≡ n ∷ []
both_after ps others sizes deduced n e h k =
    subst (λ l. values as_key_size (ps ++ l) ≡ n ∷ []) e
      (values-append as_key_size ps (others ++ sizes)
        ∙ ap (λ l. values as_key_size ps ++ l) (values-append as_key_size others sizes ∙ rw k refl)
        ∙ sym (values-append as_key_size ps sizes)
        ∙ h)

-- The end of the check on a curve.
pub tail :
    {Key P : Type 0} (m : Result (List KeyParam)) (checked : Result P)
    (curves deduced : List KeyParam) (k key : Key)
    → ◌>>=◌ {B = List KeyParam × Key} m
        (λ sizes. ◌>>=◌ {B = List KeyParam × Key} checked (λ _. ok (curves ++ sizes, k)))
      ≡ ok (deduced, key)
    → (sizes : List KeyParam) × (m ≡ ok sizes) × (curves ++ sizes ≡ deduced) × (k ≡ key)
tail (ok sizes) (ok p) curves deduced k key h = (sizes, refl, cc, cc)
tail (ok sizes) panic curves deduced k key h = absurd cc
tail (ok sizes) (err e) curves deduced k key h = absurd cc
tail panic checked curves deduced k key h = absurd cc
tail (err e) checked curves deduced k key h = absurd cc
