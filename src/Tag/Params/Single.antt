-- ===== src/Tag/Params/Single.antt =====
-- What the macros of common/src/tag.rs return, by the values that a parameter list holds.
use platform_system_keymint.Common.{
  ℕ, zero, suc, ◌≡◌, refl, sym, ◌∙◌, ap, Bool, true, false, Option, none, some, List, [], ◌∷◌, ◌++◌,
  ok, err, inl, inr, Option-cases,
}
use platform_system_keymint.KmError.{Result, hal}
use platform_system_keymint.Wire.Errors.{ErrorCode}
use platform_system_keymint.Wire.KeyParams.{KeyParam}
use platform_system_keymint.Tag.Params.{
  Tally, tally, exactly_one, at_most_one, none_or_one, get_tag_value, get_opt_tag_value,
  get_bool_tag_value,
}

module _ {A : Type 0} (select : KeyParam → Option A) where
  -- The values of a variant, in order.
  unfoldable pub values : List KeyParam → List A
  values [] = []
  values (p ∷ ps) = elim (select p) [ none ↦ values ps | some v ↦ v ∷ values ps ]

  pub values-none :
      (p : KeyParam) (ps : List KeyParam) → select p ≡ none → values (p ∷ ps) ≡ values ps
  unfolding values
  values-none p ps e = rw (e, values) refl

  pub values-some :
      (p : KeyParam) (ps : List KeyParam) (v : A)
      → select p ≡ some v
      → values (p ∷ ps) ≡ v ∷ values ps
  unfolding values
  values-some p ps v e = rw (e, values) refl

module _ {A : Type 0} (select : KeyParam → Option A) where
  pub values-append :
      (ps qs : List KeyParam) → values select (ps ++ qs) ≡ values select ps ++ values select qs
  unfolding values
  values-append [] qs = refl
  values-append (p ∷ ps) qs = elim (Option-cases (select p)) [
    | inl e ↦ rw (e, values) (values-append ps qs)
    | inr (v, e) ↦ rw (e, values) (ap (λ t. v ∷ t) (values-append ps qs))
  ]

-- What stands for exactly one value.
abbrev pub single : {A : Type 0} → ErrorCode → List A → Result A
single e [] = err (hal e)
single e (v ∷ []) = ok v
single e (v ∷ w ∷ vs) = err (hal e)

-- What stands for at most one.
abbrev pub optional : {A : Type 0} → ErrorCode → List A → Result (Option A)
optional e [] = ok none
optional e (v ∷ []) = ok (some v)
optional e (v ∷ w ∷ vs) = err (hal e)

-- The tally of a list of values.
abbrev counted : {A : Type 0} → List A → Tally A → Tally A
counted [] seen = seen
counted (v ∷ vs) seen = counted vs (record { result = some v; count = suc seen.count })

exactly_one-counted :
    {A : Type 0} (vs : List A) (e : ErrorCode)
    → (let seen = counted vs (record { result = none; count = 0 }) in
        exactly_one e seen.result seen.count)
      ≡ single e vs
unfolding exactly_one
exactly_one-counted [] e = refl
exactly_one-counted (v ∷ []) e = refl
exactly_one-counted (v ∷ w ∷ vs) e = exactly_one-many vs (some w) zero e
  where
    exactly_one-many :
        {A : Type 0} (vs : List A) (o : Option A) (n : ℕ) (e : ErrorCode)
        → (let seen = counted vs (record { result = o; count = suc (suc n) }) in
            exactly_one e seen.result seen.count)
          ≡ err (hal e)
    exactly_one-many [] none n e = refl
    exactly_one-many [] (some v) n e = refl
    exactly_one-many (v ∷ vs) o n e = exactly_one-many vs (some v) (suc n) e

at_most_one-counted :
    {A : Type 0} (vs : List A) (e : ErrorCode)
    → (let seen = counted vs (record { result = none; count = 0 }) in
        at_most_one e seen.result seen.count)
      ≡ optional e vs
unfolding at_most_one
at_most_one-counted [] e = refl
at_most_one-counted (v ∷ []) e = refl
at_most_one-counted (v ∷ w ∷ vs) e = at_most_one-many vs (some w) zero e
  where
    at_most_one-many :
        {A : Type 0} (vs : List A) (o : Option A) (n : ℕ) (e : ErrorCode)
        → (let seen = counted vs (record { result = o; count = suc (suc n) }) in
            at_most_one e seen.result seen.count)
          ≡ err (hal e)
    at_most_one-many [] none n e = refl
    at_most_one-many [] (some v) n e = refl
    at_most_one-many (v ∷ vs) o n e = at_most_one-many vs (some v) (suc n) e

module _ {A : Type 0} (select : KeyParam → Option A) where
  tally-values :
      (ps : List KeyParam) (seen : Tally A) → tally select ps seen ≡ counted (values select ps) seen
  unfolding tally values
  tally-values [] seen = refl
  tally-values (p ∷ ps) seen = elim (Option-cases (select p)) [
    | inl e ↦ rw (e, tally, values) (tally-values ps seen)
    | inr (v, e) ↦
        rw (e, tally, values) (tally-values ps (record { result = some v; count = suc seen.count }))
  ]

  -- `get_tag_value!` gives the only value of the variant; it never panics.
  pub get_tag_value-single :
      (ps : List KeyParam) (e : ErrorCode) → get_tag_value select ps e ≡ single e (values select ps)
  unfolding get_tag_value exactly_one
  get_tag_value-single ps e =
      rw (tally-values ps (record { result = none; count = 0 }))
        (exactly_one-counted (values select ps) e)

  pub get_opt_tag_value-optional :
      (ps : List KeyParam) (e : ErrorCode)
      → get_opt_tag_value select ps e ≡ optional e (values select ps)
  unfolding get_opt_tag_value at_most_one
  get_opt_tag_value-optional ps e =
      rw (tally-values ps (record { result = none; count = 0 }))
        (at_most_one-counted (values select ps) e)

-- Inversions.
pub single-ok :
    {A : Type 0} (e : ErrorCode) (vs : List A) (v : A) → single e vs ≡ ok v → vs ≡ v ∷ []
single-ok e [] v h = cc
single-ok e (w ∷ []) v h = cc
single-ok e (w ∷ x ∷ vs) v h = cc

pub optional-ok_some :
    {A : Type 0} (e : ErrorCode) (vs : List A) (v : A) → optional e vs ≡ ok (some v) → vs ≡ v ∷ []
optional-ok_some e [] v h = cc
optional-ok_some e (w ∷ []) v h = cc
optional-ok_some e (w ∷ x ∷ vs) v h = cc

pub optional-ok_none :
    {A : Type 0} (e : ErrorCode) (vs : List A) → optional e vs ≡ ok none → vs ≡ []
optional-ok_none e [] h = refl
optional-ok_none e (w ∷ []) h = cc
optional-ok_none e (w ∷ x ∷ vs) h = cc

pub get_tag_value-ok :
    {A : Type 0} (select : KeyParam → Option A) (ps : List KeyParam) (e : ErrorCode) (v : A)
    → get_tag_value select ps e ≡ ok v
    → values select ps ≡ v ∷ []
get_tag_value-ok select ps e v h =
    single-ok e (values select ps) v (sym (get_tag_value-single select ps e) ∙ h)

pub get_opt_tag_value-ok_some :
    {A : Type 0} (select : KeyParam → Option A) (ps : List KeyParam) (e : ErrorCode) (v : A)
    → get_opt_tag_value select ps e ≡ ok (some v)
    → values select ps ≡ v ∷ []
get_opt_tag_value-ok_some select ps e v h =
    optional-ok_some e (values select ps) v (sym (get_opt_tag_value-optional select ps e) ∙ h)

pub get_opt_tag_value-ok_none :
    {A : Type 0} (select : KeyParam → Option A) (ps : List KeyParam) (e : ErrorCode)
    → get_opt_tag_value select ps e ≡ ok none
    → values select ps ≡ []
get_opt_tag_value-ok_none select ps e h =
    optional-ok_none e (values select ps) (sym (get_opt_tag_value-optional select ps e) ∙ h)

-- What stands for a variant without a value.
abbrev pub flag : List (Unit {0}) → Result Bool
flag [] = ok false
flag (v ∷ []) = ok true
flag (v ∷ w ∷ vs) = err (hal ErrorCode.invalid_tag)

none_or_one-counted :
    (vs : List (Unit {0}))
    → none_or_one (counted vs (record { result = none; count = 0 })).count ≡ flag vs
unfolding none_or_one
none_or_one-counted [] = refl
none_or_one-counted (v ∷ []) = refl
none_or_one-counted (v ∷ w ∷ vs) = none_or_one-many vs (some w) zero
  where
    none_or_one-many :
        (vs : List (Unit {0})) (o : Option (Unit {0})) (n : ℕ)
        → none_or_one (counted vs (record { result = o; count = suc (suc n) })).count
          ≡ err (hal ErrorCode.invalid_tag)
    none_or_one-many [] o n = refl
    none_or_one-many (v ∷ vs) o n = none_or_one-many vs (some v) (suc n)

pub get_bool_tag_value-flag :
    (select : KeyParam → Option (Unit {0})) (ps : List KeyParam)
    → get_bool_tag_value select ps ≡ flag (values select ps)
unfolding get_bool_tag_value none_or_one
get_bool_tag_value-flag select ps =
    rw (tally-values select ps (record { result = none; count = 0 }))
      (none_or_one-counted (values select ps))

pub flag-eq-ok_false : (vs : List (Unit {0})) → flag vs ≡ ok false → vs ≡ []
flag-eq-ok_false [] h = refl
flag-eq-ok_false (v ∷ []) h = cc
flag-eq-ok_false (v ∷ w ∷ vs) h = cc

pub flag-eq-ok_true : (vs : List (Unit {0})) → flag vs ≡ ok true → vs ≡ tt ∷ []
flag-eq-ok_true [] h = cc
flag-eq-ok_true (v ∷ []) h = refl
flag-eq-ok_true (v ∷ w ∷ vs) h = cc

-- What is found for one error is found for any other.
pub get_tag_value-any_error :
    {A : Type 0} (select : KeyParam → Option A) (ps : List KeyParam) (d e : ErrorCode) (v : A)
    → get_tag_value select ps d ≡ ok v
    → get_tag_value select ps e ≡ ok v
get_tag_value-any_error select ps d e v h =
    get_tag_value-single select ps e ∙ rw (get_tag_value-ok select ps d v h) refl
