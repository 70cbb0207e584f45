-- ===== src/Ta/Auth/Info.antt =====
-- The authentication that key characteristics ask for (`AuthInfo::new`, ta/src/operation.rs).
use mathlib.Core.Path.{subst}
use platform_system_keymint.Common.{
  ℕ, ◌≡◌, ◌≢◌, refl, sym, ap, ◌∙◌, Bool, true, false, ◌||◌, inl, inr, Option, none, some, List, [],
  ◌∷◌, ◌++◌, append_assoc, append-nil, ok, >>=-eq-ok, Option-cases, Bool-cases, arith,
}
use platform_system_keymint.Wire.KeyParams.{KeyParam}
use platform_system_keymint.Ta.Auth.{
  AuthInfo, Gathered, gather_param, gather, auth_info_of, auth_info_new,
}

-- The secure ids, authentication types and timeouts that the characteristics list.
abbrev pub secure_ids : List KeyParam → List ℕ
secure_ids [] = []
secure_ids (KeyParam.user_secure_id sid ∷ ps) = sid ∷ secure_ids ps
secure_ids (_ ∷ ps) = secure_ids ps

abbrev pub auth_types : List KeyParam → List ℕ
auth_types [] = []
auth_types (KeyParam.user_auth_type atype ∷ ps) = atype ∷ auth_types ps
auth_types (_ ∷ ps) = auth_types ps

abbrev pub timeouts : List KeyParam → List ℕ
timeouts [] = []
timeouts (KeyParam.auth_timeout secs ∷ ps) = secs ∷ timeouts ps
timeouts (_ ∷ ps) = timeouts ps

abbrev pub needs_no_auth : List KeyParam → Bool
needs_no_auth [] = false
needs_no_auth (KeyParam.no_auth_required ∷ ps) = true
needs_no_auth (_ ∷ ps) = needs_no_auth ps

abbrev pub to_list : Option ℕ → List ℕ
to_list none = []
to_list (some v) = v ∷ []

record Gathers (ps : List KeyParam) (g g' : Gathered) : Type 0 where
  ids : g'.secure_ids ≡ g.secure_ids ++ secure_ids ps
  types : to_list g'.auth_type ≡ to_list g.auth_type ++ auth_types ps
  times : to_list g'.timeout_secs ≡ to_list g.timeout_secs ++ timeouts ps
  free : g'.no_auth_required ≡ (g.no_auth_required || needs_no_auth ps)

or_false : (b : Bool) → b ≡ (b || false)
or_false true = refl
or_false false = refl

Gathers-nil : (g : Gathered) → Gathers [] g g
Gathers-nil g = record {
  ids = sym (append-nil g.secure_ids);
  types = sym (append-nil (to_list g.auth_type));
  times = sym (append-nil (to_list g.timeout_secs));
  free = or_false g.no_auth_required;
}

gather-Gathers : (ps : List KeyParam) (g g' : Gathered) → gather ps g ≡ ok g' → Gathers ps g g'
unfolding gather gather_param
gather-Gathers [] g g' e = subst (Gathers [] g) (ground (arith)) (Gathers-nil g)
gather-Gathers (KeyParam.user_secure_id sid ∷ ps) g g' e =
    let r = gather-Gathers ps (record g { secure_ids = g.secure_ids ++ (sid ∷ []) }) g' e in
    record {
      ids = r.ids ∙ append_assoc g.secure_ids (sid ∷ []) (secure_ids ps);
      types = r.types;
      times = r.times;
      free = r.free;
    }
gather-Gathers (KeyParam.user_auth_type atype ∷ ps) g g' e = elim (Option-cases g.auth_type) [
  | inr (t, q) ↦ ground (arith)
  | inl q ↦
      let r = gather-Gathers ps (record g { auth_type = some atype }) g' (ground (arith)) in
      record { ids = r.ids; types = r.types ∙ rw q refl; times = r.times; free = r.free }
]
gather-Gathers (KeyParam.auth_timeout secs ∷ ps) g g' e = elim (Option-cases g.timeout_secs) [
  | inr (t, q) ↦ ground (arith)
  | inl q ↦
      let r = gather-Gathers ps (record g { timeout_secs = some secs }) g' (ground (arith)) in
      record { ids = r.ids; types = r.types; times = r.times ∙ rw q refl; free = r.free }
]
gather-Gathers (KeyParam.no_auth_required ∷ ps) g g' e =
    let r = gather-Gathers ps (record g { no_auth_required = true }) g' e in
    record {
      ids = r.ids;
      types = r.types;
      times = r.times;
      free = elim (Bool-cases g.no_auth_required) [ inl t ↦ rw t r.free | inr f ↦ rw f r.free ];
    }
gather-Gathers (_ ∷ ps) g g' e =
    let r = gather-Gathers ps g g' e in
    record { ids = r.ids; types = r.types; times = r.times; free = r.free }

auth_info_of-some :
    (ids : List ℕ) (g : Gathered) (info : AuthInfo)
    → auth_info_of ids g ≡ ok (some info)
    → (ids ≡ info.secure_ids)
      × (info.secure_ids ≢ [])
      × (g.auth_type ≡ some info.auth_type)
      × (g.timeout_secs ≡ info.timeout_secs)
      × (g.no_auth_required ≡ false)
unfolding auth_info_of
auth_info_of-some [] g info e = cc
auth_info_of-some (sid ∷ sids) g info e = elim (Option-cases g.auth_type) [
  | inl q ↦ ground (arith)
  | inr (t, q) ↦ elim (Bool-cases g.no_auth_required) [
    | inl b ↦ ground (arith)
    | inr b ↦ (ground (arith), (λ n. ground (arith)), ground (arith), ground (arith), b)
  ]
]

auth_info_of-none : (ids : List ℕ) (g : Gathered) → auth_info_of ids g ≡ ok none → ids ≡ []
unfolding auth_info_of
auth_info_of-none [] g e = refl
auth_info_of-none (sid ∷ sids) g e = elim (Option-cases g.auth_type) [
  | inl q ↦ ground (arith)
  | inr (t, q) ↦ elim (Bool-cases g.no_auth_required) [
    | inl b ↦ ground (arith)
    | inr b ↦ ground (arith)
  ]
]

-- `AuthInfo::new` asks for authentication only for characteristics that list at least one secure
-- id, exactly one authentication type, at most one timeout, and do not say that no authentication
-- is required. It gives these secure ids in order, that type and that timeout.
pub auth_info_new-some :
    (ps : List KeyParam) (info : AuthInfo)
    → auth_info_new ps ≡ ok (some info)
    → (secure_ids ps ≡ info.secure_ids)
      × (info.secure_ids ≢ [])
      × (auth_types ps ≡ info.auth_type ∷ [])
      × (timeouts ps ≡ to_list info.timeout_secs)
      × (needs_no_auth ps ≡ false)
unfolding auth_info_new
auth_info_new-some ps info e =
    let g0 : Gathered = record {
      secure_ids = [];
      auth_type = none;
      timeout_secs = none;
      no_auth_required = false;
    } in
    let (g, q, built) = >>=-eq-ok (gather ps g0) (λ g. auth_info_of g.secure_ids g) e in
    let r = gather-Gathers ps g0 g q in
    let (ids, some_id, types, times, free) = auth_info_of-some g.secure_ids g info built in
    (
      sym r.ids ∙ ids,
      some_id,
      sym r.types ∙ ap to_list types,
      sym r.times ∙ ap to_list times,
      sym r.free ∙ free,
    )

-- `AuthInfo::new` asks for no authentication only if no secure id is listed.
pub auth_info_new-none : (ps : List KeyParam) → auth_info_new ps ≡ ok none → secure_ids ps ≡ []
unfolding auth_info_new
auth_info_new-none ps e =
    let g0 : Gathered = record {
      secure_ids = [];
      auth_type = none;
      timeout_secs = none;
      no_auth_required = false;
    } in
    let (g, q, built) = >>=-eq-ok (gather ps g0) (λ g. auth_info_of g.secure_ids g) e in
    sym (gather-Gathers ps g0 g q).ids ∙ auth_info_of-none g.secure_ids g built
