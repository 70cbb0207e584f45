-- ===== src/Ta/SharedSecret/Agreed.antt =====
-- What a negotiation agrees on (ta/src/secret.rs).
use mathlib.Core.Path.{subst}
use platform_system_keymint.Common.{
  ℕ, ◌≡◌, refl, ◌∙◌, Bool, true, false, not, some, List, [], ◌∷◌, ◌++◌, append_assoc, append-nil,
  length, ok, ◌⊎◌, inl, inr, All, arith, Bool-cases, Option-cases, Outcome-cases, if◌then◌else◌,
  ◌==◌, fail_if, >>=-eq-ok, ◌>>=◌,
}
use platform_system_keymint.Common.Bytes.{bytes_eq→eq}
use platform_system_keymint.KmError.{hal}
use platform_system_keymint.Wire.Errors.{ErrorCode}
use platform_system_keymint.Tag.Params.Contained.{Among}
use platform_system_keymint.Ta.SharedSecret.{
  SharedSecretParameters, parameters_eq, Negotiation, SecretState, key_agreement_label,
  key_check_label, context_from, shared_secret_context, device_hmac_of, agreed_key, install,
  compute_shared_secret,
}

-- The parameters of all devices, one after the other.
abbrev pub context_of : List SharedSecretParameters → List ℕ
context_of [] = []
context_of (p ∷ ps) = p.seed ++ (p.nonce ++ context_of ps)

parameters_eq→eq : (a b : SharedSecretParameters) → parameters_eq a b ≡ true → a ≡ b
unfolding parameters_eq
parameters_eq→eq a b h =
    let seeds = bytes_eq→eq a.seed b.seed (ground arith) in
    let nonces = bytes_eq→eq a.nonce b.nonce (ground arith) in cc

context_from-ok :
    (mine : SharedSecretParameters) (ps : List SharedSecretParameters) (result context : List ℕ)
    (seen : Bool)
    → context_from mine ps result seen ≡ ok context
    → All (λ p. length p.nonce ≡ 32) ps
      × ((seen ≡ true) ⊎ Among mine ps)
      × (context ≡ result ++ context_of ps)
unfolding context_from
context_from-ok mine [] result context true h = (tt, inl refl, cc (append-nil result))
context_from-ok mine [] result context false h = absurd cc
context_from-ok mine (p ∷ ps) result context seen h =
    let tested =
      >>=-eq-ok (fail_if (not (length p.nonce == 32)) (hal ErrorCode.invalid_argument))
        (λ _.
          context_from mine ps ((result ++ p.seed) ++ p.nonce)
            (if parameters_eq p mine then true else seen))
        h in
    let rest =
      context_from-ok mine ps ((result ++ p.seed) ++ p.nonce) context
        (if parameters_eq p mine then true else seen) tested.2 in
    (
      (nonce_32 tested.1, rest.0),
      found rest.1,
      rest.2
          ∙ append_assoc (result ++ p.seed) p.nonce (context_of ps)
          ∙ append_assoc result p.seed (p.nonce ++ context_of ps),
    )
  where
    nonce_32 :
        fail_if (not (length p.nonce == 32)) (hal ErrorCode.invalid_argument) ≡ ok tt
        → length p.nonce ≡ 32
    nonce_32 t = ground arith

    found :
        ((if parameters_eq p mine then true else seen) ≡ true) ⊎ Among mine ps
        → (seen ≡ true) ⊎ (p ≡ mine) ⊎ Among mine ps
    found (inr m) = inr (inr m)
    found (inl e) = elim (Bool-cases (parameters_eq p mine)) [
      | inl same ↦ inr (inl (parameters_eq→eq p mine same))
      | inr ne ↦ inl (ground arith)
    ]

-- The steps to the key.
key_parts :
    (N : Negotiation) (ps : List SharedSecretParameters) (s : SecretState) (key : List ℕ)
    → agreed_key N ps s ≡ ok key
    → (mine : SharedSecretParameters) × (kak : N.AgreementKey) × (s.shared_secret_params
        ≡ some mine)
      × Among mine ps
      × All (λ p. length p.nonce ≡ 32) ps
      × (N.kak ≡ ok kak)
      × (N.ckdf kak key_agreement_label (context_of ps) 32 ≡ ok key)
unfolding agreed_key shared_secret_context
key_parts N ps s key h = elim (Option-cases s.shared_secret_params) [
  | inl e ↦ absurd (ground arith)
  | inr (mine, e) ↦
      let a =
        >>=-eq-ok (context_from mine ps [] false)
          (λ context. N.kak >>= λ kak. N.ckdf kak key_agreement_label context 32)
          (at_mine mine e) in
      let b = >>=-eq-ok N.kak (λ kak. N.ckdf kak key_agreement_label a.0 32) a.2 in
      let c = context_from-ok mine ps [] a.0 false a.1 in
      (
        mine,
        b.0,
        e,
        present mine c.1,
        c.0,
        b.1,
        subst (λ x. N.ckdf b.0 key_agreement_label x 32 ≡ ok key) c.2 b.2,
      )
]
  where
    at_mine :
        (mine : SharedSecretParameters)
        → s.shared_secret_params ≡ some mine
        → (context_from mine ps [] false >>= λ context.
            N.kak >>= λ kak. N.ckdf kak key_agreement_label context 32)
          ≡ ok key
    at_mine mine e = ground (arith, h)

    present : (mine : SharedSecretParameters) → (false ≡ true) ⊎ Among mine ps → Among mine ps
    present mine (inl e) = absurd cc
    present mine (inr m) = m

-- What a negotiation that succeeds has agreed on: the device's own parameters were there before and
-- are among those of the devices, every nonce has 32 bytes, the key is derived from all the
-- parameters in order, and from then on the device's HMAC is the one for that key, which gives the
-- result on the label of the check. The parameters stay.
pub compute_shared_secret-eq-ok :
    (N : Negotiation) (ps : List SharedSecretParameters) (s : SecretState) (check : List ℕ)
    → (compute_shared_secret N ps s).0 ≡ ok check
    → (mine : SharedSecretParameters) × (kak : N.AgreementKey) × (key : List ℕ)
      × (s.shared_secret_params ≡ some mine)
      × Among mine ps
      × All (λ p. length p.nonce ≡ 32) ps
      × (N.kak ≡ ok kak)
      × (N.ckdf kak key_agreement_label (context_of ps) 32 ≡ ok key)
      × ((compute_shared_secret N ps s).1 ≡ record s { device_hmac = some (install N key) })
      × (install N key key_check_label ≡ ok check)
unfolding compute_shared_secret device_hmac_of
compute_shared_secret-eq-ok N ps s check h = elim (Outcome-cases (agreed_key N ps s)) [
  | inl (key, e) ↦
      let k = key_parts N ps s key e in
      (
        k.0,
        k.1,
        key,
        k.2,
        k.3,
        k.4,
        k.5,
        k.6,
        rw (e, compute_shared_secret) refl,
        installed_check key e,
      )
  | inr (inl (x, e)) ↦ absurd (ground arith)
  | inr (inr e) ↦ absurd (ground arith)
]
  where
    installed_check :
        (key : List ℕ) → agreed_key N ps s ≡ ok key → install N key key_check_label ≡ ok check
    installed_check key e = ground arith
