-- ===== src/Tests/Agreement.antt =====
-- A negotiation of the shared HMAC key.
use platform_system_keymint.Common.{
  ℕ, ◌≡◌, refl, some, none, List, [], ◌∷◌, ◌++◌, All, length, replicate, ok,
}
use platform_system_keymint.Common.Bytes.{bytes_eq}
use platform_system_keymint.Tag.Params.Contained.{Among}
use platform_system_keymint.Ta.SharedSecret.{
  SharedSecretParameters, parameters_eq, Negotiation, SecretState, key_agreement_label,
  key_check_label, context_from, shared_secret_context, device_hmac_of, agreed_key, install,
  compute_shared_secret,
}
use platform_system_keymint.Ta.SharedSecret.Agreed.{context_of, compute_shared_secret-eq-ok}

-- Derivation and HMAC that put their arguments together.
abbrev transparent : Negotiation
transparent = record {
  AgreementKey = Unit {0};
  kak = ok tt;
  ckdf = λ kak label context size. ok (label ++ context);
  hmac_key_agreed = λ key. none;
  soft_hmac = λ key input. ok (key ++ input);
}

abbrev ours : SharedSecretParameters
ours = record { seed = []; nonce = replicate 32 5 }

abbrev theirs : SharedSecretParameters
theirs = record { seed = 9 ∷ []; nonce = replicate 32 6 }

abbrev started : SecretState
started = record { shared_secret_params = some ours; device_hmac = none }

abbrev both : List SharedSecretParameters
both = theirs ∷ ours ∷ []

abbrev answer : List ℕ
answer = (key_agreement_label ++ context_of both) ++ key_check_label

agreed : (compute_shared_secret transparent both started).0 ≡ ok answer
unfolding compute_shared_secret agreed_key shared_secret_context context_from parameters_eq bytes_eq
    device_hmac_of install
agreed = refl

compute_shared_secret-eq-ok_example :
    (mine : SharedSecretParameters) × (kak : transparent.AgreementKey) × (key : List ℕ)
    × (started.shared_secret_params ≡ some mine)
    × Among mine both
    × All (λ p. length p.nonce ≡ 32) both
    × (transparent.kak ≡ ok kak)
    × (transparent.ckdf kak key_agreement_label (context_of both) 32 ≡ ok key)
    × ((compute_shared_secret transparent both started).1
        ≡ record started { device_hmac = some (install transparent key) })
    × (install transparent key key_check_label ≡ ok answer)
compute_shared_secret-eq-ok_example =
    compute_shared_secret-eq-ok transparent both started answer agreed
