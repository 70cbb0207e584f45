-- ===== src/Ta/SharedSecret.antt =====
-- Negotiation of the shared HMAC key (ta/src/secret.rs). The key agreement key, the derivation, the
-- hardware's HMAC and the HMAC operations are parameters.
pub mod Agreed
use platform_system_keymint.Common.{
  ℕ, Bool, true, false, ◌&&◌, ◌||◌, not, Option, none, some, List, [], ◌∷◌, ◌++◌, length, Outcome,
  ok, err, panic, fail_if, ◌>>=◌, ◌>>◌, if◌then◌else◌, ◌==◌,
}
use platform_system_keymint.Common.Bytes.{bytes_eq}
use platform_system_keymint.KmError.{Result, hal}
use platform_system_keymint.Wire.Errors.{ErrorCode}
use platform_system_keymint.Crypto.Modes.{fill_bytes}

pub record SharedSecretParameters : Type 0 where
  pub seed : List ℕ
  pub nonce : List ℕ

unfoldable pub parameters_eq : SharedSecretParameters → SharedSecretParameters → Bool
unfolding bytes_eq
parameters_eq a b = bytes_eq a.seed b.seed && bytes_eq a.nonce b.nonce

abbrev pub DeviceHmac : Type 0
DeviceHmac = List ℕ → Result (List ℕ)

-- What the negotiation takes from outside. `soft_hmac` is the operation of `SoftDeviceHmac`.
pub record Negotiation : Type 1 where
  pub AgreementKey : Type 0
  pub kak : Result AgreementKey
  pub ckdf : AgreementKey → List ℕ → List ℕ → ℕ → Result (List ℕ)
  pub hmac_key_agreed : List ℕ → Option DeviceHmac
  pub soft_hmac : List ℕ → DeviceHmac

-- The fields of `KeyMintTa` that the negotiation uses.
pub record SecretState : Type 0 where
  pub shared_secret_params : Option SharedSecretParameters
  pub device_hmac : Option DeviceHmac

-- "KeymasterSharedMac", "Keymaster HMAC Verification"
abbrev pub key_agreement_label : List ℕ
key_agreement_label =
    75 ∷ 101 ∷ 121 ∷ 109 ∷ 97 ∷ 115 ∷ 116 ∷ 101 ∷ 114 ∷ 83 ∷ 104 ∷ 97 ∷ 114 ∷ 101 ∷ 100 ∷ 77 ∷ 97
    ∷ 99 ∷ []

abbrev pub key_check_label : List ℕ
key_check_label =
    75 ∷ 101 ∷ 121 ∷ 109 ∷ 97 ∷ 115 ∷ 116 ∷ 101 ∷ 114 ∷ 32 ∷ 72 ∷ 77 ∷ 65 ∷ 67 ∷ 32 ∷ 86 ∷ 101 ∷ 114
    ∷ 105 ∷ 102 ∷ 105 ∷ 99 ∷ 97 ∷ 116 ∷ 105 ∷ 111 ∷ 110 ∷ []

unfoldable pub get_shared_secret_params :
    (ℕ → ℕ) → SecretState → SharedSecretParameters × SecretState
unfolding fill_bytes
get_shared_secret_params rng s = elim s.shared_secret_params [
  | some params ↦ (params, s)
  | none ↦
      let params : SharedSecretParameters = record { seed = []; nonce = fill_bytes 32 rng } in
      (params, record s { shared_secret_params = some params })
]

-- The loop of `shared_secret_context`, and its end.
unfoldable pub context_from :
    SharedSecretParameters → List SharedSecretParameters → List ℕ → Bool → Result (List ℕ)
unfolding parameters_eq
context_from must_include [] result seen =
    if not seen then err (hal ErrorCode.invalid_argument) else ok result
context_from must_include (param ∷ params) result seen =
    fail_if (not (length param.nonce == 32)) (hal ErrorCode.invalid_argument)
    >> context_from must_include params ((result ++ param.seed) ++ param.nonce)
        (if parameters_eq param must_include then true else seen)

unfoldable pub shared_secret_context :
    List SharedSecretParameters → SharedSecretParameters → Result (List ℕ)
unfolding context_from
shared_secret_context params must_include = context_from must_include params [] false

unfoldable pub device_hmac_of : SecretState → List ℕ → Result (List ℕ)
device_hmac_of s input = elim s.device_hmac [
  | some traitobj ↦ traitobj input
  | none ↦ err (hal ErrorCode.hardware_not_yet_available)
]

-- The key, before it is installed.
unfoldable pub agreed_key :
    (N : Negotiation) → List SharedSecretParameters → SecretState → Result (List ℕ)
unfolding shared_secret_context
agreed_key N params s = elim s.shared_secret_params [
  | none ↦ err (hal ErrorCode.hardware_not_yet_available)
  | some local_params ↦ do
    context ← shared_secret_context params local_params
    kak ← N.kak
    N.ckdf kak key_agreement_label context 32
]

-- The hardware's HMAC for the key, or else one in memory.
unfoldable pub install : (N : Negotiation) → List ℕ → DeviceHmac
install N key = elim (N.hmac_key_agreed key) [ some hmac ↦ hmac | none ↦ N.soft_hmac key ]

unfoldable pub compute_shared_secret :
    (N : Negotiation) → List SharedSecretParameters → SecretState → Result (List ℕ) × SecretState
unfolding agreed_key install device_hmac_of
compute_shared_secret N params s = elim (agreed_key N params s) [
  | ok key ↦
      let installed = record s { device_hmac = some (install N key) } in
      (device_hmac_of installed key_check_label, installed)
  | err e ↦ (err e, s)
  | panic ↦ (panic, s)
]
