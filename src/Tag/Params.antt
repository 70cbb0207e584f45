-- ===== src/Tag/Params.antt =====
-- Reading parameter lists (common/src/tag.rs): the macros that look for one variant, and the
-- functions made of them. A variant is given by the function that takes its value out.
pub mod Single
pub mod Contained
pub mod Select
use platform_system_keymint.Common.{
  ℕ, zero, suc, Bool, true, false, Option, none, some, List, [], ◌∷◌, ok, err, panic, map_ok,
  if◌then◌else◌,
}
use platform_system_keymint.KmError.{Result, hal}
use platform_system_keymint.Wire.Errors.{ErrorCode}
use platform_system_keymint.Wire.Params.{Algorithm, BlockMode, Digest, EcCurve}
use platform_system_keymint.Wire.Modes.{KeyPurpose, PaddingMode}
use platform_system_keymint.Wire.KeyParams.{KeyParam}
use platform_system_keymint.Tag.Params.Select.*

-- How many parameters were of the variant, with the value of the last of them.
pub record Tally (A : Type 0) : Type 0 where
  pub result : Option A
  pub count : ℕ

module _ {A : Type 0} (select : KeyParam → Option A) where
  -- The loop of the three macros that count.
  unfoldable pub tally : List KeyParam → Tally A → Tally A
  tally [] seen = seen
  tally (param ∷ params) seen = elim (select param) [
    | none ↦ tally params seen
    | some v ↦ tally params (record { result = some v; count = suc seen.count })
  ]

  -- The loop of `contains_tag_value!`, for the `==` of the values.
  unfoldable pub contains_from : (A → A → Bool) → A → List KeyParam → Bool → Bool
  contains_from eq value [] found = found
  contains_from eq value (param ∷ params) found = elim (select param) [
    | none ↦ contains_from eq value params found
    | some v ↦ contains_from eq value params (if eq v value then true else found)
  ]

-- `match count`, with the `unwrap` of the result.
unfoldable pub exactly_one : {A : Type 0} → ErrorCode → Option A → ℕ → Result A
exactly_one e result zero = err (hal e)
exactly_one e (some v) (suc zero) = ok v
exactly_one e none (suc zero) = panic
exactly_one e result (suc (suc n)) = err (hal e)

unfoldable pub at_most_one : {A : Type 0} → ErrorCode → Option A → ℕ → Result (Option A)
at_most_one e result zero = ok none
at_most_one e (some v) (suc zero) = ok (some v)
at_most_one e none (suc zero) = panic
at_most_one e result (suc (suc n)) = err (hal e)

module _ {A : Type 0} where
  -- `get_tag_value!`
  unfoldable pub get_tag_value : (KeyParam → Option A) → List KeyParam → ErrorCode → Result A
  unfolding tally exactly_one
  get_tag_value select params e =
      let seen = tally select params (record { result = none; count = 0 }) in
      exactly_one e seen.result seen.count

  -- `get_opt_tag_value!`
  unfoldable pub get_opt_tag_value :
      (KeyParam → Option A) → List KeyParam → ErrorCode → Result (Option A)
  unfolding tally at_most_one
  get_opt_tag_value select params dup_error =
      let seen = tally select params (record { result = none; count = 0 }) in
      at_most_one dup_error seen.result seen.count

  -- `contains_tag_value!`
  unfoldable pub contains_tag_value :
      (KeyParam → Option A) → (A → A → Bool) → List KeyParam → A → Bool
  unfolding contains_from
  contains_tag_value select eq params value = contains_from select eq value params false

unfoldable pub none_or_one : ℕ → Result Bool
none_or_one zero = ok false
none_or_one (suc zero) = ok true
none_or_one (suc (suc n)) = err (hal ErrorCode.invalid_tag)

-- `get_bool_tag_value!`, of a variant without a value.
unfoldable pub get_bool_tag_value : (KeyParam → Option (Unit {0})) → List KeyParam → Result Bool
unfolding tally none_or_one
get_bool_tag_value select params =
    none_or_one (tally select params (record { result = none; count = 0 })).count

unfoldable pub get_algorithm : List KeyParam → Result Algorithm
unfolding get_tag_value as_algorithm
get_algorithm params = get_tag_value as_algorithm params ErrorCode.unsupported_algorithm

unfoldable pub get_block_mode : List KeyParam → Result BlockMode
unfolding get_tag_value as_block_mode
get_block_mode params = get_tag_value as_block_mode params ErrorCode.unsupported_block_mode

unfoldable pub get_padding_mode : List KeyParam → Result PaddingMode
unfolding get_tag_value as_padding
get_padding_mode params = get_tag_value as_padding params ErrorCode.unsupported_padding_mode

unfoldable pub get_digest : List KeyParam → Result Digest
unfolding get_tag_value as_digest
get_digest params = get_tag_value as_digest params ErrorCode.unsupported_digest

unfoldable pub get_ec_curve : List KeyParam → Result EcCurve
unfolding get_tag_value as_ec_curve
get_ec_curve params = get_tag_value as_ec_curve params ErrorCode.unsupported_key_size

abbrev pub unwrap_or : {A : Type 0} → A → Option A → A
unwrap_or default none = default
unwrap_or default (some v) = v

unfoldable pub get_mgf_digest : List KeyParam → Result Digest
unfolding get_opt_tag_value as_rsa_oaep_mgf_digest
get_mgf_digest params =
    map_ok (unwrap_or Digest.sha1)
      (get_opt_tag_value as_rsa_oaep_mgf_digest params ErrorCode.invalid_tag)

-- `DEFAULT_CERT_SERIAL` of wire/src/keymint.rs.
abbrev default_cert_serial : List ℕ
default_cert_serial = 1 ∷ []

unfoldable pub get_cert_serial : List KeyParam → Result (List ℕ)
unfolding get_opt_tag_value as_certificate_serial
get_cert_serial params =
    map_ok (unwrap_or default_cert_serial)
      (get_opt_tag_value as_certificate_serial params ErrorCode.invalid_tag)

-- `DEFAULT_CERT_SUBJECT` of wire/src/keymint.rs.
abbrev default_cert_subject : List ℕ
default_cert_subject =
    48 ∷ 31 ∷ 49 ∷ 29 ∷ 48 ∷ 27 ∷ 6 ∷ 3 ∷ 85 ∷ 4 ∷ 3 ∷ 12 ∷ 20 ∷ 65 ∷ 110 ∷ 100 ∷ 114 ∷ 111 ∷ 105
    ∷ 100 ∷ 32 ∷ 75 ∷ 101 ∷ 121 ∷ 115 ∷ 116 ∷ 111 ∷ 114 ∷ 101 ∷ 32 ∷ 75 ∷ 101 ∷ 121 ∷ []

unfoldable pub get_cert_subject : List KeyParam → Result (List ℕ)
unfolding get_opt_tag_value as_certificate_subject
get_cert_subject params =
    map_ok (unwrap_or default_cert_subject)
      (get_opt_tag_value as_certificate_subject params ErrorCode.invalid_tag)

-- The first purpose of a key.
unfoldable pub primary_purpose : List KeyParam → Result KeyPurpose
unfolding as_purpose
primary_purpose [] = err (hal ErrorCode.incompatible_purpose)
primary_purpose (param ∷ params) = elim (as_purpose param) [
  | none ↦ primary_purpose params
  | some purpose ↦ ok purpose
]
