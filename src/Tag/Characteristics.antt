-- ===== src/Tag/Characteristics.antt =====
-- Key characteristics (common/src/tag.rs): `characteristics_valid`, `transcribe_tags`,
-- `characteristics_at` and `hidden`.
pub mod Distinct
use platform_system_keymint.Common.{
  ℕ, Bool, true, false, not, Option, none, some, List, [], ◌∷◌, ◌++◌, ok, err, panic, fail_if,
  ok_or, ◌>>=◌, ◌>>◌, if◌then◌else◌,
}
use platform_system_keymint.KmError.{Result, hal}
use platform_system_keymint.Wire.Errors.{ErrorCode}
use platform_system_keymint.Wire.Modes.{SecurityLevel, security_level_eq}
use platform_system_keymint.Wire.Tags.{Tag}
use platform_system_keymint.Wire.KeyParams.{KeyParam, tag, KeyCharacteristics}
use platform_system_keymint.Tag.Info.{info, add}
use platform_system_keymint.Tag.Info.Kinds.{Characteristic}
use platform_system_keymint.Tag.Begin.Ciphers.{contains}
use platform_system_keymint.Tag.Params.{get_opt_tag_value}
use platform_system_keymint.Tag.Params.Select.{as_application_id, as_application_data}

unfoldable pub is_not_characteristic : Characteristic → Bool
is_not_characteristic Characteristic.not_key_characteristic = true
is_not_characteristic _ = false

-- The loop of `characteristics_valid`, with the tags that were seen.
unfoldable pub valid_from : ℕ → List KeyParam → Result (Unit {0})
unfolding add info tag is_not_characteristic
valid_from seen [] = ok tt
valid_from seen (param ∷ params) = do
  seen_now ← add seen (tag param)
  known ← info (tag param)
  fail_if (is_not_characteristic known.characteristic) (hal ErrorCode.invalid_key_blob)
  valid_from seen_now params

unfoldable pub characteristics_valid : List KeyParam → Result (Unit {0})
unfolding valid_from
characteristics_valid characteristics = valid_from 0 characteristics

-- The loop of `transcribe_tags`, with the tags that were seen.
unfoldable pub transcribe_from :
    ℕ → List KeyParam → List KeyParam → List Tag → Result (List KeyParam)
unfolding add tag contains
transcribe_from seen dest [] tags = ok dest
transcribe_from seen dest (param ∷ src) tags = add seen (tag param) >>= λ seen_now.
    transcribe_from seen_now (if contains tags (tag param) then dest ++ (param ∷ []) else dest) src
      tags

-- What `dest` is after a success.
unfoldable pub transcribe_tags : List KeyParam → List KeyParam → List Tag → Result (List KeyParam)
unfolding transcribe_from
transcribe_tags dest src tags = transcribe_from 0 dest src tags

-- The loop of `characteristics_at`.
unfoldable pub find_at :
    SecurityLevel
    → List KeyCharacteristics
    → Option (List KeyParam)
    → Result (Option (List KeyParam))
unfolding security_level_eq
find_at sec_level [] result = ok result
find_at sec_level (c ∷ chars) result =
    let skipped = find_at sec_level chars result in
    let taken = find_at sec_level chars (some c.authorizations) in
    if not (security_level_eq c.security_level sec_level)
    then skipped
    else elim result [ none ↦ taken | some r ↦ err (hal ErrorCode.invalid_key_blob) ]

unfoldable pub characteristics_at : List KeyCharacteristics → SecurityLevel → Result (List KeyParam)
unfolding find_at
characteristics_at chars sec_level =
    find_at sec_level chars none >>= ok_or (hal ErrorCode.invalid_key_blob)

-- `if let Ok(Some(v))`: anything else adds nothing.
unfoldable pub hidden_value : (List ℕ → KeyParam) → Result (Option (List ℕ)) → List KeyParam
hidden_value build (ok (some v)) = build v ∷ []
hidden_value build (ok none) = []
hidden_value build (err e) = []
hidden_value build panic = []

unfoldable pub hidden : List KeyParam → List ℕ → List KeyParam
unfolding hidden_value get_opt_tag_value as_application_id as_application_data
hidden params rot =
    (hidden_value KeyParam.application_id
        (get_opt_tag_value as_application_id params ErrorCode.invalid_tag)
      ++ hidden_value KeyParam.application_data
          (get_opt_tag_value as_application_data params ErrorCode.invalid_tag))
    ++ (KeyParam.root_of_trust rot ∷ [])
