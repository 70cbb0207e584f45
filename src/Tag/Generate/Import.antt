-- ===== src/Tag/Generate/Import.antt =====
-- The checks of parameters for key import (common/src/tag.rs). What the cryptography makes of the
-- data of a key is a parameter.
use platform_system_keymint.Common.{
  ℕ, Bool, ◌&&◌, not, Option, none, some, List, [], ◌∷◌, ◌++◌, ok, err, fail_if, ◌>>=◌, ◌>>◌,
  map_ok, if◌then◌else◌, ◌==◌,
}
use platform_system_keymint.KmError.{Result, hal}
use platform_system_keymint.Wire.Errors.{ErrorCode}
use platform_system_keymint.Wire.Params.{Algorithm, EcCurve, ec_curve_eq}
use platform_system_keymint.Wire.Modes.{
  KeyPurpose, key_purpose_eq, SecurityLevel, security_level_eq,
}
use platform_system_keymint.Wire.Formats.{KeyFormat, key_format_eq}
use platform_system_keymint.Wire.KeyParams.{KeyParam, KeyCharacteristics}
use platform_system_keymint.Crypto.Keys.{KeyMaterial, CurveType, curve_to_key_size}
use platform_system_keymint.Tag.Params.{
  get_opt_tag_value, get_algorithm, get_ec_curve, primary_purpose,
}
use platform_system_keymint.Tag.Params.Select.{as_key_size, as_ec_curve, as_rsa_public_exponent}
use platform_system_keymint.Tag.Extract.{SecureStorage, extract_key_characteristics}
use platform_system_keymint.Tag.Generate.{
  check_rsa_key_size, check_rsa_params, check_ec_params, check_aes_params, check_hmac_params,
}

-- The import functions of the traits of common/src/crypto/traits.rs.
pub record Importers (Key : Type 0) : Type 0 where
  pub rsa_pkcs8 : List ℕ → List KeyParam → Result (KeyMaterial Key × ℕ × ℕ)
  pub ec_pkcs8 : List ℕ → List KeyParam → Result (KeyMaterial Key)
  pub ec_raw_ed25519 : List ℕ → List KeyParam → Result (KeyMaterial Key)
  pub ec_raw_x25519 : List ℕ → List KeyParam → Result (KeyMaterial Key)
  pub aes : List ℕ → List KeyParam → Result (KeyMaterial Key × ℕ)
  pub des : List ℕ → List KeyParam → Result (KeyMaterial Key)
  pub hmac : List ℕ → List KeyParam → Result (KeyMaterial Key × ℕ)

-- A value that is given must be that of the key; one that is not given is deduced.
unfoldable pub match_or_deduce :
    {A : Type 0} → (A → A → Bool) → (A → KeyParam) → A → Option A → Result (List KeyParam)
match_or_deduce eq build actual (some given) =
    if eq given actual then ok [] else err (hal ErrorCode.import_parameter_mismatch)
match_or_deduce eq build actual none = ok (build actual ∷ [])

unfoldable pub require_matching_key_size : List KeyParam → ℕ → Result (List KeyParam)
unfolding get_opt_tag_value as_key_size match_or_deduce
require_matching_key_size params key_size =
    get_opt_tag_value as_key_size params ErrorCode.invalid_tag
    >>= match_or_deduce (λ a b. a == b) KeyParam.key_size key_size

unfoldable pub require_raw : KeyFormat → Result (Unit {0})
unfolding key_format_eq
require_raw key_format =
    fail_if (not (key_format_eq key_format KeyFormat.raw)) (hal ErrorCode.unsupported_key_format)

module _ {Key : Type 0} (imp : Importers Key) where
  unfoldable pub check_rsa_import_params :
      List KeyParam → SecurityLevel → KeyFormat → List ℕ → Result (List KeyParam × KeyMaterial Key)
  unfolding key_format_eq require_matching_key_size get_opt_tag_value as_rsa_public_exponent
      match_or_deduce check_rsa_key_size check_rsa_params
  check_rsa_import_params params sec_level key_format key_data = do
    fail_if (not (key_format_eq key_format KeyFormat.pkcs8)) (hal ErrorCode.unsupported_key_format)
    imported ← imp.rsa_pkcs8 key_data params
    sizes ← require_matching_key_size params imported.1
    given ← get_opt_tag_value as_rsa_public_exponent params ErrorCode.invalid_tag
    exponents ← match_or_deduce (λ a b. a == b) KeyParam.rsa_public_exponent imported.2 given
    check_rsa_key_size imported.1 sec_level
    check_rsa_params params
    ok (sizes ++ exponents, imported.0)

  -- Whether the first purpose is key agreement.
  unfoldable pub for_agreement : List KeyParam → Result Bool
  unfolding primary_purpose key_purpose_eq
  for_agreement params =
      map_ok (λ p. key_purpose_eq p KeyPurpose.agree_key) (primary_purpose params)

  -- The arm for raw keys. Its guard may fail itself; a guard that does not hold goes to the last arm.
  unfoldable pub import_raw_ec : List KeyParam → List ℕ → Result (KeyMaterial Key × EcCurve)
  unfolding get_ec_curve ec_curve_eq for_agreement
  import_raw_ec params key_data = do
    given ← get_ec_curve params
    fail_if (not (ec_curve_eq given EcCurve.curve25519)) (hal ErrorCode.unsupported_key_format)
    agree ← for_agreement params
    key ← if agree then imp.ec_raw_x25519 key_data params else imp.ec_raw_ed25519 key_data params
    ok (key, EcCurve.curve25519)

  -- The curve of a key, and that the purpose goes with it.
  unfoldable pub curve_of : List KeyParam → KeyMaterial Key → Result EcCurve
  unfolding for_agreement
  curve_of params (KeyMaterial.ec curve CurveType.nist _) = ok curve
  curve_of params (KeyMaterial.ec EcCurve.curve25519 CurveType.ed_dsa _) = do
    agree ← for_agreement params
    fail_if agree (hal ErrorCode.incompatible_purpose)
    ok EcCurve.curve25519
  curve_of params (KeyMaterial.ec EcCurve.curve25519 CurveType.xdh _) = do
    agree ← for_agreement params
    fail_if (not agree) (hal ErrorCode.incompatible_purpose)
    ok EcCurve.curve25519
  curve_of params _ = err (hal ErrorCode.import_parameter_mismatch)

  unfoldable pub import_ec : List KeyParam → KeyFormat → List ℕ → Result (KeyMaterial Key × EcCurve)
  unfolding import_raw_ec curve_of
  import_ec params KeyFormat.raw key_data = import_raw_ec params key_data
  import_ec params KeyFormat.pkcs8 key_data = do
    key ← imp.ec_pkcs8 key_data params
    curve ← curve_of params key
    ok (key, curve)
  import_ec params KeyFormat.x509 key_data = err (hal ErrorCode.unsupported_key_format)

  unfoldable pub check_ec_import_params :
      List KeyParam → SecurityLevel → KeyFormat → List ℕ → Result (List KeyParam × KeyMaterial Key)
  unfolding import_ec get_opt_tag_value as_ec_curve ec_curve_eq match_or_deduce
      require_matching_key_size curve_to_key_size check_ec_params
  check_ec_import_params params sec_level key_format key_data = do
    imported ← import_ec params key_format key_data
    given ← get_opt_tag_value as_ec_curve params ErrorCode.invalid_tag
    curves ← match_or_deduce ec_curve_eq KeyParam.ec_curve imported.1 given
    sizes ← require_matching_key_size params (curve_to_key_size imported.1)
    purpose ← check_ec_params imported.1 params sec_level
    ok (curves ++ sizes, imported.0)

  unfoldable pub check_aes_import_params :
      List KeyParam → SecurityLevel → KeyFormat → List ℕ → Result (List KeyParam × KeyMaterial Key)
  unfolding require_raw security_level_eq require_matching_key_size check_aes_params
  check_aes_import_params params sec_level key_format key_data = do
    require_raw key_format
    imported ← imp.aes key_data params
    fail_if (imported.1 == 192 && security_level_eq sec_level SecurityLevel.strongbox)
        (hal ErrorCode.unsupported_key_size)
    deduced_chars ← require_matching_key_size params imported.1
    check_aes_params params
    ok (deduced_chars, imported.0)

  unfoldable pub check_3des_import_params :
      List KeyParam → KeyFormat → List ℕ → Result (List KeyParam × KeyMaterial Key)
  unfolding require_raw require_matching_key_size
  check_3des_import_params params key_format key_data = do
    require_raw key_format
    key ← imp.des key_data params
    deduced_chars ← require_matching_key_size params 168
    ok (deduced_chars, key)

  unfoldable pub check_hmac_import_params :
      List KeyParam → SecurityLevel → KeyFormat → List ℕ → Result (List KeyParam × KeyMaterial Key)
  unfolding require_raw require_matching_key_size check_hmac_params
  check_hmac_import_params params sec_level key_format key_data = do
    require_raw key_format
    imported ← imp.hmac key_data params
    deduced_chars ← require_matching_key_size params imported.1
    check_hmac_params params sec_level imported.1
    ok (deduced_chars, imported.0)

  -- The arms for the algorithm of the key.
  unfoldable pub check_import_params :
      Algorithm
      → List KeyParam
      → SecurityLevel
      → KeyFormat
      → List ℕ
      → Result (List KeyParam × KeyMaterial Key)
  unfolding check_rsa_import_params check_ec_import_params check_aes_import_params
      check_3des_import_params check_hmac_import_params
  check_import_params Algorithm.rsa params sec_level f d =
      check_rsa_import_params params sec_level f d
  check_import_params Algorithm.ec params sec_level f d =
      check_ec_import_params params sec_level f d
  check_import_params Algorithm.aes params sec_level f d =
      check_aes_import_params params sec_level f d
  check_import_params Algorithm.triple_des params sec_level f d =
      check_3des_import_params params f d
  check_import_params Algorithm.hmac params sec_level f d =
      check_hmac_import_params params sec_level f d

  unfoldable pub extract_key_import_characteristics :
      SecureStorage
      → List KeyParam
      → SecurityLevel
      → KeyFormat
      → List ℕ
      → Result (List KeyCharacteristics × KeyMaterial Key)
  unfolding get_algorithm check_import_params extract_key_characteristics
  extract_key_import_characteristics secure_storage params sec_level key_format key_data = do
    algorithm ← get_algorithm params
    checked ← check_import_params algorithm params sec_level key_format key_data
    chars ← extract_key_characteristics secure_storage params checked.0 sec_level
    ok (chars, checked.1)
