-- ===== src/Tag/Generate/Matching.antt =====
-- The size of an imported key (common/src/tag.rs): what the request says, or what is deduced, is the
-- size of the key.
use platform_system_keymint.Common.{
  ℕ, ◌≡◌, refl, ◌∙◌, Option, List, [], ◌∷◌, ◌++◌, ok, ◌>>=◌, inl, inr, arith, >>=-eq-ok,
  Outcome-cases, ◌==◌, ap,
}
use platform_system_keymint.KmError.{Result}
use platform_system_keymint.Wire.Errors.{ErrorCode}
use platform_system_keymint.Wire.Params.{Algorithm, EcCurve, ec_curve_eq}
use platform_system_keymint.Wire.Modes.{SecurityLevel}
use platform_system_keymint.Wire.Formats.{KeyFormat}
use platform_system_keymint.Wire.KeyParams.{KeyParam}
use platform_system_keymint.Crypto.Keys.{KeyMaterial, curve_to_key_size}
use platform_system_keymint.Tag.Params.{get_opt_tag_value}
use platform_system_keymint.Tag.Params.Select.{as_key_size, as_rsa_public_exponent, as_ec_curve}
use platform_system_keymint.Tag.Params.Single.{values}
use platform_system_keymint.Tag.Generate.{check_ec_params}
use platform_system_keymint.Tag.Generate.Import.{
  Importers, import_ec, match_or_deduce, require_matching_key_size, check_rsa_import_params,
  check_ec_import_params, check_aes_import_params, check_3des_import_params,
  check_hmac_import_params, check_import_params,
}
use platform_system_keymint.Tag.Generate.Deduced.{
  matching_key_size, no_size_in, both, no_size_in_curves, both_after, tail,
}

-- The size, in bits, that the cryptography gives an imported key: triple DES keys have 168, and a
-- key on a curve has that of the curve.
abbrev pub HasSize :
    {Key : Type 0}
    → Importers Key
    → Algorithm
    → List KeyParam
    → KeyFormat
    → List ℕ
    → KeyMaterial Key
    → ℕ
    → Type 0
HasSize imp Algorithm.aes ps f d key n = imp.aes d ps ≡ ok (key, n)
HasSize imp Algorithm.hmac ps f d key n = imp.hmac d ps ≡ ok (key, n)
HasSize imp Algorithm.triple_des ps f d key n = (imp.des d ps ≡ ok key) × (n ≡ 168)
HasSize imp Algorithm.rsa ps f d key n = (e : ℕ) × (imp.rsa_pkcs8 d ps ≡ ok (key, n, e))
HasSize imp Algorithm.ec ps f d key n =
    (curve : EcCurve) × (import_ec imp ps f d ≡ ok (key, curve)) × (n ≡ curve_to_key_size curve)

module _ {Key : Type 0} (imp : Importers Key) where
  aes_import :
      (ps : List KeyParam) (level : SecurityLevel) (f : KeyFormat) (d : List ℕ)
      (deduced : List KeyParam) (key : KeyMaterial Key)
      → check_aes_import_params imp ps level f d ≡ ok (deduced, key)
      → (n : ℕ) × (require_matching_key_size ps n ≡ ok deduced) × (imp.aes d ps ≡ ok (key, n))
  unfolding check_aes_import_params
  aes_import ps level f d deduced key h = elim (Outcome-cases (imp.aes d ps)) [
    | inl (r, e) ↦ (r.1, ground arith, ground arith)
    | inr (inl (x, e)) ↦ absurd (ground arith)
    | inr (inr e) ↦ absurd (ground arith)
  ]

  hmac_import :
      (ps : List KeyParam) (level : SecurityLevel) (f : KeyFormat) (d : List ℕ)
      (deduced : List KeyParam) (key : KeyMaterial Key)
      → check_hmac_import_params imp ps level f d ≡ ok (deduced, key)
      → (n : ℕ) × (require_matching_key_size ps n ≡ ok deduced) × (imp.hmac d ps ≡ ok (key, n))
  unfolding check_hmac_import_params
  hmac_import ps level f d deduced key h = elim (Outcome-cases (imp.hmac d ps)) [
    | inl (r, e) ↦ (r.1, ground arith, ground arith)
    | inr (inl (x, e)) ↦ absurd (ground arith)
    | inr (inr e) ↦ absurd (ground arith)
  ]

  des_import :
      (ps : List KeyParam) (f : KeyFormat) (d : List ℕ) (deduced : List KeyParam)
      (key : KeyMaterial Key)
      → check_3des_import_params imp ps f d ≡ ok (deduced, key)
      → (require_matching_key_size ps 168 ≡ ok deduced) × (imp.des d ps ≡ ok key)
  unfolding check_3des_import_params
  des_import ps f d deduced key h = elim (Outcome-cases (imp.des d ps)) [
    | inl (r, e) ↦ (ground arith, ground arith)
    | inr (inl (x, e)) ↦ absurd (ground arith)
    | inr (inr e) ↦ absurd (ground arith)
  ]

  -- The parameters deduced for RSA are those of the size, and then those of the exponent.
  rsa_import :
      (ps : List KeyParam) (level : SecurityLevel) (f : KeyFormat) (d : List ℕ)
      (deduced : List KeyParam) (key : KeyMaterial Key)
      → check_rsa_import_params imp ps level f d ≡ ok (deduced, key)
      → (n : ℕ) × (values as_key_size (ps ++ deduced) ≡ n ∷ [])
        × (e : ℕ) × (imp.rsa_pkcs8 d ps ≡ ok (key, n, e))
  unfolding check_rsa_import_params
  rsa_import ps level f d deduced key h = elim (Outcome-cases (imp.rsa_pkcs8 d ps)) [
    | inl (r, e) ↦ elim (Outcome-cases (require_matching_key_size ps r.1)) [
      | inl (sizes, s) ↦
          elim (Outcome-cases (get_opt_tag_value as_rsa_public_exponent ps ErrorCode.invalid_tag)) [
            | inl (given, g) ↦
                elim (Outcome-cases
                  (match_or_deduce (λ a b. a == b) KeyParam.rsa_public_exponent r.2 given)) [
                    | inl (exponents, x) ↦ (
                      r.1,
                      both ps sizes exponents deduced r.1 (ground arith)
                          (matching_key_size ps sizes r.1 s) (no_size_in exponents r.2 given x),
                      r.2,
                      ground arith,
                    )
                    | inr (inl (x, k)) ↦ absurd (ground arith)
                    | inr (inr k) ↦ absurd (ground arith)
                  ]
            | inr (inl (x, k)) ↦ absurd (ground arith)
            | inr (inr k) ↦ absurd (ground arith)
          ]
      | inr (inl (x, k)) ↦ absurd (ground arith)
      | inr (inr k) ↦ absurd (ground arith)
    ]
    | inr (inl (x, e)) ↦ absurd (ground arith)
    | inr (inr e) ↦ absurd (ground arith)
  ]

  -- The parameters deduced on a curve are that of the curve, and then that of the size.
  ec_import :
      (ps : List KeyParam) (level : SecurityLevel) (f : KeyFormat) (d : List ℕ)
      (deduced : List KeyParam) (key : KeyMaterial Key)
      → check_ec_import_params imp ps level f d ≡ ok (deduced, key)
      → (n : ℕ) × (values as_key_size (ps ++ deduced) ≡ n ∷ [])
        × (curve : EcCurve) × (import_ec imp ps f d ≡ ok (key, curve))
        × (n ≡ curve_to_key_size curve)
  unfolding check_ec_import_params
  ec_import ps level f d deduced key h =
      let a =
        >>=-eq-ok (import_ec imp ps f d)
          (λ r. get_opt_tag_value as_ec_curve ps ErrorCode.invalid_tag >>= rest r) h in
      let b = >>=-eq-ok (get_opt_tag_value as_ec_curve ps ErrorCode.invalid_tag) (rest a.0) a.2 in
      let c = >>=-eq-ok (match_or_deduce ec_curve_eq KeyParam.ec_curve a.0.1 b.0) (sized a.0) b.2 in
      let t =
        tail (require_matching_key_size ps (curve_to_key_size a.0.1))
          (check_ec_params a.0.1 ps level) c.0 deduced a.0.0 key c.2 in
      (
        curve_to_key_size a.0.1,
        both_after ps c.0 t.0 deduced (curve_to_key_size a.0.1) t.2
            (matching_key_size ps t.0 (curve_to_key_size a.0.1) t.1)
            (no_size_in_curves c.0 a.0.1 b.0 c.1),
        a.0.1,
        a.1 ∙ ap (λ k. ok (k, a.0.1)) t.3,
        refl,
      )
    where
      sized : KeyMaterial Key × EcCurve → List KeyParam → Result (List KeyParam × KeyMaterial Key)
      sized r curves = require_matching_key_size ps (curve_to_key_size r.1) >>= λ sizes.
          check_ec_params r.1 ps level >>= λ purpose. ok (curves ++ sizes, r.0)

      rest : KeyMaterial Key × EcCurve → Option EcCurve → Result (List KeyParam × KeyMaterial Key)
      rest r given = match_or_deduce ec_curve_eq KeyParam.ec_curve r.1 given >>= sized r

-- The parameters of a key that is imported, with those that are deduced from it, hold exactly one key
-- size, and it is the size of the key.
pub check_import_params-HasSize :
    {Key : Type 0} (imp : Importers Key) (algo : Algorithm) (ps : List KeyParam)
    (level : SecurityLevel) (f : KeyFormat) (d : List ℕ) (deduced : List KeyParam)
    (key : KeyMaterial Key)
    → check_import_params imp algo ps level f d ≡ ok (deduced, key)
    → (n : ℕ) × (values as_key_size (ps ++ deduced) ≡ n ∷ []) × HasSize imp algo ps f d key n
unfolding check_import_params
check_import_params-HasSize imp Algorithm.aes ps level f d deduced key h =
    let r = aes_import imp ps level f d deduced key h in
    (r.0, matching_key_size ps deduced r.0 r.1, r.2)
check_import_params-HasSize imp Algorithm.hmac ps level f d deduced key h =
    let r = hmac_import imp ps level f d deduced key h in
    (r.0, matching_key_size ps deduced r.0 r.1, r.2)
check_import_params-HasSize imp Algorithm.triple_des ps level f d deduced key h =
    let r = des_import imp ps f d deduced key h in
    (168, matching_key_size ps deduced 168 r.0, (r.1, refl))
check_import_params-HasSize imp Algorithm.rsa ps level f d deduced key h =
    let r = rsa_import imp ps level f d deduced key h in (r.0, r.1, (r.2, r.3))
check_import_params-HasSize imp Algorithm.ec ps level f d deduced key h =
    let r = ec_import imp ps level f d deduced key h in (r.0, r.1, (r.2, r.3, r.4))
