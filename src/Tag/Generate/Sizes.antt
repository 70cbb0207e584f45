-- ===== src/Tag/Generate/Sizes.antt =====
-- The keys that a generation request may ask for (common/src/tag.rs).
use mathlib.Core.Path.{subst}
use platform_system_keymint.Common.{
  ℕ, ◌%◌, ◌≤◌, ◌≡◌, refl, true, false, Option, some, List, [], ◌∷◌, ok, ◌>>=◌, ◌>>◌, ◌⊎◌, inl, inr,
  arith, Bool-cases, >>=-eq-ok,
}
use platform_system_keymint.Wire.Errors.{ErrorCode}
use platform_system_keymint.Wire.Params.{Algorithm, EcCurve, ec_curve_eq, ec_curve_as_u32}
use platform_system_keymint.Wire.Modes.{
  KeyPurpose, SecurityLevel, security_level_eq, security_level_as_u32,
}
use platform_system_keymint.Wire.KeyParams.{KeyParam, KeyCharacteristics}
use platform_system_keymint.Crypto.Keys.{
  Variant, NistCurve, KeyGenInfo, valid_size, valid_hal_size, valid_strongbox_hal_size,
}
use platform_system_keymint.Tag.Params.{get_tag_value, get_algorithm, get_ec_curve}
use platform_system_keymint.Tag.Params.Contained.{Among}
use platform_system_keymint.Tag.Params.Select.{as_key_size, as_rsa_public_exponent}
use platform_system_keymint.Tag.Extract.{SecureStorage, extract_key_characteristics}
use platform_system_keymint.Tag.Generate.{
  check_rsa_key_size, check_rsa_params, check_rsa_gen_params, check_ec_params, ec_keygen_info,
  check_ec_gen_params, aes_variant, check_aes_params, check_aes_gen_params, check_3des_gen_params,
  check_hmac_params, check_hmac_gen_params, check_gen_params, extract_key_gen_characteristics,
}

-- What a security level supports.
abbrev pub rsa_sizes : SecurityLevel → List ℕ
rsa_sizes SecurityLevel.strongbox = 2048 ∷ []
rsa_sizes _ = 512 ∷ 768 ∷ 1024 ∷ 2048 ∷ 3072 ∷ 4096 ∷ []

abbrev pub aes_variants : SecurityLevel → List Variant
aes_variants SecurityLevel.strongbox = Variant.aes128 ∷ Variant.aes256 ∷ []
aes_variants _ = Variant.aes128 ∷ Variant.aes192 ∷ Variant.aes256 ∷ []

abbrev pub nist_curves : SecurityLevel → List NistCurve
nist_curves SecurityLevel.strongbox = NistCurve.p256 ∷ []
nist_curves _ = NistCurve.p224 ∷ NistCurve.p256 ∷ NistCurve.p384 ∷ NistCurve.p521 ∷ []

abbrev pub hmac_most : SecurityLevel → ℕ
hmac_most SecurityLevel.strongbox = 512
hmac_most _ = 1024

abbrev pub IsSupported : SecurityLevel → KeyGenInfo → Type 0
IsSupported level (KeyGenInfo.rsa key_size public_exponent) = Among key_size (rsa_sizes level)
IsSupported level (KeyGenInfo.aes variant) = Among variant (aes_variants level)
IsSupported level (KeyGenInfo.nist_ec curve) = Among curve (nist_curves level)
IsSupported level (KeyGenInfo.hmac key_size) =
    (key_size % 8 ≡ 0) × (64 ≤ key_size) × (key_size ≤ hmac_most level)
IsSupported level KeyGenInfo.ed25519 = security_level_eq level SecurityLevel.strongbox ≡ false
IsSupported level KeyGenInfo.x25519 = security_level_eq level SecurityLevel.strongbox ≡ false
IsSupported level KeyGenInfo.triple_des = Unit {0}

rsa_size :
    (level : SecurityLevel) (n : ℕ) → check_rsa_key_size n level ≡ ok tt → Among n (rsa_sizes level)
unfolding check_rsa_key_size security_level_eq security_level_as_u32
rsa_size SecurityLevel.strongbox n h = ground arith
rsa_size _ n h = ground arith

aes_size :
    (level : SecurityLevel) (n : ℕ) (v : Variant)
    → aes_variant n level ≡ ok v
    → Among v (aes_variants level)
unfolding aes_variant security_level_eq security_level_as_u32
aes_size SecurityLevel.strongbox n v h = ground arith
aes_size _ n v h = ground arith

hmac_size :
    (level : SecurityLevel) (n : ℕ) (ps : List KeyParam)
    → check_hmac_params ps level n ≡ ok tt
    → (n % 8 ≡ 0) × (64 ≤ n) × (n ≤ hmac_most level)
unfolding check_hmac_params valid_size valid_hal_size valid_strongbox_hal_size security_level_eq
    security_level_as_u32
hmac_size SecurityLevel.strongbox n ps h = (ground arith, ground arith, ground arith)
hmac_size _ n ps h = (ground arith, ground arith, ground arith)

ec_allowed :
    (level : SecurityLevel) (curve : EcCurve) (ps : List KeyParam) (p : Option KeyPurpose)
    → check_ec_params curve ps level ≡ ok p
    → (security_level_eq level SecurityLevel.strongbox ≡ false)
      ⊎ (ec_curve_eq curve EcCurve.p256 ≡ true)
unfolding check_ec_params
ec_allowed level curve ps p h =
    elim (Bool-cases (security_level_eq level SecurityLevel.strongbox)) [
      | inr other ↦ inl other
      | inl strongbox ↦ inr (ground arith)
    ]

-- The curve of a key that is generated goes with its information.
generated_nist :
    (level : SecurityLevel) (c : NistCurve) (i : KeyGenInfo)
    → Among c (nist_curves level)
    → KeyGenInfo.nist_ec c ≡ i
    → IsSupported level i
generated_nist level c i s e = subst (IsSupported level) e s

nist_allowed :
    (level : SecurityLevel) (c : NistCurve)
    → (security_level_eq level SecurityLevel.strongbox ≡ false) ⊎ (c ≡ NistCurve.p256)
    → Among c (nist_curves level)
unfolding security_level_eq security_level_as_u32
nist_allowed SecurityLevel.strongbox c (inl e) = absurd (ground arith)
nist_allowed SecurityLevel.strongbox c (inr e) = ground arith
nist_allowed _ NistCurve.p224 e = inl refl
nist_allowed _ NistCurve.p256 e = inr (inl refl)
nist_allowed _ NistCurve.p384 e = inr (inr (inl refl))
nist_allowed _ NistCurve.p521 e = inr (inr (inr (inl refl)))

ec_info :
    (level : SecurityLevel) (curve : EcCurve) (q : Option KeyPurpose) (i : KeyGenInfo)
    → (security_level_eq level SecurityLevel.strongbox ≡ false)
      ⊎ (ec_curve_eq curve EcCurve.p256 ≡ true)
    → ec_keygen_info curve q ≡ ok i
    → IsSupported level i
unfolding ec_keygen_info ec_curve_eq ec_curve_as_u32
ec_info level EcCurve.p256 q i a k =
    generated_nist level NistCurve.p256 i (nist_allowed level NistCurve.p256 (inr refl)) cc
ec_info level EcCurve.p224 q i (inl a) k =
    generated_nist level NistCurve.p224 i (nist_allowed level NistCurve.p224 (inl a)) cc
ec_info level EcCurve.p384 q i (inl a) k =
    generated_nist level NistCurve.p384 i (nist_allowed level NistCurve.p384 (inl a)) cc
ec_info level EcCurve.p521 q i (inl a) k =
    generated_nist level NistCurve.p521 i (nist_allowed level NistCurve.p521 (inl a)) cc
ec_info level EcCurve.curve25519 (some KeyPurpose.sign) i (inl a) k =
    let e : KeyGenInfo.ed25519 ≡ i = cc in subst (IsSupported level) e a
ec_info level EcCurve.curve25519 (some KeyPurpose.attest_key) i (inl a) k =
    let e : KeyGenInfo.ed25519 ≡ i = cc in subst (IsSupported level) e a
ec_info level EcCurve.curve25519 (some KeyPurpose.agree_key) i (inl a) k =
    let e : KeyGenInfo.x25519 ≡ i = cc in subst (IsSupported level) e a
ec_info level EcCurve.curve25519 _ i (inl a) k = absurd (ground arith)
ec_info level _ q i (inr a) k = absurd (ground arith)

gen-IsSupported :
    (algo : Algorithm) (ps : List KeyParam) (level : SecurityLevel) (i : KeyGenInfo)
    → check_gen_params algo ps level ≡ ok i
    → IsSupported level i
unfolding check_gen_params check_rsa_gen_params check_ec_gen_params check_aes_gen_params
    check_3des_gen_params check_hmac_gen_params
gen-IsSupported Algorithm.rsa ps level i h =
    let a =
      >>=-eq-ok (get_tag_value as_key_size ps ErrorCode.unsupported_key_size)
        (λ n.
          check_rsa_key_size n level
          >> (get_tag_value as_rsa_public_exponent ps ErrorCode.invalid_argument >>= λ e.
              check_rsa_params ps >> ok (KeyGenInfo.rsa n e)))
        h in
    let b =
      >>=-eq-ok (check_rsa_key_size a.0 level)
        (λ _. get_tag_value as_rsa_public_exponent ps ErrorCode.invalid_argument >>= λ e.
          check_rsa_params ps >> ok (KeyGenInfo.rsa a.0 e))
        a.2 in
    let c =
      >>=-eq-ok (get_tag_value as_rsa_public_exponent ps ErrorCode.invalid_argument)
        (λ e. check_rsa_params ps >> ok (KeyGenInfo.rsa a.0 e)) b.2 in
    let e : KeyGenInfo.rsa a.0 c.0 ≡ i = ground (arith, c.2) in
    subst (IsSupported level) e (rsa_size level a.0 b.1)
gen-IsSupported Algorithm.ec ps level i h =
    let a = >>=-eq-ok (get_ec_curve ps) (λ c. check_ec_params c ps level >>= ec_keygen_info c) h in
    let b = >>=-eq-ok (check_ec_params a.0 ps level) (ec_keygen_info a.0) a.2 in
    ec_info level a.0 b.0 i (ec_allowed level a.0 ps b.0 b.1) b.2
gen-IsSupported Algorithm.aes ps level i h =
    let a =
      >>=-eq-ok (get_tag_value as_key_size ps ErrorCode.unsupported_key_size)
        (λ n. aes_variant n level >>= λ v. check_aes_params ps >> ok (KeyGenInfo.aes v)) h in
    let b =
      >>=-eq-ok (aes_variant a.0 level) (λ v. check_aes_params ps >> ok (KeyGenInfo.aes v)) a.2 in
    let e : KeyGenInfo.aes b.0 ≡ i = ground (arith, b.2) in
    subst (IsSupported level) e (aes_size level a.0 b.0 b.1)
gen-IsSupported Algorithm.triple_des ps level i h =
    let e : KeyGenInfo.triple_des ≡ i = ground arith in subst (IsSupported level) e tt
gen-IsSupported Algorithm.hmac ps level i h =
    let a =
      >>=-eq-ok (get_tag_value as_key_size ps ErrorCode.unsupported_key_size)
        (λ n. check_hmac_params ps level n >> ok (KeyGenInfo.hmac n)) h in
    let b = >>=-eq-ok (check_hmac_params ps level a.0) (λ _. ok (KeyGenInfo.hmac a.0)) a.2 in
    let e : KeyGenInfo.hmac a.0 ≡ i = cc in subst (IsSupported level) e (hmac_size level a.0 ps b.1)

-- A key that is to be generated has a size and a curve that its security level supports: StrongBox
-- has RSA with 2048 bits, AES with 128 and 256, P-256, and HMAC keys of up to 512 bits; the other
-- levels have six sizes of RSA, three of AES, all curves, and HMAC keys of up to 1024 bits. The size
-- of an HMAC key is a multiple of 8 and at least 64.
pub extract_key_gen_characteristics-IsSupported :
    (storage : SecureStorage) (ps : List KeyParam) (level : SecurityLevel)
    (chars : List KeyCharacteristics) (i : KeyGenInfo)
    → extract_key_gen_characteristics storage ps level ≡ ok (chars, i)
    → IsSupported level i
unfolding extract_key_gen_characteristics
extract_key_gen_characteristics-IsSupported storage ps level chars i h =
    let a =
      >>=-eq-ok (get_algorithm ps)
        (λ algo. check_gen_params algo ps level >>= λ j.
          extract_key_characteristics storage ps [] level >>= λ cs. ok (cs, j))
        h in
    let b =
      >>=-eq-ok (check_gen_params a.0 ps level)
        (λ j. extract_key_characteristics storage ps [] level >>= λ cs. ok (cs, j)) a.2 in
    let c = >>=-eq-ok (extract_key_characteristics storage ps [] level) (λ cs. ok (cs, b.0)) b.2 in
    let e : b.0 ≡ i = cc in subst (IsSupported level) e (gen-IsSupported a.0 ps level b.0 b.1)
