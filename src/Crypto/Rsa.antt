-- ===== src/Crypto/Rsa.antt =====
-- What the begin checks of RSA accept has a mode (common/src/tag.rs with common/src/crypto/rsa.rs).
use platform_system_keymint.Common.{
  ◌≡◌, refl, Option, some, List, ok, inl, inr, arith, Outcome-cases, map_ok,
}
use platform_system_keymint.Wire.Params.{Digest}
use platform_system_keymint.Wire.Modes.{
  KeyPurpose, key_purpose_eq, key_purpose_as_u32, PaddingMode, padding_mode_eq, padding_mode_as_u32,
}
use platform_system_keymint.Wire.KeyParams.{KeyParam}
use platform_system_keymint.Tag.Params.{get_padding_mode, get_digest, get_mgf_digest}
use platform_system_keymint.Tag.Begin.Ciphers.{BeginParamsToCheck}
use platform_system_keymint.Tag.Begin.Signatures.{
  check_begin_rsa_params, check_rsa_padding, rsa_digest, for_encryption, for_signing, check_oaep,
}
use platform_system_keymint.Crypto.Modes.{
  DecryptionMode, SignMode, decryption_mode_new, decryption_mode_for, sign_mode_new, sign_mode_for,
}
use platform_system_keymint.Crypto.AesFacts.{Succeeds}

-- The padding and the digest that the check has found.
rsa_facts :
    (chars : List KeyParam) (purpose : KeyPurpose) (params : List KeyParam)
    (check : BeginParamsToCheck)
    → check_begin_rsa_params chars purpose params ≡ ok check
    → (padding : PaddingMode) × (digest : Option Digest) × (get_padding_mode params ≡ ok padding)
      × (rsa_digest purpose padding params ≡ ok digest)
      × (check_rsa_padding chars purpose params digest padding ≡ ok tt)
unfolding check_begin_rsa_params
rsa_facts chars purpose params check h = elim (Outcome-cases (get_padding_mode params)) [
  | inl (padding, e) ↦ elim (Outcome-cases (rsa_digest purpose padding params)) [
    | inl (digest, f) ↦ (padding, digest, e, f, ground arith)
    | inr (inl (x, f)) ↦ absurd (ground arith)
    | inr (inr f) ↦ absurd (ground arith)
  ]
  | inr (inl (x, e)) ↦ absurd (ground arith)
  | inr (inr e) ↦ absurd (ground arith)
]

-- Where a digest is read, it is there.
read_digest :
    (params : List KeyParam) (digest : Option Digest)
    → map_ok some (get_digest params) ≡ ok digest
    → Succeeds (get_digest params)
read_digest params digest h = elim (Outcome-cases (get_digest params)) [
  | inl found ↦ found
  | inr (inl (x, e)) ↦ absurd (ground arith)
  | inr (inr e) ↦ absurd (ground arith)
]

decryption_for :
    (chars params : List KeyParam) (padding : PaddingMode) (digest : Option Digest)
    → rsa_digest KeyPurpose.decrypt padding params ≡ ok digest
    → check_rsa_padding chars KeyPurpose.decrypt params digest padding ≡ ok tt
    → Succeeds (decryption_mode_for padding params)
unfolding rsa_digest check_rsa_padding decryption_mode_for for_encryption for_signing key_purpose_eq
    key_purpose_as_u32 padding_mode_eq padding_mode_as_u32 check_oaep
decryption_for chars params PaddingMode.none digest d h = (DecryptionMode.no_padding, refl)
decryption_for chars params PaddingMode.rsa_pkcs115_encrypt digest d h =
    (DecryptionMode.pkcs1_1_5_padding, refl)
decryption_for chars params PaddingMode.rsa_oaep digest d h =
    let found = read_digest params digest d in
    elim (Outcome-cases (get_mgf_digest params)) [
      | inl (mgf, e) ↦ (DecryptionMode.oaep_padding found.0 mgf, ground (arith, found.1))
      | inr (inl (x, e)) ↦ absurd (ground arith)
      | inr (inr e) ↦ absurd (ground arith)
    ]
decryption_for chars params _ digest d h = cc

sign_for :
    (chars params : List KeyParam) (padding : PaddingMode) (digest : Option Digest)
    → rsa_digest KeyPurpose.sign padding params ≡ ok digest
    → check_rsa_padding chars KeyPurpose.sign params digest padding ≡ ok tt
    → Succeeds (sign_mode_for padding params)
unfolding rsa_digest check_rsa_padding sign_mode_for for_encryption for_signing key_purpose_eq
    key_purpose_as_u32
sign_for chars params PaddingMode.none digest d h = (SignMode.no_padding, refl)
sign_for chars params PaddingMode.rsa_pss digest d h =
    let found = read_digest params digest d in
    (SignMode.pss_padding found.0, ground (arith, found.1))
sign_for chars params PaddingMode.rsa_pkcs115_sign digest d h =
    let found = read_digest params digest d in
    (SignMode.pkcs1_1_5_padding found.0, ground (arith, found.1))
sign_for chars params _ digest d h = cc

-- What stands for the mode of an RSA operation: signing and decryption have one.
abbrev pub HasRsaMode : KeyPurpose → List KeyParam → Type 0
HasRsaMode KeyPurpose.sign params = Succeeds (sign_mode_new params)
HasRsaMode KeyPurpose.decrypt params = Succeeds (decryption_mode_new params)
HasRsaMode _ params = Unit {0}

-- When the begin check accepts an RSA operation, its parameters have a mode: of signing for the
-- purpose of signing, and of decryption for the purpose of decryption.
pub check_begin_rsa_params-HasRsaMode :
    (chars : List KeyParam) (purpose : KeyPurpose) (params : List KeyParam)
    (check : BeginParamsToCheck)
    → check_begin_rsa_params chars purpose params ≡ ok check
    → HasRsaMode purpose params
unfolding sign_mode_new decryption_mode_new
check_begin_rsa_params-HasRsaMode chars KeyPurpose.sign params check h =
    let f = rsa_facts chars KeyPurpose.sign params check h in
    let mode = sign_for chars params f.0 f.1 f.3 f.4 in (mode.0, rw f.2 mode.1)
check_begin_rsa_params-HasRsaMode chars KeyPurpose.decrypt params check h =
    let f = rsa_facts chars KeyPurpose.decrypt params check h in
    let mode = decryption_for chars params f.0 f.1 f.3 f.4 in (mode.0, rw f.2 mode.1)
check_begin_rsa_params-HasRsaMode chars _ params check h = tt
