-- ===== src/Crypto/Accepted.antt =====
-- What begin checks accept has a mode (common/src/tag.rs with common/src/crypto/aes.rs and rsa.rs).
use mathlib.Core.Path.{subst}
use platform_system_keymint.Common.{
  ℕ, ◌≡◌, refl, true, false, Option, none, some, List, [], ◌∷◌, ok, ◌⊎◌, inl, inr, All, arith,
}
use platform_system_keymint.Wire.Errors.{ErrorCode}
use platform_system_keymint.Wire.Params.{Algorithm, BlockMode, block_mode_eq, block_mode_as_u32}
use platform_system_keymint.Wire.Modes.{KeyPurpose, PaddingMode}
use platform_system_keymint.Wire.KeyParams.{KeyParam}
use platform_system_keymint.Tag.Params.{get_algorithm, get_opt_tag_value, get_block_mode}
use platform_system_keymint.Tag.Params.Select.{as_block_mode, as_mac_length, as_nonce}
use platform_system_keymint.Tag.Params.Single.{values, get_tag_value-any_error, get_tag_value-ok}
use platform_system_keymint.Tag.Params.Contained.{Among}
use platform_system_keymint.Tag.Generate.{check_aes_params}
use platform_system_keymint.Tag.Begin.Ciphers.{
  BeginParamsToCheck, check_begin_aes_params, check_gcm_mac, aes_padding_valid, aes_nonce_valid,
}
use platform_system_keymint.Tag.Begin.Authorised.{begin_parts, general_nonce}
use platform_system_keymint.Tag.Begin.Listed.{Listed, check_begin_for-checks, check_named-ListedFor}
use platform_system_keymint.Tag.Begin.{check_begin_params, check_begin_for, check_named}
use platform_system_keymint.Crypto.Modes.{
  AesMode, CipherMode, fill_bytes, nonce_array, aes_mode_for, aes_mode_new, padded,
  require_unpadded, no_nonce,
}
use platform_system_keymint.Crypto.AesFacts.{
  Succeeds, nonce_array-new, nonce_array-given, gcm_mode-Succeeds, aes_facts, gcm_facts,
  least_gcm_mac,
}

-- The modes of each block mode, for the padding and the nonce that the begin check allows.
cipher_mode :
    (bmode : BlockMode) (padding : PaddingMode) (params : List KeyParam) (given : Option (List ℕ))
    (rng : ℕ → ℕ)
    → block_mode_eq bmode BlockMode.gcm ≡ false
    → aes_padding_valid bmode padding ≡ true
    → aes_nonce_valid bmode given ≡ true
    → Succeeds (aes_mode_for bmode padding params given rng)
unfolding aes_mode_for aes_padding_valid aes_nonce_valid padded require_unpadded no_nonce
    block_mode_eq block_mode_as_u32
cipher_mode BlockMode.ecb PaddingMode.none params none rng g p n = (_, refl)
cipher_mode BlockMode.ecb PaddingMode.pkcs7 params none rng g p n = (_, refl)
cipher_mode BlockMode.cbc PaddingMode.none params none rng g p n = (
  AesMode.cipher (CipherMode.cbc_no_padding (fill_bytes 16 rng)),
  ground (arith, nonce_array-new 16 rng),
)
cipher_mode BlockMode.cbc PaddingMode.pkcs7 params none rng g p n = (
  AesMode.cipher (CipherMode.cbc_pkcs7_padding (fill_bytes 16 rng)),
  ground (arith, nonce_array-new 16 rng),
)
cipher_mode BlockMode.cbc PaddingMode.none params (some v) rng g p n = (
  AesMode.cipher (CipherMode.cbc_no_padding v),
  ground (arith, nonce_array-given 16 v rng (ground arith)),
)
cipher_mode BlockMode.cbc PaddingMode.pkcs7 params (some v) rng g p n = (
  AesMode.cipher (CipherMode.cbc_pkcs7_padding v),
  ground (arith, nonce_array-given 16 v rng (ground arith)),
)
cipher_mode BlockMode.ctr PaddingMode.none params none rng g p n =
    (AesMode.cipher (CipherMode.ctr (fill_bytes 16 rng)), ground (arith, nonce_array-new 16 rng))
cipher_mode BlockMode.ctr PaddingMode.none params (some v) rng g p n =
    (AesMode.cipher (CipherMode.ctr v), ground (arith, nonce_array-given 16 v rng (ground arith)))
cipher_mode _ _ params given rng g p n = absurd (ground arith)

gcm_array :
    (given : Option (List ℕ)) (rng : ℕ → ℕ)
    → aes_nonce_valid BlockMode.gcm given ≡ true
    → Succeeds (nonce_array 12 given rng)
unfolding aes_nonce_valid
gcm_array none rng n = (fill_bytes 12 rng, nonce_array-new 12 rng)
gcm_array (some v) rng n = (v, nonce_array-given 12 v rng (ground arith))

aead_mode :
    (chars params : List KeyParam) (padding : PaddingMode) (given : Option (List ℕ)) (rng : ℕ → ℕ)
    → check_aes_params chars ≡ ok tt
    → Among BlockMode.gcm (values as_block_mode chars)
    → check_gcm_mac chars params ≡ ok tt
    → aes_padding_valid BlockMode.gcm padding ≡ true
    → aes_nonce_valid BlockMode.gcm given ≡ true
    → Succeeds (aes_mode_for BlockMode.gcm padding params given rng)
unfolding aes_mode_for aes_padding_valid require_unpadded
aead_mode chars params PaddingMode.none given rng k l h p n =
    let f = gcm_facts chars params h in
    let least = least_gcm_mac chars f.1 k l f.3 in
    let array = gcm_array given rng n in
    let mode = gcm_mode-Succeeds f.0 array.0 (omega (arith, least, f.6)) f.5 f.4 in
    (
      AesMode.aead mode.0,
      rw
          (
            array.1,
            get_tag_value-any_error as_mac_length params ErrorCode.missing_mac_length
                ErrorCode.invalid_mac_length f.0 f.2,
            f.4,
            mode.1,
          )
          refl,
    )
aead_mode chars params _ given rng k l h p n = absurd (ground arith)

aes_check :
    (chars : List KeyParam) (purpose : KeyPurpose) (params : List KeyParam)
    (given : Option (List ℕ)) (check : BeginParamsToCheck)
    → check_begin_for Algorithm.aes chars purpose params given ≡ ok check
    → check_begin_aes_params chars params given ≡ ok check
unfolding check_begin_for
aes_check chars purpose params given check h = h

aes_mode_for-Succeeds :
    (chars params : List KeyParam) (given : Option (List ℕ)) (rng : ℕ → ℕ)
    (check : BeginParamsToCheck)
    → check_aes_params chars ≡ ok tt
    → Listed as_block_mode chars params
    → check_begin_aes_params chars params given ≡ ok check
    → Succeeds (aes_mode_new params given rng)
unfolding aes_mode_new get_block_mode block_mode_eq block_mode_as_u32
aes_mode_for-Succeeds chars params given rng check k l h =
    let f = aes_facts chars params given check h in
    let listed : All (λ v. Among v (values as_block_mode chars)) (f.0 ∷ []) =
      subst (λ vs. All (λ v. Among v (values as_block_mode chars)) vs)
        (get_tag_value-ok as_block_mode params ErrorCode.unsupported_block_mode f.0 f.2) l in
    let mode = of_mode f.0 f.1 listed.0 f.4 f.5 f.6 in (mode.0, rw (f.2, f.3) mode.1)
  where
    of_mode :
        (bmode : BlockMode) (padding : PaddingMode)
        → Among bmode (values as_block_mode chars)
        → aes_padding_valid bmode padding ≡ true
        → aes_nonce_valid bmode given ≡ true
        → (block_mode_eq bmode BlockMode.gcm ≡ false) ⊎ (check_gcm_mac chars params ≡ ok tt)
        → Succeeds (aes_mode_for bmode padding params given rng)
    of_mode bmode padding m p n (inl plain) = cipher_mode bmode padding params given rng plain p n
    of_mode BlockMode.gcm padding m p n (inr mac) =
        aead_mode chars params padding given rng k m mac p n
    of_mode _ padding m p n (inr mac) = cipher_mode _ padding params given rng refl p n

-- For an AES key whose characteristics pass the check of AES parameters: when the begin checks
-- accept an operation, its parameters have a mode, with the nonce that the caller gives or a new one.
pub check_begin_params-aes_mode_new :
    (chars : List KeyParam) (purpose : KeyPurpose) (params : List KeyParam)
    (given : Option (List ℕ)) (rng : ℕ → ℕ)
    → get_algorithm chars ≡ ok Algorithm.aes
    → check_aes_params chars ≡ ok tt
    → get_opt_tag_value as_nonce params ErrorCode.invalid_tag ≡ ok given
    → check_begin_params chars purpose params ≡ ok tt
    → Succeeds (aes_mode_new params given rng)
check_begin_params-aes_mode_new chars purpose params given rng a k g h =
    let p = begin_parts chars purpose params h in
    of_algorithm p.0 p.1 p.2 (cc (a, p.3)) (cc (g, general_nonce p.0 chars purpose params p.1 p.4))
      p.5 p.6
  where
    of_algorithm :
        (algo : Algorithm) (found : Option (List ℕ)) (check : BeginParamsToCheck)
        → algo ≡ Algorithm.aes
        → found ≡ given
        → check_begin_for algo chars purpose params found ≡ ok check
        → check_named check chars params ≡ ok tt
        → Succeeds (aes_mode_new params given rng)
    of_algorithm algo found check is_aes same f n =
        let f' : check_begin_for Algorithm.aes chars purpose params given ≡ ok check =
          cc (f, is_aes, same) in
        let flags = check_begin_for-checks Algorithm.aes chars purpose params given check f' in
        let l =
          check_named-ListedFor Algorithm.aes chars params
            (subst (λ c. check_named c chars params ≡ ok tt) flags n) in
        aes_mode_for-Succeeds chars params given rng check k l.0
          (aes_check chars purpose params given check f')
