-- ===== src/Tag/Begin/Ciphers.antt =====
-- The begin checks for AES, triple DES and HMAC keys (common/src/tag.rs).
use platform_system_keymint.Common.{
  ℕ, ◌%◌, Bool, true, false, ◌||◌, not, Option, none, some, List, [], ◌∷◌, length, ok, fail_if,
  ◌>>=◌, ◌>>◌, if◌then◌else◌, ltb, ◌==◌,
}
use platform_system_keymint.KmError.{Result, hal}
use platform_system_keymint.Wire.Errors.{ErrorCode}
use platform_system_keymint.Wire.Params.{BlockMode, block_mode_eq, Digest, digest_eq}
use platform_system_keymint.Wire.Modes.{KeyPurpose, key_purpose_eq, PaddingMode, padding_mode_eq}
use platform_system_keymint.Wire.Tags.{Tag, tag_eq}
use platform_system_keymint.Wire.KeyParams.{KeyParam, tag}
use platform_system_keymint.Tag.Params.{
  get_tag_value, get_opt_tag_value, get_block_mode, get_padding_mode, get_digest,
}
use platform_system_keymint.Tag.Params.Select.{
  as_digest, as_padding, as_min_mac_length, as_mac_length,
}
use platform_system_keymint.Tag.Digests.{digest_len}

pub record BeginParamsToCheck : Type 0 where
  pub block_mode : Bool
  pub padding : Bool
  pub digest : Bool
  pub mgf_digest : Bool

-- `contains` on a list of tags.
unfoldable pub contains : List Tag → Tag → Bool
unfolding tag_eq
contains [] t = false
contains (u ∷ us) t = tag_eq u t || contains us t

unfoldable pub reject_tags : List KeyParam → List Tag → Result (Unit {0})
unfolding contains tag
reject_tags [] exclude = ok tt
reject_tags (param ∷ params) exclude =
    fail_if (contains exclude (tag param)) (hal ErrorCode.invalid_tag) >> reject_tags params exclude

unfoldable pub reject_some_padding : List KeyParam → Result (Unit {0})
unfolding get_opt_tag_value as_padding padding_mode_eq
reject_some_padding params = get_opt_tag_value as_padding params ErrorCode.invalid_tag >>= λ found.
    elim found [
      | none ↦ ok tt
      | some padding ↦
          fail_if (not (padding_mode_eq padding PaddingMode.none)) (hal ErrorCode.invalid_tag)
    ]

unfoldable pub reject_some_digest : List KeyParam → Result (Unit {0})
unfolding get_opt_tag_value as_digest digest_eq
reject_some_digest params = get_opt_tag_value as_digest params ErrorCode.invalid_tag >>= λ found.
    elim found [
      | none ↦ ok tt
      | some digest ↦ fail_if (not (digest_eq digest Digest.none)) (hal ErrorCode.invalid_tag)
    ]

-- The tag length of the operation against the least one of the key.
unfoldable pub check_min_mac : List KeyParam → ℕ → Result (Unit {0})
unfolding get_tag_value as_min_mac_length
check_min_mac chars mac_len = do
  min_mac_len ← get_tag_value as_min_mac_length chars ErrorCode.missing_min_mac_length
  fail_if (ltb mac_len min_mac_len) (hal ErrorCode.invalid_mac_length)

-- The tag length of AES-GCM, in bits.
unfoldable pub check_gcm_mac : List KeyParam → List KeyParam → Result (Unit {0})
unfolding get_tag_value as_mac_length check_min_mac
check_gcm_mac chars params = do
  mac_len ← get_tag_value as_mac_length params ErrorCode.missing_mac_length
  fail_if (not (mac_len % 8 == 0) || ltb 128 mac_len) (hal ErrorCode.unsupported_mac_length)
  check_min_mac chars mac_len

unfoldable pub aes_padding_valid : BlockMode → PaddingMode → Bool
aes_padding_valid BlockMode.gcm PaddingMode.none = true
aes_padding_valid BlockMode.ctr PaddingMode.none = true
aes_padding_valid BlockMode.ecb PaddingMode.none = true
aes_padding_valid BlockMode.ecb PaddingMode.pkcs7 = true
aes_padding_valid BlockMode.cbc PaddingMode.none = true
aes_padding_valid BlockMode.cbc PaddingMode.pkcs7 = true
aes_padding_valid _ _ = false

-- The lengths of a nonce that a caller gives.
unfoldable pub aes_nonce_valid : BlockMode → Option (List ℕ) → Bool
aes_nonce_valid mode none = true
aes_nonce_valid BlockMode.cbc (some nonce) = length nonce == 16
aes_nonce_valid BlockMode.ctr (some nonce) = length nonce == 16
aes_nonce_valid BlockMode.gcm (some nonce) = length nonce == 12
aes_nonce_valid BlockMode.ecb (some nonce) = false

unfoldable pub check_begin_aes_params :
    List KeyParam → List KeyParam → Option (List ℕ) → Result BeginParamsToCheck
unfolding reject_tags reject_some_digest get_block_mode get_padding_mode check_gcm_mac
    aes_padding_valid aes_nonce_valid block_mode_eq
check_begin_aes_params chars params caller_nonce = do
  reject_tags params (Tag.rsa_oaep_mgf_digest ∷ [])
  reject_some_digest params
  bmode ← get_block_mode params
  padding ← get_padding_mode params
  if block_mode_eq bmode BlockMode.gcm then check_gcm_mac chars params else ok tt
  fail_if (not (aes_padding_valid bmode padding)) (hal ErrorCode.incompatible_padding_mode)
  fail_if (not (aes_nonce_valid bmode caller_nonce)) (hal ErrorCode.invalid_nonce)
  ok (record { block_mode = true; padding = true; digest = false; mgf_digest = false })

unfoldable pub des_mode_valid : BlockMode → Bool
des_mode_valid BlockMode.cbc = true
des_mode_valid BlockMode.ecb = true
des_mode_valid _ = false

unfoldable pub des_nonce_valid : BlockMode → Option (List ℕ) → Bool
des_nonce_valid mode none = true
des_nonce_valid BlockMode.cbc (some nonce) = length nonce == 8
des_nonce_valid _ (some nonce) = false

unfoldable pub check_begin_3des_params : List KeyParam → Option (List ℕ) → Result BeginParamsToCheck
unfolding reject_tags reject_some_digest get_block_mode get_padding_mode des_mode_valid
    des_nonce_valid
check_begin_3des_params params caller_nonce = do
  reject_tags params (Tag.rsa_oaep_mgf_digest ∷ [])
  reject_some_digest params
  bmode ← get_block_mode params
  padding ← get_padding_mode params
  fail_if (not (des_mode_valid bmode)) (hal ErrorCode.unsupported_block_mode)
  fail_if (not (des_nonce_valid bmode caller_nonce)) (hal ErrorCode.invalid_nonce)
  ok (record { block_mode = true; padding = true; digest = false; mgf_digest = false })

-- The tag length of a signature, in bits.
unfoldable pub check_hmac_mac : List KeyParam → List KeyParam → Digest → Result (Unit {0})
unfolding get_tag_value as_mac_length check_min_mac digest_len
check_hmac_mac chars params digest = do
  mac_len ← get_tag_value as_mac_length params ErrorCode.missing_mac_length
  fail_if (not (mac_len % 8 == 0)) (hal ErrorCode.unsupported_mac_length)
  max_len ← digest_len digest
  fail_if (ltb max_len mac_len) (hal ErrorCode.unsupported_mac_length)
  check_min_mac chars mac_len

unfoldable pub check_begin_hmac_params :
    List KeyParam → KeyPurpose → List KeyParam → Result BeginParamsToCheck
unfolding reject_tags reject_some_padding get_digest check_hmac_mac key_purpose_eq
check_begin_hmac_params chars purpose params = do
  reject_tags params (Tag.block_mode ∷ Tag.rsa_oaep_mgf_digest ∷ [])
  reject_some_padding params
  digest ← get_digest params
  if key_purpose_eq purpose KeyPurpose.sign then check_hmac_mac chars params digest else ok tt
  ok (record { block_mode = false; padding = false; digest = true; mgf_digest = false })
