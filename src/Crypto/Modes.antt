-- ===== src/Crypto/Modes.antt =====
-- The mode of an operation, from its parameters: `Mode::new` of common/src/crypto/aes.rs and des.rs,
-- `DecryptionMode::new` and `SignMode::new` of rsa.rs, and `nonce` of common/src/crypto.rs. The
-- random generator is the sequence of the bytes that `fill_bytes` writes.
use platform_system_keymint.Common.{
  ℕ, zero, suc, ◌/◌, ◌%◌, not, Option, none, some, List, [], ◌∷◌, length, ok, err, fail_if, ◌>>=◌,
  ◌>>◌, map_ok, if◌then◌else◌, ◌==◌,
}
use platform_system_keymint.KmError.{Result, hal}
use platform_system_keymint.Wire.Errors.{ErrorCode}
use platform_system_keymint.Wire.Params.{BlockMode, Digest}
use platform_system_keymint.Wire.Modes.{PaddingMode}
use platform_system_keymint.Wire.KeyParams.{KeyParam}
use platform_system_keymint.Tag.Params.{
  get_tag_value, get_block_mode, get_padding_mode, get_digest, get_mgf_digest,
}
use platform_system_keymint.Tag.Params.Select.{as_mac_length}

pub data CipherMode : Type 0 where
  ecb_no_padding ecb_pkcs7_padding : CipherMode
  cbc_no_padding cbc_pkcs7_padding ctr : (nonce : List ℕ) → CipherMode

pub data GcmMode : Type 0 where
  gcm_tag12 gcm_tag13 gcm_tag14 gcm_tag15 gcm_tag16 : (nonce : List ℕ) → GcmMode

-- `aes::Mode`, `des::Mode`
pub data AesMode : Type 0 where
  cipher : CipherMode → AesMode
  aead : GcmMode → AesMode

pub data DesMode : Type 0 where
  ecb_no_padding ecb_pkcs7_padding : DesMode
  cbc_no_padding cbc_pkcs7_padding : (nonce : List ℕ) → DesMode

pub data DecryptionMode : Type 0 where
  no_padding pkcs1_1_5_padding : DecryptionMode
  oaep_padding : (msg_digest : Digest) (mgf_digest : Digest) → DecryptionMode

pub data SignMode : Type 0 where
  no_padding : SignMode
  pss_padding pkcs1_1_5_padding : Digest → SignMode

-- `Rng::fill_bytes` on a new buffer.
unfoldable pub fill_bytes : ℕ → (ℕ → ℕ) → List ℕ
fill_bytes zero rng = []
fill_bytes (suc size) rng = rng zero ∷ fill_bytes size (λ i. rng (suc i))

unfoldable pub nonce : ℕ → Option (List ℕ) → (ℕ → ℕ) → Result (List ℕ)
unfolding fill_bytes
nonce size (some n) rng = if length n == size then ok n else err (hal ErrorCode.invalid_nonce)
nonce size none rng = ok (fill_bytes size rng)

-- `nonce(...)?.try_into()`, into an array of the size.
unfoldable pub nonce_array : ℕ → Option (List ℕ) → (ℕ → ℕ) → Result (List ℕ)
unfolding nonce
nonce_array size caller_nonce rng = nonce size caller_nonce rng >>= λ n.
    if length n == size then ok n else err (hal ErrorCode.invalid_nonce)

-- A choice between the two paddings of ECB and CBC.
unfoldable pub padded : {A : Type 0} → PaddingMode → A → A → Result A
padded PaddingMode.none plain pkcs7 = ok plain
padded PaddingMode.pkcs7 plain pkcs7 = ok pkcs7
padded _ plain pkcs7 = err (hal ErrorCode.incompatible_padding_mode)

unfoldable pub require_unpadded : PaddingMode → Result (Unit {0})
require_unpadded PaddingMode.none = ok tt
require_unpadded _ = err (hal ErrorCode.incompatible_padding_mode)

unfoldable pub no_nonce : Option (List ℕ) → Result (Unit {0})
no_nonce none = ok tt
no_nonce (some n) = err (hal ErrorCode.invalid_nonce)

unfoldable pub gcm_mode : ℕ → List ℕ → Result GcmMode
gcm_mode bytes n =
    if bytes == 12
    then ok (GcmMode.gcm_tag12 n)
    else if bytes == 13
    then ok (GcmMode.gcm_tag13 n)
    else if bytes == 14
    then ok (GcmMode.gcm_tag14 n)
    else if bytes == 15
    then ok (GcmMode.gcm_tag15 n)
    else if bytes == 16
    then ok (GcmMode.gcm_tag16 n)
    else err (hal ErrorCode.invalid_mac_length)

-- The arms of `match mode` in `aes::Mode::new`.
unfoldable pub aes_mode_for :
    BlockMode → PaddingMode → List KeyParam → Option (List ℕ) → (ℕ → ℕ) → Result AesMode
unfolding nonce_array padded require_unpadded no_nonce get_tag_value as_mac_length gcm_mode
aes_mode_for BlockMode.ecb padding params caller_nonce rng =
    no_nonce caller_nonce
    >> map_ok AesMode.cipher (padded padding CipherMode.ecb_no_padding CipherMode.ecb_pkcs7_padding)
aes_mode_for BlockMode.cbc padding params caller_nonce rng =
    nonce_array 16 caller_nonce rng >>= λ n.
    map_ok AesMode.cipher
      (padded padding (CipherMode.cbc_no_padding n) (CipherMode.cbc_pkcs7_padding n))
aes_mode_for BlockMode.ctr padding params caller_nonce rng =
    require_unpadded padding
    >> map_ok (λ n. AesMode.cipher (CipherMode.ctr n)) (nonce_array 16 caller_nonce rng)
aes_mode_for BlockMode.gcm padding params caller_nonce rng = do
  require_unpadded padding
  n ← nonce_array 12 caller_nonce rng
  tag_len ← get_tag_value as_mac_length params ErrorCode.invalid_mac_length
  fail_if (not (tag_len % 8 == 0)) (hal ErrorCode.invalid_mac_length)
  map_ok AesMode.aead (gcm_mode (tag_len / 8) n)

unfoldable pub aes_mode_new : List KeyParam → Option (List ℕ) → (ℕ → ℕ) → Result AesMode
unfolding get_block_mode get_padding_mode aes_mode_for
aes_mode_new params caller_nonce rng = do
  mode ← get_block_mode params
  padding ← get_padding_mode params
  aes_mode_for mode padding params caller_nonce rng

-- The arms of `match mode` in `des::Mode::new`.
unfoldable pub des_mode_for : BlockMode → PaddingMode → Option (List ℕ) → (ℕ → ℕ) → Result DesMode
unfolding nonce_array padded no_nonce
des_mode_for BlockMode.ecb padding caller_nonce rng =
    no_nonce caller_nonce >> padded padding DesMode.ecb_no_padding DesMode.ecb_pkcs7_padding
des_mode_for BlockMode.cbc padding caller_nonce rng = nonce_array 8 caller_nonce rng >>= λ n.
    padded padding (DesMode.cbc_no_padding n) (DesMode.cbc_pkcs7_padding n)
des_mode_for _ padding caller_nonce rng = err (hal ErrorCode.unsupported_block_mode)

unfoldable pub des_mode_new : List KeyParam → Option (List ℕ) → (ℕ → ℕ) → Result DesMode
unfolding get_block_mode get_padding_mode des_mode_for
des_mode_new params caller_nonce rng = do
  mode ← get_block_mode params
  padding ← get_padding_mode params
  des_mode_for mode padding caller_nonce rng

unfoldable pub decryption_mode_for : PaddingMode → List KeyParam → Result DecryptionMode
unfolding get_digest get_mgf_digest
decryption_mode_for PaddingMode.none params = ok DecryptionMode.no_padding
decryption_mode_for PaddingMode.rsa_oaep params = do
  msg_digest ← get_digest params
  mgf_digest ← get_mgf_digest params
  ok (DecryptionMode.oaep_padding msg_digest mgf_digest)
decryption_mode_for PaddingMode.rsa_pkcs115_encrypt params = ok DecryptionMode.pkcs1_1_5_padding
decryption_mode_for _ params = err (hal ErrorCode.unsupported_padding_mode)

unfoldable pub decryption_mode_new : List KeyParam → Result DecryptionMode
unfolding get_padding_mode decryption_mode_for
decryption_mode_new params =
    get_padding_mode params >>= λ padding. decryption_mode_for padding params

unfoldable pub sign_mode_for : PaddingMode → List KeyParam → Result SignMode
unfolding get_digest
sign_mode_for PaddingMode.none params = ok SignMode.no_padding
sign_mode_for PaddingMode.rsa_pss params = map_ok SignMode.pss_padding (get_digest params)
sign_mode_for PaddingMode.rsa_pkcs115_sign params =
    map_ok SignMode.pkcs1_1_5_padding (get_digest params)
sign_mode_for _ params = err (hal ErrorCode.unsupported_padding_mode)

unfoldable pub sign_mode_new : List KeyParam → Result SignMode
unfolding get_padding_mode sign_mode_for
sign_mode_new params = get_padding_mode params >>= λ padding. sign_mode_for padding params
