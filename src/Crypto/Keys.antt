-- ===== src/Crypto/Keys.antt =====
-- Key material and key sizes (common/src/crypto.rs, common/src/crypto/ec.rs and hmac.rs). What a key
-- holds is a parameter.
use platform_system_keymint.Common.{ℕ, ◌%◌, not, fail_if, ◌>>◌, leb, ◌==◌, ◌&&◌}
use platform_system_keymint.KmError.{Result, hal}
use platform_system_keymint.Wire.Errors.{ErrorCode}
use platform_system_keymint.Wire.Params.{EcCurve}

-- `aes::Variant`, `ec::NistCurve`
pub data Variant : Type 0 where
  aes128 aes192 aes256 : Variant

pub data NistCurve : Type 0 where
  p224 p256 p384 p521 : NistCurve

pub data CurveType : Type 0 where
  nist ed_dsa xdh : CurveType

pub data KeyGenInfo : Type 0 where
  aes : Variant → KeyGenInfo
  triple_des : KeyGenInfo
  hmac : ℕ → KeyGenInfo
  rsa : (key_size : ℕ) (public_exponent : ℕ) → KeyGenInfo
  nist_ec : NistCurve → KeyGenInfo
  ed25519 x25519 : KeyGenInfo

pub data KeyMaterial (Key : Type 0) : Type 0 where
  aes triple_des hmac rsa : Key → KeyMaterial Key
  ec : EcCurve → CurveType → Key → KeyMaterial Key

unfoldable pub curve_to_key_size : EcCurve → ℕ
curve_to_key_size EcCurve.p224 = 224
curve_to_key_size EcCurve.p256 = 256
curve_to_key_size EcCurve.p384 = 384
curve_to_key_size EcCurve.p521 = 521
curve_to_key_size EcCurve.curve25519 = 256

-- Sizes of HMAC keys, in bits; a `u32` fits in `usize`.
unfoldable pub valid_size : ℕ → ℕ → Result (Unit {0})
valid_size key_size max_size_bits =
    fail_if (not (key_size % 8 == 0)) (hal ErrorCode.unsupported_key_size)
    >> fail_if (not (leb 64 key_size && leb key_size max_size_bits))
        (hal ErrorCode.unsupported_key_size)

unfoldable pub valid_hal_size : ℕ → Result (Unit {0})
unfolding valid_size
valid_hal_size key_size = valid_size key_size 1024

unfoldable pub valid_strongbox_hal_size : ℕ → Result (Unit {0})
unfolding valid_size
valid_strongbox_hal_size key_size = valid_size key_size 512
