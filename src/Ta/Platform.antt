-- ===== src/Ta/Platform.antt =====
-- What the trusted application takes from outside: the cryptographic operations behind trait
-- objects (common/src/crypto/traits.rs), the secure deletion manager (common/src/keyblob.rs), and
-- what the environment answers while a request is handled.
use platform_system_keymint.Common.{ℕ, List, Bool, Option}
use platform_system_keymint.Common.Bytes.{Endian}
use platform_system_keymint.KmError.{Result}

-- An operation in progress is a value of an abstract type. A method that takes `&mut self` returns
-- the new value if it succeeds: after a failure the caller drops the operation.
pub record Platform : Type 1 where
  -- `EmittingOperation`
  pub Emitting : Type 0
  pub emitting_update : Emitting → List ℕ → Result (List ℕ × Emitting)
  pub emitting_finish : Emitting → Result (List ℕ)
  -- `AadOperation`
  pub Aad : Type 0
  pub aad_update_aad : Aad → List ℕ → Result Aad
  pub aad_update : Aad → List ℕ → Result (List ℕ × Aad)
  pub aad_finish : Aad → Result (List ℕ)
  -- `AccumulatingOperation`
  pub Accumulating : Type 0
  pub max_input_size : Accumulating → Option ℕ
  pub accumulating_update : Accumulating → List ℕ → Result Accumulating
  pub accumulating_finish : Accumulating → Result (List ℕ)
  -- `SecureDeletionSecretManager`: what `delete_secret` leaves, and whether it succeeded
  pub SddManager : Type 0
  pub delete_secret : SddManager → ℕ → Result (Unit {0}) × SddManager
  -- `ConstTimeEq`
  pub eq : List ℕ → List ℕ → Bool
  -- the byte order of the target
  pub endian : Endian

-- The answers of the environment during one request: `clock.now()`, if there is a clock;
-- `tup.available()`; and `device_hmac`, if the key has been agreed.
pub record Env : Type 0 where
  pub clock : Option ℕ
  pub tup_available : Bool
  pub device_hmac : Option (List ℕ → Result (List ℕ))
