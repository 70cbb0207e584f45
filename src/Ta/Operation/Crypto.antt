-- ===== src/Ta/Operation/Crypto.antt =====
-- `CryptoOperation` and `Operation` of ta/src/operation.rs, and how data is fed to them.
use platform_system_keymint.Common.{
  ℕ, ◌+◌, Bool, false, ◌&&◌, not, Option, none, some, List, [], ◌∷◌, ◌++◌, length, take, leb, ltb,
  ok, err, ok_or, fail_if, panic_unless, map_ok, ◌>>=◌, ◌>>◌, if◌then◌else◌,
}
use platform_system_keymint.KmError.{Result, hal}
use platform_system_keymint.Wire.Errors.{ErrorCode}
use platform_system_keymint.Ta.Platform.{Platform}
use platform_system_keymint.Ta.Auth.{AuthInfo}

pub data CryptoOperation (P : Platform) : Type 0 where
  aes : P.Emitting → CryptoOperation P
  aes_gcm : P.Aad → CryptoOperation P
  des : P.Emitting → CryptoOperation P
  hmac_sign : P.Accumulating → ℕ → CryptoOperation P
  hmac_verify : P.Accumulating → ℕ → ℕ → CryptoOperation P
  rsa_decrypt : P.Accumulating → CryptoOperation P
  rsa_sign : P.Accumulating → CryptoOperation P
  ec_agree : P.Accumulating → CryptoOperation P
  ec_sign : P.Accumulating → CryptoOperation P

pub record Operation (P : Platform) : Type 0 where
  pub handle : ℕ
  pub aad_allowed : Bool
  pub slot_to_delete : Option ℕ
  pub trusted_conf_data : Option (List ℕ)
  pub auth_info : Option AuthInfo
  pub crypto_op : CryptoOperation P
  pub input_size : ℕ

abbrev pub confirmation_token_size : ℕ
confirmation_token_size = 32

-- "confirmation token"
abbrev pub confirmation_data_prefix : List ℕ
confirmation_data_prefix =
    99 ∷ 111 ∷ 110 ∷ 102 ∷ 105 ∷ 114 ∷ 109 ∷ 97 ∷ 116 ∷ 105 ∷ 111 ∷ 110 ∷ 32 ∷ 116 ∷ 111 ∷ 107 ∷ 101
    ∷ 110 ∷ []

abbrev pub confirmation_message_max_len : ℕ
confirmation_message_max_len = 6144

module _ (P : Platform) where
  -- The limit that `check_size` reads.
  unfoldable pub max_size : CryptoOperation P → Option ℕ
  max_size (hmac_sign op _) = P.max_input_size op
  max_size (hmac_verify op _ _) = P.max_input_size op
  max_size (rsa_decrypt op) = P.max_input_size op
  max_size (rsa_sign op) = P.max_input_size op
  max_size (ec_agree op) = P.max_input_size op
  max_size (ec_sign op) = P.max_input_size op
  max_size _ = none

  abbrev pub exceeds : ℕ → Option ℕ → Bool
  exceeds size none = false
  exceeds size (some limit) = ltb limit size

  -- `usize` has 64 bits, and the sum is checked.
  unfoldable pub check_size : Operation P → ℕ → Result (Operation P)
  unfolding max_size
  check_size op len = do
    panic_unless (ltb (op.input_size + len) 18446744073709551616)
    fail_if (exceeds (op.input_size + len) (max_size op.crypto_op))
        (hal ErrorCode.invalid_input_length)
    ok (record op { input_size = op.input_size + len })

  -- Data to be signed under a trusted confirmation is accumulated, up to a limit.
  unfoldable pub accumulate : Option (List ℕ) → List ℕ → Result (Option (List ℕ))
  accumulate none input = ok none
  accumulate (some conf) input = do
    fail_if
        (ltb (length confirmation_data_prefix + confirmation_message_max_len)
          (length conf + length input))
        (hal ErrorCode.invalid_argument)
    ok (some (conf ++ input))

  abbrev silent :
      {A : Type 0} → (A → CryptoOperation P) → Result A → Result (List ℕ × CryptoOperation P)
  silent variant = map_ok (λ op. ([], variant op))

  abbrev emits :
      {A : Type 0}
      → (A → CryptoOperation P)
      → Result (List ℕ × A)
      → Result (List ℕ × CryptoOperation P)
  emits variant = map_ok (λ r. (r.0, variant r.1))

  -- The `match` of `op_update`.
  unfoldable pub crypto_update : CryptoOperation P → List ℕ → Result (List ℕ × CryptoOperation P)
  crypto_update (aes op) input = emits aes (P.emitting_update op input)
  crypto_update (aes_gcm op) input = emits aes_gcm (P.aad_update op input)
  crypto_update (des op) input = emits des (P.emitting_update op input)
  crypto_update (hmac_sign op n) input =
      silent (λ o. hmac_sign o n) (P.accumulating_update op input)
  crypto_update (hmac_verify op lo hi) input =
      silent (λ o. hmac_verify o lo hi) (P.accumulating_update op input)
  crypto_update (rsa_decrypt op) input = silent rsa_decrypt (P.accumulating_update op input)
  crypto_update (rsa_sign op) input = silent rsa_sign (P.accumulating_update op input)
  crypto_update (ec_agree op) input = silent ec_agree (P.accumulating_update op input)
  crypto_update (ec_sign op) input = silent ec_sign (P.accumulating_update op input)

  -- The closure of `op_update_aad`.
  unfoldable pub update_aad : List ℕ → Operation P → Result (Unit {0} × Operation P)
  update_aad input op =
      fail_if (not op.aad_allowed) (hal ErrorCode.invalid_tag) >> elim op.crypto_op [
        | aes_gcm o ↦
            map_ok (λ o'. (tt, record op { crypto_op = aes_gcm o' })) (P.aad_update_aad o input)
        | _ ↦ err (hal ErrorCode.invalid_operation)
      ]

  -- The closure of `op_update`.
  unfoldable pub update : Bool → Bool → List ℕ → Operation P → Result (List ℕ × Operation P)
  unfolding check_size
  update check_presence tup_available input op = do
    fail_if (check_presence && not tup_available) (hal ErrorCode.proof_of_presence_required)
    conf ← accumulate op.trusted_conf_data input
    sized ← check_size (record op { trusted_conf_data = conf; aad_allowed = false }) (length input)
    (output, next) ← crypto_update sized.crypto_op input
    ok (output, record sized { crypto_op = next })

  -- `if let Some(data) = data { op.update(data)? }`, then `finish()`.
  emitting_end : P.Emitting → Option (List ℕ) → Result (List ℕ)
  emitting_end op none = P.emitting_finish op
  emitting_end op (some input) = do
    (output, next) ← P.emitting_update op input
    last ← P.emitting_finish next
    ok (output ++ last)

  aad_end : P.Aad → Option (List ℕ) → Result (List ℕ)
  aad_end op none = P.aad_finish op
  aad_end op (some input) = do
    (output, next) ← P.aad_update op input
    last ← P.aad_finish next
    ok (output ++ last)

  unfoldable pub accumulating_end : P.Accumulating → Option (List ℕ) → Result (List ℕ)
  accumulating_end op none = P.accumulating_finish op
  accumulating_end op (some input) = P.accumulating_update op input >>= P.accumulating_finish

  -- The arm of `CryptoOperation::HmacVerify`. `got[..sig.len()]` panics past the end of `got`.
  unfoldable pub verify_end :
      P.Accumulating → ℕ → ℕ → Option (List ℕ) → Option (List ℕ) → Result (List ℕ)
  unfolding accumulating_end
  verify_end op lo hi input signature = do
    sig ← ok_or (hal ErrorCode.invalid_argument) signature
    fail_if (not (leb lo (length sig) && ltb (length sig) hi)) (hal ErrorCode.invalid_argument)
    got ← accumulating_end op input
    panic_unless (leb (length sig) (length got))
    if P.eq (take (length sig) got) sig then ok [] else err (hal ErrorCode.verification_failed)

  -- The `match` of `op_finish`.
  unfoldable pub crypto_finish :
      CryptoOperation P → Option (List ℕ) → Option (List ℕ) → Result (List ℕ)
  unfolding emitting_end aad_end accumulating_end verify_end
  crypto_finish (aes op) input signature = emitting_end op input
  crypto_finish (aes_gcm op) input signature = aad_end op input
  crypto_finish (des op) input signature = emitting_end op input
  crypto_finish (hmac_sign op tag_len) input signature =
      map_ok (take tag_len) (accumulating_end op input)
  crypto_finish (hmac_verify op lo hi) input signature = verify_end op lo hi input signature
  crypto_finish (rsa_decrypt op) input signature = accumulating_end op input
  crypto_finish (rsa_sign op) input signature = accumulating_end op input
  crypto_finish (ec_agree op) input signature = accumulating_end op input
  crypto_finish (ec_sign op) input signature = accumulating_end op input
