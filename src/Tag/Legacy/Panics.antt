-- ===== src/Tag/Legacy/Panics.antt =====
-- When `deserialize` (common/src/tag/legacy.rs) panics: `&data[..blob_data_size]` is not guarded.
use platform_system_keymint.Common.{
  ℕ, zero, suc, ◌+◌, ◌<◌, ◌≡◌, ◌≢◌, ◌↔◌, refl, sym, ◌∙◌, Bool, true, false, inl, inr, Option, none,
  some, List, [], ◌∷◌, ◌++◌, length, take, drop, leb, ltb, ◌==◌, not, ok, err, panic, ◌>>=◌, ◌>>◌,
  ok_or, fail_if, arith, Bool-cases,
}
use platform_system_keymint.Common.Bytes.{Endian}
use platform_system_keymint.KmError.{Error, Result}
use platform_system_keymint.Wire.Tags.{Tag, tag_try_from}
use platform_system_keymint.Wire.KeyParams.{KeyParam}
use platform_system_keymint.Tag.Legacy.Consume.{
  consume_u8, consume_bool, consume_word, consume_u32, consume_i32, consume_u64, consume_i64,
  consume_blob, bad_blob,
}
use platform_system_keymint.Tag.Legacy.Deserialize.{
  read_enum, read_u32, read_u64, read_date, read_true, read_blob, consume_value, consume_param,
  consume_params, deserialize,
}

-- A chain of steps that do not panic does not panic.
>>=-ne-panic :
    {A B : Type 0} (m : Result A) (f : A → Result B)
    → m ≢ panic
    → ((a : A) → f a ≢ panic)
    → (m >>= f) ≢ panic
>>=-ne-panic (ok a) f h k = k a
>>=-ne-panic (err e) f h k = cc
>>=-ne-panic panic f h k = absurd (h refl)

fail_if-ne-panic : (b : Bool) (x : Error) → fail_if b x ≢ panic
fail_if-ne-panic true x = cc
fail_if-ne-panic false x = cc

ok_or-ne-panic : {A : Type 0} (x : Error) (o : Option A) → ok_or x o ≢ panic
ok_or-ne-panic x none = cc
ok_or-ne-panic x (some a) = cc

ok-ne-panic : {A : Type 0} (a : A) → ◌≢◌ {A = Result A} (ok a) panic
ok-ne-panic a = cc

consume_word-ne-panic : (w : ℕ) (e : Endian) (input : List ℕ) → consume_word w e input ≢ panic
unfolding consume_word
consume_word-ne-panic w e input = >>=-ne-panic _ _ (fail_if-ne-panic _ _) (λ _. ok-ne-panic _)

consume_u32-ne-panic : (e : Endian) (input : List ℕ) → consume_u32 e input ≢ panic
unfolding consume_u32
consume_u32-ne-panic = consume_word-ne-panic 4

consume_blob-ne-panic :
    (e : Endian) (input : List ℕ) (next : ℕ) (blob_data : List ℕ)
    → consume_blob e input next blob_data ≢ panic
unfolding consume_blob
consume_blob-ne-panic e input next blob_data = >>=-ne-panic _ _ (consume_u32-ne-panic e input) (λ a.
    >>=-ne-panic _ _ (consume_u32-ne-panic e a.1) (λ b.
      >>=-ne-panic _ _ (fail_if-ne-panic (not (b.0 == next)) bad_blob) (λ _.
        >>=-ne-panic _ _ (fail_if-ne-panic (ltb (length blob_data) (b.0 + a.0)) bad_blob)
          (λ _. ok-ne-panic (take a.0 (drop b.0 blob_data), b.1, next + a.0)))))

module _ (e : Endian) (input : List ℕ) (next : ℕ) (blob_data : List ℕ) where
  read_enum-ne-panic :
      {A : Type 0} (variant : A → KeyParam) (try_from : ℕ → Option A)
      → read_enum variant try_from e input next blob_data ≢ panic
  unfolding read_enum consume_i32
  read_enum-ne-panic variant try_from =
      >>=-ne-panic _ _ (consume_word-ne-panic 4 e input)
        (λ a. >>=-ne-panic _ _ (ok_or-ne-panic _ (try_from a.0)) (λ _. ok-ne-panic _))

  read_u32-ne-panic : (variant : ℕ → KeyParam) → read_u32 variant e input next blob_data ≢ panic
  unfolding read_u32 consume_u32
  read_u32-ne-panic variant =
      >>=-ne-panic _ _ (consume_word-ne-panic 4 e input) (λ _. ok-ne-panic _)

  read_u64-ne-panic : (variant : ℕ → KeyParam) → read_u64 variant e input next blob_data ≢ panic
  unfolding read_u64 consume_u64
  read_u64-ne-panic variant =
      >>=-ne-panic _ _ (consume_word-ne-panic 8 e input) (λ _. ok-ne-panic _)

  read_date-ne-panic : (variant : ℕ → KeyParam) → read_date variant e input next blob_data ≢ panic
  unfolding read_date consume_i64
  read_date-ne-panic variant =
      >>=-ne-panic _ _ (consume_word-ne-panic 8 e input) (λ _. ok-ne-panic _)

  read_true-ne-panic : (variant : KeyParam) → read_true variant e input next blob_data ≢ panic
  unfolding read_true consume_bool consume_u8
  read_true-ne-panic variant = ground (arith)

  read_blob-ne-panic :
      (variant : List ℕ → KeyParam) → read_blob variant e input next blob_data ≢ panic
  unfolding read_blob
  read_blob-ne-panic variant =
      >>=-ne-panic _ _ (consume_blob-ne-panic e input next blob_data) (λ _. ok-ne-panic _)

  consume_value-ne-panic : (t : Tag) → consume_value t e input next blob_data ≢ panic
  unfolding consume_value
  consume_value-ne-panic Tag.purpose = read_enum-ne-panic KeyParam.purpose _
  consume_value-ne-panic Tag.algorithm = read_enum-ne-panic KeyParam.algorithm _
  consume_value-ne-panic Tag.key_size = read_u32-ne-panic KeyParam.key_size
  consume_value-ne-panic Tag.block_mode = read_enum-ne-panic KeyParam.block_mode _
  consume_value-ne-panic Tag.digest = read_enum-ne-panic KeyParam.digest _
  consume_value-ne-panic Tag.padding = read_enum-ne-panic KeyParam.padding _
  consume_value-ne-panic Tag.caller_nonce = read_true-ne-panic KeyParam.caller_nonce
  consume_value-ne-panic Tag.min_mac_length = read_u32-ne-panic KeyParam.min_mac_length
  consume_value-ne-panic Tag.ec_curve = read_enum-ne-panic KeyParam.ec_curve _
  consume_value-ne-panic Tag.rsa_public_exponent = read_u64-ne-panic KeyParam.rsa_public_exponent
  consume_value-ne-panic Tag.include_unique_id = read_true-ne-panic KeyParam.include_unique_id
  consume_value-ne-panic Tag.rsa_oaep_mgf_digest = read_enum-ne-panic KeyParam.rsa_oaep_mgf_digest _
  consume_value-ne-panic Tag.bootloader_only = read_true-ne-panic KeyParam.bootloader_only
  consume_value-ne-panic Tag.rollback_resistance = read_true-ne-panic KeyParam.rollback_resistance
  consume_value-ne-panic Tag.early_boot_only = read_true-ne-panic KeyParam.early_boot_only
  consume_value-ne-panic Tag.active_datetime = read_date-ne-panic KeyParam.active_datetime
  consume_value-ne-panic Tag.origination_expire_datetime =
      read_date-ne-panic KeyParam.origination_expire_datetime
  consume_value-ne-panic Tag.usage_expire_datetime =
      read_date-ne-panic KeyParam.usage_expire_datetime
  consume_value-ne-panic Tag.max_uses_per_boot = read_u32-ne-panic KeyParam.max_uses_per_boot
  consume_value-ne-panic Tag.usage_count_limit = read_u32-ne-panic KeyParam.usage_count_limit
  consume_value-ne-panic Tag.user_id = read_u32-ne-panic KeyParam.user_id
  consume_value-ne-panic Tag.user_secure_id = read_u64-ne-panic KeyParam.user_secure_id
  consume_value-ne-panic Tag.no_auth_required = read_true-ne-panic KeyParam.no_auth_required
  consume_value-ne-panic Tag.user_auth_type = read_u32-ne-panic KeyParam.user_auth_type
  consume_value-ne-panic Tag.auth_timeout = read_u32-ne-panic KeyParam.auth_timeout
  consume_value-ne-panic Tag.allow_while_on_body = read_true-ne-panic KeyParam.allow_while_on_body
  consume_value-ne-panic Tag.trusted_user_presence_required =
      read_true-ne-panic KeyParam.trusted_user_presence_required
  consume_value-ne-panic Tag.trusted_confirmation_required =
      read_true-ne-panic KeyParam.trusted_confirmation_required
  consume_value-ne-panic Tag.unlocked_device_required =
      read_true-ne-panic KeyParam.unlocked_device_required
  consume_value-ne-panic Tag.application_id = read_blob-ne-panic KeyParam.application_id
  consume_value-ne-panic Tag.application_data = read_blob-ne-panic KeyParam.application_data
  consume_value-ne-panic Tag.creation_datetime = read_date-ne-panic KeyParam.creation_datetime
  consume_value-ne-panic Tag.origin = read_enum-ne-panic KeyParam.origin _
  consume_value-ne-panic Tag.root_of_trust = read_blob-ne-panic KeyParam.root_of_trust
  consume_value-ne-panic Tag.os_version = read_u32-ne-panic KeyParam.os_version
  consume_value-ne-panic Tag.os_patchlevel = read_u32-ne-panic KeyParam.os_patchlevel
  consume_value-ne-panic Tag.attestation_challenge =
      read_blob-ne-panic KeyParam.attestation_challenge
  consume_value-ne-panic Tag.attestation_application_id =
      read_blob-ne-panic KeyParam.attestation_application_id
  consume_value-ne-panic Tag.attestation_id_brand = read_blob-ne-panic KeyParam.attestation_id_brand
  consume_value-ne-panic Tag.attestation_id_device =
      read_blob-ne-panic KeyParam.attestation_id_device
  consume_value-ne-panic Tag.attestation_id_product =
      read_blob-ne-panic KeyParam.attestation_id_product
  consume_value-ne-panic Tag.attestation_id_serial =
      read_blob-ne-panic KeyParam.attestation_id_serial
  consume_value-ne-panic Tag.attestation_id_imei = read_blob-ne-panic KeyParam.attestation_id_imei
  consume_value-ne-panic Tag.attestation_id_second_imei =
      read_blob-ne-panic KeyParam.attestation_id_second_imei
  consume_value-ne-panic Tag.attestation_id_meid = read_blob-ne-panic KeyParam.attestation_id_meid
  consume_value-ne-panic Tag.attestation_id_manufacturer =
      read_blob-ne-panic KeyParam.attestation_id_manufacturer
  consume_value-ne-panic Tag.attestation_id_model = read_blob-ne-panic KeyParam.attestation_id_model
  consume_value-ne-panic Tag.vendor_patchlevel = read_u32-ne-panic KeyParam.vendor_patchlevel
  consume_value-ne-panic Tag.boot_patchlevel = read_u32-ne-panic KeyParam.boot_patchlevel
  consume_value-ne-panic Tag.device_unique_attestation =
      read_true-ne-panic KeyParam.device_unique_attestation
  consume_value-ne-panic Tag.storage_key = read_true-ne-panic KeyParam.storage_key
  consume_value-ne-panic Tag.nonce = read_blob-ne-panic KeyParam.nonce
  consume_value-ne-panic Tag.mac_length = read_u32-ne-panic KeyParam.mac_length
  consume_value-ne-panic Tag.reset_since_id_rotation =
      read_true-ne-panic KeyParam.reset_since_id_rotation
  consume_value-ne-panic Tag.certificate_serial = read_blob-ne-panic KeyParam.certificate_serial
  consume_value-ne-panic Tag.certificate_subject = read_blob-ne-panic KeyParam.certificate_subject
  consume_value-ne-panic Tag.certificate_not_before =
      read_date-ne-panic KeyParam.certificate_not_before
  consume_value-ne-panic Tag.certificate_not_after =
      read_date-ne-panic KeyParam.certificate_not_after
  consume_value-ne-panic Tag.max_boot_level = read_u32-ne-panic KeyParam.max_boot_level
  consume_value-ne-panic Tag.module_hash = read_blob-ne-panic KeyParam.module_hash
  consume_value-ne-panic _ = cc

consume_param-ne-panic :
    (e : Endian) (input : List ℕ) (next : ℕ) (blob_data : List ℕ)
    → consume_param e input next blob_data ≢ panic
unfolding consume_param
consume_param-ne-panic e input next blob_data =
    >>=-ne-panic _ _ (consume_u32-ne-panic e input) (λ a.
      >>=-ne-panic _ _ (ok_or-ne-panic _ (tag_try_from a.0))
        (λ t. consume_value-ne-panic e a.1 next blob_data t))

consume_params-ne-panic :
    (e : Endian) (n : ℕ) (input : List ℕ) (next : ℕ) (blob_data : List ℕ) (results : List KeyParam)
    → consume_params e n input next blob_data results ≢ panic
unfolding consume_params
consume_params-ne-panic e zero input next blob_data results = ok-ne-panic _
consume_params-ne-panic e (suc n) input next blob_data results =
    >>=-ne-panic _ _ (consume_param-ne-panic e input next blob_data)
      (λ r. consume_params-ne-panic e n r.1 r.2 blob_data (results ++ (r.0 ∷ [])))

after_blobs : Endian → ℕ → List ℕ → Result (List KeyParam × List ℕ)
after_blobs e size after_size = do
  (param_count, after_count) ← consume_u32 e (drop size after_size)
  (param_size, body) ← consume_u32 e after_count
  fail_if (ltb (length body) param_size) bad_blob
  consume_params e param_count body 0 (take size after_size) []

after_blobs-ne-panic :
    (e : Endian) (size : ℕ) (after_size : List ℕ) → after_blobs e size after_size ≢ panic
unfolding after_blobs
after_blobs-ne-panic e size after_size =
    >>=-ne-panic _ _ (consume_u32-ne-panic e (drop size after_size)) (λ a.
      >>=-ne-panic _ _ (consume_u32-ne-panic e a.1) (λ b.
        >>=-ne-panic _ _ (fail_if-ne-panic _ _)
          (λ _. consume_params-ne-panic e a.0 b.1 0 (take size after_size) [])))

deserialize_short :
    (e : Endian) (input : List ℕ) (size : ℕ) (rest : List ℕ)
    → consume_u32 e input ≡ ok (size, rest)
    → leb size (length rest) ≡ false
    → deserialize e input ≡ panic
unfolding deserialize
deserialize_short e input size rest q f = rw q (rw f)

deserialize_long :
    (e : Endian) (input : List ℕ) (size : ℕ) (rest : List ℕ)
    → consume_u32 e input ≡ ok (size, rest)
    → leb size (length rest) ≡ true
    → deserialize e input ≡ after_blobs e size rest
unfolding deserialize after_blobs
deserialize_long e input size rest q t = rw q (rw t)

deserialize_err :
    (e : Endian) (input : List ℕ) (x : Error)
    → consume_u32 e input ≡ err x
    → deserialize e input ≡ err x
unfolding deserialize
deserialize_err e input x q = rw q

abbrev ClaimsTooMuch : Endian → List ℕ → Type 0
ClaimsTooMuch e input =
    (size : ℕ) × (rest : List ℕ) × (consume_u32 e input ≡ ok (size, rest)) × (length rest < size)

claims_of_panic :
    (e : Endian) (input : List ℕ) (m : Result (ℕ × List ℕ))
    → consume_u32 e input ≡ m
    → deserialize e input ≡ panic
    → ClaimsTooMuch e input
claims_of_panic e input (ok (size, rest)) q h = elim (Bool-cases (leb size (length rest))) [
  | inl t ↦
      absurd (after_blobs-ne-panic e size rest (sym (deserialize_long e input size rest q t) ∙ h))
  | inr f ↦ (size, rest, q, ground arith)
]
claims_of_panic e input (err x) q h = cc (deserialize_err e input x q)
claims_of_panic e input panic q h = absurd (consume_u32-ne-panic e input q)

-- `deserialize` panics exactly when the input begins with a blob data size that is larger than
-- the number of bytes that follow it.
pub deserialize-panic_iff :
    (e : Endian) (input : List ℕ)
    → (deserialize e input ≡ panic) ↔ (
        (size : ℕ) × (rest : List ℕ) × (consume_u32 e input ≡ ok (size, rest))
        × (length rest < size))
deserialize-panic_iff e input = (
  claims_of_panic e input (consume_u32 e input) refl,
  λ (size, rest, q, short). deserialize_short e input size rest q (ground arith),
)
