-- ===== src/Tests/Storage.antt =====
-- Stored secrets and serialized parameters.
use platform_system_keymint.Common.{
  ℕ, ◌<◌, ◌≤◌, ◌≡◌, ◌↔◌, refl, none, some, List, [], ◌∷◌, ◌++◌, length, All, ok, err, panic, arith,
}
use platform_system_keymint.Common.Bytes.{little, to_ne_bytes, le_bytes}
use platform_system_keymint.KmError.{hal}
use platform_system_keymint.Wire.Errors.{ErrorCode}
use platform_system_keymint.Wire.KeyParams.{KeyParam, Fits}
use platform_system_keymint.Tag.Legacy.Consume.{consume_u32}
use platform_system_keymint.Tag.Legacy.Serialize.{serialize}
use platform_system_keymint.Tag.Legacy.Deserialize.{deserialize}
use platform_system_keymint.Tag.Legacy.Layout.{payload}
use platform_system_keymint.Tag.Legacy.Format.{IsStorable, layout, serialize-layout}
use platform_system_keymint.Tag.Legacy.RoundTrip.{deserialize-serialize}
use platform_system_keymint.Tag.Legacy.Panics.{deserialize-panic_iff}
use platform_system_keymint.Keyblob.SddMem.{
  SecureDeletionData, InMemorySlotManager, empty_manager, get_factory_reset_secret,
  get_or_create_factory_reset_secret, free_slot, new_secret, get_secret, delete_secret,
}
use platform_system_keymint.Keyblob.SddMem.Laws.{
  Stored, new_secret-Stored, delete_secret-Stored, delete_secret-panic_iff,
}

abbrev params : List KeyParam
params =
    KeyParam.key_size 256 ∷ KeyParam.application_id (1 ∷ 2 ∷ []) ∷ KeyParam.no_auth_required ∷ []

params-Fits : All Fits params
params-Fits = (omega arith, (omega arith, (tt, tt)))

params-IsStorable : IsStorable little params
unfolding payload to_ne_bytes le_bytes
params-IsStorable = record {
  blobs_fit = omega arith;
  count_fits = omega arith;
  entries_fit = omega arith;
}

deserialize-serialize_example :
    (written : List ℕ) × (serialize little params ≡ ok written)
    × (deserialize little (written ++ (9 ∷ [])) ≡ ok (params, 9 ∷ []))
deserialize-serialize_example =
    deserialize-serialize little params (9 ∷ []) params-Fits params-IsStorable

serialize-layout_example : serialize little params ≡ ok (layout little params)
serialize-layout_example = serialize-layout little params params-IsStorable

deserialize-panic_iff_example : (deserialize little (5 ∷ 0 ∷ 0 ∷ 0 ∷ 1 ∷ []) ≡ panic) ↔ (
    (size : ℕ) × (rest : List ℕ) × (consume_u32 little (5 ∷ 0 ∷ 0 ∷ 0 ∷ 1 ∷ []) ≡ ok (size, rest))
    × (length rest < size))
deserialize-panic_iff_example = deserialize-panic_iff little (5 ∷ 0 ∷ 0 ∷ 0 ∷ 1 ∷ [])

abbrev secret : SecureDeletionData
secret = record { factory_reset_secret = 4 ∷ []; secure_deletion_secret = 8 ∷ [] }

abbrev used : InMemorySlotManager
used = record { factory_secret = some (4 ∷ []); slots = some secret ∷ none ∷ [] }

made : (new_secret (4 ∷ []) (8 ∷ []) (empty_manager 2)).0 ≡ ok (0, secret)
unfolding new_secret free_slot get_or_create_factory_reset_secret get_factory_reset_secret
made = refl

new_secret-Stored_example :
    (get_secret (empty_manager 2) 0 ≡ err (hal ErrorCode.invalid_key_blob))
    × (secret.secure_deletion_secret ≡ 8 ∷ [])
    × Stored 0 (ok secret) (empty_manager 2) (new_secret (4 ∷ []) (8 ∷ []) (empty_manager 2)).1
new_secret-Stored_example =
    new_secret-Stored (4 ∷ []) (8 ∷ []) (empty_manager 2) 0 secret (omega arith) made

held : get_secret used 0 ≡ ok secret
unfolding get_secret
held = refl

delete_secret-Stored_example :
    ((delete_secret 0 used).0 ≡ ok tt)
    × Stored 0 (err (hal ErrorCode.invalid_key_blob)) used (delete_secret 0 used).1
delete_secret-Stored_example = delete_secret-Stored used 0 secret held

delete_secret-panic_iff_example :
    ((delete_secret 2 used).0 ≡ panic)
    ↔ ((length used.slots ≤ 2) × (get_secret used 2 ≡ err (hal ErrorCode.invalid_key_blob)))
delete_secret-panic_iff_example = delete_secret-panic_iff used 2
