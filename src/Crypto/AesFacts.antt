-- ===== src/Crypto/AesFacts.antt =====
-- What the begin checks of AES find, and the tag lengths and nonces that have a mode
-- (common/src/tag.rs, common/src/crypto/aes.rs).
use platform_system_keymint.Common.{
  ℕ, zero, suc, ◌/◌, ◌%◌, ◌≤◌, ◌≡◌, refl, ap, true, false, Option, none, some, List, length, ok,
  ◌⊎◌, inl, inr, arith, Bool-cases, Outcome-cases, if◌then◌else◌, ◌==◌,
}
use platform_system_keymint.KmError.{Result}
use platform_system_keymint.Wire.Errors.{ErrorCode}
use platform_system_keymint.Wire.Params.{BlockMode, block_mode_eq, block_mode_eq_refl}
use platform_system_keymint.Wire.Modes.{PaddingMode}
use platform_system_keymint.Wire.KeyParams.{KeyParam}
use platform_system_keymint.Tag.Params.{get_tag_value, get_block_mode, get_padding_mode}
use platform_system_keymint.Tag.Params.Select.{as_block_mode, as_min_mac_length, as_mac_length}
use platform_system_keymint.Tag.Params.Single.{values}
use platform_system_keymint.Tag.Params.Contained.{Among, Among-contains_tag_value}
use platform_system_keymint.Tag.Generate.{check_aes_params, mac_length_valid}
use platform_system_keymint.Tag.Begin.Ciphers.{
  BeginParamsToCheck, check_begin_aes_params, check_gcm_mac, check_min_mac, aes_padding_valid,
  aes_nonce_valid,
}
use platform_system_keymint.Crypto.Modes.{GcmMode, fill_bytes, nonce, nonce_array, gcm_mode}

-- The function returns a value.
abbrev pub Succeeds : {A : Type 0} → Result A → Type 0
Succeeds {A} m = (a : A) × (m ≡ ok a)

length-fill_bytes : (n : ℕ) (rng : ℕ → ℕ) → length (fill_bytes n rng) ≡ n
unfolding fill_bytes
length-fill_bytes zero rng = refl
length-fill_bytes (suc n) rng = ap suc (length-fill_bytes n (λ i. rng (suc i)))

-- A new nonce, or one of the right length, is an array of that length.
pub nonce_array-new : (n : ℕ) (rng : ℕ → ℕ) → nonce_array n none rng ≡ ok (fill_bytes n rng)
unfolding nonce_array nonce
nonce_array-new n rng = ground (arith, length-fill_bytes n rng)

pub nonce_array-given :
    (n : ℕ) (v : List ℕ) (rng : ℕ → ℕ) → length v ≡ n → nonce_array n (some v) rng ≡ ok v
unfolding nonce_array nonce
nonce_array-given n v rng h = ground arith

-- The tag lengths that a key for GCM may have are those that have a mode.
pub gcm_mode-Succeeds :
    (m : ℕ) (n : List ℕ) → 96 ≤ m → m ≤ 128 → m % 8 ≡ 0 → Succeeds (gcm_mode (m / 8) n)
unfolding gcm_mode
gcm_mode-Succeeds m n h k d = elim (Bool-cases (m / 8 == 12)) [
  | inl e ↦ (GcmMode.gcm_tag12 n, ground arith)
  | inr e ↦ elim (Bool-cases (m / 8 == 13)) [
    | inl f ↦ (GcmMode.gcm_tag13 n, ground arith)
    | inr f ↦ elim (Bool-cases (m / 8 == 14)) [
      | inl g ↦ (GcmMode.gcm_tag14 n, ground arith)
      | inr g ↦ elim (Bool-cases (m / 8 == 15)) [
        | inl i ↦ (GcmMode.gcm_tag15 n, ground arith)
        | inr i ↦ (GcmMode.gcm_tag16 n, ground arith)
      ]
    ]
  ]
]

-- What the begin check of AES has found.
pub aes_facts :
    (chars params : List KeyParam) (given : Option (List ℕ)) (check : BeginParamsToCheck)
    → check_begin_aes_params chars params given ≡ ok check
    → (bmode : BlockMode) × (padding : PaddingMode) × (get_block_mode params ≡ ok bmode)
      × (get_padding_mode params ≡ ok padding)
      × (aes_padding_valid bmode padding ≡ true)
      × (aes_nonce_valid bmode given ≡ true)
      × ((block_mode_eq bmode BlockMode.gcm ≡ false) ⊎ (check_gcm_mac chars params ≡ ok tt))
unfolding check_begin_aes_params
aes_facts chars params given check h = elim (Outcome-cases (get_block_mode params)) [
  | inl (bmode, e) ↦ elim (Outcome-cases (get_padding_mode params)) [
    | inl (padding, f) ↦
        (bmode, padding, e, f, ground arith, ground arith, gcm_part bmode (ground arith))
    | inr (inl (x, f)) ↦ absurd (ground arith)
    | inr (inr f) ↦ absurd (ground arith)
  ]
  | inr (inl (x, e)) ↦ absurd (ground arith)
  | inr (inr e) ↦ absurd (ground arith)
]
  where
    gcm_part :
        (bmode : BlockMode)
        → (if block_mode_eq bmode BlockMode.gcm then check_gcm_mac chars params else ok tt) ≡ ok tt
        → (block_mode_eq bmode BlockMode.gcm ≡ false) ⊎ (check_gcm_mac chars params ≡ ok tt)
    gcm_part bmode e = elim (Bool-cases (block_mode_eq bmode BlockMode.gcm)) [
      | inl t ↦ inr (ground arith)
      | inr f ↦ inl f
    ]

-- What the check of the tag length has found.
pub gcm_facts :
    (chars params : List KeyParam)
    → check_gcm_mac chars params ≡ ok tt
    → (m : ℕ) × (least : ℕ) × (get_tag_value as_mac_length params ErrorCode.missing_mac_length
        ≡ ok m)
      × (get_tag_value as_min_mac_length chars ErrorCode.missing_min_mac_length ≡ ok least)
      × (m % 8 ≡ 0)
      × (m ≤ 128)
      × (least ≤ m)
unfolding check_gcm_mac check_min_mac
gcm_facts chars params h =
    elim (Outcome-cases (get_tag_value as_mac_length params ErrorCode.missing_mac_length)) [
      | inl (m, e) ↦
          elim (Outcome-cases
            (get_tag_value as_min_mac_length chars ErrorCode.missing_min_mac_length)) [
              | inl (least, f) ↦ (m, least, e, f, ground arith, ground arith, ground arith)
              | inr (inl (x, f)) ↦ absurd (ground arith)
              | inr (inr f) ↦ absurd (ground arith)
            ]
      | inr (inl (x, e)) ↦ absurd (ground arith)
      | inr (inr e) ↦ absurd (ground arith)
    ]

-- A key that passes the check of AES parameters and lists GCM has a tag of 96 bits at least.
pub least_gcm_mac :
    (chars : List KeyParam) (least : ℕ)
    → check_aes_params chars ≡ ok tt
    → Among BlockMode.gcm (values as_block_mode chars)
    → get_tag_value as_min_mac_length chars ErrorCode.missing_min_mac_length ≡ ok least
    → 96 ≤ least
unfolding check_aes_params mac_length_valid
least_gcm_mac chars least h listed e =
    let found =
      Among-contains_tag_value as_block_mode block_mode_eq block_mode_eq_refl chars BlockMode.gcm
        listed in
    ground arith
