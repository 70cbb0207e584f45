-- ===== src/Ta/Versions/Current.antt =====
-- Which key blobs are current (`keyblob_parse_decrypt`, ta/src/lib.rs).
use platform_system_keymint.Common.{
  ℕ, ◌<◌, ◌≡◌, ◌↔◌, refl, ◌⊎◌, inl, inr, Option, none, some, List, [], ◌∷◌, All, ok, err, ltb, ◌==◌,
  Outcome-cases, Bool-cases, arith,
}
use platform_system_keymint.KmError.{Result, hal}
use platform_system_keymint.Wire.Errors.{ErrorCode}
use platform_system_keymint.Wire.KeyParams.{KeyParam}
use platform_system_keymint.Ta.Versions.{HalInfo, check, check_param, check_versions}

-- The version that the device has for a version of the key, as far as it is known.
abbrev pub current : Option HalInfo → Option ℕ → KeyParam → Option (ℕ × ℕ)
current (some info) boot_patchlevel (KeyParam.os_version v) = some (v, info.os_version)
current (some info) boot_patchlevel (KeyParam.os_patchlevel v) = some (v, info.os_patchlevel)
current (some info) boot_patchlevel (KeyParam.vendor_patchlevel v) =
    some (v, info.vendor_patchlevel)
current hal_info (some level) (KeyParam.boot_patchlevel v) = some (v, level)
current hal_info boot_patchlevel p = none

abbrev pub Agrees : Option (ℕ × ℕ) → Type 0
Agrees none = Unit {0}
Agrees (some (v, curr)) = v ≡ curr

abbrev Verdict : Option (ℕ × ℕ) → Result (Unit {0}) → Type 0
Verdict none r = r ≡ ok tt
Verdict (some (v, curr)) r =
    ((v ≡ curr) × (r ≡ ok tt))
    ⊎ ((r ≡ err (hal ErrorCode.key_requires_upgrade)) × ((v < curr) ⊎ ((curr ≡ 0) × (0 < v))))
    ⊎ ((r ≡ err (hal ErrorCode.invalid_key_blob)) × (curr < v))

check-Verdict : (v curr : ℕ) → Verdict (some (v, curr)) (check v curr)
unfolding check
check-Verdict v curr = elim (Bool-cases (ltb v curr)) [
  | inl older ↦ ground (arith)
  | inr f ↦ elim (Bool-cases (v == curr)) [ inl same ↦ ground (arith) | inr g ↦ ground (arith) ]
]

param-Verdict :
    (hal_info : Option HalInfo) (level : Option ℕ) (p : KeyParam)
    → Verdict (current hal_info level p) (check_param hal_info level p)
unfolding check_param
param-Verdict (some info) level (KeyParam.os_version v) = elim (Bool-cases (info.os_version == 0)) [
  | inl none_yet ↦ elim (Bool-cases (v == 0)) [ inl t ↦ ground (arith) | inr f ↦ ground (arith) ]
  | inr f ↦ ground (arith, check-Verdict v info.os_version)
]
param-Verdict (some info) level (KeyParam.os_patchlevel v) = check-Verdict v info.os_patchlevel
param-Verdict (some info) level (KeyParam.vendor_patchlevel v) =
    check-Verdict v info.vendor_patchlevel
param-Verdict (some info) (some l) (KeyParam.boot_patchlevel v) = check-Verdict v l
param-Verdict none (some l) (KeyParam.boot_patchlevel v) = check-Verdict v l
param-Verdict (some info) none (KeyParam.boot_patchlevel v) = refl
param-Verdict none none (KeyParam.boot_patchlevel v) = refl
param-Verdict none level (KeyParam.os_version v) = refl
param-Verdict none level (KeyParam.os_patchlevel v) = refl
param-Verdict none level (KeyParam.vendor_patchlevel v) = refl
param-Verdict hal_info level _ = refl

abbrev Current : Option HalInfo → Option ℕ → KeyParam → Type 0
Current hal_info level p = Agrees (current hal_info level p)

Verdict-Agrees : (c : Option (ℕ × ℕ)) (r : Result (Unit {0})) → Verdict c r → (r ≡ ok tt) ↔ Agrees c
Verdict-Agrees none r h = (λ e. tt, λ a. h)
Verdict-Agrees (some (v, curr)) r (inl (same, e)) = (λ k. same, λ a. e)
Verdict-Agrees (some (v, curr)) r (inr (inl (e, older))) =
    (λ k. cc, λ a. absurd (elim older [ inl l ↦ omega arith | inr (z, l) ↦ omega arith ]))
Verdict-Agrees (some (v, curr)) r (inr (inr (e, newer))) = (λ k. cc, λ a. absurd (omega arith))

param-Current :
    (hal_info : Option HalInfo) (level : Option ℕ) (p : KeyParam)
    → (check_param hal_info level p ≡ ok tt) ↔ Current hal_info level p
param-Current hal_info level p =
    Verdict-Agrees (current hal_info level p) (check_param hal_info level p)
      (param-Verdict hal_info level p)

passed :
    (hal_info : Option HalInfo) (level : Option ℕ) (p : KeyParam) (ps : List KeyParam)
    → check_versions hal_info level (p ∷ ps) ≡ ok tt
    → check_param hal_info level p ≡ ok tt
unfolding check_versions
passed hal_info level p ps e = elim (Outcome-cases (check_param hal_info level p)) [
  | inl (u, q) ↦ q
  | inr (inl (x, q)) ↦ ground (arith)
  | inr (inr q) ↦ ground (arith)
]

-- A key blob passes exactly when every version among its characteristics that the device knows is
-- the device's own: the OS version and patch level, and those of the vendor and of the boot image.
pub check_versions-All :
    (hal_info : Option HalInfo) (level : Option ℕ) (ps : List KeyParam)
    → (check_versions hal_info level ps ≡ ok tt) ↔ All (λ p. Agrees (current hal_info level p)) ps
unfolding check_versions
check_versions-All hal_info level [] = (λ e. tt, λ a. refl)
check_versions-All hal_info level (p ∷ ps) =
    let one = param-Current hal_info level p in
    let rest = check_versions-All hal_info level ps in
    elim (Outcome-cases (check_param hal_info level p)) [
      | inl (u, q) ↦ (
        λ e. (one.0 (ground (arith)), rest.0 (ground (arith))),
        λ a. rw (one.1 a.0, check_versions) (rest.1 a.1),
      )
      | inr (inl (x, q)) ↦
          (λ e. absurd (cc (q, passed hal_info level p ps e)), λ a. absurd (cc (q, one.1 a.0)))
      | inr (inr q) ↦
          (λ e. absurd (cc (q, passed hal_info level p ps e)), λ a. absurd (cc (q, one.1 a.0)))
    ]
