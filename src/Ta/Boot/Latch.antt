-- ===== src/Ta/Boot/Latch.antt =====
-- What is set at the start stays (ta/src/lib.rs).
use platform_system_keymint.Common.{
  ℕ, ◌≡◌, ◌↔◌, refl, sym, ap, Bool, true, false, ◌&&◌, inl, inr, Option, some, List, [], ◌∷◌, ok,
  ==→eq, ==_refl, Bool-cases, arith,
}
use platform_system_keymint.Common.Bytes.{bytes_eq_refl, bytes_eq→eq}
use platform_system_keymint.Wire.Tokens.{verified_boot_state_eq→eq, verified_boot_state_eq_refl}
use platform_system_keymint.Ta.Versions.{HalInfo}
use platform_system_keymint.Ta.Boot.{
  BootInfo, BootState, bool_eq, boot_info_eq, set_boot_info, set_hal_info, early_boot_ended,
}

bool_eq→eq : (a b : Bool) → bool_eq a b ≡ true → a ≡ b
bool_eq→eq true b h = sym h
bool_eq→eq false true h = cc
bool_eq→eq false false h = refl

bool_eq_refl : (a : Bool) → bool_eq a a ≡ true
bool_eq_refl true = refl
bool_eq_refl false = refl

both : (a b : Bool) → (a && b) ≡ true → (a ≡ true) × (b ≡ true)
both true b h = (refl, h)
both false b h = cc

boot_info_eq→eq : (a b : BootInfo) → boot_info_eq a b ≡ true → a ≡ b
unfolding boot_info_eq
boot_info_eq→eq a b h =
    let (h1, h2) = both _ _ h in
    let (h3, h4) = both _ _ h2 in
    let (h5, h6) = both _ _ h4 in
    let (h7, h8) = both _ _ h6 in
    cc (
      bytes_eq→eq a.verified_boot_key b.verified_boot_key h1,
      bool_eq→eq a.device_boot_locked b.device_boot_locked h3,
      verified_boot_state_eq→eq a.verified_boot_state b.verified_boot_state h5,
      bytes_eq→eq a.verified_boot_hash b.verified_boot_hash h7,
      ==→eq a.boot_patchlevel b.boot_patchlevel h8,
    )

boot_info_eq_refl : (a : BootInfo) → boot_info_eq a a ≡ true
unfolding boot_info_eq
boot_info_eq_refl a = cc (
  bytes_eq_refl a.verified_boot_key,
  bool_eq_refl a.device_boot_locked,
  verified_boot_state_eq_refl a.verified_boot_state,
  bytes_eq_refl a.verified_boot_hash,
  ==_refl a.boot_patchlevel,
)

-- Once the boot information is set, `set_boot_info` never changes the state, and it succeeds exactly
-- for the same information during early boot.
pub set_boot_info-latched :
    (encode : BootInfo → Option (List ℕ)) (b info : BootInfo) (s : BootState)
    → s.boot_info ≡ some b
    → ((set_boot_info encode info s).1 ≡ s)
      × (((set_boot_info encode info s).0 ≡ ok tt) ↔ ((s.in_early_boot ≡ true) × (b ≡ info)))
unfolding set_boot_info
set_boot_info-latched encode b info s q = elim (Bool-cases s.in_early_boot) [
  | inr late ↦ (ground (arith), (λ e. ground (arith), λ h. ground (arith)))
  | inl early ↦ elim (Bool-cases (boot_info_eq b info)) [
    | inl t ↦ (ground (arith), (λ e. (early, boot_info_eq→eq b info t), λ h. ground (arith)))
    | inr f ↦ (
      ground (arith),
      (λ e. ground (arith), λ h. absurd (cc (f, ap (boot_info_eq b) h.1, boot_info_eq_refl b))),
    )
  ]
]

pub data Call : Type 0 where
  set_boot : BootInfo → Call
  set_hal : HalInfo → Call
  end_boot : Call

module _ (encode : BootInfo → Option (List ℕ)) where
  abbrev pub step : Call → BootState → BootState
  step (set_boot info) s = (set_boot_info encode info s).1
  step (set_hal info) s = set_hal_info info s
  step end_boot s = early_boot_ended s

  -- The state after some calls.
  abbrev pub run : List Call → BootState → BootState
  run [] s = s
  run (call ∷ calls) s = run calls (step call s)

  pub record Kept (s s' : BootState) : Type 0 where
    pub boot :
        (b : BootInfo) → s.boot_info ≡ some b → (s'.boot_info ≡ some b) × (s'.rot_data ≡ s.rot_data)
    pub hal : (h : HalInfo) → s.hal_info ≡ some h → s'.hal_info ≡ some h
    pub late : s.in_early_boot ≡ false → (s'.in_early_boot ≡ false) × (s'.boot_info ≡ s.boot_info)
