-- ===== src/Tag/Characteristics/Distinct.antt =====
-- Which parameter lists are key characteristics (common/src/tag.rs): the mask of the tags that were
-- seen finds the repeated ones.
use Prim.Native.Nat.{bit_and, bit_or}
use mathlib.Core.Path.{subst}
use native.Mathlib.Nat.{one-le-pow}
use platform_system_keymint.Common.{
  ℕ, suc, zero, ◌*◌, ◌<◌, ◌^◌, ◌≡◌, refl, sym, ap, ◌∙◌, Bool, true, false, ◌&&◌, not, some, List,
  [], ◌∷◌, get_elem?, ok, fail_if, ◌>>=◌, ◌>>◌, ◌⊎◌, inl, inr, ◌↔◌, ◌≢◌, All, ◌==◌, arith,
  Bool-cases, >>=-eq-ok, ==→eq,
}
use platform_system_keymint.Common.Bits.{bit, and-power, or-power_self, or-power_ne, bit_zero}
use platform_system_keymint.KmError.{Result, Error, hal}
use platform_system_keymint.Wire.Errors.{ErrorCode}
use platform_system_keymint.Wire.Tags.{Tag, tag_eq, tag_eq→eq, tag_eq_refl}
use platform_system_keymint.Wire.KeyParams.{KeyParam, tag}
use platform_system_keymint.Tag.Info.{info, add, multivalued}
use platform_system_keymint.Tag.Info.Kinds.{Info}
use platform_system_keymint.Tag.Info.Table.{info_table}
use platform_system_keymint.Tag.Info.Facts.{Describes, info-Describes}
use platform_system_keymint.Tag.Characteristics.{
  characteristics_valid, valid_from, is_not_characteristic,
}

-- A tag that the table knows as a key characteristic.
abbrev pub IsCharacteristic : KeyParam → Type 0
IsCharacteristic p =
    (i : Info) × (info (tag p) ≡ ok i) × (is_not_characteristic i.characteristic ≡ false)

-- Two parameters may stand in one list: their tags differ, or may be repeated.
abbrev pub Apart : KeyParam → KeyParam → Type 0
Apart p q = (tag_eq (tag p) (tag q) ≡ false) ⊎ (multivalued (tag q) ≡ true)

abbrev pub NoRepeats : List KeyParam → Type 0
NoRepeats [] = Unit {0}
NoRepeats (p ∷ ps) = All (Apart p) ps × NoRepeats ps

-- A tag of the table at a place in it.
place : (t : Tag) (i : Info) → info t ≡ ok i → get_elem? info_table i.bit_index ≡ some (t, i)
place t i e = (subst (λ r. Describes t r) e (info-Describes t)).0

-- Different tags have different bits.
bits_ne :
    (t u : Tag) (i j : Info)
    → info t ≡ ok i
    → info u ≡ ok j
    → tag_eq t u ≡ false
    → i.bit_index ≢ j.bit_index
bits_ne t u i j e f ne same =
    cc (place t i e, place u j f, ap (get_elem? info_table) same, tag_eq_refl t, ne)

-- The test of the mask is a test of the bit.
masked : (seen i : ℕ) → (bit_and seen (2 ^ i) == 0) ≡ (bit seen i == 0)
masked seen i = rw (and-power seen i) (scaled (bit seen i) (2 ^ i) (one-le-pow i 2 (omega arith)))
  where
    scaled : (b n : ℕ) → 0 < n → (b * n == 0) ≡ (b == 0)
    scaled zero n h = ground arith
    scaled (suc b) n h = ground arith

-- A tag may be added to the ones that were seen.
abbrev Unseen : ℕ → Tag → Info → Type 0
Unseen seen t i = (multivalued t ≡ true) ⊎ (bit seen i.bit_index ≡ 0)

guarded :
    {A : Type 0} (m z : Bool) (x now : A) (e : Error)
    → (fail_if (not m && not z) e >> ok x) ≡ ok now
    → (now ≡ x) × ((m ≡ true) ⊎ (z ≡ true))
guarded true z x now e h = (cc, inl refl)
guarded false true x now e h = (cc, inr refl)
guarded false false x now e h = cc

unseen :
    (seen : ℕ) (t : Tag) (i : Info)
    → (multivalued t ≡ true) ⊎ ((bit_and seen (2 ^ i.bit_index) == 0) ≡ true)
    → Unseen seen t i
unseen seen t i (inl m) = inl m
unseen seen t i (inr z) = inr (==→eq (bit seen i.bit_index) 0 (sym (masked seen i.bit_index) ∙ z))

pub add-eq-ok :
    (seen : ℕ) (t : Tag) (seen_now : ℕ)
    → add seen t ≡ ok seen_now
    → (i : Info) × (info t ≡ ok i) × (seen_now ≡ bit_or seen (2 ^ i.bit_index)) × Unseen seen t i
unfolding add
add-eq-ok seen t seen_now h =
    let found =
      >>=-eq-ok (info t)
        (λ known.
          fail_if (not (multivalued t) && not (bit_and seen (2 ^ known.bit_index) == 0))
            (hal ErrorCode.invalid_key_blob)
          >> ok (bit_or seen (2 ^ known.bit_index)))
        h in
    let checked =
      guarded (multivalued t) (bit_and seen (2 ^ found.0.bit_index) == 0)
        (bit_or seen (2 ^ found.0.bit_index)) seen_now (hal ErrorCode.invalid_key_blob) found.2 in
    (found.0, found.1, checked.0, unseen seen t found.0 checked.1)

pub add-ok :
    (seen : ℕ) (t : Tag) (i : Info)
    → info t ≡ ok i
    → Unseen seen t i
    → add seen t ≡ ok (bit_or seen (2 ^ i.bit_index))
unfolding add
add-ok seen t i e (inl m) = rw (e, add, m) refl
add-ok seen t i e (inr z) =
    let zero_bit : (bit_and seen (2 ^ i.bit_index) == 0) ≡ true =
      masked seen i.bit_index ∙ rw z refl in
    ground (arith, e, zero_bit)

-- The tag of a parameter is known, and may be added to the ones that were seen.
abbrev Fresh : ℕ → KeyParam → Type 0
Fresh seen p = (i : Info) × (info (tag p) ≡ ok i) × Unseen seen (tag p) i

-- What may be added after `t` is what may be added before, apart from `t`.
Unseen-before :
    (seen : ℕ) (t u : Tag) (i j : Info)
    → info t ≡ ok i
    → info u ≡ ok j
    → Unseen (bit_or seen (2 ^ i.bit_index)) u j
    → Unseen seen u j × ((tag_eq t u ≡ false) ⊎ (multivalued u ≡ true))
Unseen-before seen t u i j e f (inl m) = (inl m, inr m)
Unseen-before seen t u i j e f (inr z) = elim (Bool-cases (tag_eq t u)) [
  | inl same ↦ absurd (set_bit (tag_eq→eq t u same))
  | inr ne ↦
      (inr (sym (or-power_ne seen i.bit_index j.bit_index (bits_ne t u i j e f ne)) ∙ z), inl ne)
]
  where
    set_bit : t ≡ u → ⊥
    set_bit same =
        let infos : i ≡ j = cc (e, f, ap info same) in
        let one : bit (bit_or seen (2 ^ i.bit_index)) j.bit_index ≡ 1 =
          subst (λ k. bit (bit_or seen (2 ^ i.bit_index)) k.bit_index ≡ 1) infos
            (or-power_self seen i.bit_index) in
        ground (arith, sym one ∙ z)

Unseen-after :
    (seen : ℕ) (t u : Tag) (i j : Info)
    → info t ≡ ok i
    → info u ≡ ok j
    → Unseen seen u j
    → (tag_eq t u ≡ false) ⊎ (multivalued u ≡ true)
    → Unseen (bit_or seen (2 ^ i.bit_index)) u j
Unseen-after seen t u i j e f (inl m) apart = inl m
Unseen-after seen t u i j e f (inr z) (inr m) = inl m
Unseen-after seen t u i j e f (inr z) (inl ne) =
    inr (or-power_ne seen i.bit_index j.bit_index (bits_ne t u i j e f ne) ∙ z)

All-before :
    (seen : ℕ) (p : KeyParam) (i : Info) (ps : List KeyParam)
    → info (tag p) ≡ ok i
    → All (Fresh (bit_or seen (2 ^ i.bit_index))) ps
    → All (Fresh seen) ps × All (Apart p) ps
All-before seen p i [] e fresh = (tt, tt)
All-before seen p i (q ∷ ps) e ((j, f, u), fresh) =
    let here = Unseen-before seen (tag p) (tag q) i j e f u in
    let there = All-before seen p i ps e fresh in (((j, f, here.0), there.0), (here.1, there.1))

All-after :
    (seen : ℕ) (p : KeyParam) (i : Info) (ps : List KeyParam)
    → info (tag p) ≡ ok i
    → All (Fresh seen) ps
    → All (Apart p) ps
    → All (Fresh (bit_or seen (2 ^ i.bit_index))) ps
All-after seen p i [] e fresh apart = tt
All-after seen p i (q ∷ ps) e ((j, f, u), fresh) (a, apart) =
    ((j, f, Unseen-after seen (tag p) (tag q) i j e f u a), All-after seen p i ps e fresh apart)

characteristic_test :
    (c : Bool) (rest : Result (Unit {0}))
    → (fail_if c (hal ErrorCode.invalid_key_blob) >> rest) ≡ ok tt
    → (c ≡ false) × (rest ≡ ok tt)
characteristic_test true rest h = cc
characteristic_test false rest h = (refl, h)

valid_from_sound :
    (seen : ℕ) (ps : List KeyParam)
    → valid_from seen ps ≡ ok tt
    → All (Fresh seen) ps × All IsCharacteristic ps × NoRepeats ps
unfolding valid_from
valid_from_sound seen [] h = (tt, tt, tt)
valid_from_sound seen (p ∷ ps) h =
    let added =
      >>=-eq-ok (add seen (tag p))
        (λ now. info (tag p) >>= λ k.
          fail_if (is_not_characteristic k.characteristic) (hal ErrorCode.invalid_key_blob)
          >> valid_from now ps)
        h in
    let known =
      >>=-eq-ok (info (tag p))
        (λ k.
          fail_if (is_not_characteristic k.characteristic) (hal ErrorCode.invalid_key_blob)
          >> valid_from added.0 ps)
        added.2 in
    let tested =
      characteristic_test (is_not_characteristic known.0.characteristic) (valid_from added.0 ps)
        known.2 in
    let unseen = add-eq-ok seen (tag p) added.0 added.1 in
    let rest = valid_from_sound added.0 ps tested.1 in
    let before =
      All-before seen p unseen.0 ps unseen.1 (subst (λ now. All (Fresh now) ps) unseen.2 rest.0) in
    (
      ((unseen.0, unseen.1, unseen.3), before.0),
      ((known.0, known.1, tested.0), rest.1),
      (before.1, rest.2),
    )

valid_from_complete :
    (seen : ℕ) (ps : List KeyParam)
    → All (Fresh seen) ps
    → All IsCharacteristic ps
    → NoRepeats ps
    → valid_from seen ps ≡ ok tt
unfolding valid_from
valid_from_complete seen [] fresh chars apart = refl
valid_from_complete seen (p ∷ ps) ((i, e, u), fresh) ((j, f, c), chars) (a, apart) =
    let rest =
      valid_from_complete (bit_or seen (2 ^ i.bit_index)) ps (All-after seen p i ps e fresh a) chars
        apart in
    rw (add-ok seen (tag p) i e u, f, c) rest

Fresh-first : (ps : List KeyParam) → All IsCharacteristic ps → All (Fresh 0) ps
Fresh-first [] chars = tt
Fresh-first (p ∷ ps) ((i, e, c), chars) = ((i, e, inr (bit_zero i.bit_index)), Fresh-first ps chars)

-- A list of parameters is accepted as key characteristics exactly when every tag in it is known as
-- a key characteristic, and a tag that stands twice is one that may have several values.
pub characteristics_valid-NoRepeats :
    (ps : List KeyParam)
    → (characteristics_valid ps ≡ ok tt) ↔ (All IsCharacteristic ps × NoRepeats ps)
unfolding characteristics_valid
characteristics_valid-NoRepeats ps = (
  λ h. let sound = valid_from_sound 0 ps h in (sound.1, sound.2),
  λ good. valid_from_complete 0 ps (Fresh-first ps good.0) good.0 good.1,
)
