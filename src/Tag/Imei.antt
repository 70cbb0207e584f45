-- ===== src/Tag/Imei.antt =====
-- `increment_imei` of common/src/tag.rs. Bytes that are not UTF-8 are not all digits, so the two early
-- returns of the empty vector after the first are one here.
use mathlib.Core.Path.{subst}
use platform_system_keymint.Common.{
  ℕ, zero, suc, ◌+◌, ◌-◌, ◌*◌, ◌/◌, ◌%◌, ◌≤◌, ◌<◌, ◌≡◌, inl, inr, refl, ap, ◌∙◌, false, ◌&&◌, ◌↔◌,
  Option-cases, Option, none, some, List, [], ◌∷◌, ◌++◌, ok, panic, panic_unless, ◌>>◌, ltb, leb,
  ◌==◌, if◌then◌else◌, Bool-cases, arith,
}
use platform_system_keymint.KmError.{Result}
use platform_system_keymint.Tag.Luhn.{
  luhn_checksum, PassesLuhn, luhn_checksum-PassesLuhn, luhn_checksum_lt, sum_digits,
}

-- `str::parse::<u64>` after its optional sign.
unfoldable pub parse_digits : List ℕ → ℕ → Option ℕ
parse_digits [] acc = some acc
parse_digits (b ∷ bs) acc =
    let rest = parse_digits bs (acc * 10 + (b - 48)) in
    if (leb 48 b && leb b 57) && ltb (acc * 10 + (b - 48)) 18446744073709551616 then rest else none

unfoldable pub parse_u64 : List ℕ → Option ℕ
unfolding parse_digits
parse_u64 [] = none
parse_u64 (b ∷ []) = if b == 43 then none else parse_digits (b ∷ []) 0
parse_u64 (b ∷ c ∷ bs) = if b == 43 then parse_digits (c ∷ bs) 0 else parse_digits (b ∷ c ∷ bs) 0

-- `format!("{}", n)`; a turn divides by ten, so `n` is enough fuel.
unfoldable pub format : ℕ → ℕ → List ℕ
format zero n = (48 + n % 10) ∷ []
format (suc fuel) n =
    let rest = format fuel (n / 10) in
    if ltb n 10 then (48 + n % 10) ∷ [] else rest ++ ((48 + n % 10) ∷ [])

unfoldable pub increment_imei : List ℕ → Result (List ℕ)
unfolding parse_u64 format
increment_imei imei = elim (parse_u64 imei) [
  | none ↦ ok []
  | some v ↦ do
    let imei2 = v / 10 + 1
    panic_unless (ltb (imei2 * 10) 18446744073709551616)
    panic_unless (ltb (imei2 * 10 + luhn_checksum imei2) 18446744073709551616)
    let imei3 = imei2 * 10 + luhn_checksum imei2
    ok (format imei3 imei3)
]

parse_digits-snoc :
    (xs : List ℕ) (acc u d : ℕ)
    → parse_digits xs acc ≡ some u
    → d < 10
    → u * 10 + d < 18446744073709551616
    → parse_digits (xs ++ ((48 + d) ∷ [])) acc ≡ some (u * 10 + d)
unfolding parse_digits
parse_digits-snoc [] acc u d e a b = ground (arith)
parse_digits-snoc (x ∷ xs) acc u d e a b =
    ground (arith, parse_digits-snoc xs (acc * 10 + (x - 48)) u d)

one_digit : (n : ℕ) → n < 10 → parse_digits ((48 + n % 10) ∷ []) 0 ≡ some n
unfolding parse_digits
one_digit n h = ground (arith)

parse_digits-format :
    (fuel n : ℕ) → n ≤ fuel → n < 18446744073709551616 → parse_digits (format fuel n) 0 ≡ some n
unfolding format
parse_digits-format zero n a b = one_digit n (omega arith)
parse_digits-format (suc fuel) n a b = elim (Bool-cases (ltb n 10)) [
  | inl t ↦ rw t (one_digit n (ground (arith)))
  | inr f ↦
      let big : 10 ≤ n = ground (arith) in
      let ih = parse_digits-format fuel (n / 10) (omega arith) (omega arith) in
      rw f (
        parse_digits-snoc (format fuel (n / 10)) 0 (n / 10) (n % 10) ih (omega arith) (omega arith)
        ∙ ap some (omega arith))
]

-- Text that begins with a digit.
abbrev Starts : List ℕ → Type 0
Starts [] = ⊥
Starts (b ∷ bs) = 48 ≤ b

Starts-append : (xs ys : List ℕ) → Starts xs → Starts (xs ++ ys)
Starts-append [] ys h = absurd h
Starts-append (x ∷ xs) ys h = h

Starts-format : (fuel n : ℕ) → Starts (format fuel n)
unfolding format
Starts-format zero n = omega arith
Starts-format (suc fuel) n = elim (Bool-cases (ltb n 10)) [
  | inl t ↦ rw t (omega arith)
  | inr f ↦
      rw f (Starts-append (format fuel (n / 10)) ((48 + n % 10) ∷ []) (Starts-format fuel (n / 10)))
]

parse_u64_lem : (xs : List ℕ) → Starts xs → parse_u64 xs ≡ parse_digits xs 0
unfolding parse_u64
parse_u64_lem [] h = absurd h
parse_u64_lem (b ∷ []) h = let k : (b == 43) ≡ false = ground (arith) in rw (k, parse_u64) refl
parse_u64_lem (b ∷ c ∷ bs) h = let k : (b == 43) ≡ false = ground (arith) in rw (k, parse_u64) refl

-- When the text reads as a number, and the next number with its checksum is below 2 ^ 64,
-- `increment_imei` gives text that reads as that number. It passes the Luhn test, and without their
-- last digits it is one more than the given number.
pub increment_imei-PassesLuhn :
    (imei : List ℕ) (v : ℕ)
    → parse_u64 imei ≡ some v
    → 10 * (v / 10 + 1) + luhn_checksum (v / 10 + 1) < 18446744073709551616
    → (text : List ℕ) × (w : ℕ) × (increment_imei imei ≡ ok text)
      × (parse_u64 text ≡ some w)
      × PassesLuhn w
      × (w / 10 ≡ v / 10 + 1)
unfolding increment_imei
increment_imei-PassesLuhn imei v e h =
    let m = v / 10 + 1 in
    let w = m * 10 + luhn_checksum m in
    let below = luhn_checksum_lt m in
    let reorder : 10 * m + luhn_checksum m ≡ w = omega arith in
    (
      format w w,
      w,
      ground (arith),
      parse_u64_lem (format w w) (Starts-format w w)
          ∙ parse_digits-format w w (omega arith) (omega arith),
      subst PassesLuhn reorder (luhn_checksum-PassesLuhn m),
      omega arith,
    )

-- Ten times this number is below 2 ^ 64, and ten times the next is not.
decisive_checksum : luhn_checksum 1844674407370955161 ≡ 1
unfolding luhn_checksum sum_digits
decisive_checksum = refl

fits : (m : ℕ) → m ≤ 1844674407370955161 → m * 10 + luhn_checksum m < 18446744073709551616
fits m below = elim (Bool-cases (m == 1844674407370955161)) [
  | inl t ↦
      let here : m ≡ 1844674407370955161 = ground (arith) in
      omega (arith, here, ap luhn_checksum here ∙ decisive_checksum)
  | inr f ↦
      let other : m ≤ 1844674407370955160 = ground (arith) in omega (arith, luhn_checksum_lt m)
]

increment_imei-too_large :
    (imei : List ℕ) (v : ℕ)
    → parse_u64 imei ≡ some v
    → 18446744073709551610 ≤ v
    → increment_imei imei ≡ panic
unfolding increment_imei
increment_imei-too_large imei v e large =
    let over : 18446744073709551616 ≤ (v / 10 + 1) * 10 = omega arith in ground (arith)

panic-too_large :
    (imei : List ℕ)
    → increment_imei imei ≡ panic
    → (v : ℕ) × (parse_u64 imei ≡ some v) × (18446744073709551610 ≤ v)
unfolding increment_imei
panic-too_large imei e = elim (Option-cases (parse_u64 imei)) [
  | inl q ↦ ground (arith)
  | inr (v, q) ↦ elim (Bool-cases (leb 18446744073709551610 v)) [
    | inl t ↦ (v, q, ground (arith))
    | inr f ↦
        let small : v < 18446744073709551610 = ground (arith) in
        let below : v / 10 + 1 ≤ 1844674407370955161 = omega arith in
        let all_fits = fits (v / 10 + 1) below in ground (arith)
  ]
]

-- `increment_imei` panics exactly when the text reads as one of the six largest 64-bit numbers,
-- from 18446744073709551610 on.
pub increment_imei-panic :
    (imei : List ℕ)
    → (increment_imei imei ≡ panic)
      ↔ ((v : ℕ) × (parse_u64 imei ≡ some v) × (18446744073709551610 ≤ v))
increment_imei-panic imei =
    (panic-too_large imei, λ (v, e, large). increment_imei-too_large imei v e large)
