-- ===== src/Tag/Luhn.antt =====
-- `luhn_checksum` of common/src/tag.rs.
use platform_system_keymint.Common.{
  ℕ, zero, suc, ◌+◌, ◌-◌, ◌*◌, ◌/◌, ◌%◌, ◌≤◌, ◌<◌, ◌≡◌, inl, inr, refl, ap, ◌∙◌, Bool, true, false,
  not, if◌then◌else◌, ◌==◌, Bool-cases, arith,
}

-- The loop, from its index. `doubled` is `ii % 2 == 0`. A turn divides a positive value by ten, so
-- the value is enough fuel.
unfoldable pub sum_digits : ℕ → ℕ → Bool → ℕ
sum_digits zero val doubled = 0
sum_digits (suc fuel) val doubled =
    let rest = sum_digits fuel (val / 10) (not doubled) in
    let digit_multiplied = (val % 10) * (if doubled then 2 else 1) in
    if val == 0 then 0 else ((digit_multiplied % 10) + (digit_multiplied / 10)) + rest

unfoldable pub luhn_checksum : ℕ → ℕ
unfolding sum_digits
luhn_checksum val = (10 - (sum_digits val val true % 10)) % 10

-- More fuel than the value does not change the sum.
sum_digits-fuel :
    (f g val : ℕ) (doubled : Bool)
    → val ≤ f
    → val ≤ g
    → sum_digits f val doubled ≡ sum_digits g val doubled
unfolding sum_digits
sum_digits-fuel zero zero val doubled a b = refl
sum_digits-fuel zero (suc g) val doubled a b = ground (arith)
sum_digits-fuel (suc f) zero val doubled a b = ground (arith)
sum_digits-fuel (suc f) (suc g) val doubled a b = elim (Bool-cases (val == 0)) [
  | inl z ↦ rw z refl
  | inr n ↦
      let pos : 0 < val = ground (arith) in
      let ih = sum_digits-fuel f g (val / 10) (not doubled) (omega arith) (omega arith) in
      rw n (
        ap
          (λ r.
            (((val % 10) * (if doubled then 2 else 1)) % 10
              + ((val % 10) * (if doubled then 2 else 1)) / 10)
            + r)
          ih)
]

-- A number with its check digit last passes the Luhn test: the sum over its digits from the last,
-- every second one doubled, is a multiple of ten.
abbrev pub PassesLuhn : ℕ → Type 0
PassesLuhn n = sum_digits n n false % 10 ≡ 0

pub luhn_checksum_lt : (val : ℕ) → luhn_checksum val < 10
unfolding luhn_checksum
luhn_checksum_lt val = omega arith

last_digit :
    (f v c : ℕ)
    → c < 10
    → 0 < 10 * v + c
    → sum_digits (suc f) (10 * v + c) false ≡ c + sum_digits f v true
unfolding sum_digits
last_digit f v c below pos =
    let q : (10 * v + c) / 10 ≡ v = omega arith in
    let r : (10 * v + c) % 10 ≡ c = omega arith in
    let nonzero : ((10 * v + c) == 0) ≡ false = ground (arith) in
    rw nonzero (rw (q, r) (omega arith))

none_left : (f n : ℕ) (doubled : Bool) → n ≡ 0 → sum_digits f n doubled ≡ 0
unfolding sum_digits
none_left zero n doubled z = refl
none_left (suc f) n doubled z = rw z refl

check_digit : (s : ℕ) → ((10 - s % 10) % 10 + s) % 10 ≡ 0
check_digit s = omega arith

checksum_and_sum : (val : ℕ) → (luhn_checksum val + sum_digits val val true) % 10 ≡ 0
unfolding luhn_checksum
checksum_and_sum val = check_digit (sum_digits val val true)

with_digit :
    (val c : ℕ) → c < 10 → (c + sum_digits val val true) % 10 ≡ 0 → PassesLuhn (10 * val + c)
with_digit val c below good = elim (Bool-cases ((10 * val + c) == 0)) [
  | inl z ↦ ap (λ t. t % 10) (none_left (10 * val + c) (10 * val + c) false (ground (arith)))
  | inr n ↦
      let pos : 0 < 10 * val + c = ground (arith) in
      ap (λ t. t % 10)
        (sum_digits-fuel (10 * val + c) (suc (10 * val + c)) (10 * val + c) false (omega arith)
            (omega arith)
          ∙ last_digit (10 * val + c) val c below pos
          ∙ ap (λ t. c + t)
              (sum_digits-fuel (10 * val + c) val val true (omega arith) (omega arith)))
      ∙ good
]

-- A number followed by its checksum passes the Luhn test.
pub luhn_checksum-PassesLuhn : (val : ℕ) → PassesLuhn (10 * val + luhn_checksum val)
luhn_checksum-PassesLuhn val =
    with_digit val (luhn_checksum val) (luhn_checksum_lt val) (checksum_and_sum val)
