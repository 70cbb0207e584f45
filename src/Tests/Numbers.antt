-- ===== src/Tests/Numbers.antt =====
-- Device numbers and their check digits.
use platform_system_keymint.Common.{
  ℕ, ◌+◌, ◌*◌, ◌/◌, ◌<◌, ◌≡◌, ◌≤◌, ◌↔◌, refl, some, List, [], ◌∷◌, ok, panic, arith,
}
use platform_system_keymint.Tag.Luhn.{luhn_checksum, PassesLuhn}
use platform_system_keymint.Tag.Imei.{
  parse_digits, parse_u64, increment_imei, increment_imei-PassesLuhn, increment_imei-panic,
}

-- "7215"
abbrev imei : List ℕ
imei = 55 ∷ 50 ∷ 49 ∷ 53 ∷ []

imei_read : parse_u64 imei ≡ some 7215
unfolding parse_u64 parse_digits
imei_read = refl

next_fits : 10 * (7215 / 10 + 1) + luhn_checksum (7215 / 10 + 1) < 18446744073709551616
unfolding luhn_checksum
next_fits = omega arith

increment_imei-PassesLuhn_example :
    (text : List ℕ) × (w : ℕ) × (increment_imei imei ≡ ok text)
    × (parse_u64 text ≡ some w)
    × PassesLuhn w
    × (w / 10 ≡ 7215 / 10 + 1)
increment_imei-PassesLuhn_example = increment_imei-PassesLuhn imei 7215 imei_read next_fits

-- "18446744073709551615"
abbrev largest : List ℕ
largest =
    49 ∷ 56 ∷ 52 ∷ 52 ∷ 54 ∷ 55 ∷ 52 ∷ 52 ∷ 48 ∷ 55 ∷ 51 ∷ 55 ∷ 48 ∷ 57 ∷ 53 ∷ 53 ∷ 49 ∷ 54 ∷ 49
    ∷ 53 ∷ []

largest_read : parse_u64 largest ≡ some 18446744073709551615
unfolding parse_u64 parse_digits
largest_read = refl

increment_imei-panic_example :
    (increment_imei largest ≡ panic)
    ↔ ((v : ℕ) × (parse_u64 largest ≡ some v) × (18446744073709551610 ≤ v))
increment_imei-panic_example = increment_imei-panic largest

largest-panic : increment_imei largest ≡ panic
largest-panic = (increment_imei-panic largest).1 (18446744073709551615, largest_read, omega arith)
