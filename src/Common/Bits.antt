-- ===== src/Common/Bits.antt =====
-- Bits of a number: which bit an `or` with a power of two sets.
use Prim.Native.Nat.{
  ℕ, zero, suc, ◌+◌, ◌*◌, ◌/◌, ◌%◌, ◌^◌, ◌≤◌, ◌<◌, min, max, bit_and, bit_or, digits,
  bit_and-bitwise, bit_or-bitwise,
}
use mathlib.Core.Path.{◌≡◌, refl, ap, ◌∙◌}
use mathlib.Core.Logic.{◌≢◌}
use native.Mathlib.Nat.{pow-zero, pow-suc}
use native.Mathlib.Omega.{arith}

abbrev and_by : ℕ → ℕ → ℕ → ℕ
and_by fuel a b = digits (λ b. zero) min fuel a b

abbrev or_by : ℕ → ℕ → ℕ → ℕ
or_by fuel a b = digits (λ b. b) max fuel a b

and_by_fuel : (f g a b : ℕ) → a ≤ f → a ≤ g → and_by f a b ≡ and_by g a b
and_by_fuel zero zero a b p q = refl
and_by_fuel zero (suc g) zero b p q = refl
and_by_fuel zero (suc g) (suc a) b p q = absurd (omega arith)
and_by_fuel (suc f) zero zero b p q = refl
and_by_fuel (suc f) zero (suc a) b p q = absurd (omega arith)
and_by_fuel (suc f) (suc g) zero b p q = refl
and_by_fuel (suc f) (suc g) (suc a) b p q =
    omega (arith, and_by_fuel f g (suc a / 2) (b / 2) (omega arith) (omega arith))

or_by_fuel : (f g a b : ℕ) → a ≤ f → a ≤ g → or_by f a b ≡ or_by g a b
or_by_fuel zero zero a b p q = refl
or_by_fuel zero (suc g) zero b p q = refl
or_by_fuel zero (suc g) (suc a) b p q = absurd (omega arith)
or_by_fuel (suc f) zero zero b p q = refl
or_by_fuel (suc f) zero (suc a) b p q = absurd (omega arith)
or_by_fuel (suc f) (suc g) zero b p q = refl
or_by_fuel (suc f) (suc g) (suc a) b p q =
    omega (arith, or_by_fuel f g (suc a / 2) (b / 2) (omega arith) (omega arith))

-- The lowest bit, and the rest.
and_halves : (a b : ℕ) → bit_and a b ≡ bit_and (a / 2) (b / 2) * 2 + min (a % 2) (b % 2)
and_halves zero b = omega (arith, bit_and-bitwise 0 b, bit_and-bitwise 0 (b / 2))
and_halves (suc a) b = omega (
  arith,
  bit_and-bitwise (suc a) b,
  bit_and-bitwise (suc a / 2) (b / 2),
  and_by_fuel a (suc a / 2) (suc a / 2) (b / 2) (omega arith) (omega arith),
)

or_halves : (a b : ℕ) → bit_or a b ≡ bit_or (a / 2) (b / 2) * 2 + max (a % 2) (b % 2)
or_halves zero b = omega (arith, bit_or-bitwise 0 b, bit_or-bitwise 0 (b / 2))
or_halves (suc a) b = omega (
  arith,
  bit_or-bitwise (suc a) b,
  bit_or-bitwise (suc a / 2) (b / 2),
  or_by_fuel a (suc a / 2) (suc a / 2) (b / 2) (omega arith) (omega arith),
)

-- Halved `i` times.
abbrev shifted : ℕ → ℕ → ℕ
shifted a zero = a
shifted a (suc i) = shifted (a / 2) i

-- Whether a bit is set, as a number.
abbrev pub bit : ℕ → ℕ → ℕ
bit a i = shifted a i % 2

and_zero : (f a : ℕ) → a ≤ f → bit_and a 0 ≡ 0
and_zero zero a h = let e : a ≡ 0 = omega arith in rw (e, bit_and-bitwise 0 0) refl
and_zero (suc f) zero h = omega (arith, bit_and-bitwise 0 0)
and_zero (suc f) (suc a) h =
    omega (arith, and_halves (suc a) 0, and_zero f (suc a / 2) (omega arith))

or_zero : (f a : ℕ) → a ≤ f → bit_or a 0 ≡ a
or_zero zero a h = let e : a ≡ 0 = omega arith in rw (e, bit_or-bitwise 0 0) refl
or_zero (suc f) zero h = omega (arith, bit_or-bitwise 0 0)
or_zero (suc f) (suc a) h = omega (arith, or_halves (suc a) 0, or_zero f (suc a / 2) (omega arith))

half_power : (i : ℕ) → 2 ^ suc i / 2 ≡ 2 ^ i
half_power i = omega (arith, pow-suc 2 i)

even_power : (i : ℕ) → 2 ^ suc i % 2 ≡ 0
even_power i = omega (arith, pow-suc 2 i)

pub and-power : (a i : ℕ) → bit_and a (2 ^ i) ≡ bit a i * 2 ^ i
and-power a zero = omega (arith, pow-zero 2, and_halves a 1, and_zero (a / 2) (a / 2) (omega arith))
and-power a (suc i) =
    and_halves a (2 ^ suc i)
    ∙ rw (half_power i, even_power i, and-power (a / 2) i, pow-suc 2 i)
        (last (bit (a / 2) i) (2 ^ i) (a % 2))
  where
    last : (b p m : ℕ) → b * p * 2 + min m 0 ≡ b * (p * 2)
    last b p m = grind arith

or_low : (a b : ℕ) → bit_or a b % 2 ≡ max (a % 2) (b % 2)
or_low a b = omega (arith, or_halves a b)

or_half : (a b : ℕ) → bit_or a b / 2 ≡ bit_or (a / 2) (b / 2)
or_half a b = omega (arith, or_halves a b)

-- An `or` with a power of two sets that bit and keeps the others.
pub or-power_self : (a i : ℕ) → bit (bit_or a (2 ^ i)) i ≡ 1
or-power_self a zero = omega (arith, pow-zero 2, or_low a 1)
or-power_self a (suc i) = rw (or_half a (2 ^ suc i), half_power i) (or-power_self (a / 2) i)

pub or-power_ne : (a i j : ℕ) → i ≢ j → bit (bit_or a (2 ^ i)) j ≡ bit a j
or-power_ne a zero zero ne = absurd (ne refl)
or-power_ne a zero (suc j) ne = rw (or_half a 1, or_zero (a / 2) (a / 2) (omega arith)) refl
or-power_ne a (suc i) zero ne = omega (arith, or_low a (2 ^ suc i), even_power i)
or-power_ne a (suc i) (suc j) ne =
    rw (or_half a (2 ^ suc i), half_power i) (or-power_ne (a / 2) i j (λ e. ne (ap suc e)))

pub bit_zero : (i : ℕ) → bit 0 i ≡ 0
bit_zero zero = refl
bit_zero (suc i) = bit_zero i

pub bit_lt : (a i : ℕ) → bit a i < 2
bit_lt a i = omega arith
