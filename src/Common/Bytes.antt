-- ===== src/Common/Bytes.antt =====
-- Fixed-width integers as bytes: `to_ne_bytes`, `to_be_bytes` and their inverses. A byte is a
-- number; the byte order of the target is a parameter.
use Prim.Native.Nat.{ℕ, zero, suc, ◌+◌, ◌*◌, ◌/◌, ◌%◌, ◌<◌}
use mathlib.Core.Path.{◌≡◌, refl, ap, ◌∙◌}
use mathlib.Core.List.{List, [], ◌∷◌, reverse, reverse-reverse, reverse-append}
use mathlib.Core.Bool.{Bool, true, false, ◌&&◌}
use platform_system_keymint.Common.Tests.{◌==◌}
use native.Mathlib.Omega.{arith}
use platform_system_keymint.Common.Lists.{length, length-append}

pub data Endian : Type 0 where
  little big : Endian

-- The bytes of `n`, lowest first, in `w` places.
unfoldable pub le_bytes : ℕ → ℕ → List ℕ
le_bytes zero n = []
le_bytes (suc w) n = (n % 256) ∷ le_bytes w (n / 256)

unfoldable pub le_value : List ℕ → ℕ
le_value [] = 0
le_value (b ∷ bs) = b + 256 * le_value bs

unfoldable pub to_ne_bytes : Endian → ℕ → ℕ → List ℕ
unfolding le_bytes
to_ne_bytes little w n = le_bytes w n
to_ne_bytes big w n = reverse (le_bytes w n)

unfoldable pub from_ne_bytes : Endian → List ℕ → ℕ
unfolding le_value
from_ne_bytes little bs = le_value bs
from_ne_bytes big bs = le_value (reverse bs)

length-le_bytes : (w n : ℕ) → length (le_bytes w n) ≡ w
unfolding le_bytes
length-le_bytes zero n = refl
length-le_bytes (suc w) n = ap suc (length-le_bytes w (n / 256))

length-reverse : (xs : List ℕ) → length (reverse xs) ≡ length xs
length-reverse [] = refl
length-reverse (x ∷ xs) =
    ap length (reverse-append (x ∷ []) xs)
    ∙ omega (arith, length-append (reverse xs) (x ∷ []), length-reverse xs)

pub length-to_ne_bytes : (e : Endian) (w n : ℕ) → length (to_ne_bytes e w n) ≡ w
unfolding to_ne_bytes
length-to_ne_bytes little w n = length-le_bytes w n
length-to_ne_bytes big w n = length-reverse (le_bytes w n) ∙ length-le_bytes w n

le_value_four : (n : ℕ) → n < 4294967296 → le_value (le_bytes 4 n) ≡ n
unfolding le_value le_bytes
le_value_four n h = omega arith

le_value_eight : (n : ℕ) → n < 18446744073709551616 → le_value (le_bytes 8 n) ≡ n
unfolding le_value le_bytes
le_value_eight n h = omega arith

-- Reading a word back gives the word, in either byte order.
pub from_ne_bytes-to_ne_bytes_u32 :
    (e : Endian) (n : ℕ) → n < 4294967296 → from_ne_bytes e (to_ne_bytes e 4 n) ≡ n
unfolding from_ne_bytes to_ne_bytes
from_ne_bytes-to_ne_bytes_u32 little n h = le_value_four n h
from_ne_bytes-to_ne_bytes_u32 big n h =
    ap le_value (reverse-reverse (le_bytes 4 n)) ∙ le_value_four n h

pub from_ne_bytes-to_ne_bytes_u64 :
    (e : Endian) (n : ℕ) → n < 18446744073709551616 → from_ne_bytes e (to_ne_bytes e 8 n) ≡ n
unfolding from_ne_bytes to_ne_bytes
from_ne_bytes-to_ne_bytes_u64 little n h = le_value_eight n h
from_ne_bytes-to_ne_bytes_u64 big n h =
    ap le_value (reverse-reverse (le_bytes 8 n)) ∙ le_value_eight n h

-- Equality of byte strings.
unfoldable pub bytes_eq : List ℕ → List ℕ → Bool
bytes_eq [] [] = true
bytes_eq (x ∷ xs) [] = false
bytes_eq [] (y ∷ ys) = false
bytes_eq (x ∷ xs) (y ∷ ys) = (x == y) && bytes_eq xs ys

pub bytes_eq_refl : (k : List ℕ) → bytes_eq k k ≡ true
unfolding bytes_eq
bytes_eq_refl [] = refl
bytes_eq_refl (x ∷ xs) = ground (arith, bytes_eq_refl xs)

pub bytes_eq→eq : (k l : List ℕ) → bytes_eq k l ≡ true → k ≡ l
unfolding bytes_eq
bytes_eq→eq [] [] h = refl
bytes_eq→eq (x ∷ xs) [] h = cc
bytes_eq→eq [] (y ∷ ys) h = cc
bytes_eq→eq (x ∷ xs) (y ∷ ys) h = ground (arith, bytes_eq→eq xs ys)
