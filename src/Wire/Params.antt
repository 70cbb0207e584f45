-- ===== src/Wire/Params.antt =====
-- Enumerations of the HAL interface (wire/src/keymint.rs). A value of `#[repr(i32)]` is its 32-bit
-- pattern, so that -1 is 2 ^ 32 - 1. `try_from` is `try_from_n!`, of wire/src/lib.rs.
use mathlib.Core.Option.{Option}
use platform_system_keymint.Common.{
  ℕ, ◌<◌, ◌≡◌, refl, Bool, true, arith, ◌==◌, if◌then◌else◌, ==→eq, ==_refl,
}

pub data Algorithm : Type 0 where
  rsa ec aes triple_des hmac : Algorithm

-- The discriminant as its 32-bit pattern: `as u32`.
unfoldable pub algorithm_as_u32 : Algorithm → ℕ
algorithm_as_u32 Algorithm.rsa = 1
algorithm_as_u32 Algorithm.ec = 3
algorithm_as_u32 Algorithm.aes = 32
algorithm_as_u32 Algorithm.triple_des = 33
algorithm_as_u32 Algorithm.hmac = 128

unfoldable pub algorithm_try_from : ℕ → Option Algorithm
algorithm_try_from v =
    if v == 1
    then Option.some Algorithm.rsa
    else if v == 3
    then Option.some Algorithm.ec
    else if v == 32
    then Option.some Algorithm.aes
    else if v == 33
    then Option.some Algorithm.triple_des
    else if v == 128
    then Option.some Algorithm.hmac
    else Option.none

pub algorithm_try_from-as_u32 :
    (x : Algorithm) → algorithm_try_from (algorithm_as_u32 x) ≡ Option.some x
unfolding algorithm_try_from algorithm_as_u32
algorithm_try_from-as_u32 Algorithm.rsa = refl
algorithm_try_from-as_u32 _ = refl

pub algorithm_as_u32_lt : (x : Algorithm) → algorithm_as_u32 x < 4294967296
unfolding algorithm_as_u32
algorithm_as_u32_lt Algorithm.rsa = omega arith
algorithm_as_u32_lt _ = omega arith

-- The derived `==` compares discriminants.
unfoldable pub algorithm_eq : Algorithm → Algorithm → Bool
unfolding algorithm_as_u32
algorithm_eq a b = algorithm_as_u32 a == algorithm_as_u32 b

pub algorithm_eq→eq : (a b : Algorithm) → algorithm_eq a b ≡ true → a ≡ b
unfolding algorithm_eq
algorithm_eq→eq a b h = cc (
  ==→eq (algorithm_as_u32 a) (algorithm_as_u32 b) h,
  algorithm_try_from-as_u32 a,
  algorithm_try_from-as_u32 b,
)

pub algorithm_eq_refl : (a : Algorithm) → algorithm_eq a a ≡ true
unfolding algorithm_eq
algorithm_eq_refl a = ==_refl (algorithm_as_u32 a)

pub data BlockMode : Type 0 where
  ecb cbc ctr gcm : BlockMode

-- The discriminant as its 32-bit pattern: `as u32`.
unfoldable pub block_mode_as_u32 : BlockMode → ℕ
block_mode_as_u32 BlockMode.ecb = 1
block_mode_as_u32 BlockMode.cbc = 2
block_mode_as_u32 BlockMode.ctr = 3
block_mode_as_u32 BlockMode.gcm = 32

unfoldable pub block_mode_try_from : ℕ → Option BlockMode
block_mode_try_from v =
    if v == 1
    then Option.some BlockMode.ecb
    else if v == 2
    then Option.some BlockMode.cbc
    else if v == 3
    then Option.some BlockMode.ctr
    else if v == 32
    then Option.some BlockMode.gcm
    else Option.none

pub block_mode_try_from-as_u32 :
    (x : BlockMode) → block_mode_try_from (block_mode_as_u32 x) ≡ Option.some x
unfolding block_mode_try_from block_mode_as_u32
block_mode_try_from-as_u32 BlockMode.ecb = refl
block_mode_try_from-as_u32 _ = refl

pub block_mode_as_u32_lt : (x : BlockMode) → block_mode_as_u32 x < 4294967296
unfolding block_mode_as_u32
block_mode_as_u32_lt BlockMode.ecb = omega arith
block_mode_as_u32_lt _ = omega arith

-- The derived `==` compares discriminants.
unfoldable pub block_mode_eq : BlockMode → BlockMode → Bool
unfolding block_mode_as_u32
block_mode_eq a b = block_mode_as_u32 a == block_mode_as_u32 b

pub block_mode_eq→eq : (a b : BlockMode) → block_mode_eq a b ≡ true → a ≡ b
unfolding block_mode_eq
block_mode_eq→eq a b h = cc (
  ==→eq (block_mode_as_u32 a) (block_mode_as_u32 b) h,
  block_mode_try_from-as_u32 a,
  block_mode_try_from-as_u32 b,
)

pub block_mode_eq_refl : (a : BlockMode) → block_mode_eq a a ≡ true
unfolding block_mode_eq
block_mode_eq_refl a = ==_refl (block_mode_as_u32 a)

pub data Digest : Type 0 where
  none md5 sha1 sha224 sha256 sha384 sha512 : Digest

-- The discriminant as its 32-bit pattern: `as u32`.
unfoldable pub digest_as_u32 : Digest → ℕ
digest_as_u32 Digest.none = 0
digest_as_u32 Digest.md5 = 1
digest_as_u32 Digest.sha1 = 2
digest_as_u32 Digest.sha224 = 3
digest_as_u32 Digest.sha256 = 4
digest_as_u32 Digest.sha384 = 5
digest_as_u32 Digest.sha512 = 6

unfoldable pub digest_try_from : ℕ → Option Digest
digest_try_from v =
    if v == 0
    then Option.some Digest.none
    else if v == 1
    then Option.some Digest.md5
    else if v == 2
    then Option.some Digest.sha1
    else if v == 3
    then Option.some Digest.sha224
    else if v == 4
    then Option.some Digest.sha256
    else if v == 5
    then Option.some Digest.sha384
    else if v == 6
    then Option.some Digest.sha512
    else Option.none

pub digest_try_from-as_u32 : (x : Digest) → digest_try_from (digest_as_u32 x) ≡ Option.some x
unfolding digest_try_from digest_as_u32
digest_try_from-as_u32 Digest.none = refl
digest_try_from-as_u32 _ = refl

pub digest_as_u32_lt : (x : Digest) → digest_as_u32 x < 4294967296
unfolding digest_as_u32
digest_as_u32_lt Digest.none = omega arith
digest_as_u32_lt _ = omega arith

-- The derived `==` compares discriminants.
unfoldable pub digest_eq : Digest → Digest → Bool
unfolding digest_as_u32
digest_eq a b = digest_as_u32 a == digest_as_u32 b

pub digest_eq→eq : (a b : Digest) → digest_eq a b ≡ true → a ≡ b
unfolding digest_eq
digest_eq→eq a b h = cc (
  ==→eq (digest_as_u32 a) (digest_as_u32 b) h,
  digest_try_from-as_u32 a,
  digest_try_from-as_u32 b,
)

pub digest_eq_refl : (a : Digest) → digest_eq a a ≡ true
unfolding digest_eq
digest_eq_refl a = ==_refl (digest_as_u32 a)

pub data EcCurve : Type 0 where
  p224 p256 p384 p521 curve25519 : EcCurve

-- The discriminant as its 32-bit pattern: `as u32`.
unfoldable pub ec_curve_as_u32 : EcCurve → ℕ
ec_curve_as_u32 EcCurve.p224 = 0
ec_curve_as_u32 EcCurve.p256 = 1
ec_curve_as_u32 EcCurve.p384 = 2
ec_curve_as_u32 EcCurve.p521 = 3
ec_curve_as_u32 EcCurve.curve25519 = 4

unfoldable pub ec_curve_try_from : ℕ → Option EcCurve
ec_curve_try_from v =
    if v == 0
    then Option.some EcCurve.p224
    else if v == 1
    then Option.some EcCurve.p256
    else if v == 2
    then Option.some EcCurve.p384
    else if v == 3
    then Option.some EcCurve.p521
    else if v == 4
    then Option.some EcCurve.curve25519
    else Option.none

pub ec_curve_try_from-as_u32 : (x : EcCurve) → ec_curve_try_from (ec_curve_as_u32 x) ≡ Option.some x
unfolding ec_curve_try_from ec_curve_as_u32
ec_curve_try_from-as_u32 EcCurve.p224 = refl
ec_curve_try_from-as_u32 _ = refl

pub ec_curve_as_u32_lt : (x : EcCurve) → ec_curve_as_u32 x < 4294967296
unfolding ec_curve_as_u32
ec_curve_as_u32_lt EcCurve.p224 = omega arith
ec_curve_as_u32_lt _ = omega arith

-- The derived `==` compares discriminants.
unfoldable pub ec_curve_eq : EcCurve → EcCurve → Bool
unfolding ec_curve_as_u32
ec_curve_eq a b = ec_curve_as_u32 a == ec_curve_as_u32 b

pub ec_curve_eq→eq : (a b : EcCurve) → ec_curve_eq a b ≡ true → a ≡ b
unfolding ec_curve_eq
ec_curve_eq→eq a b h = cc (
  ==→eq (ec_curve_as_u32 a) (ec_curve_as_u32 b) h,
  ec_curve_try_from-as_u32 a,
  ec_curve_try_from-as_u32 b,
)

pub ec_curve_eq_refl : (a : EcCurve) → ec_curve_eq a a ≡ true
unfolding ec_curve_eq
ec_curve_eq_refl a = ==_refl (ec_curve_as_u32 a)
