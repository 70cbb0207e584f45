-- ===== src/Tag/Legacy/Consume.antt =====
-- The `consume_*` readers of common/src/tag/legacy.rs. `data: &mut &[u8]` is the remaining input: a
-- reader returns it with its result.
use platform_system_keymint.Common.{
  ℕ, ◌+◌, ◌<◌, ◌≡◌, ap, ◌∙◌, List, [], ◌∷◌, ◌++◌, length, take, drop, ltb, ◌==◌, not, ok, err,
  fail_if, ◌>>=◌, ◌>>◌, if◌then◌else◌, arith, length-append, take-append, drop-append, le→ltb_false,
  ==_refl,
}
use mathlib.Core.Path.{subst}
use platform_system_keymint.Common.Bytes.{
  Endian, to_ne_bytes, from_ne_bytes, length-to_ne_bytes, from_ne_bytes-to_ne_bytes_u32,
  from_ne_bytes-to_ne_bytes_u64,
}
use platform_system_keymint.KmError.{Error, Result, hal}
use platform_system_keymint.Wire.Errors.{ErrorCode}

abbrev pub bad_blob : Error
bad_blob = hal ErrorCode.invalid_key_blob

unfoldable pub consume_u8 : List ℕ → Result (ℕ × List ℕ)
consume_u8 [] = err bad_blob
consume_u8 (b ∷ data') = ok (b, data')

unfoldable pub consume_bool : List ℕ → Result (List ℕ)
unfolding consume_u8
consume_bool input = do (b, rest) ← consume_u8 input; if b == 0x01 then ok rest else err bad_blob

-- `w` bytes as a host-ordered integer. `consume_i32` reads the same pattern as `consume_u32`, and
-- `consume_i64` the same as `consume_u64`.
unfoldable pub consume_word : ℕ → Endian → List ℕ → Result (ℕ × List ℕ)
consume_word w e input = do
  fail_if (ltb (length input) w) bad_blob
  ok (from_ne_bytes e (take w input), drop w input)

unfoldable pub consume_u32 : Endian → List ℕ → Result (ℕ × List ℕ)
unfolding consume_word
consume_u32 = consume_word 4

unfoldable pub consume_i32 : Endian → List ℕ → Result (ℕ × List ℕ)
unfolding consume_word
consume_i32 = consume_word 4

unfoldable pub consume_u64 : Endian → List ℕ → Result (ℕ × List ℕ)
unfolding consume_word
consume_u64 = consume_word 8

unfoldable pub consume_i64 : Endian → List ℕ → Result (ℕ × List ℕ)
unfolding consume_word
consume_i64 = consume_word 8

unfoldable pub consume_vec : Endian → List ℕ → Result (List ℕ × List ℕ)
unfolding consume_u32
consume_vec e input = do
  (len, rest) ← consume_u32 e input
  fail_if (ltb (length rest) len) bad_blob
  ok (take len rest, drop len rest)

-- `next` is `next_blob_offset`.
unfoldable pub consume_blob : Endian → List ℕ → ℕ → List ℕ → Result (List ℕ × List ℕ × ℕ)
unfolding consume_u32
consume_blob e input next blob_data = do
  (data_len, after_len) ← consume_u32 e input
  (data_offset, rest) ← consume_u32 e after_len
  fail_if (not (data_offset == next)) bad_blob
  fail_if (ltb (length blob_data) (data_offset + data_len)) bad_blob
  ok (take data_len (drop data_offset blob_data), rest, next + data_len)

consume_word-bytes :
    (e : Endian) (l rest : List ℕ)
    → consume_word (length l) e (l ++ rest) ≡ ok (from_ne_bytes e l, rest)
unfolding consume_word
consume_word-bytes e l rest =
    rw (le→ltb_false (length l) (length (l ++ rest)) (omega (arith, length-append l rest)))
      (rw (take-append l rest, drop-append l rest))

consume_word-append :
    (w : ℕ) (e : Endian) (n : ℕ) (rest : List ℕ)
    → from_ne_bytes e (to_ne_bytes e w n) ≡ n
    → consume_word w e (to_ne_bytes e w n ++ rest) ≡ ok (n, rest)
consume_word-append w e n rest h =
    subst
      (λ k.
        consume_word k e (to_ne_bytes e w n ++ rest)
        ≡ ok (from_ne_bytes e (to_ne_bytes e w n), rest))
      (length-to_ne_bytes e w n) (consume_word-bytes e (to_ne_bytes e w n) rest)
    ∙ ap (λ v. ok (v, rest)) h

-- A word that was written is read back, and the rest is left.
pub consume_u32-append :
    (e : Endian) (n : ℕ) (rest : List ℕ)
    → n < 4294967296
    → consume_u32 e (to_ne_bytes e 4 n ++ rest) ≡ ok (n, rest)
unfolding consume_u32
consume_u32-append e n rest h = consume_word-append 4 e n rest (from_ne_bytes-to_ne_bytes_u32 e n h)

pub consume_u64-append :
    (e : Endian) (n : ℕ) (rest : List ℕ)
    → n < 18446744073709551616
    → consume_u64 e (to_ne_bytes e 8 n ++ rest) ≡ ok (n, rest)
unfolding consume_u64
consume_u64-append e n rest h = consume_word-append 8 e n rest (from_ne_bytes-to_ne_bytes_u64 e n h)

-- A blob is read back from its place in the blob data.
pub consume_blob-append :
    (e : Endian) (v rest pre post : List ℕ)
    → length pre + length v < 4294967296
    → consume_blob e
        (to_ne_bytes e 4 (length v) ++ (to_ne_bytes e 4 (length pre) ++ rest))
        (length pre)
        (pre ++ (v ++ post))
      ≡ ok (v, rest, length pre + length v)
unfolding consume_blob
consume_blob-append e v rest pre post h =
    let total = length-append pre (v ++ post) in
    let inner = length-append v post in
    rw (consume_u32-append e (length v) (to_ne_bytes e 4 (length pre) ++ rest) (omega arith)) (
      rw (consume_u32-append e (length pre) rest (omega arith)) (
        rw
          (
            ==_refl (length pre),
            le→ltb_false (length pre + length v) (length (pre ++ (v ++ post)))
                (omega (arith, total, inner)),
          )
          (rw (drop-append pre (v ++ post), take-append v post))))
