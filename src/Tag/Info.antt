-- ===== src/Tag/Info.antt =====
-- Static information about tags (common/src/tag/info.rs): the table, its lookup, and the tracker of
-- the tags that were seen.
pub mod Kinds
pub mod Table
pub mod Facts
use Prim.Native.Nat.{bit_and, bit_or}
use platform_system_keymint.Common.{
  ℕ, ◌^◌, ◌%◌, Bool, true, false, ◌&&◌, not, List, [], ◌∷◌, ok, err, fail_if, ◌>>=◌, ◌>>◌, ◌==◌,
  if◌then◌else◌,
}
use platform_system_keymint.KmError.{Result, hal}
use platform_system_keymint.Wire.Errors.{ErrorCode}
use platform_system_keymint.Wire.Tags.{Tag, tag_eq}
use platform_system_keymint.Wire.TagTypes.{TagType, tag_type}
use platform_system_keymint.Tag.Info.Kinds.{Info}
use platform_system_keymint.Tag.Info.Table.{info_table}

-- The loop of `info`.
unfoldable pub info_in : List (Tag × Info) → Tag → Result Info
unfolding tag_eq
info_in [] tag = err (hal ErrorCode.invalid_tag)
info_in (entry ∷ entries) tag =
    let rest = info_in entries tag in if tag_eq tag entry.0 then ok entry.1 else rest

unfoldable pub info : Tag → Result Info
unfolding info_in info_table
info tag = info_in info_table tag

abbrev is_rep : TagType → Bool
is_rep TagType.enum_rep = true
is_rep TagType.uint_rep = true
is_rep TagType.ulong_rep = true
is_rep _ = false

unfoldable pub multivalued : Tag → Bool
unfolding tag_type
multivalued tag = is_rep (tag_type tag)

-- `DuplicateTagChecker::add`, on the `u64` of the tags that were seen.
unfoldable pub add : ℕ → Tag → Result ℕ
unfolding info multivalued
add seen tag = do
  known ← info tag
  let bit_mask = 2 ^ known.bit_index
  fail_if (not (multivalued tag) && not (bit_and seen bit_mask == 0))
      (hal ErrorCode.invalid_key_blob)
  ok (bit_or seen bit_mask)
