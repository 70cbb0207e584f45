-- ===== src/Wire/TagTypes.antt =====
-- `TagType` and `tag_type` of wire/src/keymint.rs. A discriminant is its 32-bit pattern.
use Prim.Native.Nat.{bit_and}
use platform_system_keymint.Common.{ℕ, ◌==◌, if◌then◌else◌}
use platform_system_keymint.Wire.Tags.{Tag, tag_as_u32}

pub data TagType : Type 0 where
  invalid enum enum_rep uint uint_rep ulong date bool bignum bytes ulong_rep : TagType

unfoldable pub tag_type_as_u32 : TagType → ℕ
tag_type_as_u32 TagType.invalid = 0
tag_type_as_u32 TagType.enum = 268435456
tag_type_as_u32 TagType.enum_rep = 536870912
tag_type_as_u32 TagType.uint = 805306368
tag_type_as_u32 TagType.uint_rep = 1073741824
tag_type_as_u32 TagType.ulong = 1342177280
tag_type_as_u32 TagType.date = 1610612736
tag_type_as_u32 TagType.bool = 1879048192
tag_type_as_u32 TagType.bignum = 2147483648
tag_type_as_u32 TagType.bytes = 2415919104
tag_type_as_u32 TagType.ulong_rep = 2684354560

-- The arms of the `match`, for the top 4 bits of the tag.
unfoldable pub tag_type_of : ℕ → TagType
unfolding tag_type_as_u32
tag_type_of x =
    if x == tag_type_as_u32 TagType.enum
    then TagType.enum
    else if x == tag_type_as_u32 TagType.enum_rep
    then TagType.enum_rep
    else if x == tag_type_as_u32 TagType.uint
    then TagType.uint
    else if x == tag_type_as_u32 TagType.uint_rep
    then TagType.uint_rep
    else if x == tag_type_as_u32 TagType.ulong
    then TagType.ulong
    else if x == tag_type_as_u32 TagType.date
    then TagType.date
    else if x == tag_type_as_u32 TagType.bool
    then TagType.bool
    else if x == tag_type_as_u32 TagType.bignum
    then TagType.bignum
    else if x == tag_type_as_u32 TagType.bytes
    then TagType.bytes
    else if x == tag_type_as_u32 TagType.ulong_rep
    then TagType.ulong_rep
    else TagType.invalid

unfoldable pub tag_type : Tag → TagType
unfolding tag_type_of tag_as_u32
tag_type tag = tag_type_of (bit_and (tag_as_u32 tag) 4026531840)

-- `raw_tag_value`
unfoldable pub raw_tag_value : Tag → ℕ
unfolding tag_as_u32
raw_tag_value tag = bit_and (tag_as_u32 tag) 268435455
