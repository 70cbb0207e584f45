-- ===== src/Tag/Info/Facts.antt =====
-- The table of tag information is consistent (common/src/tag/info.rs).
use platform_system_keymint.Common.{◌<◌, ◌≡◌, refl, some, get_elem?, ok, err, panic, arith}
use platform_system_keymint.KmError.{Result, hal}
use platform_system_keymint.Wire.Errors.{ErrorCode}
use platform_system_keymint.Wire.Tags.{Tag, tag_as_u32, tag_eq}
use platform_system_keymint.Wire.TagTypes.{tag_type, tag_type_of, tag_type_as_u32}
use platform_system_keymint.Tag.Info.{info, info_in}
use platform_system_keymint.Tag.Info.Kinds.{Info}
use platform_system_keymint.Tag.Info.Table.{info_table}
use platform_system_keymint.Tag.Info.Table.Cipher.{info_from_purpose}
use platform_system_keymint.Tag.Info.Table.Usage.{info_from_include_unique_id}
use platform_system_keymint.Tag.Info.Table.Users.{info_from_user_id}
use platform_system_keymint.Tag.Info.Table.Device.{info_from_application_id}
use platform_system_keymint.Tag.Info.Table.Identity.{info_from_attestation_application_id}
use platform_system_keymint.Tag.Info.Table.Versions.{info_from_vendor_patchlevel}
use platform_system_keymint.Tag.Info.Table.Certificates.{info_from_certificate_not_before}

-- What the lookup of a tag gives: the entry whose place is its bit index, of the type that the tag's
-- number says, or the error for an unknown tag.
abbrev pub Describes : Tag → Result Info → Type 0
Describes t (ok i) =
    (get_elem? info_table i.bit_index ≡ some (t, i)) × (i.bit_index < 64) × (i.tt ≡ tag_type t)
Describes t (err e) = e ≡ hal ErrorCode.invalid_tag
Describes t panic = ⊥

-- Every tag that the table knows has the type that its number says, and a bit index below 64 that
-- is its place in the table, and so no other tag's; for any other tag the lookup is an error.
pub info-Describes : (t : Tag) → Describes t (info t)
unfolding info info_in info_table info_from_purpose info_from_include_unique_id info_from_user_id
    info_from_application_id info_from_attestation_application_id info_from_vendor_patchlevel
    info_from_certificate_not_before tag_eq tag_as_u32 tag_type tag_type_of tag_type_as_u32
info-Describes Tag.invalid = refl
info-Describes Tag.hardware_type = refl
info-Describes Tag.min_seconds_between_ops = refl
info-Describes Tag.identity_credential_key = refl
info-Describes Tag.associated_data = refl
info-Describes Tag.confirmation_token = refl
info-Describes _ = (refl, omega arith, refl)
