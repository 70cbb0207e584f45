-- ===== src/Tag/Info/Table.antt =====
-- The table `INFO` of what is known about each tag (common/src/tag/info.rs).
pub mod Cipher
pub mod Usage
pub mod Users
pub mod Device
pub mod Identity
pub mod Versions
pub mod Certificates
use platform_system_keymint.Common.{List, ◌++◌}
use platform_system_keymint.Wire.Tags.{Tag}
use platform_system_keymint.Tag.Info.Kinds.{Info}
use platform_system_keymint.Tag.Info.Table.Cipher.{info_from_purpose}
use platform_system_keymint.Tag.Info.Table.Usage.{info_from_include_unique_id}
use platform_system_keymint.Tag.Info.Table.Users.{info_from_user_id}
use platform_system_keymint.Tag.Info.Table.Device.{info_from_application_id}
use platform_system_keymint.Tag.Info.Table.Identity.{info_from_attestation_application_id}
use platform_system_keymint.Tag.Info.Table.Versions.{info_from_vendor_patchlevel}
use platform_system_keymint.Tag.Info.Table.Certificates.{info_from_certificate_not_before}

unfoldable pub info_table : List (Tag × Info)
unfolding info_from_purpose info_from_include_unique_id info_from_user_id info_from_application_id
    info_from_attestation_application_id info_from_vendor_patchlevel
    info_from_certificate_not_before
info_table =
    (info_from_purpose
      ++ (info_from_include_unique_id
          ++ (info_from_user_id
              ++ (info_from_application_id
                  ++ (info_from_attestation_application_id
                      ++ (info_from_vendor_patchlevel ++ info_from_certificate_not_before))))))
