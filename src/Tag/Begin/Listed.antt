-- ===== src/Tag/Begin/Listed.antt =====
-- The values that an operation names are those of the key (common/src/tag.rs).
use platform_system_keymint.Common.{
  ℕ, ◌≡◌, Bool, true, false, Option, none, some, List, ok, ◌>>=◌, All, arith, >>=-eq-ok,
}
use platform_system_keymint.Wire.Errors.{ErrorCode}
use platform_system_keymint.Wire.Params.{
  Digest, Algorithm, block_mode_eq, block_mode_eq→eq, digest_eq, digest_eq→eq,
}
use platform_system_keymint.Wire.Modes.{KeyPurpose, padding_mode_eq, padding_mode_eq→eq}
use platform_system_keymint.Wire.KeyParams.{KeyParam}
use platform_system_keymint.Tag.Params.{get_opt_tag_value}
use platform_system_keymint.Tag.Params.Select.{
  as_block_mode, as_padding, as_digest, as_rsa_oaep_mgf_digest,
}
use platform_system_keymint.Tag.Params.Single.{
  values, get_opt_tag_value-ok_some, get_opt_tag_value-ok_none,
}
use platform_system_keymint.Tag.Params.Contained.{Among, contains_tag_value-Among}
use platform_system_keymint.Tag.Begin.{
  check_listed, mgf_digest_to_find, check_block_mode, check_padding, check_digest, check_mgf_digest,
  check_begin_for, check_named,
}
use platform_system_keymint.Tag.Begin.Ciphers.{BeginParamsToCheck, check_begin_aes_params}
use platform_system_keymint.Tag.Begin.Signatures.{check_begin_ec_params}

-- The checks that follow, of each algorithm.
abbrev pub checks : Algorithm → BeginParamsToCheck
checks Algorithm.rsa = record {
  block_mode = false;
  padding = true;
  digest = true;
  mgf_digest = true;
}
checks Algorithm.ec = record {
  block_mode = false;
  padding = false;
  digest = true;
  mgf_digest = false;
}
checks Algorithm.aes = record {
  block_mode = true;
  padding = true;
  digest = false;
  mgf_digest = false;
}
checks Algorithm.triple_des = record {
  block_mode = true;
  padding = true;
  digest = false;
  mgf_digest = false;
}
checks Algorithm.hmac = record {
  block_mode = false;
  padding = false;
  digest = true;
  mgf_digest = false;
}

pub check_begin_for-checks :
    (algo : Algorithm) (chars : List KeyParam) (purpose : KeyPurpose) (params : List KeyParam)
    (given : Option (List ℕ)) (check : BeginParamsToCheck)
    → check_begin_for algo chars purpose params given ≡ ok check
    → check ≡ checks algo
unfolding check_begin_for check_begin_ec_params check_begin_aes_params
check_begin_for-checks Algorithm.rsa chars purpose params given check h = ground arith
check_begin_for-checks _ chars purpose params given check h = ground arith

-- Every value of a variant that the parameters hold is one that the key holds.
abbrev pub Listed : {A : Type 0} → (KeyParam → Option A) → List KeyParam → List KeyParam → Type 0
Listed select chars params = All (λ v. Among v (values select chars)) (values select params)

-- The variants that matter to an algorithm.
abbrev pub ListedFor : Algorithm → List KeyParam → List KeyParam → Type 0
ListedFor Algorithm.aes chars params =
    Listed as_block_mode chars params × Listed as_padding chars params
ListedFor Algorithm.triple_des chars params =
    Listed as_block_mode chars params × Listed as_padding chars params
ListedFor Algorithm.rsa chars params =
    Listed as_padding chars params
    × Listed as_digest chars params
    × Listed as_rsa_oaep_mgf_digest chars params
ListedFor Algorithm.ec chars params = Listed as_digest chars params
ListedFor Algorithm.hmac chars params = Listed as_digest chars params

module _ {A : Type 0} (select : KeyParam → Option A) (eq : A → A → Bool)
    (eq→ : (a b : A) → eq a b ≡ true → a ≡ b) where
  check_listed-Among :
      (e : ErrorCode) (chars : List KeyParam) (v : A)
      → check_listed select eq e chars (some v) ≡ ok tt
      → Among v (values select chars)
  unfolding check_listed
  check_listed-Among e chars v h = contains_tag_value-Among select eq eq→ chars v (ground arith)

  -- A value is looked for and then checked against the key.
  listed :
      (e d : ErrorCode) (chars params : List KeyParam)
      → (get_opt_tag_value select params d >>= check_listed select eq e chars) ≡ ok tt
      → Listed select chars params
  listed e d chars params h =
      let found =
        >>=-eq-ok (get_opt_tag_value select params d) (check_listed select eq e chars) h in
      given found.0 found.1 found.2
    where
      given :
          (o : Option A)
          → get_opt_tag_value select params d ≡ ok o
          → check_listed select eq e chars o ≡ ok tt
          → Listed select chars params
      given none f c = rw (get_opt_tag_value-ok_none select params d f) tt
      given (some v) f c =
          rw (get_opt_tag_value-ok_some select params d v f) (check_listed-Among e chars v c, tt)

mgf-Listed :
    (chars params : List KeyParam)
    → check_mgf_digest true chars params ≡ ok tt
    → Listed as_rsa_oaep_mgf_digest chars params
unfolding check_mgf_digest mgf_digest_to_find
mgf-Listed chars params h =
    let found =
      >>=-eq-ok (get_opt_tag_value as_rsa_oaep_mgf_digest params ErrorCode.unsupported_mgf_digest)
        (λ o.
          check_listed as_rsa_oaep_mgf_digest digest_eq ErrorCode.incompatible_mgf_digest chars
            (mgf_digest_to_find chars o))
        h in
    given found.0 found.1 found.2
  where
    given :
        (o : Option Digest)
        → get_opt_tag_value as_rsa_oaep_mgf_digest params ErrorCode.unsupported_mgf_digest ≡ ok o
        → check_listed as_rsa_oaep_mgf_digest digest_eq ErrorCode.incompatible_mgf_digest chars
            (mgf_digest_to_find chars o)
          ≡ ok tt
        → Listed as_rsa_oaep_mgf_digest chars params
    given none f c =
        rw
          (get_opt_tag_value-ok_none as_rsa_oaep_mgf_digest params ErrorCode.unsupported_mgf_digest
            f)
          tt
    given (some v) f c =
        rw
          (get_opt_tag_value-ok_some as_rsa_oaep_mgf_digest params ErrorCode.unsupported_mgf_digest
            v f)
          (
            check_listed-Among as_rsa_oaep_mgf_digest digest_eq digest_eq→eq
                ErrorCode.incompatible_mgf_digest chars v c,
            tt,
          )

block_mode-Listed :
    (chars params : List KeyParam)
    → check_block_mode true chars params ≡ ok tt
    → Listed as_block_mode chars params
unfolding check_block_mode
block_mode-Listed chars params h =
    listed as_block_mode block_mode_eq block_mode_eq→eq ErrorCode.incompatible_block_mode
      ErrorCode.unsupported_block_mode chars params h

padding-Listed :
    (chars params : List KeyParam)
    → check_padding true chars params ≡ ok tt
    → Listed as_padding chars params
unfolding check_padding
padding-Listed chars params h =
    listed as_padding padding_mode_eq padding_mode_eq→eq ErrorCode.incompatible_padding_mode
      ErrorCode.unsupported_padding_mode chars params h

digest-Listed :
    (chars params : List KeyParam)
    → check_digest true chars params ≡ ok tt
    → Listed as_digest chars params
unfolding check_digest
digest-Listed chars params h =
    listed as_digest digest_eq digest_eq→eq ErrorCode.incompatible_digest
      ErrorCode.unsupported_digest chars params h

pub check_named-ListedFor :
    (algo : Algorithm) (chars params : List KeyParam)
    → check_named (checks algo) chars params ≡ ok tt
    → ListedFor algo chars params
unfolding check_named
check_named-ListedFor Algorithm.rsa chars params h = (
  padding-Listed chars params (ground arith),
  digest-Listed chars params (ground arith),
  mgf-Listed chars params (ground arith),
)
check_named-ListedFor Algorithm.ec chars params h = digest-Listed chars params (ground arith)
check_named-ListedFor Algorithm.hmac chars params h = digest-Listed chars params (ground arith)
check_named-ListedFor Algorithm.aes chars params h =
    (block_mode-Listed chars params (ground arith), padding-Listed chars params (ground arith))
check_named-ListedFor Algorithm.triple_des chars params h =
    (block_mode-Listed chars params (ground arith), padding-Listed chars params (ground arith))
