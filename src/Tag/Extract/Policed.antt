-- ===== src/Tag/Extract/Policed.antt =====
-- Which characteristics a new key gets, and which requests are refused (common/src/tag.rs).
use platform_system_keymint.Common.{
  ◌≡◌, refl, ap, ◌∙◌, Bool, true, false, ◌&&◌, ◌||◌, not, List, [], ◌∷◌, ◌++◌, append_assoc,
  append-nil, ok, err, inl, inr, arith, Bool-cases, if◌then◌else◌, ◌==◌, fail_if, ◌>>=◌,
}
use platform_system_keymint.KmError.{Result, Error, hal}
use platform_system_keymint.Wire.Errors.{ErrorCode}
use platform_system_keymint.Wire.Modes.{SecurityLevel, security_level_eq}
use platform_system_keymint.Wire.Tags.{Tag, tag_eq, tag_as_u32}
use platform_system_keymint.Wire.KeyParams.{KeyParam, tag}
use platform_system_keymint.Tag.Begin.Ciphers.{contains}
use platform_system_keymint.Tag.Order.{param_compare, sort_by}
use platform_system_keymint.Tag.Extract.{
  SecureStorage, AuthSeen, Collected, keystore_enforced_characteristics,
  keymint_enforced_characteristics, auto_added_characteristics, see_auth, see_auths,
  reject_incompatible_auth, collect_limit, collect_enforced, collect, at_levels,
  extract_key_characteristics,
}

-- The elements for which a test holds.
abbrev pub keep : (KeyParam → Bool) → List KeyParam → List KeyParam
keep test [] = []
keep test (p ∷ ps) = if test p then p ∷ keep test ps else keep test ps

abbrev pub all : (KeyParam → Bool) → List KeyParam → Bool
all test [] = true
all test (p ∷ ps) = test p && all test ps

abbrev pub any : (KeyParam → Bool) → List KeyParam → Bool
any test [] = false
any test (p ∷ ps) = test p || any test ps

-- A use limit that KeyMint enforces, and one that Keystore enforces.
abbrev keymint_limit : SecureStorage → KeyParam → Bool
keymint_limit SecureStorage.available (KeyParam.usage_count_limit n) = n == 1
keymint_limit storage _ = false

abbrev keystore_limit : SecureStorage → KeyParam → Bool
keystore_limit SecureStorage.available (KeyParam.usage_count_limit n) = not (n == 1)
keystore_limit SecureStorage.unavailable (KeyParam.usage_count_limit n) = true
keystore_limit storage _ = false

-- The parameters that become characteristics.
abbrev pub for_keymint : SecureStorage → KeyParam → Bool
for_keymint storage p = keymint_limit storage p || contains keymint_enforced_characteristics (tag p)

abbrev pub for_keystore : SecureStorage → KeyParam → Bool
for_keystore storage p =
    keystore_limit storage p || contains keystore_enforced_characteristics (tag p)

-- The parameters that a request may hold.
abbrev pub allowed : SecurityLevel → KeyParam → Bool
allowed level p =
    not (contains auto_added_characteristics (tag p))
    && not (
        security_level_eq level SecurityLevel.strongbox
        && contains (Tag.max_uses_per_boot ∷ Tag.rollback_resistance ∷ []) (tag p))

abbrev is_secure_id : KeyParam → Bool
is_secure_id (KeyParam.user_secure_id _) = true
is_secure_id _ = false

abbrev is_auth_type : KeyParam → Bool
is_auth_type (KeyParam.user_auth_type _) = true
is_auth_type _ = false

abbrev is_no_auth : KeyParam → Bool
is_no_auth KeyParam.no_auth_required = true
is_no_auth _ = false

-- A key without authentication has neither a user nor a type of authentication, and a key with a
-- user has a type.
abbrev pub auth_consistent : List KeyParam → Bool
auth_consistent ps =
    not (any is_no_auth ps && (any is_secure_id ps || any is_auth_type ps))
    && (not (any is_secure_id ps) || any is_auth_type ps)

see_auth-flags :
    (p : KeyParam) (seen : AuthSeen)
    → see_auth p seen ≡ record {
      user_secure_id = is_secure_id p || seen.user_secure_id;
      auth_type = is_auth_type p || seen.auth_type;
      no_auth = is_no_auth p || seen.no_auth;
    }
unfolding see_auth
see_auth-flags (KeyParam.user_secure_id v) seen = refl
see_auth-flags _ seen = refl

collect_step :
    (storage : SecureStorage) (p : KeyParam) (c : Collected)
    → collect_enforced p (collect_limit storage p c) ≡ record {
      chars = c.chars ++ keep (for_keymint storage) (p ∷ []);
      keystore_chars = c.keystore_chars ++ keep (for_keystore storage) (p ∷ []);
    }
unfolding collect_enforced collect_limit contains tag tag_eq tag_as_u32
    keystore_enforced_characteristics keymint_enforced_characteristics
collect_step SecureStorage.available (KeyParam.usage_count_limit n) c =
    ground (arith, append-nil c.chars, append-nil c.keystore_chars)
collect_step storage _ c = ground (arith, append-nil c.chars, append-nil c.keystore_chars)

keep-cons :
    (test : KeyParam → Bool) (cs : List KeyParam) (p : KeyParam) (ps : List KeyParam)
    → (cs ++ keep test (p ∷ [])) ++ keep test ps ≡ cs ++ keep test (p ∷ ps)
keep-cons test cs p ps = elim (Bool-cases (test p)) [
  | inl e ↦ rw e (append_assoc cs (p ∷ []) (keep test ps))
  | inr e ↦ rw (e, append-nil cs) refl
]

-- Two tests before the rest.
guards :
    {A : Type 0} (a b t : Bool) (rest : Result A) (v w : A) (e : Error)
    → rest ≡ (if t then ok v else err e)
    → v ≡ w
    → (fail_if a e >>= λ _. fail_if b e >>= λ _. rest)
      ≡ (if (not a && not b) && t then ok w else err e)
guards true b t rest v w e h same = refl
guards false true t rest v w e h same = refl
guards false false t rest v w e h same = h ∙ ap (λ x. if t then ok x else err e) same

-- The loop keeps the parameters of each kind, unless it meets one that a request may not hold.
collect_kept :
    (storage : SecureStorage) (level : SecurityLevel) (ps : List KeyParam) (c : Collected)
    → collect storage level ps c ≡ (
        if all (allowed level) ps
        then ok (record {
          chars = c.chars ++ keep (for_keymint storage) ps;
          keystore_chars = c.keystore_chars ++ keep (for_keystore storage) ps;
        })
        else err (hal ErrorCode.invalid_tag))
unfolding collect
collect_kept storage level [] c = ground (arith, append-nil c.chars, append-nil c.keystore_chars)
collect_kept storage level (p ∷ ps) c =
    guards (contains auto_added_characteristics (tag p))
      (security_level_eq level SecurityLevel.strongbox
        && contains (Tag.max_uses_per_boot ∷ Tag.rollback_resistance ∷ []) (tag p))
      (all (allowed level) ps)
      (collect storage level ps (collect_enforced p (collect_limit storage p c)))
      (after (collect_enforced p (collect_limit storage p c)))
      (record {
        chars = c.chars ++ keep (for_keymint storage) (p ∷ ps);
        keystore_chars = c.keystore_chars ++ keep (for_keystore storage) (p ∷ ps);
      })
      (hal ErrorCode.invalid_tag)
      (collect_kept storage level ps (collect_enforced p (collect_limit storage p c)))
      (ap after (collect_step storage p c)
        ∙ cc (
          keep-cons (for_keymint storage) c.chars p ps,
          keep-cons (for_keystore storage) c.keystore_chars p ps,
        ))
  where
    after : Collected → Collected
    after d = record {
      chars = d.chars ++ keep (for_keymint storage) ps;
      keystore_chars = d.keystore_chars ++ keep (for_keystore storage) ps;
    }

see_auths-flags :
    (ps : List KeyParam) (seen : AuthSeen)
    → see_auths ps seen ≡ record {
      user_secure_id = any is_secure_id ps || seen.user_secure_id;
      auth_type = any is_auth_type ps || seen.auth_type;
      no_auth = any is_no_auth ps || seen.no_auth;
    }
unfolding see_auths
see_auths-flags [] seen = refl
see_auths-flags (p ∷ ps) seen =
    ground (arith, see_auths-flags ps (see_auth p seen), see_auth-flags p seen)

reject_incompatible_auth-consistent :
    (ps : List KeyParam)
    → reject_incompatible_auth ps
      ≡ (if auth_consistent ps then ok tt else err (hal ErrorCode.invalid_tag))
unfolding reject_incompatible_auth
reject_incompatible_auth-consistent ps = ground (
  arith,
  see_auths-flags ps (record { user_secure_id = false; auth_type = false; no_auth = false }),
)

-- The characteristics of a new key, as filters of its parameters: a request is refused, with one
-- error, when it holds a parameter that KeyMint adds itself or StrongBox does not support, or when
-- the characteristics for KeyMint name authentication inconsistently. Otherwise the key gets the
-- enforced parameters at its own security level and those for Keystore at that of Keystore, sorted.
pub extract_key_characteristics-keep :
    (storage : SecureStorage) (ps extra : List KeyParam) (level : SecurityLevel)
    → extract_key_characteristics storage ps extra level ≡ (
        if all (allowed level) (ps ++ extra)
          && auth_consistent (keep (for_keymint storage) (ps ++ extra))
        then ok (
            at_levels level
              (sort_by param_compare (keep (for_keymint storage) (ps ++ extra)))
              (sort_by param_compare (keep (for_keystore storage) (ps ++ extra))))
        else err (hal ErrorCode.invalid_tag))
unfolding extract_key_characteristics
extract_key_characteristics-keep storage ps extra level = ground (
  arith,
  collect_kept storage level (ps ++ extra) (record { chars = []; keystore_chars = [] }),
  reject_incompatible_auth-consistent (keep (for_keymint storage) (ps ++ extra)),
)
