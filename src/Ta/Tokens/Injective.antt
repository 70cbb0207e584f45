-- ===== src/Ta/Tokens/Injective.antt =====
-- The bytes that the MAC of an authentication token covers (ta/src/lib.rs) determine the token.
use platform_system_keymint.Common.{
  ℕ, ◌<◌, ◌≡◌, sym, ap, ◌∙◌, some, List, ◌++◌, length, take, drop, take-append, drop-append,
}
use platform_system_keymint.Common.Bytes.{
  Endian, big, to_ne_bytes, from_ne_bytes, length-to_ne_bytes, from_ne_bytes-to_ne_bytes_u32,
  from_ne_bytes-to_ne_bytes_u64,
}
use platform_system_keymint.Wire.Tokens.{
  hardware_authenticator_type_as_u32, hardware_authenticator_type_try_from,
  hardware_authenticator_type_try_from-as_u32, hardware_authenticator_type_as_u32_lt,
}
use platform_system_keymint.Ta.Tokens.{HardwareAuthToken, hardware_auth_token_mac_input}

-- The numbers of the token are in the range of their types.
pub record IsRanged (token : HardwareAuthToken) : Type 0 where
  pub challenge : token.challenge < 18446744073709551616
  pub user : token.user_id < 18446744073709551616
  pub authenticator : token.authenticator_id < 18446744073709551616
  pub time : token.timestamp < 18446744073709551616

-- Equal strings with first parts of equal lengths have equal parts.
split_eq :
    (xs ys us vs : List ℕ) → length xs ≡ length ys → xs ++ us ≡ ys ++ vs → (xs ≡ ys) × (us ≡ vs)
split_eq xs ys us vs l e = (
  sym (take-append xs us)
      ∙ ap (take (length xs)) e
      ∙ ap (λ n. take n (ys ++ vs)) l
      ∙ take-append ys vs,
  sym (drop-append xs us)
      ∙ ap (drop (length xs)) e
      ∙ ap (λ n. drop n (ys ++ vs)) l
      ∙ drop-append ys vs,
)

split_word :
    (e : Endian) (w a b : ℕ) (us vs : List ℕ)
    → to_ne_bytes e w a ++ us ≡ to_ne_bytes e w b ++ vs
    → (to_ne_bytes e w a ≡ to_ne_bytes e w b) × (us ≡ vs)
split_word e w a b us vs =
    split_eq (to_ne_bytes e w a) (to_ne_bytes e w b) us vs
      (length-to_ne_bytes e w a ∙ sym (length-to_ne_bytes e w b))

word_u64 :
    (e : Endian) (a b : ℕ)
    → a < 18446744073709551616
    → b < 18446744073709551616
    → to_ne_bytes e 8 a ≡ to_ne_bytes e 8 b
    → a ≡ b
word_u64 e a b ha hb h =
    sym (from_ne_bytes-to_ne_bytes_u64 e a ha)
    ∙ ap (from_ne_bytes e) h
    ∙ from_ne_bytes-to_ne_bytes_u64 e b hb

word_u32 :
    (e : Endian) (a b : ℕ)
    → a < 4294967296
    → b < 4294967296
    → to_ne_bytes e 4 a ≡ to_ne_bytes e 4 b
    → a ≡ b
word_u32 e a b ha hb h =
    sym (from_ne_bytes-to_ne_bytes_u32 e a ha)
    ∙ ap (from_ne_bytes e) h
    ∙ from_ne_bytes-to_ne_bytes_u32 e b hb

-- The tokens agree in everything but the MAC.
pub record SameClaims (a b : HardwareAuthToken) : Type 0 where
  pub challenge : a.challenge ≡ b.challenge
  pub user : a.user_id ≡ b.user_id
  pub authenticator : a.authenticator_id ≡ b.authenticator_id
  pub kind : some a.authenticator_type ≡ some b.authenticator_type
  pub time : a.timestamp ≡ b.timestamp

-- Two tokens whose numbers are in range and whose MACs cover the same bytes agree in their
-- challenge, user, authenticator, type and time: one MAC does not serve for two different tokens.
pub mac_input-SameClaims :
    (e : Endian) (a b : HardwareAuthToken)
    → IsRanged a
    → IsRanged b
    → hardware_auth_token_mac_input e a ≡ hardware_auth_token_mac_input e b
    → SameClaims a b
unfolding hardware_auth_token_mac_input
mac_input-SameClaims e a b ra rb h =
    let (v, h1) = split_word big 1 0 0 _ _ h in
    let (c, h2) = split_word e 8 a.challenge b.challenge _ _ h1 in
    let (u, h3) = split_word e 8 a.user_id b.user_id _ _ h2 in
    let (i, h4) = split_word e 8 a.authenticator_id b.authenticator_id _ _ h3 in
    let ta = hardware_authenticator_type_as_u32 a.authenticator_type in
    let tb = hardware_authenticator_type_as_u32 b.authenticator_type in
    let (t, h5) = split_word big 4 ta tb _ _ h4 in
    record {
      challenge = word_u64 e a.challenge b.challenge ra.challenge rb.challenge c;
      user = word_u64 e a.user_id b.user_id ra.user rb.user u;
      authenticator =
          word_u64 e a.authenticator_id b.authenticator_id ra.authenticator rb.authenticator i;
      kind =
          sym (hardware_authenticator_type_try_from-as_u32 a.authenticator_type)
          ∙ ap hardware_authenticator_type_try_from (
              word_u32 big ta tb (hardware_authenticator_type_as_u32_lt a.authenticator_type)
                (hardware_authenticator_type_as_u32_lt b.authenticator_type) t)
          ∙ hardware_authenticator_type_try_from-as_u32 b.authenticator_type;
      time = word_u64 big a.timestamp b.timestamp ra.time rb.time h5;
    }
