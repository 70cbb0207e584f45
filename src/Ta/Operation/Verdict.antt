-- ===== src/Ta/Operation/Verdict.antt =====
-- What a successful end of an operation has checked (ta/src/operation.rs): the signature of an HMAC
-- verification, and the trusted confirmation of the data.
use platform_system_keymint.Common.{
  ℕ, ◌+◌, ◌≤◌, ◌<◌, ◌≡◌, ◌↔◌, refl, sym, ap, ◌∙◌, true, inl, inr, Option, none, some, List, [],
  ◌++◌, length, take, ok, panic, Outcome-cases, arith,
}
use platform_system_keymint.Ta.Tokens.{HardwareAuthToken, TimeStampToken}
use platform_system_keymint.Ta.Platform.{Platform, Env}
use platform_system_keymint.Ta.Auth.Validity.{HasMac, verify-HasMac}
use platform_system_keymint.Ta.Operation.Crypto.{
  Operation, accumulate, accumulating_end, verify_end, confirmation_data_prefix,
  confirmation_message_max_len,
}
use platform_system_keymint.Ta.Operation.Table.{KeyMintTa, find_op}
use platform_system_keymint.Ta.Operation.Confirm.{
  finish_conf_data, verify_confirmation_token, finish_confirmation,
}
use platform_system_keymint.Ta.Operation.Handlers.{op_finish}
use platform_system_keymint.Ta.Operation.Finish.{op_finish-Finished}

module _ (P : Platform) where
  -- The signature is a long enough prefix of the computed MAC, by the constant-time comparison.
  pub record Verifies (op : P.Accumulating) (lo hi : ℕ) (input : Option (List ℕ)) (sig : List ℕ)
      : Type 0 where
    pub got : List ℕ
    pub mac_computed : accumulating_end P op input ≡ ok got
    pub long_enough : lo ≤ length sig
    pub below_limit : length sig < hi
    pub within_mac : length sig ≤ length got
    pub same : P.eq (take (length sig) got) sig ≡ true

  verify_end-Verifies :
      (op : P.Accumulating) (lo hi : ℕ) (input : Option (List ℕ)) (sig result : List ℕ)
      → verify_end P op lo hi input (some sig) ≡ ok result
      → Verifies op lo hi input sig
  unfolding verify_end
  verify_end-Verifies op lo hi input sig result e =
      elim (Outcome-cases (accumulating_end P op input)) [
        | inr bad ↦ ground (arith)
        | inl (got, q) ↦ record {
          got = got;
          mac_computed = q;
          long_enough = ground (arith);
          below_limit = ground (arith);
          within_mac = ground (arith);
          same = ground (arith);
        }
      ]

  Verifies-verify_end :
      (op : P.Accumulating) (lo hi : ℕ) (input : Option (List ℕ)) (sig : List ℕ)
      → Verifies op lo hi input sig
      → verify_end P op lo hi input (some sig) ≡ ok []
  unfolding verify_end
  Verifies-verify_end op lo hi input sig v =
      ground (arith, v.mac_computed, v.long_enough, v.below_limit, v.within_mac, v.same)

  -- An HMAC verification succeeds exactly when the length of the signature is in the range and the
  -- signature is the prefix of that length of the MAC of all the data.
  pub verify_end-eq-ok :
      (op : P.Accumulating) (lo hi : ℕ) (input : Option (List ℕ)) (sig : List ℕ)
      → (verify_end P op lo hi input (some sig) ≡ ok []) ↔ Verifies op lo hi input sig
  verify_end-eq-ok op lo hi input sig =
      (verify_end-Verifies op lo hi input sig [], Verifies-verify_end op lo hi input sig)

  -- An HMAC verification panics when the signature has a length in the range and is longer than
  -- the computed MAC.
  pub verify_end-panic :
      (op : P.Accumulating) (lo hi : ℕ) (input : Option (List ℕ)) (sig got : List ℕ)
      → lo ≤ length sig
      → length sig < hi
      → accumulating_end P op input ≡ ok got
      → length got < length sig
      → verify_end P op lo hi input (some sig) ≡ panic
  unfolding verify_end
  verify_end-panic op lo hi input sig got a b q c = ground (arith)

-- The accumulated data with the last data, if there is some.
abbrev pub all_data : List ℕ → Option (List ℕ) → List ℕ
all_data conf_data none = conf_data
all_data conf_data (some input) = conf_data ++ input

-- The bound on the data to be confirmed, which is checked where data is added.
abbrev pub IsWithinLimit : List ℕ → Option (List ℕ) → Type 0
IsWithinLimit conf_data none = Unit {0}
IsWithinLimit conf_data (some input) =
    length conf_data + length input ≤ length confirmation_data_prefix + confirmation_message_max_len

module _ (P : Platform) (env : Env) where
  -- A token of the right length whose MAC is that of the data.
  pub record IsConfirmed (conf_data : List ℕ) (confirmation : Option (List ℕ)) : Type 0 where
    pub token : List ℕ
    pub given : confirmation ≡ some token
    pub right_size : length token ≡ 32
    pub verified : HasMac P env conf_data token

  confirmation-IsConfirmed :
      (conf_data : List ℕ) (confirmation : Option (List ℕ))
      → finish_confirmation P env (some conf_data) confirmation ≡ ok tt
      → IsConfirmed conf_data confirmation
  unfolding finish_confirmation verify_confirmation_token
  confirmation-IsConfirmed conf_data none e = cc
  confirmation-IsConfirmed conf_data (some token) e = record {
    token = token;
    given = refl;
    right_size = ground (arith);
    verified = verify-HasMac P env conf_data token (ground (arith));
  }

  conf_data-some :
      (conf_data : List ℕ) (input conf : Option (List ℕ))
      → finish_conf_data P env (some conf_data) input ≡ ok conf
      → (conf ≡ some (all_data conf_data input)) × IsWithinLimit conf_data input
  unfolding finish_conf_data accumulate
  conf_data-some conf_data none conf e = (ground (arith), tt)
  conf_data-some conf_data (some input) conf e = ground (arith)

  -- When `op_finish` succeeds on an operation that needs a trusted confirmation, a confirmation
  -- token of 32 bytes was given whose MAC verifies under the device's key over all accumulated
  -- data, followed by the data of this call if there is some. In that case both are together
  -- within the limit.
  pub op_finish-IsConfirmed :
      (h i : ℕ) (op : Operation P) (conf_data : List ℕ) (input signature : Option (List ℕ))
      (auth_token : Option HardwareAuthToken) (stamp : Option TimeStampToken)
      (confirmation : Option (List ℕ)) (s : KeyMintTa P) (result : List ℕ)
      → find_op s.operations h ≡ some (i, op)
      → op.trusted_conf_data ≡ some conf_data
      → (op_finish P env h input signature auth_token stamp confirmation s).0 ≡ ok result
      → IsConfirmed (all_data conf_data input) confirmation × IsWithinLimit conf_data input
  op_finish-IsConfirmed h i op conf_data input signature auth_token stamp confirmation s result q
        needs e =
      let f = op_finish-Finished P env h input signature auth_token stamp confirmation s result e in
      let same : f.op ≡ op = ground (arith, f.was) in
      let (all, within) = conf_data-some conf_data input f.conf (
        ap (λ d. finish_conf_data P env d input) (sym needs)
        ∙ ap (λ o. finish_conf_data P env o.trusted_conf_data input) (sym same)
        ∙ f.accumulated) in
      (
        confirmation-IsConfirmed (all_data conf_data input) confirmation
            (ap (λ c. finish_confirmation P env c confirmation) (sym all) ∙ f.confirmed),
        within,
      )
