-- ===== src/Tests/Device.antt =====
-- A small device for the tests: operations collect their input, and a MAC is the sum of the bytes.
use platform_system_keymint.Common.{
  ℕ, ◌+◌, ◌%◌, Bool, true, false, ◌&&◌, Option, none, some, List, [], ◌∷◌, ◌++◌, replicate, ok,
  ◌==◌,
}
use platform_system_keymint.Common.Bytes.{little}
use platform_system_keymint.Ta.Platform.{Platform, Env}

abbrev sum : List ℕ → ℕ
sum [] = 0
sum (x ∷ xs) = (x + sum xs) % 256

abbrev same_bytes : List ℕ → List ℕ → Bool
same_bytes [] [] = true
same_bytes [] (y ∷ ys) = false
same_bytes (x ∷ xs) [] = false
same_bytes (x ∷ xs) (y ∷ ys) = (x == y) && same_bytes xs ys

-- 32 bytes, each the sum.
abbrev pub sum_mac : List ℕ → List ℕ
sum_mac bytes = replicate 32 (sum bytes)

abbrev pub device : Platform
device = record {
  Emitting = List ℕ;
  emitting_update = λ op input. ok (input, op ++ input);
  emitting_finish = λ op. ok [];
  Aad = List ℕ;
  aad_update_aad = λ op aad. ok (op ++ aad);
  aad_update = λ op input. ok (input, op ++ input);
  aad_finish = λ op. ok (sum_mac op);
  Accumulating = List ℕ;
  max_input_size = λ op. none;
  accumulating_update = λ op input. ok (op ++ input);
  accumulating_finish = λ op. ok (sum_mac op);
  SddManager = Unit {0};
  delete_secret = λ mgr slot. (ok tt, mgr);
  eq = same_bytes;
  endian = little;
}

abbrev pub mac_env : Option ℕ → Bool → Env
mac_env clock tup = record {
  clock = clock;
  tup_available = tup;
  device_hmac = some (λ bytes. ok (sum_mac bytes));
}

abbrev pub env : Env
env = mac_env none true
