-- ===== src/Ta/Response.antt =====
-- A response that is larger than the channel is split by `split_rsp` (ta/src/lib.rs), and put
-- together again by the host with `extract_rsp` (hal/src/lib.rs).
use mathlib.Core.Path.{subst}
use platform_system_keymint.Common.{
  ℕ, zero, suc, ◌-◌, ◌≤◌, ◌<◌, ◌≡◌, refl, ap, ◌∙◌, Bool, true, false, ◌||◌, inl, inr, Option, none,
  some, List, [], ◌∷◌, ◌++◌, length, take, drop, take-append-drop, length-drop, length-take_le, All,
  ltb, ◌==◌, if◌then◌else◌, Bool-cases, ok, fail_if, ◌>>◌, arith,
}
use platform_system_keymint.KmError.{Result, hal}
use platform_system_keymint.Wire.Errors.{ErrorCode}

abbrev pub next_message_signal_true : ℕ
next_message_signal_true = 1

abbrev pub next_message_signal_false : ℕ
next_message_signal_false = 0

-- The `while` loop and the last message. Each turn takes at least one byte when the allowed length
-- is positive, so the length of the data is enough fuel.
unfoldable pub split_loop : ℕ → ℕ → List ℕ → List (List ℕ)
split_loop zero allowed rsp_data = []
split_loop (suc fuel) allowed rsp_data =
    let rest = split_loop fuel allowed (drop allowed rsp_data) in
    if ltb allowed (length rsp_data)
    then (next_message_signal_true ∷ take allowed rsp_data) ∷ rest
    else (next_message_signal_false ∷ rsp_data) ∷ []

abbrev is_empty : List ℕ → Bool
is_empty [] = true
is_empty _ = false

unfoldable pub split_rsp : List ℕ → ℕ → Result (List (List ℕ))
unfolding split_loop
split_rsp rsp_data max_size = do
  fail_if (is_empty rsp_data || ltb max_size 2) (hal ErrorCode.invalid_argument)
  ok (split_loop (suc (length rsp_data)) (max_size - 1) rsp_data)

-- Whether more messages follow, and the content. `none` is the exception for a short message.
unfoldable pub extract_rsp : List ℕ → Option (Bool × List ℕ)
extract_rsp [] = none
extract_rsp (signal ∷ []) = none
extract_rsp (signal ∷ byte ∷ content) = some (signal == next_message_signal_true, byte ∷ content)

-- The host's use of `extract_rsp`: it reads messages as long as the last one says that more follow,
-- and gives the content and the messages that it has not read.
unfoldable pub collect : List (List ℕ) → Option (List ℕ × List (List ℕ))
unfolding extract_rsp
collect [] = none
collect (msg ∷ msgs) =
    let rest = collect msgs in
    elim (extract_rsp msg) [
      | none ↦ none
      | some (more, content) ↦
          if more
          then elim rest [ none ↦ none | some (tail, unread) ↦ some (content ++ tail, unread) ]
          else some (content, msgs)
    ]

extract_rsp-cons :
    (signal : ℕ) (content : List ℕ)
    → 0 < length content
    → extract_rsp (signal ∷ content) ≡ some (signal == next_message_signal_true, content)
unfolding extract_rsp
extract_rsp-cons signal [] h = absurd (omega arith)
extract_rsp-cons signal (b ∷ bs) h = refl

abbrev pub Bounded : ℕ → List ℕ → Type 0
Bounded max_size msg = (2 ≤ length msg) × (length msg ≤ max_size)

collect_step :
    (content : List ℕ) (msgs : List (List ℕ)) (tail : List ℕ) (unread : List (List ℕ))
    → 0 < length content
    → collect msgs ≡ some (tail, unread)
    → collect ((next_message_signal_true ∷ content) ∷ msgs) ≡ some (content ++ tail, unread)
unfolding collect
collect_step content msgs tail unread h q = let e = extract_rsp-cons 1 content h in ground (arith)

collect_last :
    (content : List ℕ) (msgs : List (List ℕ))
    → 0 < length content
    → collect ((next_message_signal_false ∷ content) ∷ msgs) ≡ some (content, msgs)
unfolding collect
collect_last content msgs h = let e = extract_rsp-cons 0 content h in ground (arith)

split_loop-collect :
    (fuel allowed : ℕ) (rsp_data : List ℕ) (more : List (List ℕ))
    → 1 ≤ allowed
    → 0 < length rsp_data
    → length rsp_data < fuel
    → (collect (split_loop fuel allowed rsp_data ++ more) ≡ some (rsp_data, more))
      × All (Bounded (suc allowed)) (split_loop fuel allowed rsp_data)
unfolding split_loop
split_loop-collect zero allowed rsp_data more a b c = absurd (omega arith)
split_loop-collect (suc fuel) allowed rsp_data more a b c =
    elim (Bool-cases (ltb allowed (length rsp_data))) [
      | inr f ↦ rw f (collect_last rsp_data more b, ((ground (arith), ground (arith)), tt))
      | inl t ↦
          let l = length-drop allowed rsp_data in
          let n : allowed < length rsp_data = ground (arith) in
          let k = length-take_le allowed rsp_data (omega arith) in
          let ih =
            split_loop-collect fuel allowed (drop allowed rsp_data) more a (omega arith)
              (omega arith) in
          rw t (
            collect_step (take allowed rsp_data) _ _ more (omega arith) ih.0
                ∙ ap (λ d. some (d, more)) (take-append-drop allowed rsp_data),
            ((omega arith, omega arith), ih.1),
          )
    ]

-- For a response that is not empty and messages of at least 2 bytes, `split_rsp` succeeds, each
-- message has at least 2 bytes and at most the maximum, and a host that follows the signals reads
-- back exactly the response and leaves whatever messages come after it.
pub split_rsp-collect :
    (rsp_data : List ℕ) (max_size : ℕ) (more : List (List ℕ))
    → 0 < length rsp_data
    → 2 ≤ max_size
    → (msgs : List (List ℕ)) × (split_rsp rsp_data max_size ≡ ok msgs)
      × All (Bounded max_size) msgs
      × (collect (msgs ++ more) ≡ some (rsp_data, more))
unfolding split_rsp
split_rsp-collect [] max_size more a b = absurd (omega arith)
split_rsp-collect (x ∷ xs) max_size more a b =
    let r =
      split_loop-collect (suc (suc (length xs))) (max_size - 1) (x ∷ xs) more (omega arith) a
        (omega arith) in
    (
      split_loop (suc (suc (length xs))) (max_size - 1) (x ∷ xs),
      ground (arith),
      subst (λ m. All (Bounded m) (split_loop (suc (suc (length xs))) (max_size - 1) (x ∷ xs)))
          (omega arith) r.1,
      r.0,
    )
