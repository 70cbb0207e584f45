-- ===== src/Tag/Legacy/Format.antt =====
-- `serialize` of common/src/tag/legacy.rs writes the format that its comment lays out.
use native.Mathlib.Nat.{add-zero, zero-add, mod-eq_of_lt}
use platform_system_keymint.Common.{
  ℕ, ◌+◌, ◌-◌, ◌%◌, ◌<◌, ◌≡◌, refl, ap, ◌∙◌, Option, none, some, List, [], ◌∷◌, ◌++◌, append_assoc,
  append-nil, length, take, drop, replicate, length-append, take-append, drop-append, lt→ltb, ok,
  arith,
}
use platform_system_keymint.Common.Bytes.{Endian, to_ne_bytes}
use platform_system_keymint.Wire.Tags.{tag_as_u32}
use platform_system_keymint.Wire.KeyParams.{KeyParam, tag}
use platform_system_keymint.Tag.Legacy.Serialize.{blob_of, append_blobs, append_params, serialize}
use platform_system_keymint.Tag.Legacy.Layout.{
  Payload, word4, word8, one, bytes, payload, blob_bytes, payload_bytes, next_offset,
  append_value-payload,
}

-- The blob data: the contents of the blobs, one after another.
abbrev pub blobs : List KeyParam → List ℕ
blobs [] = []
blobs (p ∷ ps) = blob_bytes (payload p) ++ blobs ps

abbrev pub entry : Endian → KeyParam → ℕ → List ℕ
entry e p offset = to_ne_bytes e 4 (tag_as_u32 (tag p)) ++ payload_bytes e (payload p) offset

abbrev pub entries : Endian → List KeyParam → ℕ → List ℕ
entries e [] offset = []
entries e (p ∷ ps) offset = entry e p offset ++ entries e ps (next_offset (payload p) offset)

abbrev pub layout : Endian → List KeyParam → List ℕ
layout e ps =
    to_ne_bytes e 4 (length (blobs ps))
    ++ (blobs ps
        ++ (to_ne_bytes e 4 (length ps)
            ++ (to_ne_bytes e 4 (length (entries e ps 0)) ++ entries e ps 0)))

-- All sizes that the format stores fit in their 32 bits.
pub record IsStorable (e : Endian) (ps : List KeyParam) : Type 0 where
  pub blobs_fit : length (blobs ps) < 4294967296
  pub count_fits : length ps < 4294967296
  pub entries_fit : length (entries e ps 0) < 4294967296

abbrev as_blob : Payload → Option (List ℕ)
as_blob (bytes v) = some v
as_blob _ = none

blob_of-payload : (p : KeyParam) → blob_of p ≡ as_blob (payload p)
unfolding blob_of payload
blob_of-payload (KeyParam.purpose v) = refl
blob_of-payload _ = refl

pub next_offset-eq : (pl : Payload) (o : ℕ) → next_offset pl o ≡ o + length (blob_bytes pl)
next_offset-eq (word4 v) o = omega arith
next_offset-eq (word8 v) o = omega arith
next_offset-eq one o = omega arith
next_offset-eq (bytes v) o = refl

append_blobs-step :
    (p : KeyParam) (ps : List KeyParam) (pl : Payload) (r : List ℕ) (s : ℕ)
    → payload p ≡ pl
    → s + length (blob_bytes pl) < 4294967296
    → append_blobs (p ∷ ps) r s ≡ append_blobs ps (r ++ blob_bytes pl) (s + length (blob_bytes pl))
unfolding append_blobs
append_blobs-step p ps (word4 v) r s e h =
    rw (blob_of-payload p ∙ ap as_blob e, append_blobs) (cc (append-nil r, add-zero s))
append_blobs-step p ps (word8 v) r s e h =
    rw (blob_of-payload p ∙ ap as_blob e, append_blobs) (cc (append-nil r, add-zero s))
append_blobs-step p ps one r s e h =
    rw (blob_of-payload p ∙ ap as_blob e, append_blobs) (cc (append-nil r, add-zero s))
append_blobs-step p ps (bytes v) r s e h =
    rw (blob_of-payload p ∙ ap as_blob e, append_blobs)
      (rw (mod-eq_of_lt {n = length v} {m = 4294967296} (omega arith)) (rw (lt→ltb _ _ h)))

append_blobs-blobs :
    (ps : List KeyParam) (r : List ℕ) (s : ℕ)
    → s + length (blobs ps) < 4294967296
    → append_blobs ps r s ≡ ok (r ++ blobs ps, s + length (blobs ps))
append_blobs-blobs [] r s h = unfold append_blobs in cc (append-nil r, add-zero s)
append_blobs-blobs (p ∷ ps) r s h =
    let v = blob_bytes (payload p) in
    let n : length (v ++ blobs ps) ≡ length v + length (blobs ps) = length-append v (blobs ps) in
    append_blobs-step p ps (payload p) r s refl (omega arith)
    ∙ append_blobs-blobs ps (r ++ v) (s + length v) (omega arith)
    ∙ ground (arith, append_assoc r v (blobs ps))

append_params-entries :
    (e : Endian) (ps : List KeyParam) (r : List ℕ) (o : ℕ)
    → o + length (blobs ps) < 4294967296
    → (o' : ℕ) × (append_params e ps r o ≡ ok (r ++ entries e ps o, o'))
unfolding append_params
append_params-entries e [] r o h = (o, cc (append-nil r))
append_params-entries e (p ∷ ps) r o h =
    let v = blob_bytes (payload p) in
    let n : length (v ++ blobs ps) ≡ length v + length (blobs ps) = length-append v (blobs ps) in
    let next = next_offset-eq (payload p) o in
    let t = to_ne_bytes e 4 (tag_as_u32 (tag p)) in
    let b = payload_bytes e (payload p) o in
    let (o', rest) =
      append_params-entries e ps ((r ++ t) ++ b) (next_offset (payload p) o) (omega arith) in
    (
      o',
      rw (append_value-payload e p (r ++ t) o (omega arith))
          (rest ∙ ap (λ l. ok (l, o')) (simp append_assoc)),
    )

-- The parts of a buffer around a placeholder `z`.
take_before : (a z b : List ℕ) → take (length a) ((a ++ z) ++ b) ≡ a
take_before a z b = rw append_assoc (take-append a (z ++ b))

drop_past : (a z b : List ℕ) → drop (length a + length z) ((a ++ z) ++ b) ≡ b
drop_past a z b = rw (← length-append a z) (drop-append (a ++ z) b)

length_past : (a z b : List ℕ) → length ((a ++ z) ++ b) - (length a + length z) ≡ length b
length_past a z b = omega (arith, length-append (a ++ z) b, length-append a z)

-- What `serialize` does after the second loop: it overwrites the placeholder by the size.
size_written :
    (e : Endian) (a z b : List ℕ)
    → length b < 4294967296
    → take (length a) ((a ++ z) ++ b)
        ++ (to_ne_bytes e 4 ((length ((a ++ z) ++ b) - (length a + length z)) % 4294967296)
            ++ drop (length a + length z) ((a ++ z) ++ b))
      ≡ a ++ (to_ne_bytes e 4 (length b) ++ b)
size_written e a z b h =
    rw (take_before a z b, length_past a z b, drop_past a z b) (rw (mod-eq_of_lt h))

-- `serialize` writes the layout that the comment of the source describes, if its sizes fit in 32 bits:
-- the size of the blob data, the blob data, the number of parameters, the size of the parameters,
-- and for each parameter its tag and its value, which for a blob is its length and offset.
pub serialize-layout :
    (e : Endian) (ps : List KeyParam) → IsStorable e ps → serialize e ps ≡ ok (layout e ps)
unfolding serialize
serialize-layout e ps h =
    let zeros : List ℕ = replicate 4 0 in
    let sizes = to_ne_bytes e 4 (length (blobs ps)) ++ drop 4 (replicate 4 0 ++ blobs ps) in
    let counted = sizes ++ to_ne_bytes e 4 (length ps) in
    let (o', written) = append_params-entries e ps (counted ++ replicate 4 0) 0 (omega arith) in
    rw (append_blobs-blobs ps (replicate 4 0) 0 (omega arith)) (
      rw (zero-add, mod-eq_of_lt h.count_fits, written)
        (ap ok (size_written e counted zeros (entries e ps 0) h.entries_fit ∙ simp append_assoc)))
