-- ===== src/Tag/Legacy/RoundTrip.antt =====
-- Parameters survive `serialize` and `deserialize` (common/src/tag/legacy.rs).
use mathlib.Core.Path.{subst}
use platform_system_keymint.Common.{
  ℕ, ◌+◌, ◌<◌, ◌≡◌, sym, ap, ◌∙◌, List, [], ◌∷◌, ◌++◌, append_assoc, append-nil, length,
  length-append, take-append, drop-append, All, le→leb, le→ltb_false, ok, arith,
}
use platform_system_keymint.Common.Bytes.{Endian, to_ne_bytes}
use platform_system_keymint.Wire.KeyParams.{KeyParam, Fits}
use platform_system_keymint.Tag.Legacy.Consume.{consume_u32-append}
use platform_system_keymint.Tag.Legacy.Serialize.{serialize}
use platform_system_keymint.Tag.Legacy.Deserialize.{consume_params, deserialize}
use platform_system_keymint.Tag.Legacy.Layout.{payload, blob_bytes, next_offset}
use platform_system_keymint.Tag.Legacy.Format.{
  blobs, entry, entries, layout, IsStorable, next_offset-eq, serialize-layout,
}
use platform_system_keymint.Tag.Legacy.Readers.{consume_param-entry}

consume_params-entries :
    (e : Endian) (rest pre post : List ℕ) (ps results : List KeyParam)
    → All Fits ps
    → length pre + length (blobs ps) < 4294967296
    → consume_params e
        (length ps)
        (entries e ps (length pre) ++ rest)
        (length pre)
        (pre ++ (blobs ps ++ post))
        results
      ≡ ok (results ++ ps, rest)
unfolding consume_params
consume_params-entries e rest pre post [] results fits h = cc (append-nil results)
consume_params-entries e rest pre post (p ∷ ps) results fits h =
    let v = blob_bytes (payload p) in
    let n : length (v ++ blobs ps) ≡ length v + length (blobs ps) = length-append v (blobs ps) in
    let next : next_offset (payload p) (length pre) ≡ length (pre ++ v) =
      next_offset-eq (payload p) (length pre) ∙ sym (length-append pre v) in
    let ih =
      consume_params-entries e rest (pre ++ v) post ps (results ++ (p ∷ [])) fits.1
        (omega (arith, length-append pre v)) in
    rw (append_assoc v (blobs ps) post) (
      rw
        (append_assoc (entry e p (length pre)) (entries e ps (next_offset (payload p) (length pre)))
          rest)
        (rw
          (consume_param-entry e (entries e ps (next_offset (payload p) (length pre)) ++ rest) pre
            (blobs ps ++ post) p fits.0 (omega (arith, next_offset-eq (payload p) (length pre))))
          (rw (next, ← append_assoc pre v (blobs ps ++ post))
            (ih ∙ ap (λ l. ok (l, rest)) (append_assoc results (p ∷ []) ps)))))

deserialize-layout :
    (e : Endian) (ps : List KeyParam) (rest : List ℕ)
    → All Fits ps
    → IsStorable e ps
    → deserialize e (layout e ps ++ rest) ≡ ok (ps, rest)
unfolding deserialize
deserialize-layout e ps rest fits h =
    let b = blobs ps in
    let es = entries e ps 0 in
    let count = to_ne_bytes e 4 (length ps) in
    let size = to_ne_bytes e 4 (length es) in
    let tail = count ++ (size ++ (es ++ rest)) in
    let regroup : layout e ps ++ rest ≡ to_ne_bytes e 4 (length b) ++ (b ++ tail) =
      simp append_assoc in
    rw (regroup, consume_u32-append e (length b) (b ++ tail) h.blobs_fit)
      (rw (le→leb (length b) (length (b ++ tail)) (omega (arith, length-append b tail))) (
        rw (drop-append b tail, take-append b tail)
          (rw (consume_u32-append e (length ps) (size ++ (es ++ rest)) h.count_fits) (
            rw (consume_u32-append e (length es) (es ++ rest) h.entries_fit) (
              rw
                (le→ltb_false (length es) (length (es ++ rest))
                  (omega (arith, length-append es rest)))
                (subst (λ t. consume_params e (length ps) (es ++ rest) 0 t [] ≡ ok (ps, rest))
                  (append-nil b)
                  (consume_params-entries e rest [] [] ps [] fits (omega arith))))))))

-- Parameters whose values are in range of their types, and whose serialized sizes fit in 32 bits,
-- are serialized without an error or a panic, and `deserialize` reads exactly these parameters
-- back from the bytes, in either byte order, and leaves whatever follows them.
pub deserialize-serialize :
    (e : Endian) (ps : List KeyParam) (rest : List ℕ)
    → All Fits ps
    → IsStorable e ps
    → (written : List ℕ) × (serialize e ps ≡ ok written)
      × (deserialize e (written ++ rest) ≡ ok (ps, rest))
deserialize-serialize e ps rest fits h =
    (layout e ps, serialize-layout e ps h, deserialize-layout e ps rest fits h)
