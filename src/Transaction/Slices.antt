-- ===== src/Transaction/Slices.antt =====
-- Slice assignment on a memory map: `mapping[offset : offset + len(content)] = content`.
use nautilus_acornfs.Prelude.{
  ℕ, ◌+◌, ◌-◌, ◌≤◌, ◌≡◌, Bool, ◌&&◌, ◌++◌, min, max, get_elem?-eq_none, if◌then◌else◌, ◌==◌, leb,
  ltb, length, get_elem?, take, drop, length-append, length-take, length-drop, get_elem?-append,
  get_elem?-take, get_elem?-drop, arith,
}
use nautilus_acornfs.Prelude.Text.{Bytes}
use nautilus_acornfs.Prelude.Result.{Result, ok, err, index_error}

-- Both ends are clipped to the mapping, and the clipped range must have the length of the content.
unfoldable pub write_slice : Bytes → ℕ → Bytes → Result Bytes
write_slice mapping offset content =
    if min (offset + length content) (length mapping) - min offset (length mapping)
      == length content
    then ok (take offset mapping ++ content ++ drop (offset + length content) mapping)
    else err index_error

abbrev pub within : ℕ → ℕ → ℕ → Bool
within lo hi i = leb lo i && ltb i hi

module _ (mapping : Bytes) (offset : ℕ) (content : Bytes)
    (fits : offset + length content ≤ max offset (length mapping)) where
  abbrev written : Bytes
  written = take offset mapping ++ content ++ drop (offset + length content) mapping

  pub write_slice-fits : write_slice mapping offset content ≡ ok written
  unfolding write_slice
  write_slice-fits = ground arith

  pub length-written : length written ≡ length mapping
  length-written = omega (
    arith,
    length-append (take offset mapping ++ content) (drop (offset + length content) mapping),
    length-append (take offset mapping) content,
    length-take offset mapping,
    length-drop (offset + length content) mapping,
  )

  pub get_elem?-written :
      (i : ℕ)
      → get_elem? written i ≡ (
          if within offset (offset + length content) i
          then get_elem? content (i - offset)
          else get_elem? mapping i)
  get_elem?-written i = ground (
    arith,
    get_elem?-append (take offset mapping ++ content) (drop (offset + length content) mapping) i,
    get_elem?-append (take offset mapping) content i,
    get_elem?-take offset i mapping,
    get_elem?-drop (offset + length content) (i - length (take offset mapping ++ content)) mapping,
    length-append (take offset mapping) content,
    length-take offset mapping,
    get_elem?-eq_none mapping i,
    get_elem?-eq_none mapping
        (offset + length content + (i - length (take offset mapping ++ content))),
  )
