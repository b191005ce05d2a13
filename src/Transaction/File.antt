-- ===== src/Transaction/File.antt =====
-- `FileTransaction`: the before-image is a copy of the whole image, and `restore` writes it back in
-- chunks of 8 MiB.
use mathlib.Core.List.{append_assoc, append-nil}
use nautilus_acornfs.Prelude.{
  ℕ, zero, suc, ◌+◌, ◌*◌, ◌≡◌, ◌≤◌, ◌<◌, [], ◌∷◌, ◌++◌, if◌then◌else◌, ◌==◌, length, take, drop,
  length-take, length-drop, length-append, take-append_self, take-append-drop, take_all, max, ap,
  ◌∙◌, arith,
}
use nautilus_acornfs.Prelude.Text.{Bytes}
use nautilus_acornfs.Prelude.Result.{Result, ok, err, os_error, foreign}
use nautilus_acornfs.Transaction.Slices.{write_slice, write_slice-fits, length-written}

abbrev chunk_bytes : ℕ
chunk_bytes = 8 * 1024 * 1024

-- After the last chunk the lengths are compared.
finish_restore : ℕ → Bytes → Result (Unit {0}) × Bytes
finish_restore offset mapping =
    if offset == length mapping then (ok tt, mapping) else (err os_error, mapping)

-- The loop over `handle.read(chunk_bytes)`; a chunk is not empty, so the fuel `length backup + 1`
-- is enough.
restore_chunks : ℕ → ℕ → ℕ → Bytes → Bytes → Result (Unit {0}) × Bytes
unfolding finish_restore
restore_chunks zero size offset rest mapping = (err foreign, mapping)
restore_chunks (suc fuel) size offset [] mapping = finish_restore offset mapping
restore_chunks (suc fuel) size offset (b ∷ rest) mapping =
    elim (write_slice mapping offset (take size (b ∷ rest))) [
      | ok written ↦
          restore_chunks fuel size (offset + length (take size (b ∷ rest))) (drop size (b ∷ rest))
            written
      | err e ↦ (err e, mapping)
    ]

unfoldable pub restore_file : Bytes → Bytes → Result (Unit {0}) × Bytes
unfolding restore_chunks
restore_file backup mapping = restore_chunks (suc (length backup)) chunk_bytes 0 backup mapping

module _ (size : ℕ) (positive : 0 < size) where
  take_written :
      (offset : ℕ) (rest mapping later : Bytes)
      → offset ≤ length mapping
      → take (offset + length (take size rest)) (take offset mapping ++ take size rest ++ later)
          ++ drop size rest
        ≡ take offset mapping ++ rest
  take_written offset rest mapping later sized =
      ap (λ zs. zs ++ drop size rest) shorter
      ∙ append_assoc (take offset mapping) (take size rest) (drop size rest)
      ∙ ap (λ zs. take offset mapping ++ zs) (take-append-drop size rest)
    where
      counted : length (take offset mapping ++ take size rest) ≡ offset + length (take size rest)
      counted =
          omega (
            arith,
            length-append (take offset mapping) (take size rest),
            length-take offset mapping,
          )

      shorter :
          take (offset + length (take size rest)) (take offset mapping ++ take size rest ++ later)
          ≡ take offset mapping ++ take size rest
      shorter = rw (← counted) (take-append_self (take offset mapping ++ take size rest) later)

  restore_chunks_lem :
      (fuel offset : ℕ) (rest mapping : Bytes)
      → length rest < fuel
      → length mapping ≡ offset + length rest
      → restore_chunks fuel size offset rest mapping ≡ (ok tt, take offset mapping ++ rest)
  unfolding restore_chunks
  restore_chunks_lem zero offset rest mapping enough sized = absurd (omega arith)
  restore_chunks_lem (suc fuel) offset [] mapping enough sized =
      ground (arith, append-nil (take offset mapping), take_all offset mapping)
  restore_chunks_lem (suc fuel) offset (b ∷ rest) mapping enough sized =
      rw (write_slice-fits mapping offset chunk fits, restore_chunks)
        (restore_chunks_lem fuel (offset + length chunk) (drop size (b ∷ rest))
            (take offset mapping ++ chunk ++ drop (offset + length chunk) mapping)
            (omega (arith, length-drop size (b ∷ rest)))
            (omega (
              arith,
              length-written mapping offset chunk fits,
              length-drop size (b ∷ rest),
              length-take size (b ∷ rest),
            ))
          ∙ ap (λ zs. (ok tt, zs))
              (take_written offset (b ∷ rest) mapping (drop (offset + length chunk) mapping)
                (omega arith)))
    where
      chunk : Bytes
      chunk = take size (b ∷ rest)

      fits : offset + length chunk ≤ max offset (length mapping)
      fits = omega (arith, length-take size (b ∷ rest))

-- Writing a copy back over a mapping of the copy's length succeeds and gives the copy.
pub restore_file_lem :
    (backup mapping : Bytes)
    → length mapping ≡ length backup
    → restore_file backup mapping ≡ (ok tt, backup)
unfolding restore_file
restore_file_lem backup mapping sized =
    restore_chunks_lem chunk_bytes (omega arith) (suc (length backup)) 0 backup mapping
      (omega arith) (omega (arith, sized))
