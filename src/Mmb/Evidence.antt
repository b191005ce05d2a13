-- ===== src/Mmb/Evidence.antt =====
-- `require_mmb_content_evidence` and `detect_mmb`. The probe of a window and the closing of the reader are
-- parameters; a missing file is an `os_error` of the reader.
use nautilus_acornfs.Prelude.{
  ℕ, ◌/◌, Bool, true, false, ◌&&◌, ◌||◌, Option, none, some, List, [], ◌∷◌, if◌then◌else◌, ◌==◌,
  any,
}
use nautilus_acornfs.Prelude.Text.{Text, Bytes, codes, text_eq}
use nautilus_acornfs.Prelude.Result.{Result, ok, err, mmb_format_error, os_error, ◌>>=◌}
use nautilus_acornfs.Mmb.Layout.{
  MmbSlot, MmbLayout, ImageFile, slot_count, slot_bytes, read_mmb_layout,
}
use nautilus_acornfs.Mmb.Slots.{Candidate}

module _ {Geometry : Type 0} (identify : ℕ → ℕ → Result (List (Candidate Geometry))) where
  abbrev is_some : Option Geometry → Bool
  is_some none = false
  is_some (some g) = true

  abbrev pub is_dfs : Candidate Geometry → Bool
  is_dfs c =
      (text_eq c.filesystem (codes "acorn-dfs") || text_eq c.filesystem (codes "watford-dfs"))
      && is_some c.geometry

  -- The loop, with the extents that are checked already.
  unfoldable pub check_slots : List ℕ → List MmbSlot → Result (Unit {0})
  check_slots checked [] = ok tt
  check_slots checked (slot ∷ slots) =
      let extent = slot.index / slot_count in
      if any (λ e. e == extent) checked
      then check_slots checked slots
      else (identify slot.offset slot_bytes >>= λ candidates.
          if any is_dfs candidates
          then check_slots (extent ∷ checked) slots
          else err mmb_format_error)

  -- `require_mmb_content_evidence`
  unfoldable pub require_mmb_content_evidence : MmbLayout → Result (Unit {0})
  unfolding check_slots
  require_mmb_content_evidence layout = check_slots [] layout.slots

  abbrev pub detected : Result MmbLayout → Result (Option MmbLayout)
  detected (ok layout) = ok (some layout)
  detected (err mmb_format_error) = ok none
  detected (err os_error) = ok none
  detected (err e) = err e

  -- `detect_mmb`
  unfoldable pub detect_mmb : (Bytes → Text) → ImageFile → Result (Option MmbLayout)
  unfolding check_slots read_mmb_layout
  detect_mmb decode image =
      detected
        (read_mmb_layout decode image >>= λ layout. check_slots [] layout.slots >>= λ _. ok layout)
