-- ===== src/Mmb/Layout/Windows.antt =====
-- The windows of the slots of an accepted container.
use nautilus_acornfs.Prelude.{
  ℕ, ◌+◌, ◌*◌, ◌≤◌, ◌<◌, ◌≡◌, List, [], ◌∷◌, All, any, leb, true, false, arith,
}
use nautilus_acornfs.Prelude.Text.{Text, Bytes}
use nautilus_acornfs.Prelude.Result.{Result, ok}
use nautilus_acornfs.Mmb.Layout.{
  MmbSlot, MmbLayout, ImageFile, header_bytes, slot_bytes, slot_count, standard_bytes, total_slots,
  is_formatted, read_mmb_layout,
}
use nautilus_acornfs.Mmb.Layout.Bounds.{
  place, IsSlots, Returns, IsLayout, place-next, place-last, read_mmb_layout-IsLayout,
}

-- Windows that follow one another without overlap between two offsets.
abbrev pub IsWindows : ℕ → ℕ → List MmbSlot → Type 0
IsWindows start stop [] = start ≤ stop
IsWindows start stop (slot ∷ slots) =
    (start ≤ slot.offset) × IsWindows (slot.offset + slot_bytes) stop slots

-- Slots from an index on, from an offset that is the end of an earlier place at most.
IsSlots-IsWindows :
    (low n start : ℕ) (slots : List MmbSlot)
    → ((i : ℕ) → low ≤ i → start ≤ place i)
    → start ≤ n * standard_bytes
    → IsSlots low (n * slot_count) slots
    → IsWindows start (n * standard_bytes) slots
IsSlots-IsWindows low n start [] early h s = h
IsSlots-IsWindows low n start (slot ∷ slots) early h (a, s) = (
  rw a.offset (early slot.index a.from),
  IsSlots-IsWindows (slot.index + 1) n (slot.offset + slot_bytes) slots
      (λ i later. rw a.offset (place-next slot.index i (omega (arith, later))))
      (rw a.offset (place-last slot.index n a.below)) s,
)

place-first : (i : ℕ) → header_bytes ≤ place i
place-first i = omega arith

IsSlots-formatted :
    (low high : ℕ) (slots : List MmbSlot)
    → IsSlots low high slots
    → All (λ slot. is_formatted slot.status ≡ true) slots
IsSlots-formatted low high [] s = tt
IsSlots-formatted low high (slot ∷ slots) (a, s) =
    (a.formatted, IsSlots-formatted (slot.index + 1) high slots s)

any-All : (n : ℕ) (xs : List ℕ) → any (λ x. leb n x) xs ≡ false → All (λ x. x < n) xs
any-All n [] h = tt
any-All n (x ∷ xs) h = (ground arith, any-All n xs (ground arith))

module _ (decode : Bytes → Text) (image : ImageFile) (layout : MmbLayout) where
  IsLayout-IsWindows : IsLayout decode image layout → IsWindows header_bytes image.size layout.slots
  IsLayout-IsWindows l = rw l.size (
      IsSlots-IsWindows 0 layout.extent_count header_bytes layout.slots (λ i _. place-first i)
        (omega (arith, l.some_extent)) l.slots)

  returned :
      (P : MmbLayout → Type 0) (m : Result MmbLayout) → m ≡ ok layout → Returns P m → P layout
  returned P m h r = rw h at r

  -- The slots of a layout that is read lie one after another, without overlap, behind the header and inside
  -- the container; each is formatted; the container has the size that its extents take; and the four boot
  -- slots are indices of it.
  pub read_mmb_layout_lem :
      read_mmb_layout decode image ≡ ok layout
      → IsWindows header_bytes image.size layout.slots
        × (image.size ≡ layout.extent_count * standard_bytes)
        × All (λ slot. is_formatted slot.status ≡ true) layout.slots
        × All (λ index. index < total_slots layout) layout.boot_slots
  read_mmb_layout_lem h =
      let l =
        returned (IsLayout decode image) (read_mmb_layout decode image) h
          (read_mmb_layout-IsLayout decode image) in
      (
        IsLayout-IsWindows l,
        l.size,
        IsSlots-formatted _ _ _ l.slots,
        any-All (total_slots layout) _ l.boot,
      )
