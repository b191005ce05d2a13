-- ===== src/Transaction/DiscId.antt =====
-- `SectorTransaction.advance_disc_id`: the cycle ID of an old map is advanced, and the checksums are
-- refreshed by Oaknut.
use nautilus_acornfs.Prelude.{
  ℕ, ◌+◌, ◌*◌, ◌/◌, ◌%◌, ◌^◌, ◌≡◌, ◌∙◌, ◌≤◌, some, set, length, length-set, get_elem?,
  get_elem?-set_self, get_elem?-set_ne, arith,
}
use nautilus_acornfs.Prelude.Text.{Bytes}

abbrev old_disc_id_offset : ℕ
old_disc_id_offset = 0x1FB

-- Oaknut's free-space map, as a view of the image's bytes.
pub record FreeSpaceMap : Type 0 where
  pub disc_id : Bytes → ℕ
  pub recalculate_checksums : Bytes → Bytes
  -- The ID is the 16-bit number at its offset, low byte first.
  pub disc_id-bytes :
      (image : Bytes) (lo hi : ℕ)
      → get_elem? image 0x1FB ≡ some lo
      → get_elem? image 0x1FC ≡ some hi
      → disc_id image ≡ lo + hi * 256
  -- The checksums are other bytes of the two map sectors.
  pub length-recalculate : (image : Bytes) → length (recalculate_checksums image) ≡ length image
  pub recalculate-id :
      (image : Bytes) (i : ℕ)
      → 0x1FB ≤ i
      → i ≤ 0x1FC
      → get_elem? (recalculate_checksums image) i ≡ get_elem? image i
  pub recalculate-outside :
      (image : Bytes) (i : ℕ)
      → 512 ≤ i
      → get_elem? (recalculate_checksums image) i ≡ get_elem? image i

module _ (fsm : FreeSpaceMap) where
  abbrev next_id : Bytes → ℕ
  next_id image = (fsm.disc_id image + 1) % 2 ^ 16

  abbrev stored : Bytes → Bytes
  stored image =
      set (set image old_disc_id_offset (next_id image % 256)) (old_disc_id_offset + 1)
        (next_id image / 256)

  -- The old ID, the new one, and the new bytes.
  unfoldable pub advance_disc_id : Bytes → ℕ × ℕ × Bytes
  advance_disc_id image =
      (fsm.disc_id image, next_id image, fsm.recalculate_checksums (stored image))

  -- On an image that holds the map sectors, the ID that the map then has is the old one plus one,
  -- modulo 65536, and it is the second number returned.
  pub disc_id-advance_disc_id :
      (image : Bytes)
      → 512 ≤ length image
      → (fsm.disc_id (advance_disc_id image).2 ≡ (fsm.disc_id image + 1) % 65536)
        × ((advance_disc_id image).1 ≡ fsm.disc_id (advance_disc_id image).2)
  unfolding advance_disc_id
  disc_id-advance_disc_id image h = ground (
    arith,
    fsm.disc_id-bytes (fsm.recalculate_checksums (stored image)) (next_id image % 256)
        (next_id image / 256)
        (fsm.recalculate-id (stored image) 0x1FB (omega arith) (omega arith) ∙ low)
        (fsm.recalculate-id (stored image) 0x1FC (omega arith) (omega arith) ∙ high),
  )
    where
      inner : Bytes
      inner = set image old_disc_id_offset (next_id image % 256)

      sized : length inner ≡ length image
      sized = length-set image old_disc_id_offset (next_id image % 256)

      high : get_elem? (stored image) 0x1FC ≡ some (next_id image / 256)
      high = get_elem?-set_self inner 0x1FC (next_id image / 256) (omega (arith, sized))

      low : get_elem? (stored image) 0x1FB ≡ some (next_id image % 256)
      low =
          get_elem?-set_ne inner {i = 0x1FC} {j = 0x1FB} (next_id image / 256) (omega arith)
          ∙ get_elem?-set_self image 0x1FB (next_id image % 256) (omega arith)

  pub length-advance_disc_id : (image : Bytes) → length (advance_disc_id image).2 ≡ length image
  unfolding advance_disc_id
  length-advance_disc_id image =
      fsm.length-recalculate (stored image)
      ∙ length-set (set image 0x1FB (next_id image % 256)) 0x1FC (next_id image / 256)
      ∙ length-set image 0x1FB (next_id image % 256)

  pub advance_disc_id-outside :
      (image : Bytes) (i : ℕ) → 512 ≤ i → get_elem? (advance_disc_id image).2 i ≡ get_elem? image i
  unfolding advance_disc_id
  advance_disc_id-outside image i h =
      fsm.recalculate-outside (stored image) i h
      ∙ get_elem?-set_ne (set image 0x1FB (next_id image % 256)) {i = 0x1FC} {j = i}
          (next_id image / 256) (omega arith)
      ∙ get_elem?-set_ne image {i = 0x1FB} {j = i} (next_id image % 256) (omega arith)
