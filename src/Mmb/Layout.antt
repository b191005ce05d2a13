-- ===== src/Mmb/Layout.antt =====
-- `read_mmb_layout`: the catalogue of a container with one or more extents.
pub mod Bounds
pub mod Windows
use nautilus_acornfs.Prelude.{
  ℕ, zero, suc, ◌+◌, ◌-◌, ◌*◌, ◌/◌, ◌%◌, Bool, true, false, not, ◌&&◌, ◌||◌, Option, none, some,
  List, [], ◌∷◌, ◌++◌, reverse, if◌then◌else◌, ltb, leb, ◌==◌, any, length, slice, take, get_or,
}
use nautilus_acornfs.Prelude.Text.{Text, Bytes}
use nautilus_acornfs.Prelude.Decimal.{decimal}
use nautilus_acornfs.Prelude.Result.{Result, ok, err, mmb_format_error, raise_if, ◌>>=◌, ◌>>◌}

abbrev pub header_bytes : ℕ
header_bytes = 8 * 1024

abbrev pub slot_bytes : ℕ
slot_bytes = 200 * 1024

abbrev pub slot_count : ℕ
slot_count = 511

abbrev pub entry_bytes : ℕ
entry_bytes = 16

abbrev pub standard_bytes : ℕ
standard_bytes = header_bytes + slot_count * slot_bytes

abbrev pub status_locked : ℕ
status_locked = 0x00

abbrev pub status_read_write : ℕ
status_read_write = 0x0F

abbrev pub status_unformatted : ℕ
status_unformatted = 0xF0

abbrev pub status_invalid : ℕ
status_invalid = 0xFF

abbrev is_known : ℕ → Bool
is_known status =
    status == status_locked
    || status == status_read_write
    || status == status_unformatted
    || status == status_invalid

abbrev pub is_formatted : ℕ → Bool
is_formatted status = status == status_locked || status == status_read_write

pub record MmbSlot : Type 0 where
  pub index : ℕ
  pub label : Text
  pub status : ℕ
  pub offset : ℕ
  pub display_width : ℕ

pub record MmbLayout : Type 0 where
  pub slots : List MmbSlot
  pub boot_slots : List ℕ
  pub extent_count : ℕ

abbrev pub total_slots : MmbLayout → ℕ
total_slots l = l.extent_count * slot_count

-- `f"{index:0{width}d}"`, for the digits of the index.
unfoldable pub pad_zeros : ℕ → Text → Text
pad_zeros zero s = s
pad_zeros (suc n) s = b'0' ∷ pad_zeros n s

abbrev is_blank : Text → Bool
is_blank [] = true
is_blank (c ∷ s) = false

-- `display_name`
unfoldable pub display_name : MmbSlot → Text
unfolding pad_zeros decimal
display_name slot =
    let number =
      pad_zeros (slot.display_width - length (decimal slot.index)) (decimal slot.index) in
    if is_blank slot.label then number else number ++ b' ' ∷ b'-' ∷ b' ' ∷ slot.label

-- A file that is read by `seek` and `read`: its size, and the bytes from an offset.
pub record ImageFile : Type 0 where
  pub size : ℕ
  pub read_at : ℕ → ℕ → Bytes

-- `label.rstrip(" \x00")` on the reversed label.
strip_front : Text → Text
strip_front [] = []
strip_front (c ∷ s) = if c == b' ' || c == 0 then strip_front s else c ∷ s

unfoldable pub rstrip : Text → Text
unfolding strip_front
rstrip s = reverse (strip_front (reverse s))

-- The number of extents in the marker byte 0xA0 + n - 1; `marker & 0xF0 == 0xA0` on a byte.
unfoldable pub extents_of : ℕ → ℕ
extents_of marker = if (marker / 16) % 16 == 10 then marker % 16 + 1 else 1

-- `header[i] | (header[i + 4] << 8)` on bytes.
abbrev boot_slot : Bytes → ℕ → ℕ
boot_slot header i = get_or header i 0 + get_or header (i + 4) 0 * 256

abbrev pub boot_slots_of : Bytes → List ℕ
boot_slots_of header =
    boot_slot header 0 ∷ boot_slot header 1 ∷ boot_slot header 2 ∷ boot_slot header 3 ∷ []

-- `oaknut.codecs` decodes the label.
module _ (decode_acorn : Bytes → Text) where
  -- One catalogue entry: an error, nothing to show, or a slot.
  parse_slot : ℕ → ℕ → ℕ → Bytes → Result (Option MmbSlot)
  unfolding rstrip
  parse_slot extent local_index width extent_header =
      let first = (local_index + 1) * entry_bytes in
      let entry = slice first (first + entry_bytes) extent_header in
      let status = get_or entry 15 0 in
      if not (is_known status)
      then err mmb_format_error
      else if not (is_formatted status)
      then ok none
      else ok (
          some (record {
            index = extent * slot_count + local_index;
            label = rstrip (decode_acorn (take 12 entry));
            status = status;
            offset = extent * standard_bytes + header_bytes + local_index * slot_bytes;
            display_width = width;
          }))

  abbrev add_slot : Option MmbSlot → List MmbSlot → List MmbSlot
  add_slot none slots = slots
  add_slot (some slot) slots = slot ∷ slots

  -- The inner loop, by the entries that are left.
  read_entries : ℕ → ℕ → ℕ → ℕ → Bytes → Result (List MmbSlot)
  unfolding parse_slot
  read_entries zero extent local_index width header = ok []
  read_entries (suc left) extent local_index width header = do
    slot ← parse_slot extent local_index width header
    rest ← read_entries left extent (local_index + 1) width header
    ok (add_slot slot rest)

  -- The outer loop, by the extents that are left.
  read_extents : ℕ → ℕ → ℕ → ImageFile → Result (List MmbSlot)
  unfolding read_entries
  read_extents zero extent width image = ok []
  read_extents (suc left) extent width image = do
    let header = image.read_at (extent * standard_bytes) header_bytes
    raise_if (not (length header == header_bytes)) mmb_format_error
    slots ← read_entries slot_count extent 0 width header
    rest ← read_extents left (extent + 1) width image
    ok (slots ++ rest)

  unfoldable pub read_mmb_layout : ImageFile → Result MmbLayout
  unfolding read_extents extents_of decimal
  read_mmb_layout image = do
    let header = image.read_at 0 header_bytes
    raise_if (not (length header == header_bytes)) mmb_format_error
    let extents = extents_of (get_or header 8 0)
    raise_if (not (image.size == extents * standard_bytes)) mmb_format_error
    let total = extents * slot_count
    raise_if (any (λ slot. leb total slot) (boot_slots_of header)) mmb_format_error
    let width = length (decimal (total - 1))
    slots ← read_extents extents 0 width image
    ok (record { slots = slots; boot_slots = boot_slots_of header; extent_count = extents })
