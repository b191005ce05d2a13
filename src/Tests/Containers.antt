-- ===== src/Tests/Containers.antt =====
-- A container with one extent, whose catalogue names slot 0.
use nautilus_acornfs.Prelude.{◌*◌, ◌<◌, ◌≡◌, refl, true, [], ◌∷◌, ◌++◌, replicate, All}
use nautilus_acornfs.Prelude.Text.{Bytes, Text}
use nautilus_acornfs.Prelude.Result.{ok}
use nautilus_acornfs.Mmb.Layout.{
  MmbLayout, ImageFile, header_bytes, standard_bytes, total_slots, is_formatted, status_read_write,
  read_mmb_layout,
}
use nautilus_acornfs.Mmb.Layout.Windows.{IsWindows, read_mmb_layout_lem}

abbrev catalogue : Bytes
catalogue = replicate 31 0 ++ 15 ∷ replicate 8160 240

abbrev container : ImageFile
container = record { size = standard_bytes; read_at = λ offset count. catalogue }

abbrev decode : Bytes → Text
decode label = label

abbrev layout : MmbLayout
layout = record {
  slots =
      record {
        index = 0;
        label = [];
        status = status_read_write;
        offset = header_bytes;
        display_width = 3;
      }
      ∷ [];
  boot_slots = 0 ∷ 0 ∷ 0 ∷ 0 ∷ [];
  extent_count = 1;
}

container_read : read_mmb_layout decode container ≡ ok layout
unfolding read_mmb_layout
container_read = refl

read_mmb_layout_lem_example :
    IsWindows header_bytes standard_bytes layout.slots
    × (standard_bytes ≡ layout.extent_count * standard_bytes)
    × All (λ slot. is_formatted slot.status ≡ true) layout.slots
    × All (λ index. index < total_slots layout) layout.boot_slots
read_mmb_layout_lem_example = read_mmb_layout_lem decode container layout container_read
