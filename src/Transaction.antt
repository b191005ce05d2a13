-- ===== src/Transaction.antt =====
-- src/acornfs/core/transaction.py: before-images of sectors, and their restoration.
-- The mapping is the image's bytes. What Oaknut answers about a path is the parameter `Adfs`.
pub mod Slices
pub mod Restore
pub mod DiscId
pub mod File
unfoldable pub use Slices.{write_slice}
use nautilus_acornfs.Prelude.{
  ℕ, ◌+◌, ◌*◌, ◌-◌, ◌/◌, Bool, true, false, ◌&&◌, ◌||◌, Option, none, some, List, [], ◌∷◌, ◌++◌,
  reverse, if◌then◌else◌, ◌==◌, slice, any, length,
}
use nautilus_acornfs.Prelude.Text.{Text, Bytes, codes}
use nautilus_acornfs.Prelude.Result.{Result, ok, err, not_a_directory, ◌>>=◌}

abbrev pub sector_bytes : ℕ
sector_bytes = 256

abbrev pub map_sectors : ℕ
map_sectors = 2

pub record BeforeImage : Type 0 where
  pub offset : ℕ
  pub content : Bytes

pub record SectorTransaction : Type 0 where
  pub before_images : List BeforeImage
  pub captured : List (ℕ × ℕ)

abbrev pub key_eq : ℕ × ℕ → ℕ × ℕ → Bool
key_eq (a, b) (c, d) = a == c && b == d

-- `capture_sectors`; the slice ends with the mapping, as Python's does.
unfoldable pub capture_sectors : Bytes → ℕ → ℕ → SectorTransaction → SectorTransaction
capture_sectors mapping start count t =
    if count == 0 then t else if any (key_eq (start, count)) t.captured then t else (record {
      before_images =
          t.before_images
          ++ record {
            offset = start * sector_bytes;
            content =
                slice (start * sector_bytes) (start * sector_bytes + count * sector_bytes) mapping;
          }
            ∷ [];
      captured = (start, count) ∷ t.captured;
    })

-- `__init__`: the map sectors are captured first.
unfoldable pub begin : Bytes → SectorTransaction
unfolding capture_sectors
begin mapping = capture_sectors mapping 0 map_sectors (record { before_images = []; captured = [] })

-- A write that is refused ends the restoration with what was written so far.
abbrev continue_restore :
    Result Bytes → Bytes → (Bytes → Result (Unit {0}) × Bytes) → Result (Unit {0}) × Bytes
continue_restore (ok written) mapping rest = rest written
continue_restore (err e) mapping rest = (err e, mapping)

-- `restore`: the before-images, latest first. A slice of another length is refused.
unfoldable pub restore_images : List BeforeImage → Bytes → Result (Unit {0}) × Bytes
restore_images [] mapping = (ok tt, mapping)
restore_images (b ∷ bs) mapping =
    continue_restore (write_slice mapping b.offset b.content) mapping (restore_images bs)

unfoldable pub restore : SectorTransaction → Bytes → Result (Unit {0}) × Bytes
unfolding restore_images
restore t = restore_images (reverse t.before_images)

-- What the transaction asks of Oaknut: the parent of a path, and the entry at a path.
pub record Entry : Type 0 where
  pub is_directory : Bool
  pub start_sector : ℕ
  pub size : ℕ

pub record Adfs : Type 0 where
  pub resolve_parent : Text → Result ℕ
  pub resolve : Text → Result (Option Entry)
  pub directory_sectors : ℕ

module _ (adfs : Adfs) (mapping : Bytes) where
  pub capture_directory_at : ℕ → SectorTransaction → SectorTransaction
  capture_directory_at sector = capture_sectors mapping sector adfs.directory_sectors

  pub capture_parent : Text → SectorTransaction → Result (ℕ × SectorTransaction)
  unfolding capture_directory_at
  capture_parent path t = do
    sector ← adfs.resolve_parent path
    ok (sector, capture_directory_at sector t)

  capture_entry : Option Entry → SectorTransaction → SectorTransaction
  capture_entry none t = t
  capture_entry (some entry) t =
      if entry.is_directory
      then t
      else capture_sectors mapping entry.start_sector
          ((entry.size + sector_bytes - 1) / sector_bytes) t

  pub capture_file : Text → SectorTransaction → Result SectorTransaction
  unfolding capture_entry
  capture_file path t = do entry ← adfs.resolve path; ok (capture_entry entry t)

  capture_directory_entry : Option Entry → SectorTransaction → Result (ℕ × SectorTransaction)
  unfolding capture_directory_at
  capture_directory_entry none t = err not_a_directory
  capture_directory_entry (some entry) t =
      if entry.is_directory
      then ok (entry.start_sector, capture_directory_at entry.start_sector t)
      else err not_a_directory

  pub capture_directory : Text → SectorTransaction → Result (ℕ × SectorTransaction)
  unfolding capture_directory_entry
  capture_directory path t = do entry ← adfs.resolve path; capture_directory_entry entry t
