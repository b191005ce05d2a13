-- ===== src/Image/Reads.antt =====
-- `ReadOnlyImage.read`, `uses_ranged_reads` and `_read_range`: a large file is read by the sectors that a
-- range needs. Offsets and sizes are not negative, since FUSE passes unsigned numbers.
pub mod Ranges
use nautilus_acornfs.Prelude.{
  ℕ, ◌+◌, ◌-◌, ◌*◌, ◌/◌, ◌%◌, min, Bool, true, false, not, ◌&&◌, ◌||◌, Option, none, some, List, [],
  if◌then◌else◌, ltb, leb, ◌==◌, length, take, drop, slice,
}
use nautilus_acornfs.Prelude.Text.{Text, Bytes}
use nautilus_acornfs.Prelude.Dict.{Dict, lookup}
use nautilus_acornfs.Prelude.Result.{Result, ok, err, key_error, is_a_directory, ◌>>=◌}
use nautilus_acornfs.Image.Node.{ImageNode}
use nautilus_acornfs.Image.Cache.{Cache, cached_file}

abbrev pub adfs_sector_bytes : ℕ
adfs_sector_bytes = 256

-- What a read asks of Oaknut: a whole file, and for an old-map ADFS image the start sector of an entry
-- and a run of sectors.
pub record Files : Type 0 where
  pub read_bytes : Text → Result Bytes
  pub is_old_adfs : Bool
  pub start_sector : Text → Result ℕ
  pub sector_range : ℕ → ℕ → Bytes

module _ (files : Files) where
  -- The sectors of the range, and the range in them.
  read_sectors : ImageNode → ℕ → ℕ → Result Bytes
  read_sectors node offset stop = do
    start ← files.start_sector node.acorn_path
    let first = offset / adfs_sector_bytes
    let final = (stop + adfs_sector_bytes - 1) / adfs_sector_bytes
    let content = files.sector_range (start + first) (final - first)
    let within = offset % adfs_sector_bytes
    ok (slice within (within + stop - offset) content)

  read_whole : ImageNode → ℕ → ℕ → Result Bytes
  read_whole node offset stop = do
    content ← files.read_bytes node.acorn_path
    ok (slice offset stop content)

  unfoldable pub read_range : ImageNode → ℕ → ℕ → Result Bytes
  unfolding read_sectors read_whole
  read_range node offset size =
      if size == 0 || leb node.size offset
      then ok []
      else (let stop = min node.size (offset + size) in
          if files.is_old_adfs then read_sectors node offset stop else read_whole node offset stop)

  abbrev pub sliced : ℕ → ℕ → Result Bytes × Cache → Result Bytes × Cache
  sliced offset size (ok content, c) = (ok (slice offset (offset + size) content), c)
  sliced offset size (err e, c) = (err e, c)

  read_node : ImageNode → ℕ → ℕ → Cache → Result Bytes × Cache
  unfolding read_range
  read_node node offset size c =
      if node.is_dir
      then (err is_a_directory, c)
      else if ltb c.limit node.size
      then (read_range node offset size, c)
      else sliced offset size (cached_file node.inode (files.read_bytes node.acorn_path) c)

  found_node : Option ImageNode → ℕ → ℕ → Cache → Result Bytes × Cache
  unfolding read_node
  found_node none offset size c = (err key_error, c)
  found_node (some node) offset size c = read_node node offset size c

  -- `read`
  unfoldable pub read : Dict ImageNode → ℕ → ℕ → ℕ → Cache → Result Bytes × Cache
  unfolding found_node
  read nodes inode offset size c = found_node (lookup inode nodes) offset size c

-- `uses_ranged_reads`
abbrev ranged : ℕ → Option ImageNode → Result Bool
ranged limit none = err key_error
ranged limit (some node) = ok (not node.is_dir && ltb limit node.size)

unfoldable pub uses_ranged_reads : Dict ImageNode → ℕ → Cache → Result Bool
uses_ranged_reads nodes inode c = ranged c.limit (lookup inode nodes)
