-- ===== src/Dfs/Paths.antt =====
-- The virtual paths of a double-sided image.
use nautilus_acornfs.Prelude.{◌≡◌, [], ◌∷◌}
use nautilus_acornfs.Prelude.Text.{Text, codes}
use nautilus_acornfs.Prelude.Result.{ok}
use nautilus_acornfs.Mounting.{Mount}
use nautilus_acornfs.Dfs.{DoubleSided, virtual_path, split}

module _ {World : Type 0} (dfs : DoubleSided World) where
  -- The two drives, with their mounts.
  pub data IsDrive : Text → Mount World → Type 0 where
    zero_side : {drive : Text} → drive ≡ codes "0" → IsDrive drive dfs.side_zero
    two_side : {drive : Text} → drive ≡ codes "2" → IsDrive drive dfs.side_two

  -- A virtual path of a drive splits into the drive, its mount and the inner path, for every inner path,
  -- the empty one and one with colons included.
  pub split-virtual_path :
      (drive inner : Text) (mount : Mount World)
      → IsDrive drive mount
      → split dfs (virtual_path drive inner) ≡ ok (drive, mount, inner)
  unfolding split virtual_path
  split-virtual_path drive [] mount (zero_side e) = rw e
  split-virtual_path drive (c ∷ inner) mount (zero_side e) = rw e
  split-virtual_path drive [] mount (two_side e) = rw e
  split-virtual_path drive (c ∷ inner) mount (two_side e) = rw e
