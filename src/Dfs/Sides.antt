-- ===== src/Dfs/Sides.antt =====
-- Removals and renames of `DoubleSidedDFSMount`, and the writes to a path that names no drive.
use nautilus_acornfs.Prelude.{◌≡◌, refl, Bool, if◌then◌else◌, arith}
use nautilus_acornfs.Prelude.Text.{Text, Bytes, text_eq}
use nautilus_acornfs.Prelude.Result.{Error, err, permission_error, os_error}
use nautilus_acornfs.Mounting.{Mount, AcornMeta}
use nautilus_acornfs.Dfs.{
  DoubleSided, is_empty, virtual_path, split, write_bytes, remove, rename, set_acorn_meta,
}
use nautilus_acornfs.Dfs.Paths.{IsDrive, split-virtual_path}

module _ {World : Type 0} (dfs : DoubleSided World) where
  -- A rename between paths of one drive is that of its mount. Between the two drives it is refused as an
  -- operating-system error, and neither side is changed.
  pub rename-eq :
      (a b i j : Text) (m n : Mount World) (w : World)
      → IsDrive dfs a m
      → IsDrive dfs b n
      → rename dfs (virtual_path a i) (virtual_path b j) w
        ≡ (if text_eq a b then m.rename i j w else (err os_error, w))
  unfolding rename
  rename-eq a b i j m n w da db =
      rw (split-virtual_path dfs a i m da, split-virtual_path dfs b j n db) (ground arith)

  -- A removal is that of the drive's mount, but the directory of a drive cannot be removed.
  pub remove-eq :
      (a i : Text) (m : Mount World) (force : Bool) (w : World)
      → IsDrive dfs a m
      → remove dfs (virtual_path a i) force w
        ≡ (if is_empty i then (err permission_error, w) else m.remove i force w)
  unfolding remove
  remove-eq a i m force w da = rw (split-virtual_path dfs a i m da) (ground arith)

  -- A path that names no drive is refused by every call that writes, and nothing is changed.
  pub refused_writes :
      (path : Text) (e : Error) (content : Bytes) (force : Bool) (meta : AcornMeta) (target : Text)
      (w : World)
      → split dfs path ≡ err e
      → (write_bytes dfs path content w ≡ (err e, w))
        × (remove dfs path force w ≡ (err e, w))
        × (rename dfs path target w ≡ (err e, w))
        × (set_acorn_meta dfs path meta w ≡ (err e, w))
  unfolding write_bytes remove rename set_acorn_meta
  refused_writes path e content force meta target w h = rw h (refl, refl, refl, refl)
