-- ===== src/Image/Node.antt =====
-- `ImageNode`: one entry of the mounted directory index.
use nautilus_acornfs.Prelude.{ℕ, Bool}
use nautilus_acornfs.Prelude.Text.{Text, Bytes}

abbrev pub root_inode : ℕ
root_inode = 1

pub record ImageNode : Type 0 where
  pub inode : ℕ
  pub parent_inode : ℕ
  pub name : Bytes
  pub acorn_path : Text
  pub is_dir : Bool
  pub size : ℕ
  pub locked : Bool
  pub run_only : Bool
