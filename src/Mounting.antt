-- ===== src/Mounting.antt =====
-- The Oaknut mount that the adapters of src/acornfs/core/dfs.py and mmb.py forward to. `World` is what a
-- call may change: the image and the mount's own state.
use nautilus_acornfs.Prelude.{ℕ, Bool, List}
use nautilus_acornfs.Prelude.Text.{Text, Bytes}
use nautilus_acornfs.Prelude.Exec.{Exec}

-- `oaknut.filesystem.Entry`
pub record Entry : Type 0 where
  pub name : Text
  pub is_dir : Bool
  pub size : ℕ
  pub path : Text

-- `oaknut.file.AcornMeta`, as numbers.
pub record AcornMeta : Type 0 where
  pub load_address : ℕ
  pub exec_address : ℕ
  pub access : ℕ

pub record Mount (World : Type 0) : Type 0 where
  pub stat : Text → Exec World Entry
  pub join : Text → Text → Exec World Text
  pub iter_entries : Text → Exec World (List Entry)
  pub exists : Text → Exec World Bool
  pub read_bytes : Text → Exec World Bytes
  pub acorn_meta : Text → Exec World AcornMeta
  pub free_bytes : Exec World ℕ
  pub size_bytes : Exec World ℕ
  pub write_bytes : Text → Bytes → Exec World (Unit {0})
  pub remove : Text → Bool → Exec World (Unit {0})
  pub rename : Text → Text → Exec World (Unit {0})
  pub set_acorn_meta : Text → AcornMeta → Exec World (Unit {0})
  pub validate : Exec World (List Text)
