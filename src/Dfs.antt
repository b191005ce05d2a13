-- ===== src/Dfs.antt =====
-- src/acornfs/core/dfs.py: `DoubleSidedDFSMount`, the two sides of a DFS image in one namespace.
pub mod Paths
pub mod Sides
use nautilus_acornfs.Prelude.{
  ℕ, ◌+◌, Bool, true, false, not, ◌&&◌, ◌||◌, Option, none, some, List, [], ◌∷◌, ◌++◌, map,
  if◌then◌else◌,
}
use nautilus_acornfs.Prelude.Text.{Text, Bytes, codes, text_eq, partition}
use nautilus_acornfs.Prelude.Result.{Result, ok, err, file_not_found, permission_error, os_error}
use nautilus_acornfs.Prelude.Exec.{Exec, pure, raise, continue, ◌>>=◌, ◌>>◌}
use nautilus_acornfs.Mounting.{Entry, AcornMeta, Mount}

abbrev pub colon : ℕ
colon = b':'

abbrev pub is_empty : Text → Bool
is_empty [] = true
is_empty (c ∷ s) = false

-- `_virtual_path`
unfoldable pub virtual_path : Text → Text → Text
virtual_path drive path = if is_empty path then colon ∷ drive else colon ∷ drive ++ colon ∷ path

abbrev entry_at : Text → Entry → Entry
entry_at drive e = record e { path = virtual_path drive e.path }

-- The virtual directory of a drive, and the root.
abbrev drive_entry : Text → Entry
drive_entry drive = record { name = drive; is_dir = true; size = 0; path = colon ∷ drive }

abbrev root_entry : Entry
root_entry = record { name = []; is_dir = true; size = 0; path = [] }

-- The state of the adapter: a mount for each side.
pub record DoubleSided (World : Type 0) : Type 0 where
  pub side_zero : Mount World
  pub side_two : Mount World

module _ {World : Type 0} (dfs : DoubleSided World) where
  -- `self._mounts.get(drive)`
  unfoldable pub mount_of : Text → Option (Mount World)
  mount_of drive =
      if text_eq drive (codes "0")
      then some dfs.side_zero
      else if text_eq drive (codes "2")
      then some dfs.side_two
      else none

  abbrev keep_drive : Option (Mount World) → Text × Bool × Text → Result (Text × Mount World × Text)
  keep_drive none (drive, separator, inner) = err file_not_found
  keep_drive (some mount) (drive, separator, inner) =
      if not separator && not (is_empty inner) then err file_not_found else ok (drive, mount, inner)

  -- `_split`, with the mount of the drive.
  unfoldable pub split : Text → Result (Text × Mount World × Text)
  unfolding mount_of
  split [] = err file_not_found
  split (c ∷ path) =
      let parts = partition colon path in
      if text_eq (c ∷ []) (codes ":")
      then keep_drive (mount_of parts.0) parts
      else err file_not_found

  abbrev with_split :
      {A : Type 0} → Text → (Text → Mount World → Text → Exec World A) → Exec World A
  with_split path f w = continue (split path) (λ (d : Text × Mount World × Text). f d.0 d.1 d.2) w

  unfoldable pub stat : Text → Exec World Entry
  unfolding split
  stat path =
      if is_empty path
      then pure root_entry
      else with_split path λ drive mount inner.
        if is_empty inner
        then pure (drive_entry drive)
        else mount.stat inner >>= λ e. pure (entry_at drive e)

  unfoldable pub join : Text → Text → Exec World Text
  unfolding split
  join parent name =
      if is_empty parent
      then (elim (mount_of name) [ none ↦ raise file_not_found | some mount ↦ pure (colon ∷ name) ])
      else with_split parent
          λ drive mount inner. mount.join inner name >>= λ joined. pure (virtual_path drive joined)

  unfoldable pub iter_entries : Text → Exec World (List Entry)
  unfolding split
  iter_entries path =
      if is_empty path
      then pure (drive_entry (codes "0") ∷ drive_entry (codes "2") ∷ [])
      else with_split path λ drive mount inner.
        mount.iter_entries inner >>= λ entries. pure (map (λ e. entry_at drive e) entries)

  abbrev exists_in : Result (Text × Mount World × Text) → Exec World Bool
  exists_in (ok (drive, mount, inner)) = if is_empty inner then pure true else mount.exists inner
  exists_in (err e) = pure false

  unfoldable pub exists : Text → Exec World Bool
  unfolding split
  exists path = if is_empty path then pure true else exists_in (split path)

  unfoldable pub read_bytes : Text → Exec World Bytes
  unfolding split
  read_bytes path = with_split path λ drive mount inner. mount.read_bytes inner

  unfoldable pub acorn_meta : Text → Exec World AcornMeta
  unfolding split
  acorn_meta path = with_split path λ drive mount inner. mount.acorn_meta inner

  unfoldable pub free_bytes : Exec World ℕ
  free_bytes = do zero ← dfs.side_zero.free_bytes; two ← dfs.side_two.free_bytes; pure (zero + two)

  unfoldable pub size_bytes : Exec World ℕ
  size_bytes = do zero ← dfs.side_zero.size_bytes; two ← dfs.side_two.size_bytes; pure (zero + two)

  unfoldable pub available_bytes : Text → Exec World ℕ
  unfolding split
  available_bytes path = with_split path λ drive mount inner. mount.free_bytes

  unfoldable pub write_bytes : Text → Bytes → Exec World (Unit {0})
  unfolding split
  write_bytes path content = with_split path λ drive mount inner. mount.write_bytes inner content

  unfoldable pub remove : Text → Bool → Exec World (Unit {0})
  unfolding split
  remove path force = with_split path λ drive mount inner.
      if is_empty inner then raise permission_error else mount.remove inner force

  unfoldable pub rename : Text → Text → Exec World (Unit {0})
  unfolding split
  rename old_path new_path = with_split old_path λ old_drive old_mount old_inner.
      with_split new_path λ new_drive new_mount new_inner.
        if text_eq old_drive new_drive then old_mount.rename old_inner new_inner else raise os_error

  unfoldable pub set_acorn_meta : Text → AcornMeta → Exec World (Unit {0})
  unfolding split
  set_acorn_meta path meta = with_split path λ drive mount inner. mount.set_acorn_meta inner meta

  unfoldable pub validate : Exec World (List Text)
  validate = do zero ← dfs.side_zero.validate; two ← dfs.side_two.validate; pure (zero ++ two)
