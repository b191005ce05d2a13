-- ===== src/Fuse/Writes.antt =====
-- `open`, `write` and the commit of a buffer that holds what was written to a file.
pub mod Buffers
use nautilus_acornfs.Prelude.{
  ℕ, ◌+◌, ◌-◌, Bool, true, false, not, ◌&&◌, Option, none, some, List, [], ◌∷◌, ◌++◌, if◌then◌else◌,
  ltb, ◌==◌, any, length, take, drop, replicate,
}
use nautilus_acornfs.Prelude.Text.{Bytes}
use nautilus_acornfs.Prelude.Dict.{Dict, lookup, insert, erase}
use nautilus_acornfs.Prelude.Result.{
  Error, Result, ok, err, fuse_error, key_error, file_not_found, file_exists, is_a_directory,
  not_a_directory, permission_error, value_error, mmb_format_error, filename_too_long,
  adfs_disc_full, adfs_directory_full, adfs_not_empty, adfs_entry_exists, adfs_file_locked,
  adfs_path_error, enoent, eexist, enotempty, enospc, eacces, eisdir, enotdir, enametoolong, einval,
  eio, ebadf, erofs,
}
use nautilus_acornfs.Prelude.Exec.{
  Exec, pure, raise, raise_when, modify, gets, continue, ◌>>=◌, ◌>>◌,
}
use nautilus_acornfs.Fuse.ReadAhead.{State, clear_inode_read_ahead, new_handle}
use nautilus_acornfs.Fuse.Reads.{ImageView, with_inode}

-- `_raise_fuse`. An `OSError` that carries `ENOTEMPTY` is not told apart from others here.
unfoldable pub fuse_code : Error → Error
fuse_code file_not_found = fuse_error enoent
fuse_code file_exists = fuse_error eexist
fuse_code adfs_entry_exists = fuse_error eexist
fuse_code adfs_not_empty = fuse_error enotempty
fuse_code adfs_disc_full = fuse_error enospc
fuse_code adfs_directory_full = fuse_error enospc
fuse_code adfs_file_locked = fuse_error eacces
fuse_code permission_error = fuse_error eacces
fuse_code is_a_directory = fuse_error eisdir
fuse_code not_a_directory = fuse_error enotdir
fuse_code filename_too_long = fuse_error enametoolong
fuse_code value_error = fuse_error einval
fuse_code mmb_format_error = fuse_error einval
fuse_code adfs_path_error = fuse_error enoent
fuse_code e = fuse_error eio

abbrev pub mark_dirty : ℕ → List ℕ → List ℕ
mark_dirty inode dirty = if any (λ i. i == inode) dirty then dirty else inode ∷ dirty

abbrev pub unmark : ℕ → List ℕ → List ℕ
unmark inode [] = []
unmark inode (i ∷ dirty) = if i == inode then unmark inode dirty else i ∷ unmark inode dirty

-- `data.extend(b"\0" * (end - len(data)))` and `data[off:end] = buf`
unfoldable pub write_into : ℕ → Bytes → Bytes → Bytes
write_into offset written content =
    let longer = content ++ replicate (offset + length written - length content) 0 in
    take offset longer ++ (written ++ drop (offset + length written) longer)

module _ {World : Type 0} (image : ImageView World) where
  abbrev pub or_code : Result (Unit {0}) × World → State World → Result (Unit {0}) × State World
  unfolding fuse_code
  or_code (ok u, w) s = (ok tt, record s { world = w })
  or_code (err e, w) s = (err (fuse_code e), record s { world = w })

  -- `preflight_file_size`, for a write behind the end only.
  abbrev pub preflight : ℕ → ℕ → Bytes → Exec (State World) (Unit {0})
  unfolding fuse_code
  preflight inode stop content s =
      if ltb (length content) stop
      then or_code (image.preflight_file_size inode stop s.world) s
      else (ok tt, s)

  abbrev pub store_write : ℕ → ℕ → Bytes → Bytes → Exec (State World) ℕ
  unfolding write_into
  store_write inode offset written content s = (
    ok (length written),
    record s {
      write_buffers = insert inode (write_into offset written content) s.write_buffers;
      dirty = mark_dirty inode s.dirty;
    },
  )

  abbrev pub write_buffered : ℕ → ℕ → Bytes → Option Bytes → Exec (State World) ℕ
  unfolding fuse_code write_into
  write_buffered inode offset written none s = (err (fuse_error ebadf), s)
  write_buffered inode offset written (some content) s =
      (preflight inode (offset + length written) content
          >> store_write inode offset written content)
        s

  abbrev pub write_inode : ℕ → ℕ → Bytes → Exec (State World) ℕ
  unfolding fuse_code write_into clear_inode_read_ahead
  write_inode inode offset written s =
      let cleared = clear_inode_read_ahead inode s in
      write_buffered inode offset written (lookup inode cleared.write_buffers) cleared

  -- `write`
  unfoldable pub write : ℕ → ℕ → Bytes → Exec (State World) ℕ
  unfolding fuse_code write_into clear_inode_read_ahead
  write fh offset written s =
      if not image.writable then (err (fuse_error erofs), s) else (elim (lookup fh s.handles) [
        | none ↦ (err (fuse_error ebadf), s)
        | some inode ↦ write_inode inode offset written s
      ])

  abbrev pub is_open : ℕ → Dict ℕ → Bool
  is_open inode [] = false
  is_open inode ((fh, i) ∷ handles) = if i == inode then true else is_open inode handles

  abbrev pub committed :
      ℕ → Result (Unit {0}) × World → State World → Result (Unit {0}) × State World
  committed inode (err e, w) s = (err e, record s { world = w })
  committed inode (ok u, w) s = (
    ok tt,
    record s {
      world = w;
      dirty = unmark inode s.dirty;
      write_buffers =
          if is_open inode s.handles then s.write_buffers else erase inode s.write_buffers;
    },
  )

  -- `_commit_buffer`
  unfoldable pub commit_buffer : ℕ → Exec (State World) (Unit {0})
  commit_buffer inode s =
      if not (any (λ i. i == inode) s.dirty)
      then (ok tt, s)
      else (elim (lookup inode s.write_buffers) [
        | none ↦ (err key_error, s)
        | some content ↦ committed inode (image.replace_file inode content s.world) s
      ])

  abbrev pub coded : Result (Unit {0}) × State World → Result (Unit {0}) × State World
  unfolding fuse_code
  coded (ok u, s) = (ok tt, s)
  coded (err e, s) = (err (fuse_code e), s)

  -- `_flush_inode`
  unfoldable pub flush_inode : ℕ → Exec (State World) (Unit {0})
  unfolding fuse_code commit_buffer
  flush_inode inode s = coded (commit_buffer inode s)
