-- ===== src/Fuse/Reads.antt =====
-- `read`: from the buffer of what was written, from the read-ahead buffer, or from the image.
pub mod Accounts
pub mod Contents
pub mod Hits
pub mod Room
use nautilus_acornfs.Prelude.{
  ℕ, ◌+◌, ◌-◌, Bool, true, false, not, ◌&&◌, Option, none, some, List, [], ◌∷◌, if◌then◌else◌, leb,
  ◌==◌, length, slice, take, drop, min,
}
use nautilus_acornfs.Prelude.Text.{Bytes}
use nautilus_acornfs.Prelude.Dict.{Dict, lookup, insert}
use nautilus_acornfs.Prelude.Result.{
  Error, Result, ok, err, Errno, fuse_error, key_error, is_a_directory, enoent, eisdir, eio, ebadf,
}
use nautilus_acornfs.Prelude.Exec.{Exec, pure, raise, modify, continue, ◌>>=◌, ◌>>◌}
use nautilus_acornfs.Fuse.ReadAhead.{
  State, ReadState, Limits, put_state, with_state, clear_read_ahead, store_read_ahead,
  consume_read_ahead,
}

-- What the operations use of `ReadOnlyImage`.
pub record ImageView (World : Type 0) : Type 0 where
  pub writable : Bool
  pub node_size : ℕ → World → Option ℕ
  pub uses_ranged_reads : ℕ → World → Bool
  pub read : ℕ → ℕ → ℕ → Exec World Bytes
  pub preflight_file_size : ℕ → ℕ → Exec World (Unit {0})
  pub replace_file : ℕ → Bytes → Exec World (Unit {0})

module _ {World : Type 0} (image : ImageView World) (limits : Limits) where
  -- `_handle_inode`
  abbrev pub with_inode : {A : Type 0} → ℕ → (ℕ → Exec (State World) A) → Exec (State World) A
  with_inode fh f s = elim (lookup fh s.handles) [
    | none ↦ (err (fuse_error ebadf), s)
    | some inode ↦ f inode s
  ]

  abbrev pub counted : ℕ → ReadState → ReadState
  counted offset st = record st {
    sequential_reads = elim st.next_offset [
      | none ↦ 1
      | some next ↦ if next == offset then st.sequential_reads + 1 else 1
    ];
  }

  -- How much to read, if the node can be found.
  abbrev pub read_size : ℕ → ℕ → ℕ → ReadState → World → Option ℕ
  read_size inode offset size st w =
      if leb limits.threshold st.sequential_reads
        && not (limits.ahead == 0)
        && not (limits.cache == 0)
        && image.uses_ranged_reads inode w
      then (elim (image.node_size inode w) [
        | none ↦ none
        | some total ↦ some (min (size + limits.ahead) (total - offset))
      ])
      else some size

  -- The handlers of `read`.
  abbrev pub read_error : Error → Error
  read_error key_error = fuse_error enoent
  read_error is_a_directory = fuse_error eisdir
  read_error e = fuse_error eio

  abbrev pub finish_read : ℕ → ℕ → ℕ → Bytes → Exec (State World) Bytes
  unfolding store_read_ahead
  finish_read fh offset size content =
      let result = take size content in
      with_state fh
        (λ st. modify (put_state fh (record st { next_offset = some (offset + length result) })))
      >> store_read_ahead limits.cache fh (offset + length result) (drop (length result) content)
      >> pure result

  abbrev pub read_result : ℕ → ℕ → ℕ → Result Bytes → Exec (State World) Bytes
  unfolding store_read_ahead
  read_result fh offset size (ok content) s = finish_read fh offset size content s
  read_result fh offset size (err e) s = (err (read_error e), s)

  abbrev pub fetch : ℕ → ℕ → ℕ → ℕ → Option ℕ → Exec (State World) Bytes
  unfolding store_read_ahead
  fetch fh inode offset size none s = (err (fuse_error eio), s)
  fetch fh inode offset size (some n) s =
      let (r, w) = image.read inode offset n s.world in
      read_result fh offset size r (record s { world = w })

  abbrev pub read_image : ℕ → ℕ → ℕ → ℕ → ReadState → Exec (State World) Bytes
  unfolding store_read_ahead
  read_image fh inode offset size st s =
      fetch fh inode offset size (read_size inode offset size (counted offset st) s.world)
        (put_state fh (counted offset st) s)

  abbrev pub read_ahead : ℕ → ℕ → ℕ → ℕ → Option Bytes → Exec (State World) Bytes
  unfolding store_read_ahead
  read_ahead fh inode offset size none = with_state fh (read_image fh inode offset size)
  read_ahead fh inode offset size (some prefetched) = pure prefetched

  abbrev pub read_buffered : ℕ → ℕ → ℕ → ℕ → Option Bytes → Exec (State World) Bytes
  unfolding clear_read_ahead store_read_ahead consume_read_ahead
  read_buffered fh inode offset size (some buffered) s =
      (ok (slice offset (offset + size) buffered), clear_read_ahead fh s)
  read_buffered fh inode offset size none s =
      if size == 0
      then (ok [], s)
      else (consume_read_ahead fh offset size >>= read_ahead fh inode offset size) s

  -- `read`
  unfoldable pub read : ℕ → ℕ → ℕ → Exec (State World) Bytes
  unfolding clear_read_ahead store_read_ahead consume_read_ahead
  read fh offset size =
      with_inode fh λ inode s. read_buffered fh inode offset size (lookup inode s.write_buffers) s
