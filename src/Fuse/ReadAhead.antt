-- ===== src/Fuse/ReadAhead.antt =====
-- The state of `ReadOnlyOperations` and its read-ahead buffers.
use nautilus_acornfs.Prelude.{
  ℕ, zero, suc, ◌+◌, ◌-◌, Bool, true, false, not, ◌||◌, Option, none, some, List, [], ◌∷◌,
  if◌then◌else◌, ltb, ◌==◌, length, slice, take, min,
}
use nautilus_acornfs.Prelude.Text.{Bytes}
use nautilus_acornfs.Prelude.Dict.{Dict, lookup, insert, erase}
use nautilus_acornfs.Prelude.Result.{ok, err, key_error, foreign}
use nautilus_acornfs.Prelude.Exec.{Exec, modify, ◌>>◌}

pub record ReadState : Type 0 where
  pub next_offset : Option ℕ
  pub sequential_reads : ℕ
  pub buffer_offset : ℕ
  pub buffer : Bytes
  pub buffer_position : ℕ

-- The limits that `__init__` sets.
pub record Limits : Type 0 where
  pub ahead : ℕ
  pub cache : ℕ
  pub threshold : ℕ

-- The fields of the adapter, with the image behind it.
pub record State (World : Type 0) : Type 0 where
  pub world : World
  pub write_buffers : Dict Bytes
  pub dirty : List ℕ
  pub handles : Dict ℕ
  pub read_states : Dict ReadState
  pub lru : Dict (Unit {0})
  pub ahead_size : ℕ
  pub next_fh : ℕ

abbrev pub fresh_state : ReadState
fresh_state = record {
  next_offset = none;
  sequential_reads = 0;
  buffer_offset = 0;
  buffer = [];
  buffer_position = 0;
}

abbrev pub emptied : ReadState → ReadState
emptied st = record st { buffer = []; buffer_offset = 0; buffer_position = 0 }

abbrev pub advanced : ℕ → Bytes → ReadState → ReadState
advanced offset result st = record st {
  buffer_position = st.buffer_position + length result;
  buffer_offset = st.buffer_offset + length result;
  next_offset = some (offset + length result);
  sequential_reads = st.sequential_reads + 1;
}

abbrev pub filled : ℕ → Bytes → ReadState → ReadState
filled offset content st = record st {
  buffer_offset = offset;
  buffer = content;
  buffer_position = 0;
}

abbrev pub is_empty : Bytes → Bool
is_empty [] = true
is_empty (b ∷ bs) = false

abbrev pub oldest : Dict (Unit {0}) → Option ℕ
oldest [] = none
oldest ((fh, u) ∷ lru) = some fh

module _ {World : Type 0} where
  abbrev pub put_state : ℕ → ReadState → State World → State World
  put_state fh st s = record s { read_states = insert fh st s.read_states }

  -- `_new_handle`
  unfoldable pub new_handle : ℕ → Exec (State World) ℕ
  new_handle inode s = (
    ok s.next_fh,
    record s {
      next_fh = s.next_fh + 1;
      handles = insert s.next_fh inode s.handles;
      read_states = insert s.next_fh fresh_state s.read_states;
    },
  )

  abbrev pub cleared : ℕ → Option ReadState → State World → State World
  cleared fh none s = s
  cleared fh (some st) s = record s {
    ahead_size = s.ahead_size - length st.buffer;
    read_states = insert fh (emptied st) s.read_states;
    lru = erase fh s.lru;
  }

  -- `_clear_read_ahead`
  unfoldable pub clear_read_ahead : ℕ → State World → State World
  clear_read_ahead fh s = cleared fh (lookup fh s.read_states) s

  clear_each : ℕ → Dict ℕ → State World → State World
  unfolding clear_read_ahead
  clear_each inode [] s = s
  clear_each inode ((fh, i) ∷ handles) s =
      clear_each inode handles (if i == inode then clear_read_ahead fh s else s)

  -- `_clear_inode_read_ahead`
  unfoldable pub clear_inode_read_ahead : ℕ → State World → State World
  unfolding clear_each
  clear_inode_read_ahead inode s = clear_each inode s.handles s

  -- The eviction loop, on fuel; `next(iter(lru))` of an empty `lru` is a `StopIteration`.
  unfoldable pub make_room : ℕ → ℕ → ℕ → Exec (State World) (Unit {0})
  unfolding clear_read_ahead
  make_room zero limit keep s = (err foreign, s)
  make_room (suc fuel) limit keep s =
      if ltb limit (s.ahead_size + keep)
      then (elim (oldest s.lru) [
        | none ↦ (err foreign, s)
        | some fh ↦ make_room fuel limit keep (clear_read_ahead fh s)
      ])
      else (ok tt, s)

  -- `self._read_states[fh]`
  abbrev pub with_state :
      {A : Type 0} → ℕ → (ReadState → Exec (State World) A) → Exec (State World) A
  with_state fh f s = elim (lookup fh s.read_states) [
    | none ↦ (err key_error, s)
    | some st ↦ f st s
  ]

  abbrev pub keep_ahead : ℕ → ℕ → Bytes → ReadState → Exec (State World) (Unit {0})
  keep_ahead fh offset content st = modify λ s. record s {
    read_states = insert fh (filled offset content st) s.read_states;
    ahead_size = s.ahead_size + length content;
    lru = insert fh tt s.lru;
  }

  -- `_store_read_ahead`
  unfoldable pub store_read_ahead : ℕ → ℕ → ℕ → Bytes → Exec (State World) (Unit {0})
  unfolding clear_read_ahead make_room
  store_read_ahead limit fh offset content s =
      let keep = min (length content) limit in
      let t = clear_read_ahead fh s in
      if keep == 0
      then (ok tt, t)
      else ((make_room (length t.lru + 1) limit keep
            >> with_state fh (keep_ahead fh offset (take keep content)))
          t)

  -- What a hit leaves: the handle is the one used last, or its buffer is used up.
  unfoldable pub after_hit : ℕ → ReadState → State World → State World
  unfolding clear_read_ahead
  after_hit fh st s =
      if ltb st.buffer_position (length st.buffer)
      then record s { lru = insert fh tt (erase fh s.lru) }
      else clear_read_ahead fh s

  abbrev pub consume : ℕ → ℕ → ℕ → ReadState → Exec (State World) (Option Bytes)
  unfolding clear_read_ahead after_hit
  consume fh offset size st s =
      let result = slice st.buffer_position (st.buffer_position + size) st.buffer in
      let available = length st.buffer - st.buffer_position in
      if is_empty st.buffer
      then (ok none, s)
      else if not (offset == st.buffer_offset) || ltb available size
      then (ok none, clear_read_ahead fh s)
      else (
        ok (some result),
        after_hit fh (advanced offset result st) (put_state fh (advanced offset result st) s),
      )

  -- `_consume_read_ahead`
  unfoldable pub consume_read_ahead : ℕ → ℕ → ℕ → Exec (State World) (Option Bytes)
  unfolding clear_read_ahead after_hit
  consume_read_ahead fh offset size = with_state fh (consume fh offset size)
