-- ===== src/Mmb/Slots.antt =====
-- src/acornfs/core/mmb.py: `MMBMount`, the slots of a container as directories. Oaknut's probe and its DFS
-- mounts, the closing of a mount, and the decimal value of a Unicode character are parameters.
pub mod Locks
pub mod Mounted
use nautilus_acornfs.Prelude.{
  ℕ, ◌+◌, Bool, true, false, not, ◌&&◌, ◌||◌, Option, none, some, List, [], ◌∷◌, ◌++◌, map, length,
  if◌then◌else◌, ltb, ◌==◌,
}
use nautilus_acornfs.Prelude.Text.{Text, Bytes, codes, text_eq, partition}
use nautilus_acornfs.Prelude.Decimal.{decimal, int_from}
use nautilus_acornfs.Prelude.Dict.{Dict, lookup, insert, erase}
use nautilus_acornfs.Prelude.Result.{
  Result, ok, err, file_not_found, permission_error, os_error, value_error, mmb_format_error,
}
use nautilus_acornfs.Prelude.Exec.{Exec, pure, raise, raise_when, continue, ◌>>=◌, ◌>>◌}
use nautilus_acornfs.Mounting.{Entry, AcornMeta, Mount}
use nautilus_acornfs.Mmb.Layout.{MmbSlot, slot_bytes, status_read_write, display_name}

abbrev pub is_empty : Text → Bool
is_empty [] = true
is_empty (c ∷ s) = false

-- `_virtual_path`
unfoldable pub virtual_path : ℕ → Text → Text
unfolding decimal
virtual_path index inner =
    if is_empty inner then b'@' ∷ decimal index else b'@' ∷ decimal index ++ b':' ∷ inner

abbrev root_entry : Entry
root_entry = record { name = []; is_dir = true; size = 0; path = [] }

abbrev pub slot_entry : MmbSlot → Entry
unfolding display_name decimal
slot_entry slot = record {
  name = display_name slot;
  is_dir = true;
  size = 0;
  path = b'@' ∷ decimal slot.index;
}

abbrev entry_at : ℕ → Entry → Entry
entry_at index e = record e { path = virtual_path index e.path }

-- `{slot.index: slot for slot in layout.slots}`
abbrev pub by_index : Dict MmbSlot → List MmbSlot → Dict MmbSlot
by_index d [] = d
by_index d (slot ∷ slots) = by_index (insert slot.index slot d) slots

-- The digits that `int` converts at most.
abbrev pub int_max_str_digits : ℕ
int_max_str_digits = 4300

-- What the probe of a window finds.
pub record Candidate (Geometry : Type 0) : Type 0 where
  pub filesystem : Text
  pub geometry : Option Geometry

pub record Library (World Geometry : Type 0) : Type 0 where
  -- `identify(reader.window(offset, size))`
  pub identify : ℕ → ℕ → Exec World (List (Candidate Geometry))
  -- `create_filesystem(filesystem).open(region, geometry)`
  pub open_mount : Text → ℕ → ℕ → Geometry → Exec World (Mount World)
  -- `close()` of a mount, its exceptions suppressed
  pub close_mount : Mount World → World → World
  -- the value of a character for which `isdecimal` holds
  pub digit_value : ℕ → Option ℕ

-- The state: what the mounts act on, and the mounts that are open, the last used at the end.
pub record State (World : Type 0) : Type 0 where
  pub world : World
  pub mounts : Dict (Mount World)

module _ {World Geometry : Type 0} (lib : Library World Geometry) where
  abbrev choose : Text → Option Geometry → Option (Text × Geometry) → Option (Text × Geometry)
  choose f none later = later
  choose f (some g) later =
      if text_eq f (codes "acorn-dfs") || text_eq f (codes "watford-dfs")
      then some (f, g)
      else later

  -- The first candidate that is a DFS with a geometry.
  dfs_candidate : List (Candidate Geometry) → Option (Text × Geometry)
  dfs_candidate [] = none
  dfs_candidate (candidate ∷ candidates) =
      choose candidate.filesystem candidate.geometry (dfs_candidate candidates)

  -- `while len(self._mounts) > self._cache_limit`
  unfoldable pub evict_mounts : ℕ → Dict (Mount World) → World → State World
  evict_mounts limit [] w = record { world = w; mounts = [] }
  evict_mounts limit ((k, m) ∷ mounts) w =
      let evicted = evict_mounts limit mounts (lib.close_mount m w) in
      if ltb limit (length ((k, m) ∷ mounts))
      then evicted
      else record { world = w; mounts = (k, m) ∷ mounts }

  -- `close`
  unfoldable pub close : State World → State World
  unfolding evict_mounts
  close s = evict_mounts 0 s.mounts s.world

  -- A call on what the mounts act on.
  abbrev pub on_world : {A : Type 0} → Exec World A → Exec (State World) A
  on_world m s = let (r, w) = m s.world in (r, record s { world = w })

  abbrev pub open_candidate : MmbSlot → Option (Text × Geometry) → Exec (State World) (Mount World)
  open_candidate slot none = raise mmb_format_error
  open_candidate slot (some (f, g)) = on_world (lib.open_mount f slot.offset slot_bytes g)

  abbrev pub remember : ℕ → ℕ → Mount World → Exec (State World) (Mount World)
  unfolding evict_mounts
  remember limit index mount s =
      (ok mount, evict_mounts limit (insert index mount s.mounts) s.world)

  abbrev pub open_slot : ℕ → MmbSlot → Exec (State World) (Mount World)
  unfolding dfs_candidate
  open_slot limit slot = do
    candidates ← on_world (lib.identify slot.offset slot_bytes)
    mount ← open_candidate slot (dfs_candidate candidates)
    remember limit slot.index mount

  abbrev pub touch : ℕ → MmbSlot → Option (Mount World) → Exec (State World) (Mount World)
  touch limit slot none s = open_slot limit slot s
  touch limit slot (some mount) s =
      (ok mount, record s { mounts = insert slot.index mount (erase slot.index s.mounts) })

  -- `_slot_mount`
  unfoldable pub slot_mount : ℕ → MmbSlot → Exec (State World) (Mount World)
  unfolding evict_mounts dfs_candidate
  slot_mount limit slot s = touch limit slot (lookup slot.index s.mounts) s

  -- `_require_writable_slot`
  abbrev pub require_writable_slot : MmbSlot → Exec (State World) (Unit {0})
  require_writable_slot slot = raise_when (not (slot.status == status_read_write)) permission_error

  -- `isdecimal` and `int`
  abbrev pub index_of : Text → Result ℕ
  unfolding int_from
  index_of [] = err file_not_found
  index_of (c ∷ s) = elim (int_from lib.digit_value (some 0) (c ∷ s)) [
    | none ↦ err file_not_found
    | some index ↦ if ltb int_max_str_digits (length (c ∷ s)) then err value_error else ok index
  ]

  abbrev pub slot_at : Dict MmbSlot → Text × Bool × Text → Result ℕ → Result (MmbSlot × Text)
  slot_at slots parts (err e) = err e
  slot_at slots (index_text, separator, inner) (ok index) = elim (lookup index slots) [
    | none ↦ err file_not_found
    | some slot ↦
        if not separator && not (is_empty inner) then err file_not_found else ok (slot, inner)
  ]

  -- The adapter of a layout, with the limit of its cache.
  module _ (limit : ℕ) (layout_slots : List MmbSlot) where
    -- `_split`
    unfoldable pub split : Text → Result (MmbSlot × Text)
    unfolding int_from
    split [] = err file_not_found
    split (c ∷ path) =
        let parts = partition b':' path in
        if c == b'@'
        then slot_at (by_index [] layout_slots) parts (index_of parts.0)
        else err file_not_found

    abbrev with_split :
        {A : Type 0} → Text → (MmbSlot → Text → Exec (State World) A) → Exec (State World) A
    with_split path f s = continue (split path) (λ (d : MmbSlot × Text). f d.0 d.1) s

    abbrev with_mount : {A : Type 0} → MmbSlot → (Mount World → Exec World A) → Exec (State World) A
    unfolding slot_mount
    with_mount slot f = slot_mount limit slot >>= λ mount. on_world (f mount)

    unfoldable pub stat : Text → Exec (State World) Entry
    unfolding split slot_mount
    stat path =
        if is_empty path
        then pure root_entry
        else with_split path λ slot inner.
          if is_empty inner
          then pure (slot_entry slot)
          else with_mount slot (λ m. m.stat inner) >>= λ e. pure (entry_at slot.index e)

    named : Text → List MmbSlot → Result Text
    unfolding display_name decimal
    named name [] = err file_not_found
    named name (slot ∷ slots) =
        let later = named name slots in
        if text_eq (display_name slot) name then ok (b'@' ∷ decimal slot.index) else later

    unfoldable pub join : Text → Text → Exec (State World) Text
    unfolding split slot_mount named
    join parent name =
        if is_empty parent
        then (λ s. (named name layout_slots, s))
        else with_split parent λ slot inner. with_mount slot (λ m. m.join inner name) >>= λ joined.
            pure (virtual_path slot.index joined)

    unfoldable pub iter_entries : Text → Exec (State World) (List Entry)
    unfolding split slot_mount
    iter_entries path =
        if is_empty path
        then pure (map slot_entry layout_slots)
        else with_split path λ slot inner.
          with_mount slot (λ m. m.iter_entries inner) >>= λ entries.
          pure (map (λ e. entry_at slot.index e) entries)

    unfoldable pub exists : Text → Exec (State World) Bool
    unfolding split slot_mount
    exists path = if is_empty path then pure true else (elim (split path) [
      | ok (slot, inner) ↦
          if is_empty inner then pure true else with_mount slot (λ m. m.exists inner)
      | err file_not_found ↦ pure false
      | err e ↦ raise e
    ])

    unfoldable pub read_bytes : Text → Exec (State World) Bytes
    unfolding split slot_mount
    read_bytes path = with_split path λ slot inner. with_mount slot λ m. m.read_bytes inner

    unfoldable pub acorn_meta : Text → Exec (State World) AcornMeta
    unfolding split slot_mount
    acorn_meta path = with_split path λ slot inner. with_mount slot λ m. m.acorn_meta inner

    free_of : List MmbSlot → Exec (State World) ℕ
    unfolding slot_mount
    free_of [] = pure 0
    free_of (slot ∷ slots) = do
      free ← with_mount slot (λ m. m.free_bytes)
      rest ← free_of slots
      pure (free + rest)

    unfoldable pub free_bytes : Exec (State World) ℕ
    unfolding free_of
    free_bytes = free_of layout_slots

    unfoldable pub available_bytes : Text → Exec (State World) ℕ
    unfolding split slot_mount
    available_bytes path =
        with_split path
          λ slot inner. require_writable_slot slot >> with_mount slot (λ m. m.free_bytes)

    unfoldable pub write_bytes : Text → Bytes → Exec (State World) (Unit {0})
    unfolding split slot_mount
    write_bytes path content = with_split path λ slot inner.
        require_writable_slot slot >> with_mount slot (λ m. m.write_bytes inner content)

    unfoldable pub remove : Text → Bool → Exec (State World) (Unit {0})
    unfolding split slot_mount
    remove path force = with_split path λ slot inner.
        require_writable_slot slot
        >> raise_when (is_empty inner) permission_error
        >> with_mount slot (λ m. m.remove inner force)

    unfoldable pub rename : Text → Text → Exec (State World) (Unit {0})
    unfolding split slot_mount
    rename old_path new_path = with_split old_path λ old_slot old_inner.
        with_split new_path λ new_slot new_inner.
          require_writable_slot old_slot
          >> raise_when (not (old_slot.index == new_slot.index)) os_error
          >> require_writable_slot new_slot
          >> with_mount old_slot (λ m. m.rename old_inner new_inner)

    unfoldable pub set_acorn_meta : Text → AcornMeta → Exec (State World) (Unit {0})
    unfolding split slot_mount
    set_acorn_meta path meta = with_split path λ slot inner.
        require_writable_slot slot >> with_mount slot (λ m. m.set_acorn_meta inner meta)

    validate_all : List MmbSlot → Exec (State World) (List Text)
    unfolding slot_mount
    validate_all [] = pure []
    validate_all (slot ∷ slots) = do
      problems ← with_mount slot (λ m. m.validate)
      rest ← validate_all slots
      pure (problems ++ rest)

    unfoldable pub validate : Exec (State World) (List Text)
    unfolding validate_all
    validate = validate_all layout_slots
