-- ===== src/Tests/Adapters.antt =====
-- The adapters and the FUSE buffers at concrete inputs.
use nautilus_acornfs.Prelude.{
  ℕ, ◌+◌, ◌-◌, ◌*◌, ◌≡◌, ◌⊎◌, refl, true, false, Option, none, some, List, [], ◌∷◌, if◌then◌else◌,
  ◌==◌, slice, leb, ltb, arith,
}
use nautilus_acornfs.Prelude.Text.{Bytes, codes}
use nautilus_acornfs.Prelude.Dict.{lookup}
use nautilus_acornfs.Prelude.Result.{ok, err, permission_error, os_error, file_not_found}
use nautilus_acornfs.Prelude.Exec.{pure}
use nautilus_acornfs.Mounting.{Entry, AcornMeta, Mount}
use nautilus_acornfs.Dfs
use nautilus_acornfs.Dfs.{DoubleSided}
use nautilus_acornfs.Dfs.Paths.{two_side, split-virtual_path}
use nautilus_acornfs.Mmb.Layout.{MmbSlot, slot_bytes, status_locked, status_read_write}
use nautilus_acornfs.Mmb.Slots
use nautilus_acornfs.Fuse.ReadAhead as Fuse
use nautilus_acornfs.Fuse.ReadAhead.{consume_read_ahead, store_read_ahead}
use nautilus_acornfs.Fuse.Reads.Accounts.{IsReadAhead}
use nautilus_acornfs.Fuse.Reads.Hits.{consume_read_ahead_lem}
use nautilus_acornfs.Fuse.Reads.Room.{store_read_ahead-IsReadAhead}
use nautilus_acornfs.Mmb.Slots.{Library, State, Candidate}
use nautilus_acornfs.Mmb.Slots.Locks.{locked_slot}
use nautilus_acornfs.Mmb.Slots.Mounted.{IsBounded, Left, slot_mount-IsBounded}

abbrev meta : AcornMeta
meta = record { load_address = 0; exec_address = 0; access = 0 }

abbrev entry : Entry
entry = record { name = []; is_dir = false; size = 0; path = [] }

-- A mount that counts the calls that change it.
abbrev counter : Mount ℕ
counter = record {
  stat = λ path. pure entry;
  join = λ parent name. pure name;
  iter_entries = λ path. pure [];
  exists = λ path. pure true;
  read_bytes = λ path. pure [];
  acorn_meta = λ path. pure meta;
  free_bytes = pure 100;
  size_bytes = pure 200;
  write_bytes = λ path content n. (ok tt, n + 1);
  remove = λ path force n. (ok tt, n + 1);
  rename = λ a b n. (ok tt, n + 1);
  set_acorn_meta = λ path m n. (ok tt, n + 1);
  validate = pure [];
}

abbrev sides : DoubleSided ℕ
sides = record { side_zero = counter; side_two = counter }

split-virtual_path_example :
    Dfs.split sides (Dfs.virtual_path (codes "2") (codes "$.A:B"))
    ≡ ok (codes "2", counter, codes "$.A:B")
split-virtual_path_example =
    split-virtual_path sides (codes "2") (codes "$.A:B") counter (two_side refl)

no_drive : Dfs.split sides (codes ":1:$.A") ≡ err file_not_found
unfolding Dfs.split
no_drive = refl

abbrev digit : ℕ → Option ℕ
digit c = if leb 48 c then (if ltb c 58 then some (c - 48) else none) else none

abbrev library : Library ℕ (Unit {0})
library = record {
  identify =
      λ offset size. pure (record { filesystem = codes "acorn-dfs"; geometry = some tt } ∷ []);
  open_mount = λ f offset size g. pure counter;
  close_mount = λ m n. n;
  digit_value = digit;
}

abbrev slot : ℕ → ℕ → MmbSlot
slot index status = record {
  index = index;
  label = codes "DISC";
  status = status;
  offset = 8192 + index * slot_bytes;
  display_width = 3;
}

abbrev slots : List MmbSlot
slots = slot 1 status_locked ∷ slot 3 status_read_write ∷ slot 5 status_read_write ∷ []

abbrev idle : State ℕ
idle = record { world = 7; mounts = [] }

slot_one : Slots.split library 2 slots (codes "@1:$.A") ≡ ok (slot 1 status_locked, codes "$.A")
unfolding Slots.split
slot_one = refl

slot_three :
    Slots.split library 2 slots (codes "@3:$.A") ≡ ok (slot 3 status_read_write, codes "$.A")
unfolding Slots.split
slot_three = refl

locked_slot_example :
    (Slots.write_bytes library 2 slots (codes "@1:$.A") (1 ∷ []) idle
      ≡ (err permission_error, idle))
    × (Slots.remove library 2 slots (codes "@1:$.A") true idle ≡ (err permission_error, idle))
    × (Slots.set_acorn_meta library 2 slots (codes "@1:$.A") meta idle
        ≡ (err permission_error, idle))
    × (Slots.available_bytes library 2 slots (codes "@1:$.A") idle ≡ (err permission_error, idle))
    × (Slots.rename library 2 slots (codes "@1:$.A") (codes "@3:$.A") idle
        ≡ (err permission_error, idle))
    × (Slots.rename library 2 slots (codes "@1:$.A") (codes "@1:$.A") idle
        ≡ (err permission_error, idle))
    × (Slots.rename library 2 slots (codes "@3:$.A") (codes "@1:$.A") idle ≡ (err os_error, idle))
locked_slot_example =
    locked_slot library 2 slots (codes "@1:$.A") (codes "$.A") (slot 1 status_locked) (1 ∷ []) true
      meta (codes "@3:$.A") (codes "$.A") (slot 3 status_read_write) idle slot_one slot_three refl

slot_mount-IsBounded_example :
    IsBounded 1 (Slots.slot_mount library 1 (slot 3 status_read_write) idle).1.mounts
    × Left 3 [] (Slots.slot_mount library 1 (slot 3 status_read_write) idle)
slot_mount-IsBounded_example =
    slot_mount-IsBounded library 1 (slot 3 status_read_write) idle (omega arith)
      (record { bound = omega arith; keys = tt })

abbrev state : Fuse.ReadState
state = record {
  next_offset = some 1;
  sequential_reads = 2;
  buffer_offset = 1;
  buffer = 20 ∷ 30 ∷ [];
  buffer_position = 0;
}

-- Handle 4 is open on inode 2, with two bytes read ahead.
abbrev opened : Fuse.State ℕ
opened = record {
  world = 0;
  write_buffers = [];
  dirty = [];
  handles = (4, 2) ∷ [];
  read_states = (4, state) ∷ [];
  lru = (4, tt) ∷ [];
  ahead_size = 2;
  next_fh = 5;
}

abbrev content : Bytes
content = 10 ∷ 20 ∷ 30 ∷ []

abbrev files : ℕ → Option Bytes
files inode = if inode == 2 then some content else none

only_state : (fh : ℕ) (st : Fuse.ReadState) → lookup fh ((4, state) ∷ []) ≡ some st → st ≡ state
only_state fh st found = ground arith

only_inode : (fh inode : ℕ) → lookup fh ((4, 2) ∷ []) ≡ some inode → inode ≡ 2
only_inode fh inode at = ground arith

only_file :
    (inode : ℕ) (file : Bytes) → some 2 ≡ some inode → files inode ≡ some file → file ≡ content
only_file inode file at has = ground arith

opened-IsReadAhead : IsReadAhead files 4 opened
opened-IsReadAhead = record {
  keys = (refl, tt);
  lru_keys = (refl, tt);
  counted = refl;
  within = omega arith;
  listed = λ fh st found some_bytes. ground arith;
  known = λ fh listed. ground arith;
  coherent = λ fh st found inode file at has.
      rw (only_state fh st found, only_file inode file (rw (only_inode fh inode at) refl) has) refl;
}

consume_read_ahead_lem_example :
    (((consume_read_ahead 4 1 1 opened).0 ≡ ok none)
      ⊎ ((consume_read_ahead 4 1 1 opened).0 ≡ ok (some (slice 1 (1 + 1) content))))
    × IsReadAhead files 4 (consume_read_ahead 4 1 1 opened).1
    × ((consume_read_ahead 4 1 1 opened).1.handles ≡ (4, 2) ∷ [])
consume_read_ahead_lem_example =
    consume_read_ahead_lem files 4 4 2 1 1 content opened opened-IsReadAhead refl refl refl
      (omega arith)

store_read_ahead-IsReadAhead_example :
    ((store_read_ahead 4 4 1 (20 ∷ 30 ∷ []) opened).0 ≡ ok tt)
    × IsReadAhead files 4 (store_read_ahead 4 4 1 (20 ∷ 30 ∷ []) opened).1
    × ((store_read_ahead 4 4 1 (20 ∷ 30 ∷ []) opened).1.handles ≡ (4, 2) ∷ [])
store_read_ahead-IsReadAhead_example =
    store_read_ahead-IsReadAhead files 4 4 1 (20 ∷ 30 ∷ []) opened opened-IsReadAhead refl
      (λ inode file at has. rw (only_file inode file at has) refl)
