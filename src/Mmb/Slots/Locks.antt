-- ===== src/Mmb/Slots/Locks.antt =====
-- The adapter of `MMBMount` on locked slots.
use nautilus_acornfs.Prelude.{
  ℕ, ◌≡◌, Bool, false, List, ◌&&◌, not, ◌==◌, if◌then◌else◌, refl, arith,
}
use nautilus_acornfs.Prelude.Text.{Text, Bytes}
use nautilus_acornfs.Prelude.Result.{ok, err, permission_error, os_error}
use nautilus_acornfs.Mounting.{AcornMeta}
use nautilus_acornfs.Mmb.Layout.{MmbSlot, status_read_write}
use nautilus_acornfs.Mmb.Slots.{
  Library, State, split, write_bytes, remove, rename, set_acorn_meta, available_bytes,
}

module _ {World Geometry : Type 0} (lib : Library World Geometry) (limit : ℕ)
    (slots : List MmbSlot) where
  -- On a path into a slot that is not open for writing, every call that writes, and the question for its
  -- free bytes, is refused as a permission error, and nothing is changed; a rename is so refused in the slot
  -- and from it to a path of any slot; a rename into it is refused too, as an operating-system error where it
  -- comes from another slot that is open for writing.
  pub locked_slot :
      (path inner : Text) (slot : MmbSlot) (content : Bytes) (force : Bool) (meta : AcornMeta)
      (other j : Text) (b : MmbSlot) (s : State World)
      → split lib limit slots path ≡ ok (slot, inner)
      → split lib limit slots other ≡ ok (b, j)
      → (slot.status == status_read_write) ≡ false
      → (write_bytes lib limit slots path content s ≡ (err permission_error, s))
        × (remove lib limit slots path force s ≡ (err permission_error, s))
        × (set_acorn_meta lib limit slots path meta s ≡ (err permission_error, s))
        × (available_bytes lib limit slots path s ≡ (err permission_error, s))
        × (rename lib limit slots path other s ≡ (err permission_error, s))
        × (rename lib limit slots path path s ≡ (err permission_error, s))
        × (rename lib limit slots other path s ≡ (
          err (
              if (b.status == status_read_write) && not (b.index == slot.index)
              then os_error
              else permission_error),
          s,
        ))
  unfolding write_bytes remove rename set_acorn_meta available_bytes
  locked_slot path inner slot content force meta other j b s h hb locked =
      rw (h, hb, locked) (refl, refl, refl, refl, refl, rw h refl, ground (arith, locked))
