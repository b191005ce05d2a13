-- ===== src/Fuse/Reads/Accounts.antt =====
-- The accounts of the read-ahead buffers.
use nautilus_acornfs.Prelude.{
  ℕ, ◌+◌, ◌-◌, ◌≤◌, ◌≡◌, true, false, Option, some, [], ◌∷◌, if◌then◌else◌, ◌==◌, length, refl,
  arith, inl, inr, Option-cases,
}
use nautilus_acornfs.Prelude.Text.{Bytes}
use nautilus_acornfs.Prelude.Dict.{
  Dict, IsDict, lookup, contains, insert, erase, lookup-insert, lookup-erase, erase-IsDict,
  insert-IsDict,
}
use nautilus_acornfs.Prelude.Sorting.{sum_by}
use nautilus_acornfs.Fuse.ReadAhead.{State, ReadState, is_empty, emptied, clear_read_ahead}
use nautilus_acornfs.Fuse.Reads.Contents.{IsAheadOf, insert_all}

abbrev pub held : ℕ × ReadState → ℕ
held (fh, st) = length st.buffer

pub sum-insert :
    (k : ℕ) (v w : ReadState) (d : Dict ReadState)
    → lookup k d ≡ some v
    → sum_by held (insert k w d) + length v.buffer ≡ sum_by held d + length w.buffer
sum-insert k v w [] h = cc
sum-insert k v w ((j, u) ∷ d) h = ground (arith, sum-insert k v w d)

pub contains-insert :
    {V : Type 0} (k j : ℕ) (v : V) (d : Dict V)
    → contains j (insert k v d) ≡ (if k == j then true else contains j d)
contains-insert k j v d = ground (arith, lookup-insert k j v d)

pub contains-erase :
    {V : Type 0} (k j : ℕ) (d : Dict V)
    → IsDict d
    → contains j (erase k d) ≡ (if k == j then false else contains j d)
contains-erase k j d h = ground (arith, lookup-erase k j d h)

module _ {World : Type 0} (files : ℕ → Option Bytes) (limit : ℕ) where
  pub record IsReadAhead (s : State World) : Type 0 where
    pub keys : IsDict s.read_states
    pub lru_keys : IsDict s.lru
    pub counted : s.ahead_size ≡ sum_by held s.read_states
    pub within : s.ahead_size ≤ limit
    pub listed :
        (fh : ℕ) (st : ReadState)
        → lookup fh s.read_states ≡ some st
        → is_empty st.buffer ≡ false
        → contains fh s.lru ≡ true
    pub known : (fh : ℕ) → contains fh s.lru ≡ true → contains fh s.read_states ≡ true
    pub coherent :
        (fh : ℕ) (st : ReadState)
        → lookup fh s.read_states ≡ some st
        → IsAheadOf files s.handles fh st

  clear_found :
      (fh : ℕ) (st : ReadState) (s : State World)
      → lookup fh s.read_states ≡ some st
      → IsReadAhead s
      → IsReadAhead (record s {
        ahead_size = s.ahead_size - length st.buffer;
        read_states = insert fh (emptied st) s.read_states;
        lru = erase fh s.lru;
      })
  clear_found fh st s found h = record {
    keys = insert-IsDict fh (emptied st) s.read_states h.keys;
    lru_keys = erase-IsDict fh s.lru h.lru_keys;
    counted = omega (arith, h.counted, sum-insert fh st (emptied st) s.read_states found);
    within = omega (arith, h.within);
    listed = λ k st' at some_bytes. ground (
      arith,
      h.listed k st',
      lookup-insert fh k (emptied st) s.read_states,
      contains-erase fh k s.lru h.lru_keys,
    );
    known = λ k at. ground (
      arith,
      h.known k,
      contains-insert fh k (emptied st) s.read_states,
      contains-erase fh k s.lru h.lru_keys,
    );
    coherent =
        insert_all (IsAheadOf files s.handles) fh (emptied st) s.read_states
          (λ inode content _ _. refl) h.coherent;
  }

  pub clear_read_ahead-IsReadAhead :
      (fh : ℕ) (s : State World) → IsReadAhead s → IsReadAhead (clear_read_ahead fh s)
  unfolding clear_read_ahead
  clear_read_ahead-IsReadAhead fh s h = elim (Option-cases (lookup fh s.read_states)) [
    | inl e ↦ rw e h
    | inr (st, e) ↦ rw e (clear_found fh st s e h)
  ]
