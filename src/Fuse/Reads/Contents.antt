-- ===== src/Fuse/Reads/Contents.antt =====
-- The contents of the read-ahead buffers, against those of the files.
use nautilus_acornfs.Prelude.{
  ℕ, ◌+◌, ◌-◌, ◌≤◌, ◌≡◌, Option, some, ◌==◌, length, slice, take, drop, ap, arith, Bool-cases, inl,
  inr, List_ext, get_elem?-drop, get_elem?-take, get_elem?,
}
use nautilus_acornfs.Prelude.Text.{Bytes}
use nautilus_acornfs.Prelude.Dict.{Dict, lookup, insert, lookup-insert}
use nautilus_acornfs.Fuse.ReadAhead.{ReadState}

-- The unread part of a buffer is what its file holds from the buffer's offset on.
abbrev pub IsAhead : Bytes → ReadState → Type 0
IsAhead content st =
    drop st.buffer_position st.buffer
    ≡ take (length st.buffer - st.buffer_position) (drop st.buffer_offset content)

-- The same for every file that a handle may be open on.
abbrev pub IsAheadOf : (ℕ → Option Bytes) → Dict ℕ → ℕ → ReadState → Type 0
IsAheadOf files handles fh st =
    (inode : ℕ) (content : Bytes)
    → lookup fh handles ≡ some inode
    → files inode ≡ some content
    → IsAhead content st

-- What holds of every state after one is put in.
pub insert_all :
    (P : ℕ → ReadState → Type 0) (fh : ℕ) (st : ReadState) (states : Dict ReadState)
    → P fh st
    → ((k : ℕ) (st' : ReadState) → lookup k states ≡ some st' → P k st')
    → (k : ℕ) (st' : ReadState) → lookup k (insert fh st states) ≡ some st'
    → P k st'
insert_all P fh st states new h k st' found = elim (Bool-cases (fh == k)) [
  | inl e ↦
      let same : fh ≡ k = ground arith in
      let equal : st ≡ st' = cc (rw (lookup-insert fh k st states, e) at found) in
      rw (← same, ← equal) new
  | inr e ↦ h k st' (rw (lookup-insert fh k st states, e) at found)
]

pub advanced-IsAhead :
    (content : Bytes) (st : ReadState) (n : ℕ)
    → IsAhead content st
    → st.buffer_position + n ≤ length st.buffer
    → drop (st.buffer_position + n) st.buffer
      ≡ take (length st.buffer - (st.buffer_position + n)) (drop (st.buffer_offset + n) content)
advanced-IsAhead content st n h b = List_ext _ _ λ i. ground (
  arith,
  get_elem?-drop (st.buffer_position + n) i st.buffer,
  get_elem?-take (length st.buffer - (st.buffer_position + n)) i
      (drop (st.buffer_offset + n) content),
  get_elem?-drop (st.buffer_offset + n) i content,
  get_elem?-drop st.buffer_position (n + i) st.buffer,
  get_elem?-take (length st.buffer - st.buffer_position) (n + i) (drop st.buffer_offset content),
  get_elem?-drop st.buffer_offset (n + i) content,
  ap (λ xs. get_elem? xs (n + i)) h,
)

pub hit-eq :
    (content : Bytes) (st : ReadState) (size : ℕ)
    → IsAhead content st
    → size ≤ length st.buffer - st.buffer_position
    → slice st.buffer_position (st.buffer_position + size) st.buffer
      ≡ slice st.buffer_offset (st.buffer_offset + size) content
hit-eq content st size h b = List_ext _ _ λ i. ground (
  arith,
  get_elem?-take (st.buffer_position + size - st.buffer_position) i
      (drop st.buffer_position st.buffer),
  get_elem?-take (st.buffer_offset + size - st.buffer_offset) i (drop st.buffer_offset content),
  get_elem?-take (length st.buffer - st.buffer_position) i (drop st.buffer_offset content),
  ap (λ xs. get_elem? xs i) h,
)
