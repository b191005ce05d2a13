-- ===== src/Fuse/Reads/Room.antt =====
-- The eviction loop of the read-ahead buffers, and the storing of a new one.
use nautilus_acornfs.Prelude.{
  ℕ, zero, suc, ◌+◌, ◌-◌, ◌≤◌, ◌<◌, ◌≡◌, ◌∙◌, true, Option, none, some, [], ◌∷◌, ltb, ◌==◌, length,
  take, drop, refl, ap, arith, Bool-cases, inl, inr, Option-cases, min, length-take, List_ext,
  get_elem?, get_elem?-take,
}
use nautilus_acornfs.Prelude.Text.{Bytes}
use nautilus_acornfs.Prelude.Dict.{
  Dict, IsDict, lookup, contains, insert, lookup-insert, insert-IsDict,
}
use nautilus_acornfs.Prelude.Sorting.{sum_by}
use nautilus_acornfs.Prelude.Result.{ok}
use nautilus_acornfs.Fuse.ReadAhead.{
  State, ReadState, is_empty, emptied, filled, clear_read_ahead, make_room, oldest,
  store_read_ahead, with_state,
}
use nautilus_acornfs.Fuse.Reads.Contents.{IsAheadOf, insert_all}
use nautilus_acornfs.Fuse.Reads.Accounts.{
  held, sum-insert, IsReadAhead, clear_read_ahead-IsReadAhead, contains-insert,
}

sum-zero :
    (d : Dict ReadState)
    → IsDict d
    → ((k : ℕ) (st : ReadState) → lookup k d ≡ some st → is_empty st.buffer ≡ true)
    → sum_by held d ≡ 0
sum-zero [] keys h = refl
sum-zero ((j, u) ∷ d) keys h =
    let first : is_empty u.buffer ≡ true = h j u (ground arith) in
    let rest : sum_by held d ≡ 0 = sum-zero d keys.1 (λ k st e. h k st (ground arith)) in
    omega (arith, rest, length-empty u.buffer first)
  where
    length-empty : (b : Bytes) → is_empty b ≡ true → length b ≡ 0
    length-empty [] e = refl
    length-empty (x ∷ b) e = cc

pub contains-lookup :
    {V : Type 0} (k : ℕ) (d : Dict V) → contains k d ≡ true → (v : V) × (lookup k d ≡ some v)
contains-lookup k d h = elim (Option-cases (lookup k d)) [
  | inl e ↦ absurd (ground arith)
  | inr (v, e) ↦ (v, e)
]

oldest-none : (lru : Dict (Unit {0})) → oldest lru ≡ none → lru ≡ []
oldest-none [] h = refl
oldest-none ((k, u) ∷ lru) h = cc

oldest-some :
    (lru : Dict (Unit {0})) (fh : ℕ)
    → oldest lru ≡ some fh
    → (rest : Dict (Unit {0})) × (lru ≡ (fh, tt) ∷ rest)
oldest-some [] fh h = cc
oldest-some ((k, tt) ∷ lru) fh h = (lru, ground arith)

take-prefix :
    (k : ℕ) (xs ys : Bytes)
    → xs ≡ take (length xs) ys
    → take k xs ≡ take (length (take k xs) - 0) ys
take-prefix k xs ys h = List_ext _ _ λ i. ground (
  arith,
  length-take k xs,
  get_elem?-take k i xs,
  get_elem?-take (length xs) i ys,
  get_elem?-take (length (take k xs) - 0) i ys,
  ap (λ zs. get_elem? zs i) h,
)

module _ {World : Type 0} (files : ℕ → Option Bytes) (limit : ℕ) where
  -- A handle with nothing read ahead.
  abbrev pub IsBare : ℕ → State World → Type 0
  IsBare fh s = (st : ReadState) × (lookup fh s.read_states ≡ some st) × (st.buffer ≡ [])

  clear-IsBare : (fh k : ℕ) (s : State World) → IsBare fh s → IsBare fh (clear_read_ahead k s)
  unfolding clear_read_ahead
  clear-IsBare fh k s (st, found, bare) = elim (Option-cases (lookup k s.read_states)) [
    | inl e ↦ rw e (st, found, bare)
    | inr (u, e) ↦ rw e (elim (Bool-cases (k == fh)) [
      | inl same ↦ (emptied u, rw (lookup-insert k fh (emptied u) s.read_states, same) refl, refl)
      | inr other ↦ (st, rw (lookup-insert k fh (emptied u) s.read_states, other) found, bare)
    ])
  ]

  clear_self :
      (fh : ℕ) (s : State World)
      → contains fh s.read_states ≡ true
      → IsBare fh (clear_read_ahead fh s)
  unfolding clear_read_ahead
  clear_self fh s h =
      let (u, e) = contains-lookup fh s.read_states h in
      rw e (emptied u, rw (lookup-insert fh fh (emptied u) s.read_states) (ground arith), refl)

  -- What the loop reaches.
  record IsRoom (keep fh : ℕ) (before after : State World) : Type 0 where
    ahead : IsReadAhead files limit after
    room : after.ahead_size + keep ≤ limit
    handles : after.handles ≡ before.handles
    bare : IsBare fh before → IsBare fh after

  pub clear-handles : (fh : ℕ) (s : State World) → (clear_read_ahead fh s).handles ≡ s.handles
  unfolding clear_read_ahead
  clear-handles fh s = elim (Option-cases (lookup fh s.read_states)) [
    | inl e ↦ rw e refl
    | inr (st, e) ↦ rw e refl
  ]

  clear-lru :
      (fh : ℕ) (u : Unit {0}) (rest : Dict (Unit {0})) (s : State World)
      → s.lru ≡ (fh, u) ∷ rest
      → contains fh s.read_states ≡ true
      → (clear_read_ahead fh s).lru ≡ rest
  unfolding clear_read_ahead
  clear-lru fh u rest s e h =
      let (st, found) = contains-lookup fh s.read_states h in rw (found, e) (ground arith)

  make_room-IsRoom :
      (fuel keep fh : ℕ) (s : State World)
      → IsReadAhead files limit s
      → keep ≤ limit
      → length s.lru < fuel
      → ((make_room fuel limit keep s).0 ≡ ok tt) × IsRoom keep fh s (make_room fuel limit keep s).1
  unfolding make_room
  make_room-IsRoom zero keep fh s h fits fuelled = absurd (omega (arith, fuelled))
  make_room-IsRoom (suc fuel) keep fh s h fits fuelled =
      elim (Bool-cases (ltb limit (s.ahead_size + keep))) [
        | inr room ↦
            rw room (refl, record { ahead = h; room = ground arith; handles = refl; bare = λ b. b })
        | inl full ↦ rw full (elim (Option-cases (oldest s.lru)) [
          | inl e ↦ absurd (unlisted (oldest-none s.lru e) (ground arith))
          | inr (old, e) ↦
              let (rest, listed) = oldest-some s.lru old e in
              let present : contains old s.read_states ≡ true =
                h.known old (rw listed (ground arith)) in
              let cleared = clear_read_ahead-IsReadAhead files limit old s h in
              let (returned, r) =
                make_room-IsRoom fuel keep fh (clear_read_ahead old s) cleared fits
                  (rw (clear-lru old tt rest s listed present) (shorter rest listed)) in
              rw e (
                returned,
                record {
                  ahead = r.ahead;
                  room = r.room;
                  handles = r.handles ∙ clear-handles old s;
                  bare = λ b. r.bare (clear-IsBare fh old s b);
                },
              )
        ])
      ]
    where
      shorter : (rest : Dict (Unit {0})) {old : ℕ} → s.lru ≡ (old, tt) ∷ rest → length rest < fuel
      shorter rest e = omega (arith, fuelled, ap length e)

      -- With nothing listed, nothing is held.
      unlisted : s.lru ≡ [] → limit < s.ahead_size + keep → ⊥
      unlisted e over =
          let nothing : sum_by held s.read_states ≡ 0 = sum-zero s.read_states h.keys (λ k st found.
            elim (Bool-cases (is_empty st.buffer)) [
              | inl bare ↦ bare
              | inr some_bytes ↦ cc (rw e at h.listed k st found some_bytes)
            ]) in
          omega (arith, nothing, h.counted, over, fits)

  record IsStored (fh : ℕ) (before after : State World) : Type 0 where
    ahead : IsReadAhead files limit after
    handles : after.handles ≡ before.handles

  fill-IsReadAhead :
      (fh offset : ℕ) (content : Bytes) (s : State World)
      → IsReadAhead files limit s
      → s.ahead_size + length content ≤ limit
      → (bare : IsBare fh s) → IsAheadOf files s.handles fh (filled offset content bare.0)
      → IsReadAhead files limit (record s {
        read_states = insert fh (filled offset content bare.0) s.read_states;
        ahead_size = s.ahead_size + length content;
        lru = insert fh tt s.lru;
      })
  fill-IsReadAhead fh offset content s h room (st, found, bare) agrees = record {
    keys = insert-IsDict fh (filled offset content st) s.read_states h.keys;
    lru_keys = insert-IsDict fh tt s.lru h.lru_keys;
    counted = omega (
      arith,
      h.counted,
      sum-insert fh st (filled offset content st) s.read_states found,
      ap length bare,
    );
    within = room;
    listed = λ k st' at some_bytes. ground (
      arith,
      h.listed k st',
      lookup-insert fh k (filled offset content st) s.read_states,
      contains-insert fh k tt s.lru,
    );
    known = λ k at. ground (
      arith,
      h.known k,
      contains-insert fh k (filled offset content st) s.read_states,
      contains-insert fh k tt s.lru,
    );
    coherent =
        insert_all (IsAheadOf files s.handles) fh (filled offset content st) s.read_states agrees
          h.coherent;
  }

  -- Reading ahead always succeeds on a handle that is known: the loop ends with room for the buffer.
  pub store_read_ahead-IsReadAhead :
      (fh offset : ℕ) (content : Bytes) (s : State World)
      → IsReadAhead files limit s
      → contains fh s.read_states ≡ true
      → ((inode : ℕ) (file : Bytes)
          → lookup fh s.handles ≡ some inode
          → files inode ≡ some file
          → content ≡ take (length content) (drop offset file))
      → ((store_read_ahead limit fh offset content s).0 ≡ ok tt)
        × IsReadAhead files limit (store_read_ahead limit fh offset content s).1
        × ((store_read_ahead limit fh offset content s).1.handles ≡ s.handles)
  unfolding store_read_ahead
  store_read_ahead-IsReadAhead fh offset content s h known agrees =
      elim (Bool-cases (min (length content) limit == 0)) [
        | inl nothing ↦
            rw nothing (refl, clear_read_ahead-IsReadAhead files limit fh s h, clear-handles fh s)
        | inr some_bytes ↦
            let keep = min (length content) limit in
            let t = clear_read_ahead fh s in
            let (returned, r) =
              make_room-IsRoom (length t.lru + 1) keep fh t
                (clear_read_ahead-IsReadAhead files limit fh s h) (omega arith) (omega arith) in
            let bare = r.bare (clear_self fh s known) in
            let same = r.handles ∙ clear-handles fh s in
            rw (some_bytes, returned)
              (rw (with_state, bare.1)
                (
                  refl,
                  fill-IsReadAhead fh offset (take keep content) _ r.ahead
                      (omega (arith, r.room, length-take keep content)) bare
                      (λ inode file at has.
                        take-prefix keep content (drop offset file)
                          (agrees inode file (rw same at at) has)),
                  same,
                ))
      ]
