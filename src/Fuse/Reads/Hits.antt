-- ===== src/Fuse/Reads/Hits.antt =====
-- Reads from the read-ahead buffers.
use nautilus_acornfs.Prelude.{
  ℕ, ◌+◌, ◌-◌, ◌≤◌, ◌≡◌, ◌⊎◌, true, false, not, ◌||◌, Option, none, some, ltb, ◌==◌, length, slice,
  drop, refl, ap, arith, Bool-cases, inl, inr, length-take, length-drop,
}
use nautilus_acornfs.Prelude.Text.{Bytes}
use nautilus_acornfs.Prelude.Dict.{lookup, contains, insert, erase, erase-IsDict, insert-IsDict}
use nautilus_acornfs.Prelude.Result.{ok}
use nautilus_acornfs.Fuse.ReadAhead.{
  State, ReadState, is_empty, advanced, put_state, consume_read_ahead, after_hit, with_state,
}
use nautilus_acornfs.Fuse.Reads.Contents.{IsAheadOf, insert_all, advanced-IsAhead, hit-eq}
use nautilus_acornfs.Fuse.Reads.Accounts.{
  sum-insert, IsReadAhead, clear_read_ahead-IsReadAhead, contains-insert, contains-erase,
}
use nautilus_acornfs.Fuse.Reads.Room.{clear-handles, contains-lookup}

result-length :
    (st : ReadState) (size : ℕ)
    → size ≤ length st.buffer - st.buffer_position
    → length (slice st.buffer_position (st.buffer_position + size) st.buffer) ≡ size
result-length st size h = omega (
  arith,
  h,
  length-take (st.buffer_position + size - st.buffer_position) (drop st.buffer_position st.buffer),
  length-drop st.buffer_position st.buffer,
)

module _ {World : Type 0} (files : ℕ → Option Bytes) (limit : ℕ) where
  move-IsReadAhead :
      (fh : ℕ) (s : State World)
      → contains fh s.read_states ≡ true
      → IsReadAhead files limit s
      → IsReadAhead files limit (record s { lru = insert fh tt (erase fh s.lru) })
  move-IsReadAhead fh s present h = record {
    keys = h.keys;
    lru_keys = insert-IsDict fh tt (erase fh s.lru) (erase-IsDict fh s.lru h.lru_keys);
    counted = h.counted;
    within = h.within;
    listed = λ k st at some_bytes. ground (
      arith,
      h.listed k st at some_bytes,
      contains-insert fh k tt (erase fh s.lru),
      contains-erase fh k s.lru h.lru_keys,
    );
    known = λ k at. ground (
      arith,
      present,
      h.known k,
      contains-insert fh k tt (erase fh s.lru),
      contains-erase fh k s.lru h.lru_keys,
    );
    coherent = h.coherent;
  }

  put-IsReadAhead :
      (fh : ℕ) (st new : ReadState) (s : State World)
      → lookup fh s.read_states ≡ some st
      → new.buffer ≡ st.buffer
      → IsAheadOf files s.handles fh new
      → IsReadAhead files limit s
      → IsReadAhead files limit (put_state fh new s)
  put-IsReadAhead fh st new s found same agrees h = record {
    keys = insert-IsDict fh new s.read_states h.keys;
    lru_keys = h.lru_keys;
    counted = omega (arith, h.counted, sum-insert fh st new s.read_states found, ap length same);
    within = h.within;
    listed =
        insert_all (λ k st'. is_empty st'.buffer ≡ false → contains k s.lru ≡ true) fh new
          s.read_states (λ some_bytes. h.listed fh st found (rw same at some_bytes)) h.listed;
    known = λ k at. ground (arith, h.known k at, contains-insert fh k new s.read_states);
    coherent = insert_all (IsAheadOf files s.handles) fh new s.read_states agrees h.coherent;
  }

  after_hit-IsReadAhead :
      (fh offset : ℕ) (result : Bytes) (st : ReadState) (s : State World)
      → lookup fh s.read_states ≡ some st
      → st.buffer_position + length result ≤ length st.buffer
      → IsReadAhead files limit s
      → IsReadAhead files limit
          (after_hit fh (advanced offset result st) (put_state fh (advanced offset result st) s))
  unfolding after_hit
  after_hit-IsReadAhead fh offset result st s found fits h =
      let next = advanced offset result st in
      let put =
        put-IsReadAhead fh st next s found refl
          (λ inode file at has.
            advanced-IsAhead file st (length result) (h.coherent fh st found inode file at has)
              fits)
          h in
      elim (Bool-cases (ltb next.buffer_position (length next.buffer))) [
        | inl more ↦ rw more (
            move-IsReadAhead fh (put_state fh next s)
              (ground (arith, contains-insert fh fh next s.read_states)) put)
        | inr over ↦ rw over (clear_read_ahead-IsReadAhead files limit fh (put_state fh next s) put)
      ]

  after_hit-handles :
      (fh : ℕ) (st : ReadState) (s : State World) → (after_hit fh st s).handles ≡ s.handles
  unfolding after_hit
  after_hit-handles fh st s = elim (Bool-cases (ltb st.buffer_position (length st.buffer))) [
    | inl more ↦ rw more refl
    | inr over ↦ rw over (clear-handles files limit fh s)
  ]

  -- A read of at least one byte from the read-ahead buffer of a known handle on a file: it either finds
  -- nothing that fits, or gives exactly the bytes of the file. In both cases the buffers stay exactly
  -- counted, within the limit, listed for eviction, and in agreement with the files.
  pub consume_read_ahead_lem :
      (fh inode offset size : ℕ) (file : Bytes) (s : State World)
      → IsReadAhead files limit s
      → contains fh s.read_states ≡ true
      → lookup fh s.handles ≡ some inode
      → files inode ≡ some file
      → 1 ≤ size
      → (((consume_read_ahead fh offset size s).0 ≡ ok none)
          ⊎ ((consume_read_ahead fh offset size s).0
              ≡ ok (some (slice offset (offset + size) file))))
        × IsReadAhead files limit (consume_read_ahead fh offset size s).1
        × ((consume_read_ahead fh offset size s).1.handles ≡ s.handles)
  unfolding consume_read_ahead
  consume_read_ahead_lem fh inode offset size file s h known at has pos =
      let (st, found) = contains-lookup fh s.read_states known in
      rw (with_state, found)
        (elim (Bool-cases (is_empty st.buffer)) [
          | inl bare ↦ rw bare (inl refl, h, refl)
          | inr some_bytes ↦
              rw some_bytes
                (elim (Bool-cases (
                  not (offset == st.buffer_offset)
                  || ltb (length st.buffer - st.buffer_position) size)) [
                    | inl miss ↦ rw miss (
                      inl refl,
                      clear_read_ahead-IsReadAhead files limit fh s h,
                      clear-handles files limit fh s,
                    )
                    | inr hit ↦
                        let fits : size ≤ length st.buffer - st.buffer_position = ground arith in
                        let same : offset ≡ st.buffer_offset = ground arith in
                        let result =
                          slice st.buffer_position (st.buffer_position + size) st.buffer in
                        rw hit (
                          inr (
                              rw
                                (
                                  same,
                                  hit-eq file st size (h.coherent fh st found inode file at has)
                                      fits,
                                )
                                refl),
                          after_hit-IsReadAhead fh offset result st s found
                              (omega (arith, result-length st size fits, fits, pos)) h,
                          after_hit-handles fh (advanced offset result st)
                              (put_state fh (advanced offset result st) s),
                        )
                  ])
        ])
