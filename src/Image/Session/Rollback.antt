-- ===== src/Image/Session/Rollback.antt =====
-- What the transactions of a mutation can undo.
use nautilus_acornfs.Prelude.{
  ℕ, refl, Bool, ◌&&◌, ◌≡◌, ◌∙◌, true, false, ◌∷◌, length, get_elem?, any, arith,
}
use nautilus_acornfs.Prelude.Text.{Text, Bytes}
use nautilus_acornfs.Prelude.Result.{Error, ok, err}
use nautilus_acornfs.Transaction
use nautilus_acornfs.Transaction.Restore.{touches, capture_all, AgreesBut, restore-capture_all_but}
use nautilus_acornfs.Transaction.File.{restore_file_lem}
use nautilus_acornfs.Transaction.DiscId.{length-advance_disc_id, advance_disc_id-outside}
use nautilus_acornfs.Image.Session.{
  World, Host, State, Operation, Before, sectors, copy, fault, prepare_mutation, finish_mutation,
  finish_rollback, begin, advance, complete, restored, mutate_call, is_benign,
}

-- The two states have the same image and the same index.
pub record Same {Env Memory : Type 0} (s t : State Env Memory) : Type 0 where
  pub mapping : t.world.mapping ≡ s.world.mapping
  pub memory : t.memory ≡ s.memory

-- What an operation writes: as many bytes as there are, and for an old-map image only inside the sectors
-- that its `prepare` captures, and the bytes that `unused` names, as those of the sectors that were free and
-- that Oaknut allocates. The copy of a `FileTransaction` is a copy. Where `commit` raises on the index of the
-- session, it is with an exception that fails the session, as `KeyError` is.
pub record IsConfined {Env Memory A : Type 0} (host : Host Env) (op : Operation Env Memory A)
    (s : State Env Memory) (unused : ℕ → Bool) : Type 0 where
  pub sized :
      (w : World Env)
      → w.mapping ≡ s.world.mapping
      → length (op.mutate w).1.mapping ≡ length s.world.mapping
  pub inside :
      (w : World Env) (i : ℕ)
      → w.mapping ≡ s.world.mapping
      → s.old_adfs ≡ true
      → unused i ≡ false
      → any (touches i) ((0, 2) ∷ (op.prepare s.world.mapping).captures) ≡ false
      → get_elem? (op.mutate w).1.mapping i ≡ get_elem? s.world.mapping i
  pub exact : (w : World Env) (b : Bytes) → (host.checkpoint_copy w).0 ≡ ok b → b ≡ w.mapping
  pub commits :
      (w : World Env) (e : Error) → (op.commit w s.memory).0 ≡ err e → is_benign host e ≡ false

module _ {Env Memory : Type 0} (host : Host Env) where
  pub fault-Same : (stage : Text) (s : State Env Memory) → Same s (fault host stage s).1
  unfolding fault
  fault-Same stage s = ground arith

  pub prepare_mutation-Same : (s : State Env Memory) → Same s (prepare_mutation host s).1
  unfolding prepare_mutation
  prepare_mutation-Same s = ground arith

  pub finish_mutation-Same : (s : State Env Memory) → Same s (finish_mutation host s).1
  unfolding finish_mutation
  finish_mutation-Same s = ground arith

  pub finish_rollback-Same : (s : State Env Memory) → Same s (finish_rollback host s).1
  unfolding finish_rollback
  finish_rollback-Same s = ground arith

  pub begin-Same : (s : State Env Memory) → Same s (begin host s).1
  unfolding begin
  begin-Same s = ground arith

  pub complete-Same : (b : Before) (s : State Env Memory) → Same s (complete host b s).1
  unfolding complete
  complete-Same (sectors t) s = ground arith
  complete-Same (copy b) s = ground arith

-- The image of `s` and its index, but for the unused bytes of an old-map image.
pub record IsKept {Env Memory : Type 0} (unused : ℕ → Bool) (s t : State Env Memory) : Type 0 where
  pub mapping : AgreesBut (λ i. s.old_adfs && unused i) s.world.mapping t.world.mapping
  pub memory : t.memory ≡ s.memory

-- The state after writes that `before` can undo, from the base state `s`.
pub record IsUndoable {Env Memory : Type 0} (unused : ℕ → Bool) (before : Before)
    (s t : State Env Memory) : Type 0 where
  pub undo :
      AgreesBut (λ i. s.old_adfs && unused i) s.world.mapping (restored before t.world.mapping).1
  pub memory : t.memory ≡ s.memory

module _ {Env Memory A : Type 0} (host : Host Env) (op : Operation Env Memory A)
    (s : State Env Memory) (unused : ℕ → Bool) (confined : IsConfined host op s unused) where
  -- A transaction that begins at the base state.
  abbrev pub IsBefore : Before → Type 0
  IsBefore (sectors t) =
      (t
        ≡ capture_all s.world.mapping (op.prepare s.world.mapping).captures
            (Transaction.begin s.world.mapping))
      × (s.old_adfs ≡ true)
  IsBefore (copy b) = b ≡ s.world.mapping

  undo_lem :
      (before : Before)
      → IsBefore before
      → (m : Bytes) → length m ≡ length s.world.mapping
      → (s.old_adfs ≡ true
          → (i : ℕ) → unused i ≡ false
          → any (touches i) ((0, 2) ∷ (op.prepare s.world.mapping).captures) ≡ false
          → get_elem? m i ≡ get_elem? s.world.mapping i)
      → AgreesBut (λ i. s.old_adfs && unused i) s.world.mapping (restored before m).1
  unfolding restored
  undo_lem (sectors t) is m sized inside =
      let (r, back, agrees) =
        restore-capture_all_but unused s.world.mapping m (op.prepare s.world.mapping).captures sized
          (inside is.1) in
      rw (is.0, back, is.1) agrees
  undo_lem (copy b) is m sized inside =
      rw (is, restore_file_lem s.world.mapping m sized)
        (record { sized = refl; bytes = λ i k. refl })

  pub Same-IsUndoable :
      (before : Before) (t u : State Env Memory)
      → Same t u
      → IsUndoable unused before s t
      → IsUndoable unused before s u
  Same-IsUndoable before t u same h = record {
    undo = rw same.mapping h.undo;
    memory = same.memory ∙ h.memory;
  }

  -- What `mutate` leaves, after it and after the disc ID has been advanced.
  pub record Wrote (before : Before) (t : State Env Memory) : Type 0 where
    pub sized : length t.world.mapping ≡ length s.world.mapping
    pub inside :
        (i : ℕ)
        → s.old_adfs ≡ true
        → unused i ≡ false
        → any (touches i) ((0, 2) ∷ (op.prepare s.world.mapping).captures) ≡ false
        → get_elem? t.world.mapping i ≡ get_elem? s.world.mapping i
    pub memory : t.memory ≡ s.memory

  pub Wrote-IsUndoable :
      (before : Before) (t : State Env Memory)
      → IsBefore before
      → Wrote before t
      → IsUndoable unused before s t
  Wrote-IsUndoable before t is w = record {
    undo = undo_lem before is t.world.mapping w.sized (λ o i. w.inside i o);
    memory = w.memory;
  }

  pub mutate-Wrote :
      (before : Before) (t : State Env Memory)
      → Same s t
      → Wrote before (mutate_call host op.mutate t).1
  mutate-Wrote before t same = record {
    sized = confined.sized t.world same.mapping;
    inside = λ i. confined.inside t.world i same.mapping;
    memory = same.memory;
  }

  pub advance-Wrote :
      (before : Before) (t : State Env Memory)
      → Wrote before t
      → Wrote before (advance host before t).1
  unfolding advance
  advance-Wrote (sectors b) t w = record {
    sized = length-advance_disc_id host.fsm t.world.mapping ∙ w.sized;
    inside = λ i o u n.
        ground (arith, advance_disc_id-outside host.fsm t.world.mapping i, w.inside i o u n);
    memory = w.memory;
  }
  advance-Wrote (copy b) t w = w

  pub Same-Wrote :
      (before : Before) (t u : State Env Memory) → Same t u → Wrote before t → Wrote before u
  Same-Wrote before t u same w = record {
    sized = rw same.mapping w.sized;
    inside = rw same.mapping w.inside;
    memory = same.memory ∙ w.memory;
  }
