-- ===== src/Image/Session/Failure.antt =====
-- `_run_atomic` on every path that raises.
use nautilus_acornfs.Prelude.{
  ℕ, Bool, false, ◌≡◌, refl, sym, subst, ◌∙◌, ap, length, get_elem?, true, ◌++◌, ◌||◌, ◌⊎◌, inl,
  inr, Bool-cases, arith,
}
use nautilus_acornfs.Prelude.Text.{codes}
use nautilus_acornfs.Prelude.Result.{Error, Result, ok, err}
use nautilus_acornfs.Prelude.Exec.{bind-ends, ◌>>◌}
use nautilus_acornfs.Image.Session.{
  Host, State, Operation, Prepared, Before, sectors, copy, Outcome, returned, raised, rolled_back,
  fault, prepare_mutation, finish_mutation, finish_rollback, begin, captured, complete, attempt,
  roll_back, restore, committed, after_rollback, settle, after_begin, leave, after_prepare,
  run_atomic, is_benign, advance, mutate_call, outcome_of,
}
use nautilus_acornfs.Image.Session.Rollback.{
  Same, IsKept, IsConfined, IsUndoable, IsBefore, Wrote, fault-Same, prepare_mutation-Same,
  finish_mutation-Same, finish_rollback-Same, begin-Same, complete-Same, Same-IsUndoable,
  Wrote-IsUndoable, mutate-Wrote, advance-Wrote,
}

Same-trans : {Env Memory : Type 0} {s t u : State Env Memory} → Same s t → Same t u → Same s u
Same-trans h k = record { mapping = k.mapping ∙ h.mapping; memory = k.memory ∙ h.memory }

Same-IsKept :
    {Env Memory : Type 0} (unused : ℕ → Bool) (s t : State Env Memory)
    → Same s t
    → IsKept unused s t
Same-IsKept unused s t h = record {
  mapping = rw h.mapping (record { sized = refl; bytes = λ i k. refl });
  memory = h.memory;
}

IsKept-Same :
    {Env Memory : Type 0} (unused : ℕ → Bool) (s t u : State Env Memory)
    → IsKept unused s t
    → Same t u
    → IsKept unused s u
IsKept-Same unused s t u k h = record {
  mapping = rw h.mapping k.mapping;
  memory = h.memory ∙ k.memory;
}

-- The state of a session that has failed, or has the image, but for unused bytes, and the index of `s`.
abbrev pub IsSafe :
    {Env Memory : Type 0} → (ℕ → Bool) → State Env Memory → State Env Memory → Type 0
IsSafe unused s t = (t.failed ≡ true) ⊎ IsKept unused s t

module _ {Env Memory A : Type 0} (host : Host Env) (op : Operation Env Memory A)
    (s : State Env Memory) (unused : ℕ → Bool) (confined : IsConfined host op s unused) where
  abbrev W : Before → State Env Memory → Type 0
  W = Wrote host op s unused confined

  abbrev U : Before → State Env Memory → Type 0
  U before = IsUndoable unused before s

  abbrev K : State Env Memory → Type 0
  K = IsKept unused s

  wrote_undoable :
      (before : Before)
      → IsBefore host op s unused confined before
      → (t : State Env Memory) → W before t
      → U before t
  wrote_undoable before is t w = Wrote-IsUndoable host op s unused confined before t is w

  Same-wrote : (before : Before) (t : State Env Memory) → Same s t → W before t
  Same-wrote before t same = record {
    sized = ap length same.mapping;
    inside = λ i o u n. ap (λ m. get_elem? m i) same.mapping;
    memory = same.memory;
  }

  -- The end of the `try` block, which leaves the mapping alone.
  seal-IsUndoable :
      (before : Before) (t : State Env Memory)
      → U before t
      → U before
          ((fault host (op.name ++ codes ".after")
              >> (finish_mutation host >> complete host before))
            t).1
  seal-IsUndoable before t h =
      bind-ends (U before) (U before) (fault host _) _ t (λ v k. k)
        (kept t _ h (fault-Same host _ t))
        λ _ u k.
          bind-ends (U before) (U before) (finish_mutation host) _ u (λ v l. l)
            (kept u _ k (finish_mutation-Same host u))
            λ _ v l. kept v _ l (complete-Same host before v)
    where
      kept : (u v : State Env Memory) → U before u → Same u v → U before v
      kept u v k same = Same-IsUndoable host op s unused confined before u v same k

  attempt-IsUndoable :
      (before : Before) (prepared : Result (Unit {0})) (t : State Env Memory)
      → IsBefore host op s unused confined before
      → Same s t
      → U before (attempt host op before prepared t).1
  unfolding attempt
  attempt-IsUndoable before prepared t is same =
      bind-ends (Same s) (U before) (λ u. (prepared, u)) _ t
        (λ u h. wrote_undoable before is u (Same-wrote before u h)) same
        λ _ u h.
          bind-ends (Same s) (U before) (fault host _) _ u
            (λ v k. wrote_undoable before is v (Same-wrote before v k))
            (Same-trans h (fault-Same host _ u))
            λ _ v k.
              bind-ends (W before) (U before) (mutate_call host op.mutate) _ v
                (wrote_undoable before is) (mutate-Wrote host op s unused confined before v k)
                λ _ w l.
                  bind-ends (W before) (U before) (advance host before) _ w
                    (wrote_undoable before is) (advance-Wrote host op s unused confined before w l)
                    λ _ x l'. seal-IsUndoable before x (wrote_undoable before is x l')

  -- The handler brings the base image back, whether its later steps succeed or not.
  roll_back-IsKept :
      (before : Before) (t : State Env Memory)
      → U before t
      → IsKept unused s (roll_back host op before t).1
  unfolding roll_back restore
  roll_back-IsKept before t h =
      bind-ends K K (restore host before) _ t (λ u k. k)
        (record { mapping = h.undo; memory = h.memory })
        λ _ u k.
          bind-ends K K (finish_rollback host) _ u (λ v l. l)
            (IsKept-Same unused s u _ k (finish_rollback-Same host u))
            λ _ v l. IsKept-Same unused s v _ l (complete-Same host before v)

  -- How the body may end.
  abbrev Ends : Outcome A × State Env Memory → Type 0
  Ends (returned a, t) = Unit
  Ends (raised e, t) = is_benign host e ≡ true → IsSafe unused s t
  Ends (rolled_back e, t) = K t

  ended :
      (r : Result A) (t : State Env Memory)
      → ((e : Error) → r ≡ err e → is_benign host e ≡ false)
      → Ends (outcome_of host op r, t)
  ended (ok a) t fails = tt
  ended (err e) t fails = λ benign. absurd (cc (fails e refl, benign))

  committed-Ends : (t : State Env Memory) → t.memory ≡ s.memory → Ends (committed host op t)
  unfolding committed
  committed-Ends t same =
      ended (op.commit t.world t.memory).0 _
        (λ e raised. confined.commits t.world e (rw (← same) raised))

  after_rollback-Ends :
      (e : Error) (r : Result (Unit {0})) (t : State Env Memory)
      → K t
      → Ends (after_rollback host op e (r, t))
  unfolding after_rollback
  after_rollback-Ends e (ok u) t h = h
  after_rollback-Ends e (err d) t h = λ benign. inl refl

  settle-Ends :
      (before : Before) (r : Result (Unit {0})) (t : State Env Memory)
      → U before t
      → Ends (settle host op before (r, t))
  unfolding settle
  settle-Ends before (ok u) t h = committed-Ends t h.memory
  settle-Ends before (err e) t h =
      after_rollback-Ends e (roll_back host op before t).0 (roll_back host op before t).1
        (roll_back-IsKept before t h)

  -- The transaction that `begin` gives is one of the base image.
  begin-IsBefore :
      (before : Before)
      → (begin host s).0 ≡ ok before
      → IsBefore host op s unused confined
          (captured before s.world.mapping (op.prepare s.world.mapping).captures)
  unfolding begin captured
  begin-IsBefore (sectors b) h = ground arith
  begin-IsBefore (copy b) h = ground (arith, confined.exact s.world b)

  after_begin-Ends :
      (r : Result Before) (t : State Env Memory)
      → Same s t
      → ((before : Before)
          → r ≡ ok before
          → IsBefore host op s unused confined
              (captured before s.world.mapping (op.prepare s.world.mapping).captures))
      → Ends (after_begin host op (r, t))
  unfolding after_begin
  after_begin-Ends (err e) t same is = λ benign. inr (Same-IsKept unused s t same)
  after_begin-Ends (ok before) t same is =
      settle-Ends before' (attempt host op before' prepared.ended u).0
        (attempt host op before' prepared.ended u).1
        (attempt-IsUndoable before' prepared.ended u here
          (record { mapping = same.mapping; memory = same.memory }))
    where
      prepared : Prepared
      prepared = op.prepare t.world.mapping

      before' : Before
      before' = captured before t.world.mapping prepared.captures

      u : State Env Memory
      u = record t { failed = t.failed || prepared.fails }

      here : IsBefore host op s unused confined before'
      here = rw same.mapping (is before refl)

  leave-IsSafe :
      (e : Error) (o : Outcome A) (t : State Env Memory)
      → Ends (o, t)
      → (leave host op (o, t)).0 ≡ err e
      → IsSafe unused s (leave host op (o, t)).1
  unfolding leave
  leave-IsSafe e (returned a) t h refused = cc
  leave-IsSafe e (rolled_back d) t h refused = inr h
  leave-IsSafe e (raised d) t h refused = elim (Bool-cases (is_benign host d)) [
    | inl benign ↦ rw benign (h benign)
    | inr other ↦ rw other (inl refl)
  ]

  after_prepare-IsSafe :
      (e : Error) (r : Result (Unit {0})) (t : State Env Memory)
      → Same s t
      → (r ≡ ok tt → t ≡ s)
      → (after_prepare host op (r, t)).0 ≡ err e
      → IsSafe unused s (after_prepare host op (r, t)).1
  unfolding after_prepare
  after_prepare-IsSafe e (err d) t same back refused = inr (Same-IsKept unused s t same)
  after_prepare-IsSafe e (ok u) t same back refused =
      subst (λ v. (leave host op (body v)).0 ≡ err e → IsSafe unused s (leave host op (body v)).1)
        (sym (back refl))
        (leave-IsSafe e (body s).0 (body s).1
          (after_begin-Ends (begin host s).0 (begin host s).1 (begin-Same host s) begin-IsBefore))
        refused
    where
      body : State Env Memory → Outcome A × State Env Memory
      body v = after_begin host op (begin host v)

  prepare_mutation-ok : (prepare_mutation host s).0 ≡ ok tt → (prepare_mutation host s).1 ≡ s
  unfolding prepare_mutation
  prepare_mutation-ok h = ground arith

  -- Whatever step raises, the capture, the mutation, the flush, the end of the transaction, the rollback itself
  -- or the commit to the index, an operation that raises has failed the session, or has left the in-memory
  -- index as it was, and the mapped image too, but for bytes that are named as unused, and those only in an
  -- old-map image. It is assumed that the operation is confined: it keeps the length of the image and, with a
  -- sector transaction, writes only the map, the sectors that its `prepare` captures and the unused bytes;
  -- that the copy of a file transaction is exact; and that where its `commit` raises on the index of the
  -- session, it is with an exception that the handler of `_mutation` lets fail the session.
  pub run_atomic-IsSafe :
      (e : Error) → (run_atomic host op s).0 ≡ err e → IsSafe unused s (run_atomic host op s).1
  unfolding run_atomic
  run_atomic-IsSafe e =
      after_prepare-IsSafe e (prepare_mutation host s).0 (prepare_mutation host s).1
        (prepare_mutation-Same host s) prepare_mutation-ok
