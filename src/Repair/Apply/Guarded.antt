-- ===== src/Repair/Apply/Guarded.antt =====
-- The order of the calls of an application.
use nautilus_acornfs.Prelude.{
  ◌≡◌, refl, Bool, true, false, ◌||◌, ◌&&◌, List, [], ◌∷◌, ◌++◌, any, arith, inl, inr, Bool-cases,
}
use nautilus_acornfs.Prelude.Result.{Result, ok, err}
use nautilus_acornfs.Prelude.Exec.{Exec, pure, modify, ◌>>◌, ◌>>=◌, bind-step, bind-keeps}
use nautilus_acornfs.Validation.Findings.{Report}
use nautilus_acornfs.Repair.{RepairAction, RepairPlan}
use nautilus_acornfs.Repair.Apply.Steps.{is_repair, prepare-eq}
use nautilus_acornfs.Repair.Apply.{
  Status, planned, applying, verified, completed, failed, Call, checkpoint, report_progress,
  open_image, close_image, close_unclean, pad_reserved_tail, apply_catalogue_repair, write_audit,
  Host, Run, Request, perform, write, update, repair_call, prepare, apply_actions, verify, finish,
  apply_plan, recovered, attempted, create_audit, admit, planned_payload, apply_repairs,
}

abbrev pub is_open : Call → Bool
is_open open_image = true
is_open checkpoint = false
is_open report_progress = false
is_open close_image = false
is_open close_unclean = false
is_open pad_reserved_tail = false
is_open (apply_catalogue_repair action paths) = false
is_open (write_audit p) = false

abbrev is_applying : Status → Bool
is_applying applying = true
is_applying planned = false
is_applying verified = false
is_applying completed = false
is_applying failed = false

abbrev pub is_applying_audit : Call → Bool
is_applying_audit (write_audit p) = is_applying p.status
is_applying_audit open_image = false
is_applying_audit checkpoint = false
is_applying_audit report_progress = false
is_applying_audit close_image = false
is_applying_audit close_unclean = false
is_applying_audit pad_reserved_tail = false
is_applying_audit (apply_catalogue_repair action paths) = false

abbrev is_returned : Result (Unit {0}) → Bool
is_returned (ok done) = true
is_returned (err error) = false

-- A call of the kind has returned.
abbrev pub returned_from : (Call → Bool) → Call × Result (Unit {0}) → Bool
returned_from kind (c, r) = kind c && is_returned r

-- The image has been opened, and an audit that repairs are applied has been written, both without an error.
abbrev pub IsPrepared : List (Call × Result (Unit {0})) → Type 0
IsPrepared calls =
    (any (returned_from is_open) calls ≡ true)
    × (any (returned_from is_applying_audit) calls ≡ true)

-- Each repair among the calls, latest first, comes behind both.
abbrev pub IsGuarded : List (Call × Result (Unit {0})) → Type 0
IsGuarded [] = Unit
IsGuarded ((c, r) ∷ calls) = (is_repair c ≡ true → IsPrepared calls) × IsGuarded calls

or_true : (b c : Bool) → c ≡ true → (b || c) ≡ true
or_true true c h = refl
or_true false c h = h

IsPrepared-cons :
    (c : Call × Result (Unit {0})) (calls : List (Call × Result (Unit {0})))
    → IsPrepared calls
    → IsPrepared (c ∷ calls)
IsPrepared-cons c calls p =
    (or_true (returned_from is_open c) _ p.0, or_true (returned_from is_applying_audit c) _ p.1)

abbrev Good : Run → Type 0
Good s = IsGuarded s.calls

abbrev Ready : Run → Type 0
Ready s = IsPrepared s.calls × IsGuarded s.calls

-- A call that is no repair keeps the calls guarded.
perform-Good :
    (h : Host) (c : Call) (s : Run) → is_repair c ≡ false → Good s → Good (perform h c s).1
perform-Good h c s no_repair good = (λ e. absurd (cc (e, no_repair)), good)

perform-Ready : (h : Host) (c : Call) (s : Run) → Ready s → Ready (perform h c s).1
perform-Ready h c s r = (IsPrepared-cons (c, h.answer s.made) s.calls r.0, ((λ e. r.0), r.1))

abbrev KeepsReady : Exec Run (Unit {0}) → Type 0
KeepsReady m = (s : Run) → Ready s → Ready (m s).1

then-Ready : (m k : Exec Run (Unit {0})) → KeepsReady m → KeepsReady k → KeepsReady (m >> k)
then-Ready m k km kk s r = bind-keeps Ready m (λ _. k) km (λ _. kk) s r

module _ (h : Host) where
  prepare-Good : (s : Run) → Good s → Good (prepare h s).1
  unfolding prepare
  prepare-Good s good = ground arith

  prepare-Ready : (s : Run) → (prepare h s).0 ≡ ok tt → Good s → Ready (prepare h s).1
  prepare-Ready s returned good = rw (prepare-eq h s returned) (
    (refl, refl),
    (
      (λ e. absurd (cc e)),
      ((λ e. absurd (cc e)), ((λ e. absurd (cc e)), ((λ e. absurd (cc e)), good))),
    ),
  )

  apply_actions-Ready :
      (actions : List RepairAction) (s : Run) → Ready s → Ready (apply_actions h actions s).1
  unfolding apply_actions
  apply_actions-Ready [] s r = r
  apply_actions-Ready (action ∷ actions) s r =
      let wrote : Exec Run (Unit {0}) = write h >> apply_actions h actions in
      let noted : Exec Run (Unit {0}) =
        update h (λ p. record p { applied_actions = p.applied_actions ++ (action ∷ []) })
        >> wrote in
      let done : Exec Run (Unit {0}) = perform h (repair_call h action) >> noted in
      then-Ready (perform h checkpoint) (perform h report_progress >> done)
        (perform-Ready h checkpoint)
        (then-Ready (perform h report_progress) done (perform-Ready h report_progress) (
          then-Ready (perform h (repair_call h action)) noted
            (perform-Ready h (repair_call h action))
            (then-Ready
              (update h (λ p. record p { applied_actions = p.applied_actions ++ (action ∷ []) }))
              wrote (λ t k. k)
              (then-Ready (write h) (apply_actions h actions)
                (λ t. perform-Ready h (write_audit t.payload) t) (apply_actions-Ready actions)))))
        s r

  verify-Good : (plan : RepairPlan) (s : Run) → Good s → Good (verify h plan s).1
  unfolding verify
  verify-Good plan s good = ground arith

  finish-Good : (s : Run) → Good s → Good (finish h s).1
  unfolding finish
  finish-Good s good = ground arith

  apply_plan-Good : (plan : RepairPlan) (s : Run) → Good s → Good (apply_plan h plan s).1
  unfolding apply_plan
  apply_plan-Good plan s good =
      let last : Report → Exec Run Report = λ report. finish h >> pure report in
      let checked : Exec Run Report = verify h plan >>= last in
      bind-step Good (prepare h) (λ _. apply_actions h plan.actions >> checked) s
        (prepare-Good s good)
        (λ _ returned.
          let t : Run = (prepare h s).1 in
          let r = apply_actions-Ready plan.actions t (prepare-Ready s returned good) in
          bind-step Good (apply_actions h plan.actions) (λ _. checked) t r.1
            (λ _ _.
              bind-keeps Good (verify h plan) last (verify-Good plan)
                (λ report. bind-keeps Good (finish h) (λ _. pure report) finish-Good (λ _ v k. k))
                (apply_actions h plan.actions t).1 r.1))

  recovered-Good : (result : Result Report) (s : Run) → Good s → Good (recovered h result s).1
  recovered-Good (ok report) s good = good
  recovered-Good (err error) s good = elim (Bool-cases s.image_open) [
    | inl p ↦ rw p ((λ e. absurd (cc e)), ((λ e. absurd (cc e)), good))
    | inr p ↦ rw p ((λ e. absurd (cc e)), good)
  ]

  create_audit-Good : (s : Run) → Good s → Good (create_audit h s).1
  unfolding create_audit
  create_audit-Good s good = ground arith

  admit-Good : (q : Request) (s : Run) → Good s → Good (admit h q s).1
  unfolding admit
  admit-Good q s good = ground arith

  -- However a run ends, each repair that was asked for came behind an opening of the image, which makes the
  -- checkpoint, that returned, and behind a write that returned, of an audit that says that repairs are
  -- applied.
  pub apply_repairs-IsGuarded :
      (q : Request) (s : Run) → IsGuarded s.calls → IsGuarded (apply_repairs h q s).1.calls
  unfolding apply_repairs
  apply_repairs-IsGuarded q s =
      bind-keeps Good (admit h q)
        (λ plan.
          modify (λ s. record s { payload = planned_payload })
          >> (create_audit h >> attempted h (apply_plan h plan)))
        (admit-Good q)
        (λ plan t.
          bind-keeps Good (create_audit h) (λ _. attempted h (apply_plan h plan)) create_audit-Good
            (λ _ u k.
              recovered-Good (apply_plan h plan u).0 (apply_plan h plan u).1
                (apply_plan-Good plan u k))
            (record t { payload = planned_payload }))
        s
