-- ===== src/Repair/Apply/Steps.antt =====
-- What the phases of an application leave, where they return.
use nautilus_acornfs.Prelude.{
  ℕ, Bool, if◌then◌else◌, suc, ◌≡◌, ◌∙◌, refl, sym, ap, true, false, List, [], ◌∷◌, ◌++◌, arith,
}
use mathlib.Core.List.{append_assoc, append-nil}
use nautilus_acornfs.Prelude.Result.{Result, ok, err}
use nautilus_acornfs.Validation.Findings.{Report}
use nautilus_acornfs.Repair.{RepairAction, RepairPlan}
use nautilus_acornfs.Repair.Apply.{
  applying, verified, completed, Payload, Call, checkpoint, report_progress, open_image,
  write_audit, close_image, close_unclean, pad_reserved_tail, apply_catalogue_repair, Host, Run,
  repair_call, prepare, apply_actions, remains, verify, finish,
}

abbrev pub applying_payload : Payload → Payload
applying_payload p = record p { status = applying; checkpoint_created = true }

abbrev pub prepared_run : Run → Run
prepared_run s = record s {
  made = suc (suc (suc (suc s.made)));
  calls =
      (write_audit (applying_payload s.payload), ok tt)
      ∷ (report_progress, ok tt)
      ∷ (open_image, ok tt)
      ∷ (report_progress, ok tt)
      ∷ s.calls;
  payload = applying_payload s.payload;
  image_open = true;
}

abbrev pub is_repair : Call → Bool
is_repair pad_reserved_tail = true
is_repair (apply_catalogue_repair action paths) = true
is_repair checkpoint = false
is_repair report_progress = false
is_repair open_image = false
is_repair close_image = false
is_repair close_unclean = false
is_repair (write_audit p) = false

-- The repairs that were made, that is whose call returned, latest first.
abbrev pub repairs_made : List (Call × Result (Unit {0})) → List Call
repairs_made [] = []
repairs_made ((c, ok done) ∷ calls) =
    let rest = repairs_made calls in if is_repair c then c ∷ rest else rest
repairs_made ((c, err error) ∷ calls) = repairs_made calls

module _ (h : Host) where
  pub prepare-eq : (s : Run) → (prepare h s).0 ≡ ok tt → (prepare h s).1 ≡ prepared_run s
  unfolding prepare
  prepare-eq s returned = ground arith

  -- The run behind one action that was applied.
  abbrev pub applied_run : RepairAction → Run → Run
  applied_run action s =
      let payload = record s.payload {
        applied_actions = s.payload.applied_actions ++ (action ∷ []);
      } in
      record s {
        made = suc (suc (suc (suc s.made)));
        calls =
            (write_audit payload, ok tt)
            ∷ (repair_call h action, ok tt)
            ∷ (report_progress, ok tt)
            ∷ (checkpoint, ok tt)
            ∷ s.calls;
        payload = payload;
      }

  repair_call-is_repair : (action : RepairAction) → is_repair (repair_call h action) ≡ true
  repair_call-is_repair action = ground arith

  -- The repairs that a list of actions asks for, latest first, before the earlier ones.
  abbrev pub repairs_of : List RepairAction → List Call → List Call
  repairs_of [] earlier = earlier
  repairs_of (action ∷ actions) earlier = repairs_of actions (repair_call h action ∷ earlier)

  -- What the loop leaves: each action's repair was made, in order, and is on the audit.
  abbrev pub IsApplied : List RepairAction → Run → Run → Type 0
  IsApplied actions s t =
      (t.payload ≡ record s.payload { applied_actions = s.payload.applied_actions ++ actions })
      × (t.image_open ≡ s.image_open)
      × (t.checkpoint_completed ≡ s.checkpoint_completed)
      × (repairs_made t.calls ≡ repairs_of actions (repairs_made s.calls))

  pub apply_actions-cons :
      (action : RepairAction) (actions : List RepairAction) (s : Run)
      → (apply_actions h (action ∷ actions) s).0 ≡ ok tt
      → ((apply_actions h actions (applied_run action s)).0 ≡ ok tt)
        × ((apply_actions h (action ∷ actions) s).1
            ≡ (apply_actions h actions (applied_run action s)).1)
  unfolding apply_actions
  apply_actions-cons action actions s returned = ground arith

  applied_run-made :
      (action : RepairAction) (s : Run)
      → repairs_made (applied_run action s).calls ≡ repair_call h action ∷ repairs_made s.calls
  applied_run-made action s = rw (repair_call-is_repair action) refl

  apply_actions-nil : (s : Run) → apply_actions h [] s ≡ (ok tt, s)
  unfolding apply_actions
  apply_actions-nil s = refl

  pub apply_actions-IsApplied :
      (actions : List RepairAction) (s : Run)
      → (apply_actions h actions s).0 ≡ ok tt
      → IsApplied actions s (apply_actions h actions s).1
  apply_actions-IsApplied [] s returned = rw (apply_actions-nil s) (
    ap (λ done. record s.payload { applied_actions = done })
        (sym (append-nil s.payload.applied_actions)),
    refl,
    refl,
    refl,
  )
  apply_actions-IsApplied (action ∷ actions) s returned =
      let (later, same) = apply_actions-cons action actions s returned in
      let (p, i, c, m) = apply_actions-IsApplied actions (applied_run action s) later in
      (
        ap (λ (x : Run). x.payload) same
            ∙ (p
                ∙ ap (λ done. record s.payload { applied_actions = done })
                    (append_assoc s.payload.applied_actions (action ∷ []) actions)),
        ap (λ (x : Run). x.image_open) same ∙ i,
        ap (λ (x : Run). x.checkpoint_completed) same ∙ c,
        ap (λ (x : Run). repairs_made x.calls) same
            ∙ (m ∙ ap (repairs_of actions) (applied_run-made action s)),
      )

  verified_facts :
      (plan : RepairPlan) (s : Run) (r : Report)
      → (verify h plan s).0 ≡ ok r
      → (remains plan r ≡ false)
        × ((verify h plan s).1.payload
            ≡ record s.payload { status = verified; post_validation = r ∷ [] })
        × ((verify h plan s).1.image_open ≡ s.image_open)
        × ((verify h plan s).1.checkpoint_completed ≡ s.checkpoint_completed)
        × (repairs_made (verify h plan s).1.calls ≡ repairs_made s.calls)
        × ((verify h plan s).1.calls
            ≡ (write_audit (verify h plan s).1.payload, ok tt) ∷ (report_progress, ok tt) ∷ s.calls)
        × (h.integrity_report (suc s.made) ≡ ok r)
  unfolding verify
  verified_facts plan s r returned = ground arith

  pub verify-eq :
      (plan : RepairPlan) (s : Run) (r : Report)
      → (verify h plan s).0 ≡ ok r
      → (remains plan r ≡ false)
        × ((verify h plan s).1.payload
            ≡ record s.payload { status = verified; post_validation = r ∷ [] })
        × ((verify h plan s).1.image_open ≡ s.image_open)
        × ((verify h plan s).1.checkpoint_completed ≡ s.checkpoint_completed)
        × (repairs_made (verify h plan s).1.calls ≡ repairs_made s.calls)
        × ((verify h plan s).1.calls
            ≡ (write_audit (verify h plan s).1.payload, ok tt) ∷ (report_progress, ok tt) ∷ s.calls)
        × ((n : ℕ) × (h.integrity_report n ≡ ok r))
  unfolding verify
  verify-eq plan s r returned =
      let (a, b, c, d, e, l, f) = verified_facts plan s r returned in
      (a, b, c, d, e, l, (suc s.made, f))

  -- The last calls: the image is closed cleanly, and the audit says that the repair is completed.
  abbrev pub finished_calls : Run → List (Call × Result (Unit {0}))
  finished_calls s =
      (report_progress, ok tt)
      ∷ (write_audit (record s.payload { status = completed }), ok tt)
      ∷ (close_image, ok tt)
      ∷ (report_progress, ok tt)
      ∷ s.calls

  pub finish-eq :
      (s : Run)
      → (finish h s).0 ≡ ok tt
      → ((finish h s).1.payload ≡ record s.payload { status = completed })
        × ((finish h s).1.image_open ≡ false)
        × ((finish h s).1.checkpoint_completed ≡ true)
        × ((finish h s).1.calls ≡ finished_calls s)
        × (repairs_made (finish h s).1.calls ≡ repairs_made s.calls)
  unfolding finish
  finish-eq s returned = ground arith
