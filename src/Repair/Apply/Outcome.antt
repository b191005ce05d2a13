-- ===== src/Repair/Apply/Outcome.antt =====
-- What an application that returns has done.
use nautilus_acornfs.Prelude.{ℕ, ◌≡◌, Bool, true, false, List, [], ◌∷◌}
use nautilus_acornfs.Prelude.Text.{Text, text_eq}
use nautilus_acornfs.Prelude.Result.{Result, ok, err}
use nautilus_acornfs.Prelude.Exec.{Exec}
use nautilus_acornfs.Validation.Findings.{Report}
use nautilus_acornfs.Repair.{RepairPlan, plan_repairs_from_report}
use nautilus_acornfs.Repair.Apply.{
  completed, verified, report_progress, close_image, Payload, Host, Run, remains, Call, write_audit,
}
use nautilus_acornfs.Repair.Apply.Steps.{repairs_made, repairs_of}

-- The calls behind the repairs, latest first.
abbrev pub finished_as :
    Payload → Payload → List (Call × Result (Unit {0})) → List (Call × Result (Unit {0}))
finished_as last audit earlier =
    (report_progress, ok tt)
    ∷ (write_audit last, ok tt)
    ∷ (close_image, ok tt)
    ∷ (report_progress, ok tt)
    ∷ (write_audit audit, ok tt)
    ∷ (report_progress, ok tt)
    ∷ earlier

-- An application that returned a report, from the repairs that were made before it.
pub record IsRepaired (h : Host) (plan : RepairPlan) (r : Report) (earlier : List Call) (t : Run)
    : Type 0 where
  -- each action's repair was made, in order, and no other
  pub made : repairs_made t.calls ≡ repairs_of h plan.actions earlier
  -- the image answered with the report
  pub answered : (n : ℕ) × (h.integrity_report n ≡ ok r)
  pub remains : remains plan r ≡ false
  pub payload : t.payload ≡ record {
    status = completed;
    checkpoint_created = true;
    checkpoint_retained = false;
    applied_actions = plan.actions;
    post_validation = r ∷ [];
  }
  pub closed : t.image_open ≡ false
  pub checkpoint_completed : t.checkpoint_completed ≡ true
  -- the last calls, behind those of the repairs: an audit of the verification, a clean close of the image, and
  -- the audit that the repair is completed
  pub ended :
      (audit : Payload) × (u : List (Call × Result (Unit {0}))) × (audit.status ≡ verified)
      × (audit.post_validation ≡ r ∷ [])
      × (t.calls ≡ finished_as t.payload audit u)

abbrev pub is_confirmed : Result Text → Text → Bool
is_confirmed (ok name) confirmation = text_eq confirmation name
is_confirmed (err error) confirmation = false

abbrev pub planned_for : Result Report → Result RepairPlan
planned_for (ok report) = ok (plan_repairs_from_report report)
planned_for (err error) = err error
