-- ===== src/Repair/Apply.antt =====
-- `apply_repairs`: the guards, the audit and the steps of an application. Every call that leaves the module is
-- a `Call` that the host answers, and a run keeps the calls that it has made with their answers, latest first. The audit's
-- paths, times and texts are left out.
pub mod Steps
pub mod Guarded
pub mod Outcome
use nautilus_acornfs.Prelude.{
  ℕ, suc, Bool, true, false, ◌&&◌, ◌||◌, not, List, [], ◌∷◌, ◌++◌, any, if◌then◌else◌,
}
use nautilus_acornfs.Prelude.Text.{Text, codes, text_eq}
use nautilus_acornfs.Prelude.Result.{
  Error, Result, ok, err, acornfs_error, os_error, file_not_found, file_exists, is_a_directory,
  not_a_directory, permission_error, memory_error,
}
use nautilus_acornfs.Prelude.Exec.{Exec, pure, raise, raise_when, modify, reads, gets, ◌>>=◌, ◌>>◌}
use nautilus_acornfs.Validation.Findings.{Finding, Report, fatal_findings}
use nautilus_acornfs.Repair.{
  RepairAction, RepairPlan, plan_repairs_from_report, is_none_left, clean, application_supported,
}

pub data Status : Type 0 where
  planned applying verified completed failed : Status

-- The parts of the audit that change.
pub record Payload : Type 0 where
  pub status : Status
  pub checkpoint_created : Bool
  pub checkpoint_retained : Bool
  pub applied_actions : List RepairAction
  pub post_validation : List Report

pub data Call : Type 0 where
  checkpoint report_progress open_image close_image close_unclean pad_reserved_tail : Call
  apply_catalogue_repair : Text → List Text → Call
  write_audit : Payload → Call

-- The answer to each call, and the integrity report, by the number of calls before it.
pub record Host : Type 0 where
  pub answer : ℕ → Result (Unit {0})
  pub integrity_report : ℕ → Result Report

pub record Run : Type 0 where
  pub made : ℕ
  pub calls : List (Call × Result (Unit {0}))
  pub payload : Payload
  pub image_open : Bool
  pub checkpoint_completed : Bool

pub record Request : Type 0 where
  pub pair : Result Text
  pub confirmation : Text
  pub report : Result Report

abbrev pub planned_payload : Payload
planned_payload = record {
  status = planned;
  checkpoint_created = false;
  checkpoint_retained = false;
  applied_actions = [];
  post_validation = [];
}

-- `(OSError, MemoryError)`, with the subclasses of `OSError`
abbrev pub is_caught : Error → Bool
is_caught memory_error = true
is_caught os_error = true
is_caught file_not_found = true
is_caught file_exists = true
is_caught is_a_directory = true
is_caught not_a_directory = true
is_caught permission_error = true
is_caught _ = false

module _ (h : Host) where
  abbrev pub perform : Call → Exec Run (Unit {0})
  perform call s =
      (h.answer s.made, record s { made = suc s.made; calls = (call, h.answer s.made) ∷ s.calls })

  -- `_write_audit(audit_path, payload)`
  abbrev pub write : Exec Run (Unit {0})
  write s = perform (write_audit s.payload) s

  abbrev pub update : (Payload → Payload) → Exec Run (Unit {0})
  update f = modify (λ s. record s { payload = f s.payload })

  abbrev pub repair_call : RepairAction → Call
  repair_call action =
      if text_eq action.action (codes "pad_reserved_tail")
      then pad_reserved_tail
      else apply_catalogue_repair action.action action.paths

  -- From the revalidation to the audit that says that repairs are applied.
  unfoldable pub prepare : Exec Run (Unit {0})
  prepare = do
    perform report_progress
    perform open_image
    modify (λ s. record s { image_open = true })
    perform report_progress
    update (λ p. record p { status = applying; checkpoint_created = true })
    write

  -- The loop over the actions.
  unfoldable pub apply_actions : List RepairAction → Exec Run (Unit {0})
  apply_actions [] = pure tt
  apply_actions (action ∷ actions) = do
    perform checkpoint
    perform report_progress
    perform (repair_call action)
    update (λ p. record p { applied_actions = p.applied_actions ++ (action ∷ []) })
    write
    apply_actions actions

-- Whether a finding has a code that the plan was to repair.
abbrev pub is_planned : List RepairAction → Finding → Bool
is_planned actions f = any (λ action. any (text_eq f.code) action.finding_codes) actions

abbrev pub remains : RepairPlan → Report → Bool
remains plan report =
    not (is_none_left (fatal_findings report)) || any (is_planned plan.actions) report.findings

module _ (h : Host) where
  -- The verification of the repaired image.
  unfoldable pub verify : RepairPlan → Exec Run Report
  verify plan = do
    perform h report_progress
    report ← reads (λ s. h.integrity_report s.made)
    raise_when (remains plan report) acornfs_error
    update h (λ p. record p { status = verified; post_validation = report ∷ [] })
    write h
    pure report

  -- The end of the checkpoint, and of the audit.
  unfoldable pub finish : Exec Run (Unit {0})
  finish = do
    perform h report_progress
    perform h close_image
    modify (λ s. record s { checkpoint_completed = true; image_open = false })
    update h (λ p. record p { status = completed })
    write h
    perform h report_progress

  unfoldable pub apply_plan : RepairPlan → Exec Run Report
  apply_plan plan = do
    prepare h
    apply_actions h plan.actions
    report ← verify plan
    finish
    pure report

  -- `with suppress(Exception): image.close(clean=False)`, if the image is open
  abbrev pub close_if : Bool → Run → Run
  close_if false s = s
  close_if true s = record (perform h close_unclean s).1 { image_open = false }

  abbrev pub failed_payload : Run → Payload
  failed_payload s = record s.payload {
    status = failed;
    checkpoint_retained = s.payload.checkpoint_created && not s.checkpoint_completed;
  }

  -- `with suppress(OSError, MemoryError)`, and the error that is raised in the end
  abbrev after_failure : Result (Unit {0}) → Error
  after_failure (ok done) = acornfs_error
  after_failure (err error) = if is_caught error then acornfs_error else error

  abbrev fail : Exec Run Report
  fail s =
      let closed = close_if s.image_open s in
      let (result, after) = write h (record closed { payload = failed_payload closed }) in
      (err (after_failure result), after)

  abbrev pub recovered : Result Report → Exec Run Report
  recovered (ok report) = pure report
  recovered (err error) = fail

  -- `except Exception`
  abbrev pub attempted : Exec Run Report → Exec Run Report
  attempted m s = let (result, after) = m s in recovered result after

  abbrev mandatory : Result (Unit {0}) → Exec Run (Unit {0})
  mandatory (ok done) = pure tt
  mandatory (err error) = raise (if is_caught error then acornfs_error else error)

  -- The audit that must be written before anything else.
  unfoldable pub create_audit : Exec Run (Unit {0})
  create_audit s =
      let (result, after) = (write h >> perform h report_progress) s in mandatory result after

  -- The guards before anything is written: confirmation, and a plan that is needed and supported.
  unfoldable pub admit : Request → Exec Run RepairPlan
  admit q = do
    perform h checkpoint
    perform h report_progress
    name ← reads (λ s. q.pair)
    raise_when (not (text_eq q.confirmation name)) acornfs_error
    report ← reads (λ s. q.report)
    let plan = plan_repairs_from_report report
    perform h report_progress
    raise_when (clean plan) acornfs_error
    raise_when (not (application_supported plan)) acornfs_error
    pure plan

  unfoldable pub apply_repairs : Request → Exec Run Report
  apply_repairs q = do
    plan ← admit q
    modify (λ s. record s { payload = planned_payload })
    create_audit
    attempted (apply_plan plan)
