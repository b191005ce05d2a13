-- ===== src/Tests/Repairs.antt =====
-- A report with a stale extent of an empty file, and the application of its repair.
use nautilus_acornfs.Prelude.{All, ◌≡◌, refl, true, false, some, [], ◌∷◌, List}
use mathlib.Core.List.{Memᴰ}
use nautilus_acornfs.Prelude.Text.{codes}
use nautilus_acornfs.Prelude.Sorting.{sort}
use nautilus_acornfs.Prelude.Result.{ok}
use nautilus_acornfs.Validation.Findings.{Finding, Report, warning, fatal_findings, fatal_only}
use nautilus_acornfs.Repair.{
  empty_file, template_for, plan_repairs_from_report, grouped, put, application_supported,
}
use nautilus_acornfs.Repair.Plan.{
  Covered, plan_repairs_from_report-Covered, application_supported-IsSafe, IsRepairable,
}
use nautilus_acornfs.Repair.Apply.{Host, Run, Request, planned_payload, apply_repairs}
use nautilus_acornfs.Repair.Apply.Guarded.{IsGuarded, apply_repairs-IsGuarded}

abbrev stale : Finding
stale = record {
  severity = warning;
  code = codes "file.empty_has_extent";
  path = some (codes "$.A");
}

abbrev report_with : List Finding → Report
report_with findings = record {
  dat_bytes = 8448;
  geometry_sectors = some 33;
  adfs_sectors = some 33;
  used_sectors = some 7;
  free_sectors = some 26;
  findings = findings;
}

abbrev stale_report : Report
stale_report = report_with (stale ∷ [])

template_of_stale : template_for (codes "file.empty_has_extent") ≡ some empty_file
unfolding template_for
template_of_stale = refl

plan_repairs_from_report-Covered_example :
    Covered (codes "clear_empty_file_extents") stale (plan_repairs_from_report stale_report).actions
plan_repairs_from_report-Covered_example =
    plan_repairs_from_report-Covered stale_report stale empty_file (Memᴰ.head refl)
      template_of_stale

stale_supported : application_supported (plan_repairs_from_report stale_report) ≡ true
unfolding application_supported plan_repairs_from_report grouped put template_for fatal_findings
    fatal_only sort
stale_supported = refl

application_supported-IsSafe_example :
    (fatal_findings stale_report ≡ [])
    × All (λ (f : Finding). IsRepairable (template_for f.code)) stale_report.findings
application_supported-IsSafe_example = application_supported-IsSafe stale_report stale_supported

-- Every call is answered, and the repaired image is clean.
abbrev host : Host
host = record { answer = λ call. ok tt; integrity_report = λ call. ok (report_with []) }

abbrev request : Request
request = record {
  pair = ok (codes "disc.dat");
  confirmation = codes "disc.dat";
  report = ok stale_report;
}

abbrev start : Run
start = record {
  made = 0;
  calls = [];
  payload = planned_payload;
  image_open = false;
  checkpoint_completed = false;
}

apply_repairs-IsGuarded_example : IsGuarded (apply_repairs host request start).1.calls
apply_repairs-IsGuarded_example = apply_repairs-IsGuarded host request start tt
