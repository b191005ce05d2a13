-- ===== src/Validation/Findings.antt =====
-- `FindingSeverity`, `IntegrityFinding` and the part of `IntegrityReport` that callers decide by.
-- The translated message of a finding is not modelled.
use nautilus_acornfs.Prelude.{ℕ, Bool, true, false, Option, List, [], ◌∷◌, if◌then◌else◌}
use nautilus_acornfs.Prelude.Text.{Text}
use nautilus_acornfs.Prelude.Result.{Result, ok, err, acornfs_error}

pub data Severity : Type 0 where
  fatal warning advice : Severity

pub record Finding : Type 0 where
  pub severity : Severity
  pub code : Text
  pub path : Option Text

pub record Report : Type 0 where
  pub dat_bytes : ℕ
  pub geometry_sectors : Option ℕ
  pub adfs_sectors : Option ℕ
  pub used_sectors : Option ℕ
  pub free_sectors : Option ℕ
  pub findings : List Finding

abbrev pub is_fatal : Severity → Bool
is_fatal fatal = true
is_fatal warning = false
is_fatal advice = false

-- The findings of one severity, in order.
unfoldable pub fatal_only : List Finding → List Finding
fatal_only [] = []
fatal_only (f ∷ fs) = if is_fatal f.severity then f ∷ fatal_only fs else fatal_only fs

unfoldable pub fatal_findings : Report → List Finding
unfolding fatal_only
fatal_findings r = fatal_only r.findings

abbrev pub is_empty : List Finding → Bool
is_empty [] = true
is_empty (f ∷ fs) = false

unfoldable pub safe_for_write : Report → Bool
unfolding fatal_findings
safe_for_write r = is_empty (fatal_findings r)

unfoldable pub require_safe_for_write : Report → Result (Unit {0})
unfolding safe_for_write
require_safe_for_write r = if safe_for_write r then ok tt else err acornfs_error
