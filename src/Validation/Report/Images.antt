-- ===== src/Validation/Report/Images.antt =====
-- `validate_image_report`: the choice between a pair and another image, and the reports of what could not
-- be opened. What the files, the locks and Oaknut answer is `Selected`; closing is not modelled.
pub mod Opened
use nautilus_acornfs.Prelude.{
  ◌≤◌, ◌≡◌, ℕ, ◌-◌, ◌/◌, ◌≡◌, ◌∙◌, refl, sym, subst, Bool, true, false, Option, none, some, List,
  [], ◌∷◌, ◌++◌, map, if◌then◌else◌, inl, inr, ap, Bool-cases,
}
use nautilus_acornfs.Prelude.Text.{Text, Bytes, codes}
use nautilus_acornfs.Prelude.Result.{Error, Result, ok, err}
use nautilus_acornfs.Prelude.Exec.{Exec, pure, raise, reads, ◌>>=◌, ◌>>◌, continue-ok, then-ok}
use nautilus_acornfs.Beebscsi.{BeebScsiGeometry, sector_size, sectors, parse_descriptor}
use nautilus_acornfs.Budget.{OperationBudget}
use nautilus_acornfs.Validation.Findings.{
  Finding, Report, fatal, safe_for_write, fatal_findings, fatal_only,
}
use nautilus_acornfs.Validation.Geometry.{geometry_findings, geometry_finding}
use nautilus_acornfs.Validation.Walk.{Volume, Audit, checkpoint}
use nautilus_acornfs.Validation.Walk.Reached.{not_quiet}
use nautilus_acornfs.Validation.Report.Conclude.{found, safe_quiet}
use nautilus_acornfs.Validation.Report.Safe.{IsAccounted, validate_open_mount-IsAccounted}
use nautilus_acornfs.Validation.Report.{begun, is_stop, validate_open_mount}

-- An image that is not a pair, opened: `problems` are what its validator yields, if it has one.
-- Oaknut reports no more free bytes than the disc has.
pub record Generic : Type 0 where
  pub kind : Text
  pub problems : Option (List Text)
  pub size : ℕ
  pub free : Option ℕ
  pub free_fits : (f : ℕ) → free ≡ some f → f ≤ size
  pub dat_bytes : ℕ
  pub num_sectors : ℕ

-- What a selection turns out to be.
pub data Source : Type 0 where
  a_pair : Source
  other : Result Generic → Source

-- `reader` is the length of the data file and the descriptor, read under the locks; `mounted` is the
-- answer of Oaknut to opening the disc that is then validated.
pub record Selected : Type 0 where
  pub resolved : Result Source
  pub has_pair_suffix : Bool
  pub discovered : Result (Unit {0})
  pub dat_bytes : ℕ
  pub reader : Result (ℕ × Bytes)
  pub mounted : Result (Unit {0})
  pub volume : Volume

abbrev structure_finding : Text → Text → Finding
structure_finding kind problem = record {
  severity = fatal;
  code = kind ++ codes ".structure";
  path = none;
}

abbrev problem_list : Option (List Text) → List Text
problem_list none = codes "validator unavailable" ∷ []
problem_list (some problems) = problems

abbrev generic_report : Generic → Report
generic_report g = record {
  dat_bytes = g.dat_bytes;
  geometry_sectors = some g.num_sectors;
  adfs_sectors = some (g.size / sector_size);
  used_sectors = elim g.free [ none ↦ none | some free ↦ some ((g.size - free) / sector_size) ];
  free_sectors = elim g.free [ none ↦ none | some free ↦ some (free / sector_size) ];
  findings = map (structure_finding g.kind) (problem_list g.problems);
}

-- The report of a pair that could not be opened, with what was found.
abbrev pub unopened : ℕ → Option ℕ → List Finding → Report
unopened dat_bytes geometry_sectors findings = record {
  dat_bytes = dat_bytes;
  geometry_sectors = geometry_sectors;
  adfs_sectors = none;
  used_sectors = none;
  free_sectors = none;
  findings = findings;
}

-- `except Exception` of a selection: only one that is named like a pair goes on as a pair.
abbrev pub or_pair : Bool → Result Source → Result Source
or_pair has_pair_suffix (ok source) = ok source
or_pair has_pair_suffix (err error) = if has_pair_suffix then ok a_pair else err error

-- The length and the geometry of a pair, or what was raised under the locks.
abbrev pub described : Result (ℕ × Bytes) → Result (ℕ × BeebScsiGeometry)
described (err error) = err error
described (ok (dat_bytes, descriptor)) = elim (parse_descriptor descriptor) [
  | err error ↦ err error
  | ok geometry ↦ ok (dat_bytes, geometry)
]

abbrev pub after_open : ℕ → BeebScsiGeometry → Result Report → Exec Audit Report
after_open dat_bytes geometry (ok report) = pure report
after_open dat_bytes geometry (err error) =
    if is_stop error
    then raise error
    else pure (
        unopened dat_bytes (some (sectors geometry)) (
          geometry_findings dat_bytes geometry
          ++ (geometry_finding (codes "adfs.open_failed") ∷ [])))

-- The validation of the mount, if Oaknut opens it.
abbrev pub mount_report : Selected → ℕ → BeebScsiGeometry → Result (Unit {0}) → Exec Audit Report
mount_report x dat_bytes geometry (err error) s = raise error s
mount_report x dat_bytes geometry (ok done) s =
    validate_open_mount dat_bytes geometry x.volume (begun s.checkpoints s.budget [])

abbrev pub opened_report : Selected → ℕ → BeebScsiGeometry → Exec Audit Report
opened_report x dat_bytes geometry s =
    let (result, after) = mount_report x dat_bytes geometry x.mounted s in
    after_open dat_bytes geometry result after

abbrev pub described_report : Selected → Result (ℕ × BeebScsiGeometry) → Exec Audit Report
described_report x (err error) =
    pure (unopened x.dat_bytes none (geometry_finding (codes "geometry.descriptor_invalid") ∷ []))
described_report x (ok (dat_bytes, geometry)) = opened_report x dat_bytes geometry

abbrev pub source_report : Selected → Source → Exec Audit Report
source_report x (other generic) = do opened ← reads (λ s. generic); pure (generic_report opened)
source_report x a_pair = do reads (λ s. x.discovered); described_report x (described x.reader)

unfoldable pub validate_image_report : Selected → Exec Audit Report
validate_image_report x = do
  checkpoint x.volume 0 none
  source ← reads (λ s. or_pair x.has_pair_suffix x.resolved)
  source_report x source
