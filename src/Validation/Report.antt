-- ===== src/Validation/Report.antt =====
-- `validate_open_mount`: the checks of the geometry against the map, of the free-space entries and of
-- the extents that the walk has collected, and the report. The report keeps no paths, and the text of
-- a finding is left out.
pub mod Free
pub mod Conclude
pub mod Collect
pub mod Safe
pub mod Images
use nautilus_acornfs.Prelude.{
  ℕ, suc, ◌+◌, ◌/◌, ◌%◌, Bool, true, false, ◌&&◌, ◌||◌, Option, none, some, List, [], ◌∷◌, ◌++◌,
  ltb, leb, ◌==◌, if◌then◌else◌,
}
use nautilus_acornfs.Prelude.Text.{Text, codes, text_eq}
use nautilus_acornfs.Prelude.Decimal.{decimal}
use nautilus_acornfs.Prelude.Sorting.{sum_by}
use nautilus_acornfs.Prelude.Result.{
  Error, Result, ok, err, operation_cancelled, operation_limit_exceeded,
}
use nautilus_acornfs.Prelude.Exec.{Exec, pure, raise, gets, modify, ◌>>=◌, ◌>>◌}
use nautilus_acornfs.Budget.{OperationBudget}
use nautilus_acornfs.Beebscsi.{BeebScsiGeometry, sector_size, sectors, capacity}
use nautilus_acornfs.Validation.Findings.{Finding, Report, fatal, warning, advice}
use nautilus_acornfs.Validation.Geometry.{geometry_findings}
use nautilus_acornfs.Validation.Extents.{
  Extent, extent_length, extent_finding, overlap_findings, cross_overlap_findings, gap_ranges,
}
use nautilus_acornfs.Validation.Walk.{
  Entry, Volume, Audit, checkpoint, add_finding, add_findings, add_when, walk,
}

-- The findings of another code.
abbrev pub other_codes : Text → List Finding → List Finding
other_codes code [] = []
other_codes code (f ∷ fs) =
    if text_eq f.code code then other_codes code fs else f ∷ other_codes code fs

abbrev pub has_missing_tail : ℕ → BeebScsiGeometry → ℕ → Bool
has_missing_tail dat_bytes geometry adfs_sectors =
    ltb dat_bytes (capacity geometry)
    && ((dat_bytes % sector_size == 0)
        && ((dat_bytes / sector_size == adfs_sectors) && ltb adfs_sectors (sectors geometry)))

abbrev pub missing_tail : Bool → Exec Audit (Unit {0})
missing_tail false = pure tt
missing_tail true = do
  modify (λ s. record s { findings = other_codes (codes "geometry.dat_short") s.findings })
  add_finding warning (codes "geometry.dat_missing_reserved_tail") none

-- The geometry and the free-space map, compared.
unfoldable pub check_geometry : ℕ → BeebScsiGeometry → ℕ → Exec Audit (Unit {0})
check_geometry dat_bytes geometry adfs_sectors = do
  missing_tail (has_missing_tail dat_bytes geometry adfs_sectors)
  add_when (ltb (dat_bytes / sector_size) adfs_sectors) fatal (codes "geometry.map_exceeds_dat")
      none
  add_when (ltb (sectors geometry) adfs_sectors) fatal (codes "geometry.map_exceeds_dsc") none
  add_when (ltb adfs_sectors (sectors geometry)) advice (codes "geometry.reserved_tail") none

-- An iteration ends, or raises.
abbrev pub ended : Result (Unit {0}) → Exec Audit (Unit {0})
ended result s = (result, s)

-- The problems that the mount's own `validate` yields.
unfoldable pub structure_problems : Volume → List Text → Exec Audit (Unit {0})
structure_problems v [] = ended v.problems_end
structure_problems v (problem ∷ problems) = do
  checkpoint v 1 none
  add_finding fatal (codes "adfs.structure") none
  structure_problems v problems

abbrev pub free_extent : ℕ → ℕ → ℕ → Extent
free_extent index start_bytes length_bytes = record {
  start = start_bytes / sector_size;
  stop = start_bytes / sector_size + length_bytes / sector_size;
  owner = codes "free-space entry " ++ decimal index;
}

abbrev pub add_free : Extent → Exec Audit (Unit {0})
add_free e = modify (λ s. record s { free_extents = s.free_extents ++ (e ∷ []) })

abbrev pub free_misplaced : ℕ → Extent → Bool
free_misplaced adfs_sectors e = ltb e.start 7 || ltb adfs_sectors e.stop

abbrev pub examine_free : ℕ → Extent → Bool → Exec Audit (Unit {0})
examine_free adfs_sectors e true = add_finding fatal (codes "extent.free_empty") none
examine_free adfs_sectors e false = do
  add_free e
  add_when (free_misplaced adfs_sectors e) fatal (codes "extent.free_out_of_range") none

unfoldable pub free_entries : Volume → ℕ → List (ℕ × ℕ) → Exec Audit (Unit {0})
free_entries v index [] = ended v.free_space_end
free_entries v index ((start_bytes, length_bytes) ∷ entries) = do
  checkpoint v 1 none
  examine_free v.total_sectors (free_extent index start_bytes length_bytes)
      (length_bytes / sector_size == 0)
  free_entries v (suc index) entries

-- `except (OperationCancelled, OperationLimitExceeded): raise`, and `except Exception` adds a finding.
abbrev pub is_stop : Error → Bool
is_stop operation_cancelled = true
is_stop operation_limit_exceeded = true
is_stop _ = false

abbrev pub handler : Text → Option Text → Error → Exec Audit (Unit {0})
handler code path error = if is_stop error then raise error else add_finding fatal code path

abbrev pub handled : Text → Option Text → Result (Unit {0}) → Exec Audit (Unit {0})
handled code path (ok done) = pure tt
handled code path (err error) = handler code path error

abbrev pub caught : Text → Option Text → Exec Audit (Unit {0}) → Exec Audit (Unit {0})
caught code path attempt s = let (result, after) = attempt s in handled code path result after

-- The fuel of the walk: the depths that the budget allows.
abbrev pub walk_root : Volume → Result (List Entry) → Exec Audit (Unit {0})
walk_root v (err error) = raise error
walk_root v (ok root) = do fuel ← gets (λ s. suc s.budget.max_depth); walk fuel v 0 root (codes "$")

abbrev pub used_misplaced : ℕ → Extent → Bool
used_misplaced adfs_sectors e = ltb adfs_sectors e.stop || leb e.stop e.start

unfoldable pub check_used : Volume → List Extent → Exec Audit (Unit {0})
check_used v [] = pure tt
check_used v (e ∷ extents) = do
  checkpoint v 1 none
  add_findings (
      if used_misplaced v.total_sectors e
      then extent_finding (codes "extent.used_out_of_range") e ∷ []
      else [])
  check_used v extents

abbrev pub unaccounted : List (ℕ × ℕ) → List Finding
unaccounted [] = []
unaccounted (gap ∷ gaps) =
    record { severity = fatal; code = codes "extent.unaccounted"; path = none } ∷ []

-- The findings of the accounts of all extents.
unfoldable pub account_findings : ℕ → List Extent → List Extent → List Finding
account_findings total used free =
    overlap_findings (codes "extent.used_overlap") used
    ++ (overlap_findings (codes "extent.free_overlap") free
        ++ (cross_overlap_findings used free ++ unaccounted (gap_ranges (used ++ free) total)))

abbrev pub system_extents : List Extent
system_extents =
    record { start = 0; stop = 2; owner = codes "ADFS free-space map" }
    ∷ record { start = 2; stop = 7; owner = codes "$" }
    ∷ []

abbrev pub report_of : ℕ → BeebScsiGeometry → Volume → Audit → Report
report_of dat_bytes geometry v s = record {
  dat_bytes = dat_bytes;
  geometry_sectors = some (sectors geometry);
  adfs_sectors = some v.total_sectors;
  used_sectors = some (sum_by extent_length s.used_extents);
  free_sectors = some (sum_by extent_length s.free_extents);
  findings = s.findings;
}

-- The state when the validation begins, behind some checkpoints.
abbrev pub begun : ℕ → OperationBudget → List Finding → Audit
begun checkpoints budget initial = record {
  budget = budget;
  checkpoints = checkpoints;
  findings = initial;
  used_extents = system_extents;
  free_extents = [];
  seen_directories = 2 ∷ [];
}

-- From the range check of the used extents to the report.
unfoldable pub conclude : ℕ → BeebScsiGeometry → Volume → Exec Audit Report
conclude dat_bytes geometry v = do
  used ← gets (λ s. s.used_extents)
  check_used v used
  checkpoint v 0 none
  free ← gets (λ s. s.free_extents)
  add_findings (account_findings v.total_sectors used free)
  gets (report_of dat_bytes geometry v)

-- The collection of free and used extents, up to there.
unfoldable pub collect : Volume → Exec Audit (Unit {0})
collect v = do
  structure_problems v v.problems
  caught (codes "extent.free_unreadable") none (free_entries v 0 v.free_space_entries)
  caught (codes "directory.root_unreadable") (some (codes "$")) (walk_root v v.read_root_directory)

unfoldable pub validate_open_mount : ℕ → BeebScsiGeometry → Volume → Exec Audit Report
unfolding collect conclude
validate_open_mount dat_bytes geometry v = do
  checkpoint v 0 none
  add_findings (geometry_findings dat_bytes geometry)
  check_geometry dat_bytes geometry v.total_sectors
  collect v
  conclude dat_bytes geometry v
