-- ===== src/Tests/Volumes.antt =====
-- A disc of 33 sectors: the map, the root, a file, and a directory that holds another file.
use nautilus_acornfs.Prelude.{
  ℕ, ◌*◌, ◌≡◌, refl, true, false, none, some, [], ◌∷◌, ◌++◌, replicate, arith,
}
use mathlib.Core.List.{Memᴰ}
use nautilus_acornfs.Prelude.Text.{Text, Bytes, codes}
use nautilus_acornfs.Prelude.Result.{ok}
use nautilus_acornfs.Budget
use nautilus_acornfs.Budget.{OperationBudget}
use nautilus_acornfs.Beebscsi.{BeebScsiGeometry, geometry_of, parse_descriptor}
use nautilus_acornfs.Validation.Findings.{Report, safe_for_write, fatal_findings, fatal_only}
use nautilus_acornfs.Validation.Geometry.{geometry_findings}
use nautilus_acornfs.Validation.Extents.{
  Extent, overlap_findings, cross_overlap_findings, gap_ranges,
}
use nautilus_acornfs.Validation.Walk.{
  Entry, Volume, Audit, walk, walk_entries, examine_directory, examine_file, file_extent,
}
use nautilus_acornfs.Validation.Walk.Stops.{IsStop, walk-IsStop}
use nautilus_acornfs.Validation.Walk.Reached.{Reached}
use nautilus_acornfs.Validation.Report.{
  begun, validate_open_mount, conclude, collect, check_geometry, check_used, free_entries,
  structure_problems, account_findings,
}
use nautilus_acornfs.Validation.Report.Images.{Selected, a_pair, validate_image_report}
use nautilus_acornfs.Validation.Report.Images.Opened.{IsOpened, validate_image_report-IsOpened}
use nautilus_acornfs.Validation.Report.Safe.{entries_apart}

abbrev geometry : BeebScsiGeometry
geometry = geometry_of 1 1

abbrev entry : Text → ℕ → ℕ → Entry
entry name start length = record {
  name = name;
  is_directory = false;
  start_sector = start;
  length = length;
}

abbrev readme : Entry
readme = entry (codes "READ") 7 300

abbrev folder : Entry
folder = record { name = codes "DIR"; is_directory = true; start_sector = 9; length = 1280 }

abbrev inner : Entry
inner = entry (codes "IN") 14 256

abbrev volume : Volume
volume = record {
  total_sectors = 33;
  directory_sectors = 5;
  directory_bytes = 1280;
  read_root_directory = ok (readme ∷ folder ∷ []);
  read_directory_at = λ sector. ok (inner ∷ []);
  problems = [];
  problems_end = ok tt;
  free_space_entries = (15 * 256, 18 * 256) ∷ [];
  free_space_end = ok tt;
  cancelled = λ call. none;
  now = λ call. 0;
}

abbrev budget : OperationBudget
budget = record { deadline = 10; max_items = 100; max_depth = 8; items = 0 }

abbrev start : Audit
start = begun 0 budget []

walk-IsStop_example : IsStop (walk 9 volume 0 (readme ∷ folder ∷ []) (codes "$") start).0
walk-IsStop_example = walk-IsStop 9 volume 0 (readme ∷ folder ∷ []) (codes "$") start (omega arith)

abbrev report : Report
report = record {
  dat_bytes = 8448;
  geometry_sectors = some 33;
  adfs_sectors = some 33;
  used_sectors = some 15;
  free_sectors = some 18;
  findings = [];
}

validated : (validate_open_mount 8448 geometry volume start).0 ≡ ok report
unfolding validate_open_mount conclude collect check_geometry check_used free_entries
    structure_problems account_findings walk walk_entries examine_directory examine_file
    Budget.checkpoint geometry_findings overlap_findings cross_overlap_findings gap_ranges
validated = refl

report_safe : safe_for_write report ≡ true
unfolding safe_for_write fatal_findings fatal_only
report_safe = refl

abbrev inner_extent : Extent
inner_extent = file_extent (codes "$.DIR") inner

-- The file inside the directory, reached twice.
entries_apart_example : inner_extent ≡ inner_extent
entries_apart_example =
    entries_apart 8448 geometry volume 0 budget [] report validated report_safe
      (readme ∷ folder ∷ []) refl (codes "$.DIR") (codes "$.DIR") inner inner inner_extent
      inner_extent reached reached refl refl 14 (omega arith) refl refl
  where
    reached : Reached volume (readme ∷ folder ∷ []) (codes "$") (codes "$.DIR") inner
    reached = Reached.below (Memᴰ.tail (Memᴰ.head refl)) refl refl (Reached.here (Memᴰ.head refl))

-- A descriptor of one cylinder with one head, padded with zeros.
abbrev descriptor : Bytes
descriptor = replicate 13 0 ++ (0 ∷ 1 ∷ 1 ∷ replicate 6 0)

abbrev selected : Selected
selected = record {
  resolved = ok a_pair;
  has_pair_suffix = true;
  discovered = ok tt;
  dat_bytes = 8448;
  reader = ok (8448, descriptor);
  mounted = ok tt;
  volume = volume;
}

selection_validated : (validate_image_report selected start).0 ≡ ok report
unfolding validate_image_report parse_descriptor validate_open_mount conclude collect check_geometry
    check_used free_entries structure_problems account_findings walk walk_entries examine_directory
    examine_file Budget.checkpoint geometry_findings overlap_findings cross_overlap_findings
    gap_ranges
selection_validated = refl

validate_image_report-IsOpened_example : IsOpened selected (validate_image_report selected start).1
validate_image_report-IsOpened_example =
    validate_image_report-IsOpened selected start report refl selection_validated report_safe
