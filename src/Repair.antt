-- ===== src/Repair.antt =====
-- src/acornfs/core/repair.py: the repair plan of a validation report. Titles and descriptions, which are
-- text for the user, are left out.
pub mod Groups
pub mod Plan
pub mod Apply
use nautilus_acornfs.Prelude.{
  Bool, true, false, ◌&&◌, ◌||◌, not, Option, none, some, List, [], ◌∷◌, ◌++◌, any, all, map,
  if◌then◌else◌,
}
use nautilus_acornfs.Prelude.Text.{Text, codes, text_eq, text_before, starts_with}
use nautilus_acornfs.Prelude.Sorting.{sort}
use nautilus_acornfs.Validation.Findings.{Finding, Report, fatal_findings}

pub data Risk : Type 0 where
  low medium high : Risk

-- `_ActionTemplate`
pub record Template : Type 0 where
  pub action : Text
  pub risk : Risk
  pub automatic_candidate : Bool
  pub requires_manual_decision : Bool

pub record RepairAction : Type 0 where
  pub action : Text
  pub risk : Risk
  pub automatic_candidate : Bool
  pub requires_manual_decision : Bool
  pub finding_codes : List Text
  pub paths : List Text

pub record RepairPlan : Type 0 where
  pub report : Report
  pub actions : List RepairAction

abbrev pub template : Text → Risk → Bool → Template
template action risk automatic = record {
  action = action;
  risk = risk;
  automatic_candidate = automatic;
  requires_manual_decision = not automatic;
}

abbrev geometry : Template
geometry = template (codes "restore_geometry") high false

abbrev reserved_tail : Template
reserved_tail = template (codes "pad_reserved_tail") low true

abbrev unreadable : Template
unreadable = template (codes "restore_unreadable_structure") high false

abbrev free_map : Template
free_map = template (codes "rebuild_free_space_map") high true

abbrev catalogue : Template
catalogue = template (codes "resolve_catalogue_extents") high false

abbrev directory_length : Template
directory_length = template (codes "normalise_directory_lengths") low true

abbrev pub empty_file : Template
empty_file = template (codes "clear_empty_file_extents") low true

abbrev pub is_supported_action : Text → Bool
is_supported_action action =
    text_eq action (codes "normalise_directory_lengths")
    || (text_eq action (codes "clear_empty_file_extents")
        || text_eq action (codes "pad_reserved_tail"))

abbrev unreadable_codes : List Text
unreadable_codes =
    codes "adfs.open_failed"
    ∷ codes "adfs.structure"
    ∷ codes "directory.root_unreadable"
    ∷ codes "directory.unreadable"
    ∷ codes "directory.cycle"
    ∷ []

abbrev free_map_codes : List Text
free_map_codes =
    codes "extent.free_empty"
    ∷ codes "extent.free_out_of_range"
    ∷ codes "extent.free_overlap"
    ∷ codes "extent.free_used_overlap"
    ∷ codes "extent.free_unreadable"
    ∷ codes "extent.unaccounted"
    ∷ []

-- `_template_for`, by the code of the finding
unfoldable pub template_for : Text → Option Template
template_for code =
    if text_eq code (codes "geometry.dat_missing_reserved_tail")
    then some reserved_tail
    else if starts_with code (codes "geometry.")
        && not (text_eq code (codes "geometry.reserved_tail"))
    then some geometry
    else if any (text_eq code) unreadable_codes
    then some unreadable
    else if any (text_eq code) free_map_codes
    then some free_map
    else if text_eq code (codes "extent.used_out_of_range")
        || text_eq code (codes "extent.used_overlap")
    then some catalogue
    else if text_eq code (codes "directory.length_unusual")
    then some directory_length
    else if text_eq code (codes "file.empty_has_extent")
    then some empty_file
    else none

-- The sets of codes and paths that are gathered under an action.
pub record Group : Type 0 where
  pub template : Template
  pub codes : List Text
  pub paths : List Text

-- A set's `add`.
abbrev pub add_once : Text → List Text → List Text
add_once x xs = if any (text_eq x) xs then xs else xs ++ (x ∷ [])

-- `if finding.path`
abbrev pub add_path : Option Text → List Text → List Text
add_path none paths = paths
add_path (some []) paths = paths
add_path (some (c ∷ path)) paths = add_once (c ∷ path) paths

abbrev pub add_to : Finding → Group → Group
add_to f g = record {
  template = g.template;
  codes = add_once f.code g.codes;
  paths = add_path f.path g.paths;
}

-- `grouped.setdefault`, and what is added to the group
unfoldable pub put : Template → Finding → List Group → List Group
put t f [] = add_to f (record { template = t; codes = []; paths = [] }) ∷ []
put t f (g ∷ groups) =
    let rest = put t f groups in
    if text_eq g.template.action t.action then add_to f g ∷ groups else g ∷ rest

abbrev pub put_template : Option Template → Finding → List Group → List Group
put_template none f groups = groups
put_template (some t) f groups = put t f groups

-- The loop over the findings.
unfoldable pub grouped : List Finding → List Group → List Group
unfolding put
grouped [] groups = groups
grouped (f ∷ findings) groups = grouped findings (put_template (template_for f.code) f groups)

abbrev pub action_of : Group → RepairAction
action_of g = record {
  action = g.template.action;
  risk = g.template.risk;
  automatic_candidate = g.template.automatic_candidate;
  requires_manual_decision = g.template.requires_manual_decision;
  finding_codes = sort text_before g.codes;
  paths = sort text_before g.paths;
}

abbrev pub by_action : Group → Group → Bool
by_action a b = text_before a.template.action b.template.action

unfoldable pub plan_repairs_from_report : Report → RepairPlan
unfolding grouped
plan_repairs_from_report report = record {
  report = report;
  actions = map action_of (sort by_action (grouped report.findings []));
}

abbrev pub is_none_left : {A : Type 0} → List A → Bool
is_none_left [] = true
is_none_left (x ∷ xs) = false

unfoldable pub clean : RepairPlan → Bool
clean plan = is_none_left plan.report.findings

abbrev is_low : Risk → Bool
is_low low = true
is_low medium = false
is_low high = false

abbrev pub is_supported : RepairAction → Bool
is_supported a =
    is_supported_action a.action
    && (is_low a.risk && (a.automatic_candidate && not a.requires_manual_decision))

unfoldable pub application_supported : RepairPlan → Bool
unfolding fatal_findings
application_supported plan =
    not (is_none_left plan.actions)
    && (is_none_left (fatal_findings plan.report) && all is_supported plan.actions)
