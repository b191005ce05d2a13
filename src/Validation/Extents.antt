-- ===== src/Validation/Extents.antt =====
-- `_Extent`, `_overlap_findings`, `_cross_overlap_findings` and `_gap_ranges`. Sector numbers are not
-- negative, since they are read from unsigned fields.
pub mod Owners
pub mod Overlap
pub mod Gaps
pub mod Cross
pub mod Partition
pub mod Severe
use nautilus_acornfs.Prelude.{
  ℕ, ◌-◌, min, max, Bool, true, false, ◌&&◌, ◌||◌, Option, none, some, List, [], ◌∷◌, ltb, leb,
  ◌==◌, if◌then◌else◌,
}
use nautilus_acornfs.Prelude.Text.{Text, codes, starts_with}
use nautilus_acornfs.Prelude.Sorting.{sort}
use nautilus_acornfs.Validation.Findings.{Finding, fatal}

pub record Extent : Type 0 where
  pub start : ℕ
  pub stop : ℕ
  pub owner : Text

-- The property `length`.
abbrev pub extent_length : Extent → ℕ
extent_length e = e.stop - e.start

-- An owner that is a path is named in the finding.
abbrev pub owner_path : Extent → Option Text
owner_path e = if starts_with e.owner (codes "$") then some e.owner else none

abbrev pub extent_finding : Text → Extent → Finding
extent_finding code e = record { severity = fatal; code = code; path = owner_path e }

-- The sort keys `(item.start, item.end)` and `item.start`.
abbrev pub before_start_end : Extent → Extent → Bool
before_start_end a b = ltb a.start b.start || (a.start == b.start && leb a.stop b.stop)

abbrev pub before_start : Extent → Extent → Bool
before_start a b = leb a.start b.start

-- The loop of `_overlap_findings` over the sorted extents behind `furthest`.
pub overlap_loop : Text → Extent → List Extent → List Finding
overlap_loop code furthest [] = []
overlap_loop code furthest (current ∷ rest) =
    let found =
      overlap_loop code (if ltb furthest.stop current.stop then current else furthest) rest in
    if ltb current.start furthest.stop then extent_finding code current ∷ found else found

pub overlap_sorted : Text → List Extent → List Finding
unfolding overlap_loop
overlap_sorted code [] = []
overlap_sorted code (first ∷ rest) = overlap_loop code first rest

unfoldable pub overlap_findings : Text → List Extent → List Finding
unfolding overlap_sorted sort
overlap_findings code extents = overlap_sorted code (sort before_start_end extents)

-- The loop of `_cross_overlap_findings`: one of the two indices moves on.
pub cross_loop : List Extent → List Extent → List Finding
cross_loop [] free = []
cross_loop (u ∷ used) [] = []
cross_loop (u ∷ used) (f ∷ free) =
    let rest : List Finding = elim (leb u.stop f.stop) [
      | true ↦ cross_loop used (f ∷ free)
      | false ↦ cross_loop (u ∷ used) free
    ] in
    if ltb (max u.start f.start) (min u.stop f.stop)
    then extent_finding (codes "extent.free_used_overlap") u ∷ rest
    else rest

unfoldable pub cross_overlap_findings : List Extent → List Extent → List Finding
unfolding cross_loop sort
cross_overlap_findings used free = cross_loop (sort before_start used) (sort before_start free)

-- The loop of `_gap_ranges`, from its cursor.
pub gap_loop : ℕ → ℕ → List Extent → List (ℕ × ℕ)
gap_loop total cursor [] = if ltb cursor total then (cursor, total) ∷ [] else []
gap_loop total cursor (e ∷ rest) =
    let later = gap_loop total (max cursor (min total e.stop)) rest in
    if ltb cursor e.start then (cursor, e.start) ∷ later else later

unfoldable pub gap_ranges : List Extent → ℕ → List (ℕ × ℕ)
unfolding gap_loop sort
gap_ranges extents total = gap_loop total 0 (sort before_start extents)
