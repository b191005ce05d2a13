-- ===== src/Tests/Sectors.antt =====
-- The accounting of sectors on a disc of six.
use nautilus_acornfs.Prelude.{
  ℕ, min, ◌+◌, ◌≤◌, ◌<◌, ◌≡◌, ◌↔◌, refl, List, [], ◌∷◌, ◌++◌, All, any, ◌==◌, arith,
}
use nautilus_acornfs.Prelude.Text.{codes}
use nautilus_acornfs.Prelude.Sorting.{sum_by}
use nautilus_acornfs.Beebscsi.{BeebScsiGeometry}
use nautilus_acornfs.Validation.Extents.{
  Extent, extent_length, overlap_findings, cross_overlap_findings, gap_ranges,
}
use nautilus_acornfs.Validation.Extents.Owners.{owners}
use nautilus_acornfs.Validation.Extents.Overlap.{overlap_findings_iff}
use nautilus_acornfs.Validation.Extents.Cross.{cross_overlap_findings_iff}
use nautilus_acornfs.Validation.Extents.Gaps.{in_range, gap_ranges-exact}
use nautilus_acornfs.Validation.Extents.Partition.{InRange, quiet_checks_partition}
use nautilus_acornfs.Image.Preflight.{largest_extent}
use nautilus_acornfs.Image.Preflight.Largest.{holders, IsRun, largest_extent_iff}

abbrev extent : ℕ → ℕ → Extent
extent a b = record { start = a; stop = b; owner = codes "$" }

abbrev used : List Extent
used = extent 2 4 ∷ extent 0 2 ∷ []

abbrev free : List Extent
free = extent 4 6 ∷ []

used-InRange : All (InRange 6) used
used-InRange = ((omega arith, omega arith), ((omega arith, omega arith), tt))

free-InRange : All (InRange 6) free
free-InRange = ((omega arith, omega arith), tt)

used_quiet : overlap_findings (codes "used") used ≡ []
unfolding overlap_findings
used_quiet = refl

free_quiet : overlap_findings (codes "free") free ≡ []
unfolding overlap_findings
free_quiet = refl

apart : cross_overlap_findings used free ≡ []
unfolding cross_overlap_findings
apart = refl

no_gap : gap_ranges (used ++ free) 6 ≡ []
unfolding gap_ranges
no_gap = refl

quiet_checks_partition_example :
    ((s : ℕ) → s < 6 → owners s used + owners s free ≡ 1)
    × (sum_by extent_length used + sum_by extent_length free ≡ 6)
quiet_checks_partition_example =
    quiet_checks_partition (codes "used") (codes "free") used free 6 used-InRange free-InRange
      used_quiet free_quiet apart no_gap

used_once : (s : ℕ) → owners s used ≤ 1
used_once s = ground arith

free_once : (s : ℕ) → owners s free ≤ 1
free_once s = ground arith

overlap_findings_iff_example :
    (overlap_findings (codes "used") used ≡ []) ↔ ((s : ℕ) → owners s used ≤ 1)
overlap_findings_iff_example =
    overlap_findings_iff (codes "used") used (omega arith, (omega arith, tt))

cross_overlap_findings_iff_example :
    (cross_overlap_findings used free ≡ []) ↔ ((s : ℕ) → min (owners s used) (owners s free) ≡ 0)
cross_overlap_findings_iff_example =
    cross_overlap_findings_iff used free (omega arith, (omega arith, tt)) (omega arith, tt)
      used_once free_once

gap_ranges-exact_example : any (in_range 5) (gap_ranges used 6) ≡ (owners 5 used == 0)
gap_ranges-exact_example = gap_ranges-exact used 6 5 (omega arith)

largest_extent_iff_example :
    (3 ≤ largest_extent ((4, 1) ∷ (2, 2) ∷ []))
    ↔ ((a : ℕ) × IsRun (λ x. holders x ((4, 1) ∷ (2, 2) ∷ [])) a 3)
largest_extent_iff_example = largest_extent_iff 3 ((4, 1) ∷ (2, 2) ∷ []) (omega arith)

abbrev geometry : BeebScsiGeometry
geometry = record { cylinders = 2; heads = 1; sectors_per_track = 33; sector_size = 256 }
