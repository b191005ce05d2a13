-- ===== src/Validation/Extents/Partition.antt =====
-- What the four extent checks say together.
use nautilus_acornfs.Prelude.{
  ℕ, ◌+◌, ◌≤◌, ◌<◌, ◌≡◌, ap, min, any, List, [], ◌++◌, All, All-imp, arith,
}
use nautilus_acornfs.Prelude.Text.{Text}
use nautilus_acornfs.Prelude.Sorting.{sum_by}
use nautilus_acornfs.Validation.Extents.{
  Extent, extent_length, overlap_findings, cross_overlap_findings, gap_ranges,
}
use nautilus_acornfs.Validation.Extents.Owners.{owners, IsNonempty, owners-append, sum_length-once}
use nautilus_acornfs.Validation.Extents.Overlap.{overlap_findings_iff}
use nautilus_acornfs.Validation.Extents.Gaps.{in_range, gap_ranges-exact}
use nautilus_acornfs.Validation.Extents.Cross.{cross_overlap_findings_iff}

-- The extents that passed the range checks.
abbrev pub InRange : ℕ → Extent → Type 0
InRange total e = IsNonempty e × (e.stop ≤ total)

-- When the used and the free extents are in range and none of the four checks reports anything, each
-- sector below the total has exactly one owner, and the two sector counts of the report add up to
-- the total.
pub quiet_checks_partition :
    (code code' : Text) (used free : List Extent) (total : ℕ)
    → All (InRange total) used
    → All (InRange total) free
    → overlap_findings code used ≡ []
    → overlap_findings code' free ≡ []
    → cross_overlap_findings used free ≡ []
    → gap_ranges (used ++ free) total ≡ []
    → ((s : ℕ) → s < total → owners s used + owners s free ≡ 1)
      × (sum_by extent_length used + sum_by extent_length free ≡ total)
quiet_checks_partition code code' used free total ru rf qu qf qc qg =
    (once, sum_length-once total used free ru rf once)
  where
    nu : All IsNonempty used
    nu = All-imp (λ e h. h.0) used ru

    nf : All IsNonempty free
    nf = All-imp (λ e h. h.0) free rf

    ou : (s : ℕ) → owners s used ≤ 1
    ou = (overlap_findings_iff code used nu).0 qu

    of' : (s : ℕ) → owners s free ≤ 1
    of' = (overlap_findings_iff code' free nf).0 qf

    apart : (s : ℕ) → min (owners s used) (owners s free) ≡ 0
    apart = (cross_overlap_findings_iff used free nu nf ou of').0 qc

    once : (s : ℕ) → s < total → owners s used + owners s free ≡ 1
    once s h = ground (
      arith,
      ou s,
      of' s,
      apart s,
      gap_ranges-exact (used ++ free) total s h,
      ap (any (in_range s)) qg,
      owners-append s used free,
    )
