-- ===== src/Validation/Geometry.antt =====
-- `_geometry_findings`: the length of the data file against the descriptor.
use nautilus_acornfs.Prelude.{
  ℕ, ◌%◌, ◌≡◌, ◌↔◌, not, none, List, [], ◌∷◌, ◌++◌, if◌then◌else◌, ltb, ◌==◌, arith, Bool-cases,
  inl, inr,
}
use nautilus_acornfs.Prelude.Text.{Text, codes}
use nautilus_acornfs.Validation.Findings.{Finding, fatal}
use nautilus_acornfs.Beebscsi.{BeebScsiGeometry, sector_size, capacity}

abbrev pub geometry_finding : Text → Finding
geometry_finding code = record { severity = fatal; code = code; path = none }

abbrev pub unaligned : ℕ → List Finding
unaligned dat_bytes =
    if not (dat_bytes % sector_size == 0)
    then geometry_finding (codes "geometry.dat_unaligned") ∷ []
    else []

abbrev pub wrong_length : ℕ → ℕ → List Finding
wrong_length dat_bytes expected =
    if ltb dat_bytes expected
    then geometry_finding (codes "geometry.dat_short") ∷ []
    else if ltb expected dat_bytes
    then geometry_finding (codes "geometry.dat_oversized") ∷ []
    else []

-- By the size of the data file.
unfoldable pub geometry_findings : ℕ → BeebScsiGeometry → List Finding
geometry_findings dat_bytes descriptor_geometry =
    unaligned dat_bytes ++ wrong_length dat_bytes (capacity descriptor_geometry)

wrong_length-quiet :
    (dat_bytes expected : ℕ) → (wrong_length dat_bytes expected ≡ []) ↔ (dat_bytes ≡ expected)
wrong_length-quiet dat_bytes expected = ground arith

-- There is no geometry finding exactly when the data file has whole sectors and the length that the
-- descriptor tells.
pub geometry_findings_iff :
    (dat_bytes : ℕ) (geometry : BeebScsiGeometry)
    → (geometry_findings dat_bytes geometry ≡ [])
      ↔ ((dat_bytes % 256 ≡ 0) × (dat_bytes ≡ capacity geometry))
unfolding geometry_findings
geometry_findings_iff dat_bytes geometry = elim (Bool-cases (dat_bytes % 256 == 0)) [
  | inl whole ↦ rw whole (
    (λ q. (ground arith, (wrong_length-quiet dat_bytes (capacity geometry)).0 q)),
    (λ h. (wrong_length-quiet dat_bytes (capacity geometry)).1 h.1),
  )
  | inr part ↦ rw part ((λ q. cc q), (λ h. absurd (ground arith)))
]
