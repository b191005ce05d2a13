-- ===== src/Validation/Extents/Severe.antt =====
-- The severity of the findings of the overlap checks.
use nautilus_acornfs.Prelude.{
  ◌≡◌, refl, Bool, true, false, List, [], ◌∷◌, All, inl, inr, ltb, leb, min, max, Bool-cases,
  if◌then◌else◌,
}
use nautilus_acornfs.Prelude.Text.{Text}
use nautilus_acornfs.Prelude.Sorting.{sort}
use nautilus_acornfs.Validation.Findings.{Finding, fatal, fatal_only}
use nautilus_acornfs.Validation.Extents.{
  Extent, before_start, before_start_end, extent_finding, overlap_loop, overlap_sorted,
  overlap_findings, cross_loop, cross_overlap_findings,
}

abbrev AllFatal : List Finding → Type 0
AllFatal = All (λ (f : Finding). f.severity ≡ fatal)

fatal-quiet : (fs : List Finding) → AllFatal fs → fatal_only fs ≡ [] → fs ≡ []
unfolding fatal_only
fatal-quiet [] a q = refl
fatal-quiet (f ∷ fs) a q = absurd (cc ((rw a.0 at q)))

fatal_when :
    (test : Bool) (code : Text) (e : Extent) (fs : List Finding)
    → AllFatal fs
    → AllFatal (if test then extent_finding code e ∷ fs else fs)
fatal_when true code e fs a = (refl, a)
fatal_when false code e fs a = a

overlap_loop-AllFatal :
    (code : Text) (f : Extent) (xs : List Extent) → AllFatal (overlap_loop code f xs)
unfolding overlap_loop
overlap_loop-AllFatal code f [] = tt
overlap_loop-AllFatal code f (x ∷ xs) =
    fatal_when (ltb x.start f.stop) code x _
      (overlap_loop-AllFatal code (if ltb f.stop x.stop then x else f) xs)

overlap_sorted-AllFatal : (code : Text) (xs : List Extent) → AllFatal (overlap_sorted code xs)
unfolding overlap_sorted
overlap_sorted-AllFatal code [] = tt
overlap_sorted-AllFatal code (x ∷ xs) = overlap_loop-AllFatal code x xs

cross_loop-AllFatal : (us fs : List Extent) → AllFatal (cross_loop us fs)
unfolding cross_loop
cross_loop-AllFatal [] fs = tt
cross_loop-AllFatal (u ∷ us) [] = tt
cross_loop-AllFatal (u ∷ us) (f ∷ fs) = elim (Bool-cases (leb u.stop f.stop)) [
  | inl p ↦ rw p (
      fatal_when (ltb (max u.start f.start) (min u.stop f.stop)) _ u _
        (cross_loop-AllFatal us (f ∷ fs)))
  | inr p ↦ rw p (
      fatal_when (ltb (max u.start f.start) (min u.stop f.stop)) _ u _
        (cross_loop-AllFatal (u ∷ us) fs))
]

pub overlap_findings-quiet :
    (code : Text) (xs : List Extent)
    → fatal_only (overlap_findings code xs) ≡ []
    → overlap_findings code xs ≡ []
unfolding overlap_findings
overlap_findings-quiet code xs =
    fatal-quiet _ (overlap_sorted-AllFatal code (sort before_start_end xs))

pub cross_overlap_findings-quiet :
    (used free : List Extent)
    → fatal_only (cross_overlap_findings used free) ≡ []
    → cross_overlap_findings used free ≡ []
unfolding cross_overlap_findings
cross_overlap_findings-quiet used free =
    fatal-quiet _ (cross_loop-AllFatal (sort before_start used) (sort before_start free))
