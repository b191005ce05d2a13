-- ===== src/Validation/Extents/Gaps.antt =====
-- `_gap_ranges`, against the owners of the sectors.
use nautilus_acornfs.Prelude.{
  ℕ, ◌<◌, ◌≡◌, Bool, ◌&&◌, min, max, List, [], ◌∷◌, any, ltb, leb, ◌==◌, arith,
}
use nautilus_acornfs.Prelude.Sorting.{Ascends, sort, sum_by-sort}
use nautilus_acornfs.Validation.Extents.{Extent, before_start, gap_loop, gap_ranges}
use nautilus_acornfs.Validation.Extents.Owners.{holds, owners, owners-before, sort_start-Ascends}

abbrev pub in_range : ℕ → ℕ × ℕ → Bool
in_range s (lo, hi) = leb lo s && ltb s hi

gap_loop-exact :
    (total cursor : ℕ) (xs : List Extent) (s : ℕ)
    → Ascends (λ (e : Extent). e.start) xs
    → s < total
    → any (in_range s) (gap_loop total cursor xs) ≡ (leb cursor s && (owners s xs == 0))
unfolding gap_loop
gap_loop-exact total cursor [] s sorted h = ground arith
gap_loop-exact total cursor (e ∷ xs) s sorted h = ground (
  arith,
  gap_loop-exact total (max cursor (min total e.stop)) xs s sorted.1 h,
  owners-before s e.start xs,
)

-- A sector below the total is in one of the ranges exactly when no extent holds it.
pub gap_ranges-exact :
    (extents : List Extent) (total s : ℕ)
    → s < total
    → any (in_range s) (gap_ranges extents total) ≡ (owners s extents == 0)
unfolding gap_ranges
gap_ranges-exact extents total s h = ground (
  arith,
  gap_loop-exact total 0 (sort before_start extents) s (sort_start-Ascends extents) h,
  sum_by-sort before_start (λ e. holds s e) extents,
)
