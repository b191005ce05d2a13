-- ===== src/Validation/Extents/Cross.antt =====
-- `_cross_overlap_findings`, against the owners of the sectors.
use nautilus_acornfs.Prelude.{ℕ, ◌+◌, ◌≤◌, ◌≡◌, ◌↔◌, refl, min, max, List, [], ◌∷◌, All, arith}
use nautilus_acornfs.Prelude.Sorting.{Ascends, sort, sum_by-sort, All-sort}
use nautilus_acornfs.Validation.Extents.{Extent, before_start, cross_loop, cross_overlap_findings}
use nautilus_acornfs.Validation.Extents.Owners.{
  holds, owners, IsNonempty, owners-before, sort_start-Ascends,
}

-- Each extent ends before the next ones begin.
abbrev IsChain : List Extent → Type 0
IsChain [] = Unit
IsChain (x ∷ xs) = IsNonempty x × All (λ (e : Extent). x.stop ≤ e.start) xs × IsChain xs

stops_before :
    (x : Extent) (xs : List Extent)
    → All IsNonempty xs
    → All (λ (e : Extent). x.start ≤ e.start) xs
    → ((s : ℕ) → holds s x + owners s xs ≤ 1)
    → All (λ (e : Extent). x.stop ≤ e.start) xs
stops_before x [] n sorted once = tt
stops_before x (y ∷ ys) n sorted once =
    (ground (arith, once y.start), stops_before x ys n.1 sorted.1 (λ s. omega (arith, once s)))

Ascends-IsChain :
    (xs : List Extent)
    → All IsNonempty xs
    → Ascends (λ (e : Extent). e.start) xs
    → ((s : ℕ) → owners s xs ≤ 1)
    → IsChain xs
Ascends-IsChain [] n sorted once = tt
Ascends-IsChain (x ∷ xs) n sorted once = (
  n.0,
  stops_before x xs n.1 sorted.0 once,
  Ascends-IsChain xs n.1 sorted.1 (λ s. omega (arith, once s)),
)

cross_loop-quiet :
    (us fs : List Extent)
    → IsChain us
    → IsChain fs
    → (s : ℕ) → cross_loop us fs ≡ []
    → min (owners s us) (owners s fs) ≡ 0
unfolding cross_loop
cross_loop-quiet [] fs cu cf s quiet = omega arith
cross_loop-quiet (u ∷ us) [] cu cf s quiet = omega arith
cross_loop-quiet (u ∷ us) (f ∷ fs) cu cf s quiet = ground (
  arith,
  cross_loop-quiet us (f ∷ fs) cu.2 cf s,
  cross_loop-quiet (u ∷ us) fs cu cf.2 s,
  owners-before s u.stop us,
  owners-before s f.stop fs,
  cu.1,
  cf.1,
)

cross_loop-apart :
    (us fs : List Extent) → ((s : ℕ) → min (owners s us) (owners s fs) ≡ 0) → cross_loop us fs ≡ []
unfolding cross_loop
cross_loop-apart [] fs apart = refl
cross_loop-apart (u ∷ us) [] apart = refl
cross_loop-apart (u ∷ us) (f ∷ fs) apart = ground (
  arith,
  apart (max u.start f.start),
  cross_loop-apart us (f ∷ fs) (λ s. omega (arith, apart s)),
  cross_loop-apart (u ∷ us) fs (λ s. omega (arith, apart s)),
)

-- For two lists of extents that hold a sector each, neither with two owners of a sector, there is no
-- cross-overlap finding exactly when no sector has an owner in both lists.
pub cross_overlap_findings_iff :
    (used free : List Extent)
    → All IsNonempty used
    → All IsNonempty free
    → ((s : ℕ) → owners s used ≤ 1)
    → ((s : ℕ) → owners s free ≤ 1)
    → (cross_overlap_findings used free ≡ []) ↔ ((s : ℕ) → min (owners s used) (owners s free) ≡ 0)
unfolding cross_overlap_findings
cross_overlap_findings_iff used free nu nf ou of' = (
  λ q s. omega (
    arith,
    cross_loop-quiet (sort before_start used) (sort before_start free) (chain used nu ou)
        (chain free nf of') s q,
    sum_by-sort before_start (holds s) used,
    sum_by-sort before_start (holds s) free,
  ),
  λ apart. cross_loop-apart (sort before_start used) (sort before_start free) (λ s. omega (
    arith,
    apart s,
    sum_by-sort before_start (holds s) used,
    sum_by-sort before_start (holds s) free,
  )),
)
  where
    chain :
        (xs : List Extent)
        → All IsNonempty xs
        → ((s : ℕ) → owners s xs ≤ 1)
        → IsChain (sort before_start xs)
    chain xs n once =
        Ascends-IsChain (sort before_start xs) (All-sort before_start IsNonempty xs n)
          (sort_start-Ascends xs)
          (λ s. omega (arith, once s, sum_by-sort before_start (holds s) xs))
