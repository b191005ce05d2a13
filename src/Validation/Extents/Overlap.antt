-- ===== src/Validation/Extents/Overlap.antt =====
-- `_overlap_findings`, against the owners of the sectors.
use nautilus_acornfs.Prelude.{ℕ, ◌≤◌, ◌<◌, ◌≡◌, ◌↔◌, refl, List, [], ◌∷◌, All, arith}
use nautilus_acornfs.Prelude.Text.{Text}
use nautilus_acornfs.Prelude.Sorting.{Ascends, sort, sum_by-sort, All-sort}
use nautilus_acornfs.Validation.Extents.{
  Extent, before_start_end, overlap_loop, overlap_sorted, overlap_findings,
}
use nautilus_acornfs.Validation.Extents.Owners.{owners, IsNonempty, sort_start_end-Ascends}

-- A quiet loop leaves no owner below the furthest end, and one owner elsewhere.
overlap_loop-quiet :
    (code : Text) (f : Extent) (cs : List Extent)
    → IsNonempty f
    → All IsNonempty cs
    → (s : ℕ) → overlap_loop code f cs ≡ []
    → (owners s cs ≤ 1) × (s < f.stop → owners s cs ≡ 0)
unfolding overlap_loop
overlap_loop-quiet code f [] nf ncs s quiet = (omega arith, λ h. refl)
overlap_loop-quiet code f (c ∷ cs) nf ncs s quiet =
    ground (arith, overlap_loop-quiet code c cs ncs.0 ncs.1 s)

overlap_loop-disjoint :
    (code : Text) (f : Extent) (cs : List Extent)
    → IsNonempty f
    → All IsNonempty cs
    → Ascends (λ (e : Extent). e.start) (f ∷ cs)
    → ((s : ℕ) → owners s (f ∷ cs) ≤ 1)
    → overlap_loop code f cs ≡ []
unfolding overlap_loop
overlap_loop-disjoint code f [] nf ncs sorted once = refl
overlap_loop-disjoint code f (c ∷ cs) nf ncs sorted once = ground (
  arith,
  once c.start,
  overlap_loop-disjoint code c cs ncs.0 ncs.1 sorted.1 (λ s. omega (arith, once s)),
)

sorted_quiet :
    (code : Text) (xs : List Extent)
    → All IsNonempty xs
    → Ascends (λ (e : Extent). e.start) xs
    → (overlap_sorted code xs ≡ []) ↔ ((s : ℕ) → owners s xs ≤ 1)
unfolding overlap_sorted
sorted_quiet code [] n sorted = (λ q s. omega arith, λ h. refl)
sorted_quiet code (f ∷ cs) n sorted = (
  λ q s. ground (arith, overlap_loop-quiet code f cs n.0 n.1 s q),
  overlap_loop-disjoint code f cs n.0 n.1 sorted,
)

-- For extents that hold a sector each, there is no overlap finding exactly when every sector has at
-- most one owner.
pub overlap_findings_iff :
    (code : Text) (extents : List Extent)
    → All IsNonempty extents
    → (overlap_findings code extents ≡ []) ↔ ((s : ℕ) → owners s extents ≤ 1)
unfolding overlap_findings
overlap_findings_iff code extents n =
    let both =
      sorted_quiet code (sort before_start_end extents)
        (All-sort before_start_end IsNonempty extents n) (sort_start_end-Ascends extents) in
    (λ q s. rw sum_by-sort at (both.0 q s), λ h. both.1 (λ s. rw sum_by-sort (h s)))
