-- ===== src/Validation/Report/Safe.antt =====
-- What a report without fatal findings says about the disc.
use nautilus_acornfs.Prelude.{
  ℕ, ◌+◌, ◌≤◌, ◌<◌, ◌≡◌, ◌∙◌, sym, subst, true, none, some, List, [], ◌∷◌, All, arith,
}
use mathlib.Core.List.{Memᴰ}
use nautilus_acornfs.Prelude.Text.{Text, codes}
use nautilus_acornfs.Prelude.Sorting.{sum_by}
use nautilus_acornfs.Prelude.Result.{ok}
use nautilus_acornfs.Prelude.Exec.{◌>>◌, then-ok}
use nautilus_acornfs.Budget.{OperationBudget}
use nautilus_acornfs.Beebscsi.{BeebScsiGeometry}
use nautilus_acornfs.Validation.Findings.{Finding, Report, safe_for_write}
use nautilus_acornfs.Validation.Geometry.{geometry_findings}
use nautilus_acornfs.Validation.Extents.{Extent, extent_length}
use nautilus_acornfs.Validation.Extents.Owners.{holds, owners}
use nautilus_acornfs.Validation.Extents.Partition.{InRange, quiet_checks_partition}
use nautilus_acornfs.Validation.Walk.{Entry, Volume, Audit, checkpoint, add_findings}
use nautilus_acornfs.Validation.Walk.Reached.{Reached, Covers, entry_extent}
use nautilus_acornfs.Validation.Report.{
  check_geometry, begun, conclude, collect, validate_open_mount,
}
use nautilus_acornfs.Validation.Report.Conclude.{account_findings-quiet, conclude-Concluded}
use nautilus_acornfs.Validation.Report.Collect.{check_geometry-free_extents, collect-Collected}
use nautilus_acornfs.Validation.Report.Free.{free_listed}

-- The disc that a state has examined: its used and free extents own each sector once, its free extents
-- are those of the free-space map, and its used extents those of every entry that the root leads to.
pub record IsAccounted (v : Volume) (s : Audit) : Type 0 where
  pub once : (n : ℕ) → n < v.total_sectors → owners n s.used_extents + owners n s.free_extents ≡ 1
  pub counted :
      sum_by extent_length s.used_extents + sum_by extent_length s.free_extents ≡ v.total_sectors
  pub free : s.free_extents ≡ free_listed 0 v.free_space_entries
  pub root : List Entry
  pub read : v.read_root_directory ≡ ok root
  pub covered : Covers v root (codes "$") s.used_extents

IsAccounted-same :
    (v : Volume) (s t : Audit)
    → t.used_extents ≡ s.used_extents
    → t.free_extents ≡ s.free_extents
    → IsAccounted v s
    → IsAccounted v t
IsAccounted-same v s t u f a = record {
  once = λ n h. rw (u, f) (a.once n h);
  counted = rw (u, f) a.counted;
  free = f ∙ a.free;
  root = a.root;
  read = a.read;
  covered = subst (Covers v a.root (codes "$")) (sym u) a.covered;
}

-- From a report that allows writing, returned for a new state, every sector of the disc has exactly one owner,
-- and the two counts of the report add up to the disc; the free extents are those of the free-space map,
-- the root was read, and the used extents hold the extent of each entry that the root leads to.
pub validate_open_mount-IsAccounted :
    (dat_bytes : ℕ) (geometry : BeebScsiGeometry) (v : Volume) (calls : ℕ)
    (budget : OperationBudget) (initial : List Finding) (r : Report)
    → (validate_open_mount dat_bytes geometry v (begun calls budget initial)).0 ≡ ok r
    → safe_for_write r ≡ true
    → IsAccounted v (validate_open_mount dat_bytes geometry v (begun calls budget initial)).1
unfolding validate_open_mount
validate_open_mount-IsAccounted dat_bytes geometry v calls budget initial r h safe =
    let s = begun calls budget initial in
    let found = add_findings (geometry_findings dat_bytes geometry) in
    let check = check_geometry dat_bytes geometry v.total_sectors in
    let last = conclude dat_bytes geometry v in
    let (_, h1, e1) =
      then-ok (checkpoint v 0 none) (found >> (check >> (collect v >> last))) s r h in
    let t : Audit = (found (checkpoint v 0 none s).1).1 in
    let (_, h2, e2) = then-ok check (collect v >> last) t r h1 in
    let u : Audit = (check t).1 in
    let (h3, h4, e3) = then-ok (collect v) last u r h2 in
    let w : Audit = (collect v u).1 in
    let c = conclude-Concluded dat_bytes geometry v w r h4 safe in
    let k =
      collect-Collected v u (check_geometry-free_extents dat_bytes geometry v.total_sectors t) h3
        c.quiet in
    let (q1, q2, q3, q4) =
      account_findings-quiet v.total_sectors w.used_extents w.free_extents c.silent in
    let (once, counted) =
      quiet_checks_partition (codes "extent.used_overlap") (codes "extent.free_overlap")
        w.used_extents w.free_extents v.total_sectors c.in_range
        (subst (All (InRange v.total_sectors)) (sym k.free) k.in_range) q1 q2 q3 q4 in
    let all : IsAccounted v w = record {
      once = once;
      counted = counted;
      free = k.free;
      root = k.root;
      read = k.read;
      covered = k.covered;
    } in
    subst (IsAccounted v) (sym (e1 ∙ (e2 ∙ e3)))
      (IsAccounted-same v w (last w).1 c.used_extents c.free_extents all)

-- Two members of a list that share a sector with one owner are the same.
Memᴰ-owner : (n : ℕ) (x : Extent) (xs : List Extent) → Memᴰ x xs → holds n x ≤ owners n xs
Memᴰ-owner n x [] m = elim m [ ]
Memᴰ-owner n x (y ∷ ys) (Memᴰ.head e) = rw e (omega arith)
Memᴰ-owner n x (y ∷ ys) (Memᴰ.tail m) = omega (arith, Memᴰ-owner n x ys m)

one_owner :
    (n : ℕ) (x y : Extent) (xs : List Extent)
    → owners n xs ≤ 1
    → holds n x ≡ 1
    → holds n y ≡ 1
    → Memᴰ x xs
    → Memᴰ y xs
    → x ≡ y
one_owner n x y [] once hx hy m m' = elim m [ ]
one_owner n x y (z ∷ zs) once hx hy (Memᴰ.head e) (Memᴰ.head f) = e ∙ sym f
one_owner n x y (z ∷ zs) once hx hy (Memᴰ.head e) (Memᴰ.tail m) =
    absurd (omega (arith, once, hy, Memᴰ-owner n y zs m, rw e at hx))
one_owner n x y (z ∷ zs) once hx hy (Memᴰ.tail m) (Memᴰ.head f) =
    absurd (omega (arith, once, hx, Memᴰ-owner n x zs m, rw f at hy))
one_owner n x y (z ∷ zs) once hx hy (Memᴰ.tail m) (Memᴰ.tail m') =
    one_owner n x y zs (omega (arith, once)) hx hy m m'

-- A disc with a report that allows writing has no two entries that claim a sector of the disc in common: where
-- the root leads to two entries that do, they claim the same extent under the same path.
pub entries_apart :
    (dat_bytes : ℕ) (geometry : BeebScsiGeometry) (v : Volume) (calls : ℕ)
    (budget : OperationBudget) (initial : List Finding) (r : Report)
    → (validate_open_mount dat_bytes geometry v (begun calls budget initial)).0 ≡ ok r
    → safe_for_write r ≡ true
    → (root : List Entry) → v.read_root_directory ≡ ok root
    → (at at' : Text) (e e' : Entry) (x x' : Extent) → Reached v root (codes "$") at e
    → Reached v root (codes "$") at' e'
    → entry_extent v at e e.is_directory ≡ some x
    → entry_extent v at' e' e'.is_directory ≡ some x'
    → (n : ℕ) → n < v.total_sectors
    → holds n x ≡ 1
    → holds n x' ≡ 1
    → x ≡ x'
entries_apart dat_bytes geometry v calls budget initial r h safe root read at at' e e' x x' p p' q
      q' n lt hx hx' =
    let t : Audit = (validate_open_mount dat_bytes geometry v (begun calls budget initial)).1 in
    let a = validate_open_mount-IsAccounted dat_bytes geometry v calls budget initial r h safe in
    let same : a.root ≡ root = cc (a.read, read) in
    let covered = subst (λ es. Covers v es (codes "$") t.used_extents) same a.covered in
    one_owner n x x' t.used_extents (omega (arith, a.once n lt)) hx hx' (rw q at (covered at e p))
      (rw q' at (covered at' e' p'))
