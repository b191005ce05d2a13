-- ===== src/Validation/Report/Collect.antt =====
-- What the collection of extents has gathered, where nothing fatal was found.
use nautilus_acornfs.Prelude.{
  ℕ, suc, ◌≡◌, ◌∙◌, refl, sym, subst, none, some, List, [], ◌∷◌, ◌++◌, All, inl, inr, ap,
  Bool-cases,
}
use nautilus_acornfs.Prelude.Text.{Text, codes}
use nautilus_acornfs.Prelude.Result.{Result, ok, err}
use nautilus_acornfs.Prelude.Exec.{◌>>◌, then-ok, bind-keeps}
use nautilus_acornfs.Beebscsi.{BeebScsiGeometry}
use nautilus_acornfs.Validation.Findings.{fatal}
use nautilus_acornfs.Validation.Extents.{Extent}
use nautilus_acornfs.Validation.Extents.Partition.{InRange}
use nautilus_acornfs.Validation.Walk.{Entry, Volume, Audit, checkpoint, add_finding}
use nautilus_acornfs.Validation.Walk.Steps.{Grew, walk-Grows}
use nautilus_acornfs.Validation.Walk.Reached.{Covers, IsQuiet, IsQuiet-Grew, walk-Covers}
use nautilus_acornfs.Validation.Report.{
  check_geometry, structure_problems, free_entries, caught, walk_root, has_missing_tail, collect,
}
use nautilus_acornfs.Validation.Report.Free.{free_listed, caught-ok, free_entries-FreeRead}

pub check_geometry-free_extents :
    (dat_bytes : ℕ) (geometry : BeebScsiGeometry) (total : ℕ) (s : Audit)
    → (check_geometry dat_bytes geometry total s).1.free_extents ≡ s.free_extents
unfolding check_geometry
check_geometry-free_extents dat_bytes geometry total s =
    elim (Bool-cases (has_missing_tail dat_bytes geometry total)) [
      | inl p ↦ rw p refl
      | inr p ↦ rw p refl
    ]

structure_problems-free_extents :
    (v : Volume) (problems : List Text) (free : List Extent) (s : Audit)
    → s.free_extents ≡ free
    → (structure_problems v problems s).1.free_extents ≡ free
unfolding structure_problems
structure_problems-free_extents v [] free s h = h
structure_problems-free_extents v (p ∷ problems) free s h =
    bind-keeps (λ t. t.free_extents ≡ free) (checkpoint v 1 none)
      (λ _. add_finding fatal (codes "adfs.structure") none >> structure_problems v problems)
      (λ t k. k)
      (λ _ t k.
        structure_problems-free_extents v problems free
          (add_finding fatal (codes "adfs.structure") none t).1 k)
      s h

-- What the collection has gathered, where nothing fatal was found.
pub record Collected (v : Volume) (t : Audit) : Type 0 where
  pub free : t.free_extents ≡ free_listed 0 v.free_space_entries
  pub in_range : All (InRange v.total_sectors) (free_listed 0 v.free_space_entries)
  pub root : List Entry
  pub read : v.read_root_directory ≡ ok root
  pub covered : Covers v root (codes "$") t.used_extents

-- A root that was walked without a fatal finding was read, and is covered.
record Walked (v : Volume) (root_read : Result (List Entry)) (s t : Audit) : Type 0 where
  pub grew : Grew s t
  pub root : List Entry
  pub read : root_read ≡ ok root
  pub covered : Covers v root (codes "$") t.used_extents

walk_root-Walked :
    (v : Volume) (root_read : Result (List Entry)) (s : Audit)
    → (walk_root v root_read s).0 ≡ ok tt
    → IsQuiet (walk_root v root_read s).1
    → Walked v root_read s (walk_root v root_read s).1
walk_root-Walked v (err error) s h q = absurd (cc h)
walk_root-Walked v (ok root) s h q = record {
  grew = walk-Grows (suc s.budget.max_depth) v 0 root (codes "$") s;
  root = root;
  read = refl;
  covered = walk-Covers (suc s.budget.max_depth) v 0 root (codes "$") s h q;
}

pub collect-Collected :
    (v : Volume) (s : Audit)
    → s.free_extents ≡ []
    → (collect v s).0 ≡ ok tt
    → IsQuiet (collect v s).1
    → Collected v (collect v s).1
unfolding collect
collect-Collected v s none_yet h q =
    let free =
      caught (codes "extent.free_unreadable") none (free_entries v 0 v.free_space_entries) in
    let walked =
      caught (codes "directory.root_unreadable") (some (codes "$"))
        (walk_root v v.read_root_directory) in
    let (_, h1, same) = then-ok (structure_problems v v.problems) (free >> walked) s tt h in
    let t : Audit = (structure_problems v v.problems s).1 in
    let (h2, h3, same') = then-ok free walked t tt h1 in
    let u : Audit = (free t).1 in
    let end : (collect v s).1 ≡ (walked u).1 = same ∙ same' in
    let (h4, same'') =
      caught-ok (codes "directory.root_unreadable") (some (codes "$"))
        (walk_root v v.read_root_directory) u h3 (subst IsQuiet end q) in
    let w = walk_root-Walked v v.read_root_directory u h4 (subst IsQuiet (end ∙ same'') q) in
    let qu : IsQuiet u = IsQuiet-Grew u _ w.grew (subst IsQuiet (end ∙ same'') q) in
    let (h5, e5) =
      caught-ok (codes "extent.free_unreadable") none (free_entries v 0 v.free_space_entries) t h2
        qu in
    let f = free_entries-FreeRead v 0 v.free_space_entries t h5 (subst IsQuiet e5 qu) in
    let nothing = structure_problems-free_extents v v.problems [] s none_yet in
    subst (Collected v) (sym (end ∙ same'')) (record {
      free =
          w.grew.free_extents
          ∙ (ap (λ (x : Audit). x.free_extents) e5
              ∙ (f.free_extents ∙ ap (λ xs. xs ++ free_listed 0 v.free_space_entries) nothing));
      in_range = f.in_range;
      root = w.root;
      read = w.read;
      covered = w.covered;
    })
