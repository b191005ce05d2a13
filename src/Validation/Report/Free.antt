-- ===== src/Validation/Report/Free.antt =====
-- The checks of the free-space entries and of the used extents, where they find nothing fatal.
use nautilus_acornfs.Prelude.{
  ℕ, suc, ◌/◌, ◌≡◌, ◌∙◌, refl, sym, subst, Bool, true, false, Option, none, List, [], ◌∷◌, ◌++◌,
  All, inl, inr, Bool-cases, ◌==◌, if◌then◌else◌, arith,
}
use mathlib.Core.List.{append_assoc, append-nil}
use nautilus_acornfs.Prelude.Text.{Text, codes}
use nautilus_acornfs.Prelude.Result.{Result, ok, err}
use nautilus_acornfs.Prelude.Exec.{Exec, ◌>>◌, then-ok, bind-keeps}
use nautilus_acornfs.Beebscsi.{sector_size}
use nautilus_acornfs.Validation.Findings.{fatal_only}
use nautilus_acornfs.Validation.Extents.{Extent, extent_finding}
use nautilus_acornfs.Validation.Extents.Partition.{InRange}
use nautilus_acornfs.Validation.Walk.{Volume, Audit, checkpoint, add_findings}
use nautilus_acornfs.Validation.Walk.Steps.{
  Grew-refl, Grows, bind-Grows, checkpoint-Grows, add_findings-Grows,
}
use nautilus_acornfs.Validation.Walk.Reached.{IsQuiet, IsQuiet-Grew, not_quiet}
use nautilus_acornfs.Validation.Report.{
  free_extent, free_misplaced, examine_free, free_entries, used_misplaced, check_used, is_stop,
  handled, caught,
}

-- The extents of the entries of the free-space map.
abbrev pub free_listed : ℕ → List (ℕ × ℕ) → List Extent
free_listed index [] = []
free_listed index ((start_bytes, length_bytes) ∷ entries) =
    free_extent index start_bytes length_bytes ∷ free_listed (suc index) entries

-- An attempt that was handled without a fatal finding has returned by itself.
handled-ok :
    (code : Text) (path : Option Text) (r : Result (Unit {0})) (s : Audit)
    → (handled code path r s).0 ≡ ok tt
    → IsQuiet (handled code path r s).1
    → (r ≡ ok tt) × ((handled code path r s).1 ≡ s)
handled-ok code path (ok done) s h q = (refl, refl)
handled-ok code path (err e) s h q = elim (Bool-cases (is_stop e)) [
  | inl p ↦ absurd (cc (rw p at h))
  | inr p ↦ absurd (not_quiet s.findings _ refl (rw p at q))
]

pub caught-ok :
    (code : Text) (path : Option Text) (attempt : Exec Audit (Unit {0})) (s : Audit)
    → (caught code path attempt s).0 ≡ ok tt
    → IsQuiet (caught code path attempt s).1
    → ((attempt s).0 ≡ ok tt) × ((caught code path attempt s).1 ≡ (attempt s).1)
caught-ok code path attempt s = handled-ok code path (attempt s).0 (attempt s).1

-- What a quiet pass over free-space entries has done.
pub record FreeRead (v : Volume) (index : ℕ) (entries : List (ℕ × ℕ)) (s t : Audit) : Type 0 where
  pub quiet : IsQuiet s
  pub used_extents : t.used_extents ≡ s.used_extents
  pub free_extents : t.free_extents ≡ s.free_extents ++ free_listed index entries
  pub in_range : All (InRange v.total_sectors) (free_listed index entries)
  pub max_depth : t.budget.max_depth ≡ s.budget.max_depth

-- An entry that is not empty, and lies in the range that is allocated from.
record FreeExamined (total : ℕ) (e : Extent) (empty : Bool) (s t : Audit) : Type 0 where
  pub nonempty : empty ≡ false
  pub placed : free_misplaced total e ≡ false
  pub quiet : IsQuiet s
  pub used_extents : t.used_extents ≡ s.used_extents
  pub free_extents : t.free_extents ≡ s.free_extents ++ (e ∷ [])
  pub max_depth : t.budget.max_depth ≡ s.budget.max_depth

examine_free-quiet :
    (total : ℕ) (e : Extent) (empty : Bool) (s : Audit)
    → IsQuiet (examine_free total e empty s).1
    → FreeExamined total e empty s (examine_free total e empty s).1
examine_free-quiet total e true s q = absurd (not_quiet s.findings _ refl q)
examine_free-quiet total e false s q = elim (Bool-cases (free_misplaced total e)) [
  | inl p ↦ absurd (not_quiet s.findings _ refl (rw p at q))
  | inr p ↦ record {
    nonempty = refl;
    placed = p;
    quiet = subst (λ fs. fatal_only fs ≡ []) (append-nil s.findings) (rw p at q);
    used_extents = refl;
    free_extents = refl;
    max_depth = refl;
  }
]

examine_free-returns :
    (total : ℕ) (e : Extent) (empty : Bool) (s : Audit) → (examine_free total e empty s).0 ≡ ok tt
examine_free-returns total e true s = refl
examine_free-returns total e false s = refl

placed_InRange :
    (total index start_bytes length_bytes : ℕ)
    → (length_bytes / sector_size == 0) ≡ false
    → free_misplaced total (free_extent index start_bytes length_bytes) ≡ false
    → InRange total (free_extent index start_bytes length_bytes)
placed_InRange total index start_bytes length_bytes n p = (ground arith, ground arith)

pub free_entries-FreeRead :
    (v : Volume) (index : ℕ) (entries : List (ℕ × ℕ)) (s : Audit)
    → (free_entries v index entries s).0 ≡ ok tt
    → IsQuiet (free_entries v index entries s).1
    → FreeRead v index entries s (free_entries v index entries s).1
unfolding free_entries
free_entries-FreeRead v index [] s h q = record {
  quiet = q;
  used_extents = refl;
  free_extents = sym (append-nil s.free_extents);
  in_range = tt;
  max_depth = refl;
}
free_entries-FreeRead v index ((start_bytes, length_bytes) ∷ entries) s h q =
    let e = free_extent index start_bytes length_bytes in
    let empty : Bool = length_bytes / sector_size == 0 in
    let m : Exec Audit (Unit {0}) = examine_free v.total_sectors e empty in
    let rest = free_entries v (suc index) entries in
    let (_, h', same) = then-ok (checkpoint v 1 none) (m >> rest) s tt h in
    let t : Audit = (checkpoint v 1 none s).1 in
    let (_, h'', same') = then-ok m rest t tt h' in
    let u : Audit = (m t).1 in
    let all = same ∙ same' in
    let later = free_entries-FreeRead v (suc index) entries u h'' (subst IsQuiet all q) in
    let x = examine_free-quiet v.total_sectors e empty t later.quiet in
    subst (FreeRead v index ((start_bytes, length_bytes) ∷ entries) s) (sym all) (record {
      quiet = IsQuiet-Grew s t (checkpoint-Grows v 1 none s) x.quiet;
      used_extents = later.used_extents ∙ x.used_extents;
      free_extents =
          later.free_extents
          ∙ rw (x.free_extents)
              (append_assoc s.free_extents (e ∷ []) (free_listed (suc index) entries));
      in_range = (
        placed_InRange v.total_sectors index start_bytes length_bytes x.nonempty x.placed,
        later.in_range,
      );
      max_depth = later.max_depth ∙ (x.max_depth ∙ (checkpoint-Grows v 1 none s).max_depth);
    })

-- The check of the used extents, with nothing fatal.
pub check_used-Grows : (v : Volume) (extents : List Extent) → Grows (check_used v extents)
unfolding check_used
check_used-Grows v [] s = Grew-refl s
check_used-Grows v (e ∷ extents) s =
    let found =
      if used_misplaced v.total_sectors e
      then extent_finding (codes "extent.used_out_of_range") e ∷ []
      else [] in
    bind-Grows (checkpoint v 1 none) (λ _. add_findings found >> check_used v extents)
      (checkpoint-Grows v 1 none)
      (λ _.
        bind-Grows (add_findings found) (λ _. check_used v extents) (add_findings-Grows found)
          (λ _. check_used-Grows v extents))
      s

pub check_used-quiet :
    (v : Volume) (extents : List Extent) (s : Audit)
    → (check_used v extents s).0 ≡ ok tt
    → IsQuiet (check_used v extents s).1
    → All (InRange v.total_sectors) extents
unfolding check_used
check_used-quiet v [] s h q = tt
check_used-quiet v (e ∷ extents) s h q =
    let found =
      if used_misplaced v.total_sectors e
      then extent_finding (codes "extent.used_out_of_range") e ∷ []
      else [] in
    let rest = check_used v extents in
    let (_, h', same) = then-ok (checkpoint v 1 none) (add_findings found >> rest) s tt h in
    let t : Audit = (checkpoint v 1 none s).1 in
    let u : Audit = (add_findings found t).1 in
    let q' : IsQuiet (rest u).1 = subst IsQuiet same q in
    (
      elim (Bool-cases (used_misplaced v.total_sectors e)) [
        | inl p ↦ absurd (
            not_quiet s.findings _ refl
              (rw p at (IsQuiet-Grew u (rest u).1 (check_used-Grows v extents u) q')))
        | inr p ↦ (ground arith, ground arith)
      ],
      check_used-quiet v extents u h' q',
    )

pub check_used-used_extents :
    (v : Volume) (extents used : List Extent) (s : Audit)
    → s.used_extents ≡ used
    → (check_used v extents s).1.used_extents ≡ used
unfolding check_used
check_used-used_extents v [] used s h = h
check_used-used_extents v (e ∷ extents) used s h =
    let found =
      if used_misplaced v.total_sectors e
      then extent_finding (codes "extent.used_out_of_range") e ∷ []
      else [] in
    bind-keeps (λ t. t.used_extents ≡ used) (checkpoint v 1 none)
      (λ _. add_findings found >> check_used v extents) (λ t k. k)
      (λ _ t k. check_used-used_extents v extents used (add_findings found t).1 k) s h
