-- ===== src/Validation/Report/Conclude.antt =====
-- What a safe report tells of the state that it concludes.
use nautilus_acornfs.Prelude.{
  ℕ, ◌≡◌, ◌∙◌, refl, sym, subst, true, none, List, [], ◌∷◌, ◌++◌, All, ap,
}
use nautilus_acornfs.Prelude.Text.{codes}
use nautilus_acornfs.Prelude.Result.{Result, ok, err}
use nautilus_acornfs.Prelude.Exec.{Exec, gets, ◌>>◌, then-ok}
use nautilus_acornfs.Beebscsi.{BeebScsiGeometry}
use nautilus_acornfs.Validation.Findings.{
  Finding, Report, fatal_only, fatal_findings, safe_for_write, is_empty,
}
use nautilus_acornfs.Validation.Extents.{
  Extent, overlap_findings, cross_overlap_findings, gap_ranges,
}
use nautilus_acornfs.Validation.Extents.Severe.{
  overlap_findings-quiet, cross_overlap_findings-quiet,
}
use nautilus_acornfs.Validation.Extents.Partition.{InRange}
use nautilus_acornfs.Validation.Walk.{Volume, Audit, checkpoint, add_findings}
use nautilus_acornfs.Validation.Walk.Steps.{checkpoint-Grows}
use nautilus_acornfs.Validation.Walk.Reached.{IsQuiet, IsQuiet-Grew, fatal_only-append}
use nautilus_acornfs.Validation.Report.{
  check_used, account_findings, unaccounted, report_of, conclude,
}
use nautilus_acornfs.Validation.Report.Free.{
  check_used-Grows, check_used-quiet, check_used-used_extents,
}

-- Nothing fatal among the account findings: each check is silent.
unaccounted-quiet : (gaps : List (ℕ × ℕ)) → fatal_only (unaccounted gaps) ≡ [] → gaps ≡ []
unfolding fatal_only
unaccounted-quiet [] q = refl
unaccounted-quiet (g ∷ gaps) q = absurd (cc q)

-- The findings of the accounts are quiet only where each of the four checks is silent.
pub account_findings-quiet :
    (total : ℕ) (used free : List Extent)
    → fatal_only (account_findings total used free) ≡ []
    → (overlap_findings (codes "extent.used_overlap") used ≡ [])
      × (overlap_findings (codes "extent.free_overlap") free ≡ [])
      × (cross_overlap_findings used free ≡ [])
      × (gap_ranges (used ++ free) total ≡ [])
unfolding account_findings
account_findings-quiet total used free q =
    let (a, q1) = fatal_only-append _ _ q in
    let (b, q2) = fatal_only-append _ _ q1 in
    let (c, d) = fatal_only-append _ _ q2 in
    (
      overlap_findings-quiet _ used a,
      overlap_findings-quiet _ free b,
      cross_overlap_findings-quiet used free c,
      unaccounted-quiet _ d,
    )

abbrev pub found : Result Report → List Finding
found (ok r) = r.findings
found (err e) = []

-- A report that is safe concludes a quiet state, whose used and free extents passed all checks.
pub record Concluded (v : Volume) (s t : Audit) : Type 0 where
  pub quiet : IsQuiet s
  pub used_extents : t.used_extents ≡ s.used_extents
  pub free_extents : t.free_extents ≡ s.free_extents
  pub in_range : All (InRange v.total_sectors) s.used_extents
  pub silent : fatal_only (account_findings v.total_sectors s.used_extents s.free_extents) ≡ []

pub safe_quiet : (r : Report) → safe_for_write r ≡ true → fatal_only r.findings ≡ []
unfolding safe_for_write fatal_findings
safe_quiet r h =
    elim (fatal_only r.findings) as (λ fs. is_empty fs ≡ true → fs ≡ []) [
      | [] ↦ λ e. refl
      | f ∷ fs ↦ λ e. absurd (cc e)
    ]
      h

pub conclude-Concluded :
    (dat_bytes : ℕ) (geometry : BeebScsiGeometry) (v : Volume) (s : Audit) (r : Report)
    → (conclude dat_bytes geometry v s).0 ≡ ok r
    → safe_for_write r ≡ true
    → Concluded v s (conclude dat_bytes geometry v s).1
unfolding conclude
conclude-Concluded dat_bytes geometry v s r h safe =
    let m = check_used v s.used_extents in
    let account : Audit → Exec Audit Report = λ u.
      add_findings (account_findings v.total_sectors s.used_extents u.free_extents)
      >> gets (report_of dat_bytes geometry v) in
    let last : Exec Audit Report = λ u. account u u in
    let (checked, h', same) = then-ok m (checkpoint v 0 none >> last) s r h in
    let t : Audit = (m s).1 in
    let (_, h'', same') = then-ok (checkpoint v 0 none) last t r h' in
    let u : Audit = (checkpoint v 0 none t).1 in
    let g = check_used-Grows v s.used_extents s in
    let accounts = account_findings v.total_sectors s.used_extents u.free_extents in
    let q : fatal_only (u.findings ++ accounts) ≡ [] =
      subst (λ fs. fatal_only fs ≡ []) (sym (ap found h'')) (safe_quiet r safe) in
    let (qu, qa) = fatal_only-append u.findings accounts q in
    let qt : IsQuiet t = IsQuiet-Grew t u (checkpoint-Grows v 0 none t) qu in
    record {
      quiet = IsQuiet-Grew s t g qt;
      used_extents =
          ap (λ (x : Audit). x.used_extents) (same ∙ same')
          ∙ check_used-used_extents v s.used_extents s.used_extents s refl;
      free_extents = ap (λ (x : Audit). x.free_extents) (same ∙ same') ∙ g.free_extents;
      in_range = check_used-quiet v s.used_extents s checked qt;
      silent =
          subst (λ fs. fatal_only (account_findings v.total_sectors s.used_extents fs) ≡ [])
            g.free_extents qa;
    }
