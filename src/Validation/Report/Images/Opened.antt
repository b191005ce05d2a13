-- ===== src/Validation/Report/Images/Opened.antt =====
-- What a safe report of a selected image means.
use nautilus_acornfs.Prelude.{
  ℕ, ◌≡◌, ◌∙◌, refl, sym, subst, true, none, [], inl, inr, ap, Bool-cases,
}
use nautilus_acornfs.Prelude.Result.{Result, ok, err}
use nautilus_acornfs.Prelude.Exec.{Exec, reads, ◌>>=◌, continue-ok, then-ok}
use nautilus_acornfs.Beebscsi.{BeebScsiGeometry}
use nautilus_acornfs.Validation.Findings.{Report, safe_for_write, fatal_only}
use nautilus_acornfs.Validation.Geometry.{geometry_findings}
use nautilus_acornfs.Validation.Walk.{Audit, checkpoint}
use nautilus_acornfs.Validation.Walk.Reached.{not_quiet}
use nautilus_acornfs.Validation.Report.Conclude.{found, safe_quiet}
use nautilus_acornfs.Validation.Report.Safe.{IsAccounted, validate_open_mount-IsAccounted}
use nautilus_acornfs.Validation.Report.{is_stop}
use nautilus_acornfs.Validation.Report.Images.{
  Selected, Source, a_pair, other, or_pair, described, after_open, mount_report, described_report,
  source_report, validate_image_report,
}

-- What allowed the report of a pair to be safe.
pub record IsOpened (x : Selected) (t : Audit) : Type 0 where
  pub dat_bytes : ℕ
  pub geometry : BeebScsiGeometry
  pub described_as : described x.reader ≡ ok (dat_bytes, geometry)
  pub mounted : x.mounted ≡ ok tt
  pub accounted : IsAccounted x.volume t

after_open-ok :
    (dat_bytes : ℕ) (geometry : BeebScsiGeometry) (result : Result Report) (s : Audit) (r : Report)
    → (after_open dat_bytes geometry result s).0 ≡ ok r
    → safe_for_write r ≡ true
    → (result ≡ ok r) × ((after_open dat_bytes geometry result s).1 ≡ s)
after_open-ok dat_bytes geometry (ok report) s r h safe = (h, refl)
after_open-ok dat_bytes geometry (err error) s r h safe = elim (Bool-cases (is_stop error)) [
  | inl p ↦ absurd (cc (rw p at h))
  | inr p ↦ absurd (
      not_quiet (geometry_findings dat_bytes geometry) _ refl
        (subst (λ fs. fatal_only fs ≡ []) (sym (ap found (rw p at h))) (safe_quiet r safe)))
]

mount_report-IsAccounted :
    (x : Selected) (dat_bytes : ℕ) (geometry : BeebScsiGeometry) (mounted : Result (Unit {0}))
    (s : Audit) (r : Report)
    → (mount_report x dat_bytes geometry mounted s).0 ≡ ok r
    → safe_for_write r ≡ true
    → (mounted ≡ ok tt) × IsAccounted x.volume (mount_report x dat_bytes geometry mounted s).1
mount_report-IsAccounted x dat_bytes geometry (err error) s r h safe = absurd (cc h)
mount_report-IsAccounted x dat_bytes geometry (ok done) s r h safe = (
  refl,
  validate_open_mount-IsAccounted dat_bytes geometry x.volume s.checkpoints s.budget [] r h safe,
)

described_report-IsOpened :
    (x : Selected) (d : Result (ℕ × BeebScsiGeometry)) (s : Audit) (r : Report)
    → described x.reader ≡ d
    → (described_report x d s).0 ≡ ok r
    → safe_for_write r ≡ true
    → IsOpened x (described_report x d s).1
described_report-IsOpened x (err error) s r e h safe =
    absurd (
      not_quiet [] _ refl (subst (λ fs. fatal_only fs ≡ []) (sym (ap found h)) (safe_quiet r safe)))
described_report-IsOpened x (ok (dat_bytes, geometry)) s r e h safe =
    let m = mount_report x dat_bytes geometry x.mounted s in
    let (returned, same) = after_open-ok dat_bytes geometry m.0 m.1 r h safe in
    let (mounted, accounted) =
      mount_report-IsAccounted x dat_bytes geometry x.mounted s r returned safe in
    record {
      dat_bytes = dat_bytes;
      geometry = geometry;
      described_as = e;
      mounted = mounted;
      accounted = subst (IsAccounted x.volume) (sym same) accounted;
    }

source_report-IsOpened :
    (x : Selected) (source : Source) (s : Audit) (r : Report)
    → source ≡ a_pair
    → (source_report x source s).0 ≡ ok r
    → safe_for_write r ≡ true
    → IsOpened x (source_report x source s).1
source_report-IsOpened x (other generic) s r pair h safe = absurd (cc pair)
source_report-IsOpened x a_pair s r pair h safe =
    let (_, _, h', e') =
      continue-ok x.discovered (λ _. described_report x (described x.reader)) s r h in
    subst (IsOpened x) (sym e') (described_report-IsOpened x (described x.reader) s r refl h' safe)

-- Where a selection resolves to a pair, or is only named like one, a report that allows writing means
-- that the descriptor was read, the disc was opened, and its sectors and entries are accounted for.
pub validate_image_report-IsOpened :
    (x : Selected) (s : Audit) (r : Report)
    → or_pair x.has_pair_suffix x.resolved ≡ ok a_pair
    → (validate_image_report x s).0 ≡ ok r
    → safe_for_write r ≡ true
    → IsOpened x (validate_image_report x s).1
unfolding validate_image_report
validate_image_report-IsOpened x s r pair h safe =
    let resolve : Exec Audit Report =
      reads (λ s. or_pair x.has_pair_suffix x.resolved) >>= source_report x in
    let (_, h1, e1) = then-ok (checkpoint x.volume 0 none) resolve s r h in
    let t : Audit = (checkpoint x.volume 0 none s).1 in
    let (source, is_source, h2, e2) =
      continue-ok (or_pair x.has_pair_suffix x.resolved) (source_report x) t r h1 in
    let same : source ≡ a_pair = cc (pair, is_source) in
    let at_pair = source_report-IsOpened x source t r same h2 safe in
    subst (IsOpened x) (sym (e1 ∙ e2)) at_pair
