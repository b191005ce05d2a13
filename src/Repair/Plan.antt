-- ===== src/Repair/Plan.antt =====
-- The plan of a report, against its findings.
use nautilus_acornfs.Prelude.{
  ◌≡◌, refl, ap, subst, inl, inr, Bool, true, Option, none, some, List, [], ◌∷◌, all, All, map,
  Bool-cases, arith,
}
use mathlib.Core.List.{Memᴰ}
use mathlib.Core.List.Memᴰ
use nautilus_acornfs.Prelude.Text.{Text, text_before}
use nautilus_acornfs.Prelude.Sorting.{Memᴰ-sort}
use nautilus_acornfs.Validation.Findings.{Finding, Report, fatal_findings}
use nautilus_acornfs.Repair.{
  Template, RepairAction, RepairPlan, Group, grouped, action_of, by_action, template_for,
  plan_repairs_from_report, is_none_left, is_supported, is_supported_action, application_supported,
}
use nautilus_acornfs.Repair.Groups.{HasPath, HasPath-imp, grouped-Gathered}

-- An action of a plan that covers a finding.
pub record Covered (action : Text) (f : Finding) (actions : List RepairAction) : Type 0 where
  pub repair : RepairAction
  pub member : Memᴰ repair actions
  pub same : repair.action ≡ action
  pub code : Memᴰ f.code repair.finding_codes
  pub path : HasPath f.path repair.paths

Memᴰ-map :
    (g : Group) (groups : List Group) → Memᴰ g groups → Memᴰ (action_of g) (map action_of groups)
Memᴰ-map g [] m = absurd (Memᴰ.not-nil m)
Memᴰ-map g (h ∷ groups) m = elim (Memᴰ.cases_cons m) [
  | inl e ↦ Memᴰ.head (ap action_of e)
  | inr m' ↦ Memᴰ.tail (Memᴰ-map g groups m')
]

-- Every finding of the report that has a repair is covered by an action of the plan, which names the
-- finding's code, and its path if it has one.
pub plan_repairs_from_report-Covered :
    (report : Report) (f : Finding) (t : Template)
    → Memᴰ f report.findings
    → template_for f.code ≡ some t
    → Covered t.action f (plan_repairs_from_report report).actions
unfolding plan_repairs_from_report
plan_repairs_from_report-Covered report f t m e =
    let h = grouped-Gathered t f report.findings [] m e in
    record {
      repair = action_of h.group;
      member =
          Memᴰ-map h.group _ (Memᴰ-sort by_action h.group (grouped report.findings []) h.member);
      same = h.same;
      code = Memᴰ-sort text_before f.code h.group.codes h.code;
      path = HasPath-imp f.path h.group.paths _ (λ y. Memᴰ-sort text_before y h.group.paths) h.path;
    }

all-Memᴰ :
    {A : Type 0} (p : A → Bool) (x : A) (xs : List A) → all p xs ≡ true → Memᴰ x xs → p x ≡ true
all-Memᴰ p x [] h m = absurd (Memᴰ.not-nil m)
all-Memᴰ p x (y ∷ ys) h m = elim (Memᴰ.cases_cons m) [
  | inl e ↦ rw e (ground (arith, h))
  | inr m' ↦ all-Memᴰ p x ys (ground (arith, h)) m'
]

is_none_left-eq : {A : Type 0} (xs : List A) → is_none_left xs ≡ true → xs ≡ []
is_none_left-eq [] h = refl
is_none_left-eq (x ∷ xs) h = absurd (cc h)

application_supported-eq :
    (plan : RepairPlan)
    → application_supported plan ≡ true
    → (fatal_findings plan.report ≡ []) × (all is_supported plan.actions ≡ true)
unfolding application_supported
application_supported-eq plan h = (is_none_left-eq _ (ground (arith, h)), ground (arith, h))

plan_report : (report : Report) → (plan_repairs_from_report report).report ≡ report
unfolding plan_repairs_from_report
plan_report report = refl

supported_action : (a : RepairAction) → is_supported a ≡ true → is_supported_action a.action ≡ true
supported_action a h = elim (Bool-cases (is_supported_action a.action)) [
  | inl p ↦ p
  | inr p ↦ absurd (cc (rw p at h))
]

-- A finding whose repair, if it has one, is supported.
abbrev pub IsRepairable : Option Template → Type 0
IsRepairable none = Unit
IsRepairable (some t) = is_supported_action t.action ≡ true

IsRepairable-all :
    (findings : List Finding)
    → ((f : Finding) (t : Template)
        → Memᴰ f findings
        → template_for f.code ≡ some t
        → IsRepairable (some t))
    → All (λ (f : Finding). IsRepairable (template_for f.code)) findings
IsRepairable-all [] each = tt
IsRepairable-all (f ∷ findings) each =
    (one (template_for f.code) refl, IsRepairable-all findings (λ g t m. each g t (Memᴰ.tail m)))
  where
    one : (o : Option Template) → template_for f.code ≡ o → IsRepairable o
    one none e = tt
    one (some t) e = each f t (Memᴰ.head refl) e

-- Where a plan may be applied, nothing fatal was found, and the repair of each finding that has one is one of
-- the three that are supported.
pub application_supported-IsSafe :
    (report : Report)
    → application_supported (plan_repairs_from_report report) ≡ true
    → (fatal_findings report ≡ [])
      × All (λ (f : Finding). IsRepairable (template_for f.code)) report.findings
application_supported-IsSafe report h =
    let plan = plan_repairs_from_report report in
    let (quiet, supported) = application_supported-eq plan h in
    (
      subst (λ r. fatal_findings r ≡ []) (plan_report report) quiet,
      IsRepairable-all report.findings (λ f t m e.
          let c = plan_repairs_from_report-Covered report f t m e in
          subst (λ action. is_supported_action action ≡ true) c.same
            (supported_action c.repair
              (all-Memᴰ is_supported c.repair plan.actions supported c.member))),
    )
