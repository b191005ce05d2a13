-- ===== src/Validation/Walk/Steps.antt =====
-- The steps of the traversal.
use nautilus_acornfs.Prelude.{
  ℕ, zero, suc, ◌≡◌, ◌∙◌, refl, sym, Bool, true, false, Option, some, not, List, [], ◌∷◌, ◌++◌,
  Bool-cases, inl, inr, any, ◌==◌, arith,
}
use mathlib.Core.List.{append_assoc, append-nil}
use nautilus_acornfs.Prelude.Text.{Text, codes}
use nautilus_acornfs.Prelude.Result.{Result, ok, err, foreign}
use nautilus_acornfs.Prelude.Exec.{Exec, ◌>>=◌, ◌>>◌, raise, bind-keeps}
use nautilus_acornfs.Budget
use nautilus_acornfs.Budget.{OperationBudget, pos}
use nautilus_acornfs.Validation.Findings.{Finding, warning}
use nautilus_acornfs.Validation.Extents.{Extent}
use nautilus_acornfs.Validation.Walk.{
  child_path, Entry, Volume, Audit, checkpoint, add_findings, add_used, add_when, directory_extent,
  enter_child, enter_once, examine_directory, examine_file, examine, file_sectors, walk_entries,
  walk,
}

abbrev pub Extends : {A : Type 0} → List A → List A → Type 0
Extends {A} xs ys = (more : List A) × (ys ≡ xs ++ more)

pub record Grew (s t : Audit) : Type 0 where
  pub findings : Extends s.findings t.findings
  pub used_extents : Extends s.used_extents t.used_extents
  pub free_extents : t.free_extents ≡ s.free_extents
  pub max_depth : t.budget.max_depth ≡ s.budget.max_depth

Extends-refl : {A : Type 0} (xs : List A) → Extends xs xs
Extends-refl xs = ([], sym (append-nil xs))

Extends-trans : {A : Type 0} (xs ys zs : List A) → Extends xs ys → Extends ys zs → Extends xs zs
Extends-trans xs ys zs (m, p) (n, q) = (m ++ n, q ∙ rw p (append_assoc xs m n))

pub Grew-refl : (s : Audit) → Grew s s
Grew-refl s = record {
  findings = Extends-refl s.findings;
  used_extents = Extends-refl s.used_extents;
  free_extents = refl;
  max_depth = refl;
}

pub Grew-trans : (s t u : Audit) → Grew s t → Grew t u → Grew s u
Grew-trans s t u g h = record {
  findings = Extends-trans s.findings t.findings u.findings g.findings h.findings;
  used_extents =
      Extends-trans s.used_extents t.used_extents u.used_extents g.used_extents h.used_extents;
  free_extents = h.free_extents ∙ g.free_extents;
  max_depth = h.max_depth ∙ g.max_depth;
}

-- An action that adds and takes nothing away.
abbrev pub Grows : {A : Type 0} → Exec Audit A → Type 0
Grows m = (s : Audit) → Grew s (m s).1

pub bind-Grows :
    {A B : Type 0} (m : Exec Audit A) (f : A → Exec Audit B)
    → Grows m
    → ((a : A) → Grows (f a))
    → Grows (m >>= f)
bind-Grows m f gm gf s =
    bind-keeps (Grew s) m f (λ t g. Grew-trans s t (m t).1 g (gm t))
      (λ a t g. Grew-trans s t (f a t).1 g (gf a t)) s (Grew-refl s)

checkpoint-max_depth :
    (cancelled : Option Bool) (items : ℕ) (depth : Option ℕ) (now : ℕ) (b : OperationBudget)
    → (Budget.checkpoint cancelled (pos items) depth now b).1.max_depth ≡ b.max_depth
unfolding Budget.checkpoint
checkpoint-max_depth cancelled items depth now b = ground arith

pub checkpoint-Grows :
    (v : Volume) (items : ℕ) (depth : Option ℕ) → Grows (checkpoint v items depth)
checkpoint-Grows v items depth s = record {
  findings = Extends-refl s.findings;
  used_extents = Extends-refl s.used_extents;
  free_extents = refl;
  max_depth = checkpoint-max_depth _ _ _ _ _;
}

pub add_findings-Grows : (more : List Finding) → Grows (add_findings more)
add_findings-Grows more s = record {
  findings = (more, refl);
  used_extents = Extends-refl s.used_extents;
  free_extents = refl;
  max_depth = refl;
}

add_used-Grows : (e : Extent) → Grows (add_used e)
add_used-Grows e s = record {
  findings = Extends-refl s.findings;
  used_extents = (e ∷ [], refl);
  free_extents = refl;
  max_depth = refl;
}

-- The state when the traversal asks whether it has seen a directory before.
abbrev pub listed : Volume → Text → Entry → Audit → Audit
listed v path e s =
    (add_when (not (e.length == v.directory_bytes)) warning (codes "directory.length_unusual")
      (some (child_path path e)) (add_used (directory_extent v path e) s).1).1

pub listed-grows : (v : Volume) (path : Text) (e : Entry) (s : Audit) → Grew s (listed v path e s)
listed-grows v path e s = record {
  findings = (_, refl);
  used_extents = (_, refl);
  free_extents = refl;
  max_depth = refl;
}

module _ (descend : List Entry → Text → Exec Audit (Unit {0}))
    (grows : (entries : List Entry) (path : Text) → Grows (descend entries path)) where
  enter_child-Grows : (r : Result (List Entry)) (path : Text) → Grows (enter_child descend r path)
  enter_child-Grows (ok child) path = grows child path
  enter_child-Grows (err error) path = add_findings-Grows _

  pub enter_once-Grows :
      (v : Volume) (again : Bool) (start : ℕ) (path : Text)
      → Grows (enter_once descend v again start path)
  enter_once-Grows v true start path s = add_findings-Grows _ s
  enter_once-Grows v false start path s =
      let g =
        enter_child-Grows (v.read_directory_at start) path
          (record s { seen_directories = start ∷ s.seen_directories }) in
      record {
        findings = g.findings;
        used_extents = g.used_extents;
        free_extents = g.free_extents;
        max_depth = g.max_depth;
      }

  pub examine-Grows :
      (v : Volume) (path : Text) (e : Entry) (d : Bool) → Grows (examine descend v path e d)
  unfolding examine_directory examine_file
  examine-Grows v path e true s = Grew-trans s (listed v path e s) _ (listed-grows v path e s) (
      enter_once-Grows v
        (any (λ start. start == e.start_sector) (listed v path e s).seen_directories) e.start_sector
        (child_path path e) (listed v path e s))
  examine-Grows v path e false s = elim (Bool-cases (file_sectors e == 0)) [
    | inl q ↦ rw q (add_findings-Grows _ s)
    | inr q ↦ rw q (add_used-Grows _ s)
  ]

  pub walk_entries-Grows :
      (v : Volume) (depth : ℕ) (path : Text) (entries : List Entry)
      → Grows (walk_entries descend v depth path entries)
  unfolding walk_entries
  walk_entries-Grows v depth path [] s = Grew-refl s
  walk_entries-Grows v depth path (e ∷ entries) s =
      bind-Grows (checkpoint v 1 (some depth))
        (λ _. examine descend v path e e.is_directory >> walk_entries descend v depth path entries)
        (checkpoint-Grows v 1 (some depth))
        (λ _.
          bind-Grows (examine descend v path e e.is_directory)
            (λ _. walk_entries descend v depth path entries) (examine-Grows v path e e.is_directory)
            (λ _. walk_entries-Grows v depth path entries))
        s

pub walk-Grows :
    (fuel : ℕ) (v : Volume) (depth : ℕ) (entries : List Entry) (path : Text)
    → Grows (walk fuel v depth entries path)
unfolding walk
walk-Grows zero v depth entries path =
    bind-Grows (checkpoint v 0 (some depth)) (λ _. raise foreign)
      (checkpoint-Grows v 0 (some depth)) (λ _ s. Grew-refl s)
walk-Grows (suc fuel) v depth entries path =
    bind-Grows (checkpoint v 0 (some depth))
      (λ _. walk_entries (walk fuel v (suc depth)) v depth path entries)
      (checkpoint-Grows v 0 (some depth))
      (λ _.
        walk_entries-Grows (walk fuel v (suc depth)) (walk-Grows fuel v (suc depth)) v depth path
          entries)
