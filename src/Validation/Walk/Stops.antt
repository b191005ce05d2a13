-- ===== src/Validation/Walk/Stops.antt =====
-- The ends of the traversal.
use nautilus_acornfs.Prelude.{
  ℕ, zero, suc, ◌+◌, ◌≤◌, ◌<◌, ◌≡◌, ◌⊎◌, inl, inr, refl, Bool, true, false, Option, some, List, [],
  ◌∷◌, Bool-cases, any, ◌==◌, arith,
}
use nautilus_acornfs.Prelude.Text.{Text}
use nautilus_acornfs.Prelude.Result.{
  Result, ok, err, operation_cancelled, operation_limit_exceeded, foreign,
}
use nautilus_acornfs.Prelude.Exec.{Exec, continue, ◌>>◌, raise}
use nautilus_acornfs.Budget
use nautilus_acornfs.Budget.{OperationBudget, pos}
use nautilus_acornfs.Validation.Walk.{
  Entry, Volume, Audit, checkpoint, child_path, enter_child, enter_once, examine_directory,
  examine_file, examine, file_sectors, walk_entries, walk,
}
use nautilus_acornfs.Validation.Walk.Steps.{
  Grows, listed, checkpoint-Grows, examine-Grows, walk-Grows,
}

-- A return, a cancellation or an exhausted budget.
abbrev pub IsStop : Result (Unit {0}) → Type 0
IsStop r = (r ≡ ok tt) ⊎ (r ≡ err operation_cancelled) ⊎ (r ≡ err operation_limit_exceeded)

budget_checkpoint-IsStop :
    (cancelled : Option Bool) (items : ℕ) (depth : Option ℕ) (now : ℕ) (b : OperationBudget)
    → IsStop (Budget.checkpoint cancelled (pos items) depth now b).0
unfolding Budget.checkpoint
budget_checkpoint-IsStop cancelled items depth now b = ground arith

pub checkpoint-IsStop :
    (v : Volume) (items : ℕ) (depth : Option ℕ) (s : Audit) → IsStop (checkpoint v items depth s).0
checkpoint-IsStop v items depth s = budget_checkpoint-IsStop _ _ _ _ _

checkpoint-depth :
    (cancelled : Option Bool) (items depth now : ℕ) (b : OperationBudget)
    → (Budget.checkpoint cancelled (pos items) (some depth) now b).0 ≡ ok tt
    → depth ≤ b.max_depth
unfolding Budget.checkpoint
checkpoint-depth cancelled items depth now b h = ground arith

-- What follows a first part is reached only where that part has returned.
continue-IsStop :
    (r : Result (Unit {0})) (k : Exec Audit (Unit {0})) (s : Audit)
    → IsStop r
    → (r ≡ ok tt → IsStop (k s).0)
    → IsStop (continue r (λ _. k) s).0
continue-IsStop (ok done) k s stop next = next refl
continue-IsStop (err e) k s stop next = stop

then-IsStop :
    (m k : Exec Audit (Unit {0})) (s : Audit)
    → IsStop (m s).0
    → ((m s).0 ≡ ok tt → IsStop (k (m s).1).0)
    → IsStop ((m >> k) s).0
then-IsStop m k s = continue-IsStop (m s).0 k (m s).1

-- The budget's depth is `d`, which the steps keep.
module _ (d : ℕ) (descend : List Entry → Text → Exec Audit (Unit {0}))
    (grows : (entries : List Entry) (path : Text) → Grows (descend entries path))
    (stops : (entries : List Entry) (path : Text) (s : Audit)
      → s.budget.max_depth ≡ d
      → IsStop (descend entries path s).0) where
  enter_child-IsStop :
      (r : Result (List Entry)) (path : Text) (s : Audit)
      → s.budget.max_depth ≡ d
      → IsStop (enter_child descend r path s).0
  enter_child-IsStop (ok child) path s h = stops child path s h
  enter_child-IsStop (err error) path s h = inl refl

  enter_once-IsStop :
      (v : Volume) (again : Bool) (start : ℕ) (path : Text) (s : Audit)
      → s.budget.max_depth ≡ d
      → IsStop (enter_once descend v again start path s).0
  enter_once-IsStop v true start path s h = inl refl
  enter_once-IsStop v false start path s h =
      enter_child-IsStop (v.read_directory_at start) path
        (record s { seen_directories = start ∷ s.seen_directories }) h

  examine-IsStop :
      (v : Volume) (path : Text) (e : Entry) (is_directory : Bool) (s : Audit)
      → s.budget.max_depth ≡ d
      → IsStop (examine descend v path e is_directory s).0
  unfolding examine_directory examine_file
  examine-IsStop v path e true s h =
      enter_once-IsStop v
        (any (λ start. start == e.start_sector) (listed v path e s).seen_directories) e.start_sector
        (child_path path e) (listed v path e s) h
  examine-IsStop v path e false s h = elim (Bool-cases (file_sectors e == 0)) [
    | inl q ↦ rw q (inl refl)
    | inr q ↦ rw q (inl refl)
  ]

  walk_entries-IsStop :
      (v : Volume) (depth : ℕ) (path : Text) (entries : List Entry) (s : Audit)
      → s.budget.max_depth ≡ d
      → IsStop (walk_entries descend v depth path entries s).0
  unfolding walk_entries
  walk_entries-IsStop v depth path [] s h = inl refl
  walk_entries-IsStop v depth path (e ∷ entries) s h =
      let t : Audit = (checkpoint v 1 (some depth) s).1 in
      let ht : t.budget.max_depth ≡ d =
        omega (arith, (checkpoint-Grows v 1 (some depth) s).max_depth, h) in
      then-IsStop (checkpoint v 1 (some depth))
        (examine descend v path e e.is_directory >> walk_entries descend v depth path entries) s
        (checkpoint-IsStop v 1 (some depth) s)
        (λ _.
          then-IsStop (examine descend v path e e.is_directory)
            (walk_entries descend v depth path entries) t
            (examine-IsStop v path e e.is_directory t ht)
            (λ _.
              walk_entries-IsStop v depth path entries (examine descend v path e e.is_directory t).1
                (omega
                  (arith, (examine-Grows descend grows v path e e.is_directory t).max_depth, ht))))

-- With fuel for every depth that the budget allows, a traversal from any depth returns, or raises a
-- cancellation or an exhausted budget; it never runs out of fuel, however the disc's directories refer to
-- each other.
pub walk-IsStop :
    (fuel : ℕ) (v : Volume) (depth : ℕ) (entries : List Entry) (path : Text) (s : Audit)
    → s.budget.max_depth < fuel + depth
    → IsStop (walk fuel v depth entries path s).0
unfolding walk
walk-IsStop zero v depth entries path s h =
    then-IsStop (checkpoint v 0 (some depth)) (raise foreign) s
      (checkpoint-IsStop v 0 (some depth) s)
      (λ passed. absurd (omega (arith, h, checkpoint-depth _ _ _ _ _ passed)))
walk-IsStop (suc fuel) v depth entries path s h =
    then-IsStop (checkpoint v 0 (some depth))
      (walk_entries (walk fuel v (suc depth)) v depth path entries) s
      (checkpoint-IsStop v 0 (some depth) s)
      (λ _.
        walk_entries-IsStop s.budget.max_depth (walk fuel v (suc depth))
          (walk-Grows fuel v (suc depth))
          (λ child path' t k. walk-IsStop fuel v (suc depth) child path' t (omega (arith, h, k))) v
          depth path entries (checkpoint v 0 (some depth) s).1
          (checkpoint-Grows v 0 (some depth) s).max_depth)
