-- ===== src/Budget/Spending.antt =====
-- What a run of checkpoints has spent.
use nautilus_acornfs.Prelude.{
  ℕ, ◌+◌, ◌≤◌, ◌<◌, ◌≡◌, ◌≢◌, ◌∙◌, refl, Bool, true, false, Option, none, some, List, [], ◌∷◌, All,
  All-imp, arith,
}
use nautilus_acornfs.Prelude.Result.{Result, ok, err}
use nautilus_acornfs.Prelude.Exec.{Exec, pure, continue, ◌>>◌}
use nautilus_acornfs.Budget.{OperationBudget, ℤ, pos, negsuc, checkpoint, too_deep}

-- The arguments of a call, with the caller's answer and the clock's reading.
pub record Call : Type 0 where
  pub cancelled : Option Bool
  pub items : ℤ
  pub depth : Option ℕ
  pub now : ℕ

unfoldable pub run_checkpoints : List Call → Exec OperationBudget (Unit {0})
unfolding checkpoint
run_checkpoints [] = pure tt
run_checkpoints (c ∷ calls) = checkpoint c.cancelled c.items c.depth c.now >> run_checkpoints calls

abbrev pub spent : ℤ → ℕ
spent (pos n) = n
spent (negsuc n) = 0

abbrev pub total_spent : List Call → ℕ
total_spent [] = 0
total_spent (c ∷ calls) = spent c.items + total_spent calls

-- A call that a budget lets pass.
pub record IsAllowed (b : OperationBudget) (c : Call) : Type 0 where
  pub running : c.cancelled ≢ some true
  pub shallow : too_deep c.depth b.max_depth ≡ false
  pub early : c.now < b.deadline

-- After calls that have all passed.
pub record IsSpent (b : OperationBudget) (calls : List Call) (b' : OperationBudget) : Type 0 where
  pub deadline : b'.deadline ≡ b.deadline
  pub max_items : b'.max_items ≡ b.max_items
  pub max_depth : b'.max_depth ≡ b.max_depth
  pub items : b'.items ≡ b.items + total_spent calls
  pub within : b'.items ≤ b.max_items
  pub allowed : All (IsAllowed b) calls

checkpoint-IsSpent :
    (cancelled : Option Bool) (items : ℤ) (depth : Option ℕ) (now : ℕ) (b : OperationBudget)
    → (checkpoint cancelled items depth now b).0 ≡ ok tt
    → IsSpent b
        (record { cancelled = cancelled; items = items; depth = depth; now = now } ∷ [])
        (checkpoint cancelled items depth now b).1
unfolding checkpoint
checkpoint-IsSpent none (pos n) none now b h = ground arith
checkpoint-IsSpent none (pos n) (some d) now b h = ground arith
checkpoint-IsSpent none (negsuc n) depth now b h = cc
checkpoint-IsSpent (some true) items depth now b h = cc
checkpoint-IsSpent (some false) (pos n) none now b h = ground arith
checkpoint-IsSpent (some false) (pos n) (some d) now b h = ground arith
checkpoint-IsSpent (some false) (negsuc n) depth now b h = cc

-- An action in two parts that returns has returned from both.
continue-ok :
    {S : Type 0} (r : Result (Unit {0})) (k : Exec S (Unit {0})) (s : S)
    → (continue r (λ _. k) s).0 ≡ ok tt
    → (r ≡ ok tt) × ((k s).0 ≡ ok tt) × ((continue r (λ _. k) s).1 ≡ (k s).1)
continue-ok (ok tt) k s h = (refl, h, refl)
continue-ok (err e) k s h = cc

IsAllowed-step :
    (b b' : OperationBudget) (c : Call)
    → b'.deadline ≡ b.deadline
    → b'.max_depth ≡ b.max_depth
    → IsAllowed b' c
    → IsAllowed b c
IsAllowed-step b b' c d m a = record {
  running = a.running;
  shallow = rw (← m) a.shallow;
  early = omega (arith, d, a.early);
}

-- Checkpoints that all pass have each been made before the deadline, at an allowed depth and uncancelled;
-- they have counted exactly the items they were given, and no more than the limit in all, provided that
-- the budget was within its limit before.
pub run_checkpoints_lem :
    (calls : List Call) (b : OperationBudget)
    → b.items ≤ b.max_items
    → (run_checkpoints calls b).0 ≡ ok tt
    → IsSpent b calls (run_checkpoints calls b).1
unfolding run_checkpoints
run_checkpoints_lem [] b w h = record {
  deadline = refl;
  max_items = refl;
  max_depth = refl;
  items = omega arith;
  within = w;
  allowed = tt;
}
run_checkpoints_lem (c ∷ calls) b w h =
    let (first, later, same) =
      continue-ok (checkpoint c.cancelled c.items c.depth c.now b).0 (run_checkpoints calls)
        (checkpoint c.cancelled c.items c.depth c.now b).1 h in
    let s = checkpoint-IsSpent c.cancelled c.items c.depth c.now b first in
    let t =
      run_checkpoints_lem calls (checkpoint c.cancelled c.items c.depth c.now b).1
        (omega (arith, s.within, s.max_items)) later in
    rw same (record {
      deadline = t.deadline ∙ s.deadline;
      max_items = t.max_items ∙ s.max_items;
      max_depth = t.max_depth ∙ s.max_depth;
      items = omega (arith, t.items, s.items);
      within = omega (arith, t.within, s.max_items);
      allowed = (
        s.allowed.0,
        All-imp (λ d a. IsAllowed-step b _ d s.deadline s.max_depth a) calls t.allowed,
      );
    })
