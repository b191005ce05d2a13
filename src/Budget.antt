-- ===== src/Budget.antt =====
-- src/acornfs/operations.py: the budget of an operation on untrusted data, and its progress reports.
-- A reading of the clock and an answer of the caller's `cancelled()` are arguments.
pub mod Spending
use nautilus_acornfs.Prelude.{
  ℕ, zero, suc, ◌+◌, Bool, true, false, Option, none, some, List, [], ◌∷◌, if◌then◌else◌, ltb, leb,
  min,
}
use nautilus_acornfs.Prelude.Text.{Text}
use nautilus_acornfs.Prelude.Result.{
  Result, ok, err, operation_cancelled, operation_limit_exceeded, value_error,
}
use nautilus_acornfs.Prelude.Exec.{Exec, raise, raise_when, modify, gets, ◌>>=◌, ◌>>◌}

-- Python's `int`.
pub data ℤ : Type 0 where
  pos negsuc : ℕ → ℤ

pub record OperationBudget : Type 0 where
  pub deadline : ℕ
  pub max_items : ℕ
  pub max_depth : ℕ
  pub items : ℕ

abbrev pub positive : ℤ → Option ℕ
positive (pos zero) = none
positive (pos (suc n)) = some (suc n)
positive (negsuc n) = none

abbrev created : ℕ → Option ℕ → Option ℕ → Option ℕ → Result OperationBudget
created now (some timeout) (some max_items) (some max_depth) =
    ok
      (record { deadline = now + timeout; max_items = max_items; max_depth = max_depth; items = 0 })
created now none max_items max_depth = err value_error
created now (some timeout) none max_depth = err value_error
created now (some timeout) (some max_items) none = err value_error

-- `create`, for a reading of the clock
unfoldable pub create : ℤ → ℤ → ℤ → ℕ → Result OperationBudget
create timeout max_items max_depth now =
    created now (positive timeout) (positive max_items) (positive max_depth)

-- `cancellation_point`, for the answer of `cancelled()`, if there is one to ask
abbrev pub cancellation_point : {S : Type 0} → Option Bool → Exec S (Unit {0})
cancellation_point none = raise_when false operation_cancelled
cancellation_point (some answer) = raise_when answer operation_cancelled

abbrev pub add_items : ℤ → Exec OperationBudget (Unit {0})
add_items (pos n) = modify (λ b. record b { items = b.items + n })
add_items (negsuc n) = raise value_error

abbrev pub too_deep : Option ℕ → ℕ → Bool
too_deep none max_depth = false
too_deep (some depth) max_depth = ltb max_depth depth

-- `checkpoint`
unfoldable pub checkpoint : Option Bool → ℤ → Option ℕ → ℕ → Exec OperationBudget (Unit {0})
checkpoint cancelled items depth now = do
  cancellation_point cancelled
  add_items items
  budget ← gets (λ b. b)
  raise_when (ltb budget.max_items budget.items) operation_limit_exceeded
  raise_when (too_deep depth budget.max_depth) operation_limit_exceeded
  raise_when (leb budget.deadline now) operation_limit_exceeded

-- `max(0, min(100, percent))`
abbrev pub normalised : ℤ → ℕ
normalised (pos n) = min 100 n
normalised (negsuc n) = 0

-- `report_progress`, by the reports that the caller has received
unfoldable pub report_progress : Option (List (ℕ × Text)) → ℤ → Text → Option (List (ℕ × Text))
report_progress none percent message = none
report_progress (some reports) percent message = some ((normalised percent, message) ∷ reports)
