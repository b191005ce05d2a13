-- ===== src/SafePaths/Progress.antt =====
-- The loop of `_write_all`.
use nautilus_acornfs.Prelude.{
  ℕ, zero, suc, ◌+◌, ◌≤◌, ◌≡◌, ◌∙◌, refl, sym, ap, subst, some, [], ◌∷◌, ◌++◌, take, drop, length,
  length-drop, take-append-drop, arith,
}
use mathlib.Core.List.{append_assoc, append-nil}
use nautilus_acornfs.Prelude.Text.{Bytes}
use nautilus_acornfs.Prelude.Result.{ok}
use nautilus_acornfs.SafePaths.{Write, interrupted, wrote, refused, after_call, write_all}

whole :
    (b : ℕ) (view written : Bytes) (n : ℕ)
    → (written ++ (b ∷ take n view)) ++ drop n view ≡ written ++ (b ∷ view)
whole b view written n =
    append_assoc written (b ∷ take n view) (drop n view)
    ∙ ap (λ xs. written ++ (b ∷ xs)) (take-append-drop n view)

-- A loop that returns has written the view behind what was written.
pub write_all-eq :
    (os : ℕ → Write) (fuel call : ℕ) (view written out : Bytes)
    → write_all os fuel call view written ≡ some (ok tt, out)
    → out ≡ written ++ view
unfolding write_all
write_all-eq os zero call view written out e = absurd (cc e)
write_all-eq os (suc fuel) call [] written out e =
    let same : written ≡ out = cc e in sym same ∙ sym (append-nil written)
write_all-eq os (suc fuel) call (b ∷ view) written out e =
    step (λ v w. write_all-eq os fuel (suc call) v w out) (os call) refl
  where
    at :
        {w : Write}
        → os call ≡ w
        → after_call (write_all os fuel (suc call)) w b view written ≡ some (ok tt, out)
    at {w} p =
        subst (λ v. after_call (write_all os fuel (suc call)) v b view written ≡ some (ok tt, out))
          p e

    step :
        ((v w : Bytes) → write_all os fuel (suc call) v w ≡ some (ok tt, out) → out ≡ w ++ v)
        → (w : Write) → os call ≡ w
        → out ≡ written ++ (b ∷ view)
    step rest interrupted p = rest (b ∷ view) written (at p)
    step rest (refused error) p = absurd (cc (at p))
    step rest (wrote zero) p = absurd (cc (at p))
    step rest (wrote (suc n)) p =
        rest (drop n view) (written ++ (b ∷ take n view)) (at p) ∙ whole b view written n

abbrev pub IsProgress : Write → Type 0
IsProgress (wrote (suc n)) = Unit
IsProgress (wrote zero) = ⊥
IsProgress interrupted = ⊥
IsProgress (refused error) = ⊥

abbrev pub IsRunning : Write → Type 0
IsRunning interrupted = Unit
IsRunning (wrote (suc n)) = Unit
IsRunning (wrote zero) = ⊥
IsRunning (refused error) = ⊥

-- A system that never refuses a write, and that from any call on makes progress at some later one.
pub record IsFair (os : ℕ → Write) : Type 0 where
  pub runs : (call : ℕ) → IsRunning (os call)
  pub later : (call : ℕ) → ℕ
  pub progress : (call : ℕ) → IsProgress (os (call + later call))

abbrev pub Finishes : (ℕ → Write) → ℕ → Bytes → Bytes → Type 0
Finishes os call view written =
    (fuel : ℕ) × (write_all os fuel call view written ≡ some (ok tt, written ++ view))

-- Up to the next progress, where what follows finishes.
waits :
    (os : ℕ → Write) (bound : ℕ) (fair : IsFair os)
    → ((call : ℕ) (view written : Bytes) → length view ≤ bound → Finishes os call view written)
    → (distance call : ℕ) (b : ℕ) (view written : Bytes) → length view ≤ bound
    → IsProgress (os (call + distance))
    → Finishes os call (b ∷ view) written
unfolding write_all
waits os bound fair next zero call b view written le p = at_progress (os call) refl
  where
    idle_progress : {w : Write} → os call ≡ w → IsProgress w
    idle_progress q = subst IsProgress q (subst (λ k. IsProgress (os k)) (omega arith) p)

    at_progress : (w : Write) → os call ≡ w → Finishes os call (b ∷ view) written
    at_progress (wrote (suc n)) q =
        let (fuel, done) =
          next (suc call) (drop n view) (written ++ (b ∷ take n view))
            (omega (arith, le, length-drop n view)) in
        (suc fuel, rw q (done ∙ ap (λ x. some (ok tt, x)) (whole b view written n)))
    at_progress (wrote zero) q = absurd (idle_progress q)
    at_progress interrupted q = absurd (idle_progress q)
    at_progress (refused error) q = absurd (idle_progress q)
waits os bound fair next (suc distance) call b view written le p =
    at_any
      (waits os bound fair next distance (suc call) b view written le
        (subst (λ k. IsProgress (os k)) (omega arith) p))
      (os call) refl
  where
    at_any :
        Finishes os (suc call) (b ∷ view) written
        → (w : Write) → os call ≡ w
        → Finishes os call (b ∷ view) written
    at_any (fuel, done) interrupted q = (suc fuel, rw q done)
    at_any later (wrote (suc n)) q =
        let (fuel, done) =
          next (suc call) (drop n view) (written ++ (b ∷ take n view))
            (omega (arith, le, length-drop n view)) in
        (suc fuel, rw q (done ∙ ap (λ x. some (ok tt, x)) (whole b view written n)))
    at_any later (wrote zero) q = absurd (subst IsRunning q (fair.runs call))
    at_any later (refused error) q = absurd (subst IsRunning q (fair.runs call))

finishes :
    (os : ℕ → Write) (fair : IsFair os) (bound call : ℕ) (view written : Bytes)
    → length view ≤ bound
    → Finishes os call view written
unfolding write_all
finishes os fair bound call [] written le =
    (1, ap (λ x. some (ok tt, x)) (sym (append-nil written)))
finishes os fair zero call (b ∷ view) written le = absurd (omega (arith, le))
finishes os fair (suc bound) call (b ∷ view) written le =
    waits os bound fair (finishes os fair bound) (fair.later call) call b view written
      (omega (arith, le)) (fair.progress call)

-- Where the system never refuses a write, and from any call on makes progress at some later one, the loop ends
-- and has written the whole content, however often it is interrupted and however little each write takes.
pub write_all_lem :
    (os : ℕ → Write) (content : Bytes)
    → IsFair os
    → (fuel : ℕ) × (write_all os fuel 0 content [] ≡ some (ok tt, content))
write_all_lem os content fair = finishes os fair (length content) 0 content [] (omega arith)
