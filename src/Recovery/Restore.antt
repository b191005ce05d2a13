-- ===== src/Recovery/Restore.antt =====
-- `recover_image`: what is asked for, the staging of the replacements and their commit, in the state of the
-- checkpoint. The backups are staged by copies that touch no target.
use nautilus_acornfs.Prelude.{
  ℕ, zero, suc, Bool, true, false, not, Option, none, some, List, [], ◌∷◌, ◌++◌, set, get_or,
  length, drop, if◌then◌else◌,
}
use nautilus_acornfs.Prelude.Text.{Text, Bytes, codes, text_eq}
use nautilus_acornfs.Prelude.Result.{Result, ok, err, acornfs_error, file_not_found}
use nautilus_acornfs.Prelude.Exec.{Exec, pure, raise, raise_when, gets, ◌>>=◌, ◌>>◌}
use nautilus_acornfs.Recovery.{RecoveryInfo, Host, Checkpoint, perform, act, complete, is_death}

-- The answer to the user.
pub data Outcome : Type 0 where
  nothing_pending restored discarded : Outcome
  pending : Text → Outcome

module _ (h : Host) where
  -- `_stage_restore`
  abbrev pub stage_restore : Option Bytes → Exec Checkpoint (Unit {0})
  stage_restore none = perform h >> raise file_not_found
  stage_restore (some bytes) = act h (λ s. record s { staged = s.staged ++ (bytes ∷ []) })

  -- The loop over the targets that stages their replacements.
  unfoldable pub stage : List (Option Bytes) → Exec Checkpoint (Unit {0})
  stage [] = pure tt
  stage (backup ∷ backups) = do perform h; stage_restore backup; stage backups

  -- The replacements, latest first.
  unfoldable pub commit : ℕ → Exec Checkpoint (Unit {0})
  commit zero = pure tt
  commit (suc i) = do
    act h (λ s. record s { targets = set s.targets i (get_or s.staged i []) })
    perform h
    commit i

  unfoldable pub replace_targets : Exec Checkpoint (Unit {0})
  replace_targets = do
    backups ← gets (λ s. s.backups)
    stage backups
    perform h
    count ← gets (λ s. length s.staged)
    commit count

  -- The removal of the staged files, which stops at the first that cannot be removed.
  unfoldable pub unlink_staged : ℕ → Exec Checkpoint (Unit {0})
  unlink_staged zero = pure tt
  unlink_staged (suc n) = do act h (λ s. record s { staged = drop 1 s.staged }); unlink_staged n

  abbrev pub unlink_all : Exec Checkpoint (Unit {0})
  unlink_all s = unlink_staged (length s.staged) s

  -- `finally`; a process that has died leaves them
  abbrev pub clear_staged : Result (Unit {0}) → Exec Checkpoint (Unit {0})
  clear_staged (ok done) = unlink_all
  clear_staged (err error) = if is_death error then raise error else (unlink_all >> raise error)

  abbrev pub cleaned : Exec Checkpoint (Unit {0}) → Exec Checkpoint (Unit {0})
  cleaned m s = let (result, after) = m s in clear_staged result after

  abbrev pub is_ready : RecoveryInfo → Bool
  is_ready info = text_eq info.state (codes "ready")

  unfoldable pub restore_targets : RecoveryInfo → Exec Checkpoint (Unit {0})
  restore_targets info = do raise_when (not (is_ready info)) acornfs_error; cleaned replace_targets

  -- Under the lock.
  abbrev pub recover_locked : ℕ → Bool → RecoveryInfo → Exec Checkpoint Outcome
  recover_locked count true info = do restore_targets info; complete h count; pure restored
  recover_locked count false info = do complete h count; pure discarded

  abbrev pub recover_pending : ℕ → Bool → Bool → Option RecoveryInfo → Exec Checkpoint Outcome
  recover_pending count restore discard none = pure nothing_pending
  recover_pending count true true (some info) = raise acornfs_error
  recover_pending count false false (some info) = pure (pending info.state)
  recover_pending count true false (some info) = perform h >> recover_locked count true info
  recover_pending count false true (some info) = perform h >> recover_locked count false info

  unfoldable pub recover_image : ℕ → Bool → Bool → Exec Checkpoint Outcome
  recover_image count restore discard = do
    perform h
    info ← gets (λ s. s.manifest)
    recover_pending count restore discard info
