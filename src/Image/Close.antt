-- ===== src/Image/Close.antt =====
-- `ReadOnlyImage.close`: the last synchronisation and validation, the export of a container, and the end of
-- the checkpoint. Calls of the system and of Oaknut are answered by the host; closings whose exceptions are
-- suppressed are left out. A run keeps the calls that it has made with their answers, latest first.
pub mod Checkpoints
use nautilus_acornfs.Prelude.{
  ℕ, suc, Bool, true, false, ◌&&◌, ◌||◌, not, Option, none, some, List, [], ◌∷◌, if◌then◌else◌,
}
use nautilus_acornfs.Prelude.Result.{Error, Result, ok, err, acornfs_error}
use nautilus_acornfs.Prelude.Exec.{Exec, pure, raise, raise_when, modify, reads, gets, ◌>>=◌, ◌>>◌}
use nautilus_acornfs.Validation.Findings.{Report, safe_for_write}

-- The image that is closed, and the answers to its calls. `signature_kept` is the comparison of the
-- signatures.
pub record Host : Type 0 where
  pub writable : Bool
  pub has_pair : Bool
  pub has_container : Bool
  pub has_checkpoint : Bool
  pub answer : ℕ → Result (Unit {0})
  pub integrity_report : Result Report
  pub signature_kept : Result Bool

pub data Call : Type 0 where
  -- `self.sync()` and `self._require_generic_integrity(self._mount)`
  synchronise require_integrity : Call
  -- the ends of the mount, of its reader and of the source
  close_mount close_reader close_source : Call
  -- `container.export` and `checkpoint.complete()`
  export_container complete_checkpoint : Call

-- `pending` says that the checkpoint is there to recover from.
pub record Closing : Type 0 where
  pub made : ℕ
  pub calls : List (Call × Result (Unit {0}))
  pub closed : Bool
  pub failed : Bool
  pub pending : Bool

module _ (h : Host) where
  abbrev pub perform : Call → Exec Closing (Unit {0})
  perform call s =
      (h.answer s.made, record s { made = suc s.made; calls = (call, h.answer s.made) ∷ s.calls })

  -- `except Exception`: the session has failed
  abbrev caught : Result (Unit {0}) → Exec Closing Bool
  caught (ok done) s = pure false s
  caught (err error) s = (ok true, record s { failed = true })

  abbrev attempt : Exec Closing (Unit {0}) → Exec Closing Bool
  attempt m s = let (result, after) = m s in caught result after

  abbrev pub when : Bool → Exec Closing (Unit {0}) → Exec Closing (Unit {0})
  when true m = m
  when false m = pure tt

  abbrev validate : Bool → Exec Closing (Unit {0})
  validate true = do
    report ← reads (λ s. h.integrity_report)
    raise_when (not (safe_for_write report)) acornfs_error
  validate false = perform require_integrity

  -- The last synchronisation, and for a clean end the validation.
  unfoldable pub finalise : Bool → Exec Closing Bool
  finalise clean =
      attempt (when h.writable (perform synchronise >> when clean (validate h.has_pair)))

  abbrev write_back : Exec Closing (Unit {0})
  write_back = do
    kept ← reads (λ s. h.signature_kept)
    raise_when (not kept) acornfs_error
    perform export_container

  unfoldable pub export : Bool → Bool → Exec Closing Bool
  export clean close_error = do
    failed ← gets (λ s. s.failed)
    attempt (
        when (h.writable && (clean && (not failed && (not close_error && h.has_container))))
          write_back)

  -- `self._checkpoint.complete()`
  unfoldable pub end_checkpoint : Bool → Exec Closing (Unit {0})
  end_checkpoint clean = do
    failed ← gets (λ s. s.failed)
    when (h.writable && (clean && (not failed && h.has_checkpoint)))
        (perform complete_checkpoint >> modify (λ s. record s { pending = false }))

  unfoldable pub close_open : Bool → Exec Closing (Unit {0})
  unfolding finalise export end_checkpoint
  close_open clean = do
    first ← finalise clean
    perform close_mount
    perform close_reader
    second ← export clean first
    perform close_source
    modify (λ s. record s { closed = true })
    end_checkpoint clean
    raise_when (first || second) acornfs_error

  unfoldable pub close : Bool → Exec Closing (Unit {0})
  unfolding close_open
  close clean = do closed ← gets (λ s. s.closed); when (not closed) (close_open clean)
