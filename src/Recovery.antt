-- ===== src/Recovery.antt =====
-- src/acornfs/recovery.py: the checkpoint of a writable session. Each step that touches a file is a call that the
-- host answers, also with the death of the process, which no handler sees. A directory is the state:
-- its manifest, and its backups in the order of the files that they belong to. The time of creation and
-- the messages are left out.
pub mod Restore
pub mod Copies
pub mod Authority
pub mod Restored
pub mod Completed
pub mod Recovered
use nautilus_acornfs.Prelude.{
  ℕ, zero, suc, Bool, true, false, ◌&&◌, not, Option, none, some, List, [], ◌∷◌, ◌++◌, set,
  replicate, if◌then◌else◌,
}
use nautilus_acornfs.Prelude.Text.{Text, Bytes, codes}
use nautilus_acornfs.Prelude.Result.{Error, Result, ok, err, acornfs_error, process_death}
use nautilus_acornfs.Prelude.Exec.{Exec, pure, raise, raise_when, modify, gets, reads, ◌>>=◌, ◌>>◌}

pub record RecoveryInfo : Type 0 where
  pub identity : Text
  pub dat_path : Text
  pub dsc_path : Option Text
  pub state : Text
  pub reflinked : Bool

-- A source of a backup: what each `read` of it gives, and whether it can be cloned.
pub record Source : Type 0 where
  pub chunks : List Bytes
  pub reflinks : Bool

-- The answer to each call, by the number of calls before it.
pub record Host : Type 0 where
  pub answer : ℕ → Result (Unit {0})

pub record Checkpoint : Type 0 where
  pub made : ℕ
  pub manifest : Option RecoveryInfo
  pub backups : List (Option Bytes)
  pub targets : List Bytes
  pub staged : List Bytes

abbrev pub concat : List Bytes → Bytes
concat [] = []
concat (c ∷ cs) = c ++ concat cs

abbrev pub content : Source → Bytes
content source = concat source.chunks

abbrev pub is_death : Error → Bool
is_death process_death = true
is_death _ = false

-- `with suppress(OSError)`
abbrev pub suppressed : Result (Unit {0}) → Result (Unit {0})
suppressed (ok done) = ok tt
suppressed (err error) = if is_death error then err error else ok tt

module _ (h : Host) where
  abbrev pub perform : Exec Checkpoint (Unit {0})
  perform s = (h.answer s.made, record s { made = suc s.made })

  -- A call, and what it has done where it returns.
  abbrev pub act : (Checkpoint → Checkpoint) → Exec Checkpoint (Unit {0})
  act f = perform >> modify f

  -- `_write_manifest`, which replaces the file as a whole, and then flushes the directory
  abbrev pub write_manifest : RecoveryInfo → Exec Checkpoint (Unit {0})
  write_manifest info = act (λ s. record s { manifest = some info }) >> perform

  abbrev pub set_backup : ℕ → Option Bytes → Checkpoint → Checkpoint
  set_backup i b s = record s { backups = set s.backups i b }

  -- The loop over the chunks of a source, behind what is written.
  unfoldable pub copy_chunks : ℕ → Bytes → List Bytes → Exec Checkpoint (Unit {0})
  copy_chunks i written [] = pure tt
  copy_chunks i written (chunk ∷ chunks) = do
    act (set_backup i (some (written ++ chunk)))
    copy_chunks i (written ++ chunk) chunks

  abbrev pub copy_content : ℕ → Source → Bool → Exec Checkpoint (Unit {0})
  copy_content i source true = act (set_backup i (some (content source)))
  copy_content i source false = copy_chunks i [] source.chunks

  -- `except BaseException`: the destination goes, if it can be removed
  abbrev pub remove_backup : ℕ → Exec Checkpoint (Unit {0})
  remove_backup i s = let (result, after) = act (set_backup i none) s in (suppressed result, after)

  abbrev pub copied : ℕ → Result (Unit {0}) → Exec Checkpoint (Unit {0})
  copied i (ok done) = pure tt
  copied i (err error) = if is_death error then raise error else (remove_backup i >> raise error)

  abbrev pub guarded_copy : ℕ → Exec Checkpoint (Unit {0}) → Exec Checkpoint (Unit {0})
  guarded_copy i m s = let (result, after) = m s in copied i result after

  -- `_checkpoint_copy`: the destination is created, filled, flushed and given its mode. One that could not be
  -- created is not removed.
  unfoldable pub checkpoint_copy : ℕ → Source → Exec Checkpoint (Unit {0})
  unfolding copy_chunks
  checkpoint_copy i source = do
    perform
    act (set_backup i (some []))
    guarded_copy i (copy_content i source source.reflinks >> perform)

  -- The copies of the sources, in order.
  unfoldable pub copy_sources : ℕ → List Source → Exec Checkpoint (Unit {0})
  copy_sources i [] = pure tt
  copy_sources i (source ∷ sources) = checkpoint_copy i source >> copy_sources (suc i) sources

  -- The backups are removed in order.
  unfoldable pub remove_backups : ℕ → ℕ → Exec Checkpoint (Unit {0})
  remove_backups zero i = pure tt
  remove_backups (suc n) i = act (set_backup i none) >> remove_backups n (suc i)

  -- `complete`
  unfoldable pub complete : ℕ → Exec Checkpoint (Unit {0})
  complete count = do
    act (λ s. record s { manifest = none })
    perform
    remove_backups count 0
    perform

abbrev pub all_reflink : List Source → Bool
all_reflink [] = true
all_reflink (source ∷ sources) = source.reflinks && all_reflink sources

abbrev pub with_state : Text → Bool → RecoveryInfo → RecoveryInfo
with_state state reflinked info = record info { state = state; reflinked = reflinked }

abbrev pub is_pending : Option RecoveryInfo → Bool
is_pending none = false
is_pending (some info) = true

module _ (h : Host) where
  -- From the first manifest to the one that says that the checkpoint is ready.
  unfoldable pub fill : RecoveryInfo → List Source → Exec Checkpoint (Unit {0})
  fill info sources = do
    write_manifest h (with_state (codes "creating") false info)
    perform h
    copy_sources h 0 sources
    write_manifest h (with_state (codes "ready") (all_reflink sources) info)

  abbrev pub abandon : ℕ → Exec Checkpoint (Unit {0})
  abandon count s =
      let (result, after) = complete h count s in
      (elim (suppressed result) [ ok done ↦ err acornfs_error | err error ↦ err error ], after)

  -- `except Exception`: the checkpoint is removed as far as that works
  abbrev pub filled : ℕ → Result (Unit {0}) → Exec Checkpoint (Unit {0})
  filled count (ok done) = pure tt
  filled count (err error) = if is_death error then raise error else abandon count

  abbrev pub guarded_fill : ℕ → Exec Checkpoint (Unit {0}) → Exec Checkpoint (Unit {0})
  guarded_fill count m s = let (result, after) = m s in filled count result after

  -- `create`, for the file or the files of an image
  unfoldable pub create : RecoveryInfo → List Source → ℕ → Exec Checkpoint (Unit {0})
  create info sources count = do
    pending ← gets (λ s. is_pending s.manifest)
    raise_when pending acornfs_error
    perform h
    remove_backups h count 0
    perform h
    guarded_fill count (fill info sources)
