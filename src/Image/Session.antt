-- ===== src/Image/Session.antt =====
-- The protected mutations of `ReadOnlyImage`: `_prepare_mutation`, `_mutation`, `_run_atomic`, `sync`,
-- `_finish_mutation` and `_finish_rollback`. The index and the cache of the image are the `Memory`
-- that a commit updates. Calls of the operating system and of Oaknut are the parameter `Host`; those
-- that cannot write the mapping return a new environment only.
pub mod Rollback
pub mod Failure
pub mod Guards
pub mod Tests
use nautilus_acornfs.Prelude.{
  ℕ, ◌+◌, Bool, true, false, not, ◌||◌, Option, none, some, List, [], ◌∷◌, ◌++◌, if◌then◌else◌,
}
use nautilus_acornfs.Prelude.Text.{Text, Bytes, codes, text_eq}
use nautilus_acornfs.Prelude.Result.{
  Error, Result, ok, err, permission_error, acornfs_error, file_not_found, is_a_directory,
  not_a_directory, value_error, filename_too_long, mmb_format_error,
}
use nautilus_acornfs.Prelude.Exec.{Exec, pure, raise_when, gets, modify, continue, ◌>>=◌, ◌>>◌}
use nautilus_acornfs.Transaction
use nautilus_acornfs.Transaction.{SectorTransaction}
use nautilus_acornfs.Transaction.File.{restore_file}
use nautilus_acornfs.Transaction.DiscId.{FreeSpaceMap, advance_disc_id}
use nautilus_acornfs.Transaction.Restore.{capture_all}
use nautilus_acornfs.Validation.Findings.{Report, Finding, fatal_findings}

-- The mapped bytes, and all else that the process can reach.
pub record World (Env : Type 0) : Type 0 where
  pub mapping : Bytes
  pub env : Env

-- What the session asks of the system and of Oaknut.
pub record Host (Env : Type 0) : Type 0 where
  pub fsm : FreeSpaceMap
  -- `_current_signature`: device, inode, size and times of each member.
  pub current_signature : World Env → Result (List ℕ)
  pub flush : World Env → Result (Unit {0}) × Env
  pub fsync : World Env → Result (Unit {0}) × Env
  pub fault_injector : Option (Text → World Env → Result (Unit {0}) × Env)
  pub free_space : World Env → Result ℕ
  pub integrity_report : World Env → Result Report
  pub require_generic_integrity : World Env → Result (Unit {0})
  -- The copy that a `FileTransaction` makes, and the removal of that copy.
  pub checkpoint_copy : World Env → Result Bytes × Env
  pub remove_backup : World Env → Result (Unit {0}) × Env
  -- `isinstance(exc, ADFSError)`
  pub is_adfs_error : Error → Bool

pub record State (Env Memory : Type 0) : Type 0 where
  pub world : World Env
  pub memory : Memory
  pub writable : Bool
  pub failed : Bool
  pub expected_signature : Option (List ℕ)
  pub free_bytes : ℕ
  -- `_uses_old_adfs_transactions`, `pair is not None` and `_checkpoint is not None`
  pub old_adfs : Bool
  pub has_pair : Bool
  pub has_checkpoint : Bool

-- What `prepare` did: the captures that it made, how it ended, and whether it failed the session, as
-- `_preflight_file_size` does when it cannot read the allocation.
pub record Prepared : Type 0 where
  pub captures : List (ℕ × ℕ)
  pub ended : Result (Unit {0})
  pub fails : Bool

-- One logical operation.
pub record Operation (Env Memory A : Type 0) : Type 0 where
  pub name : Text
  pub prepare : Bytes → Prepared
  pub mutate : World Env → Result (Unit {0}) × World Env
  pub commit : World Env → Memory → Result A × Memory

-- The two kinds of transaction.
pub data Before : Type 0 where
  sectors : SectorTransaction → Before
  copy : Bytes → Before

-- How the body of `_mutation` ends; `rolled_back` carries `_MutationRolledBack.original`.
pub data Outcome (A : Type 0) : Type 0 where
  returned : A → Outcome A
  raised : Error → Outcome A
  rolled_back : Error → Outcome A

abbrev same_signature : Option (List ℕ) → List ℕ → Bool
same_signature none now = false
same_signature (some expected) now = text_eq now expected

abbrev is_set : Option (List ℕ) → Bool
is_set none = false
is_set (some x) = true

abbrev no_findings : List Finding → Bool
no_findings [] = true
no_findings (f ∷ fs) = false

abbrev copied : Result Bytes → Result Before
copied (ok b) = ok (copy b)
copied (err e) = err e

-- `prepare`: its captures, which only a sector transaction keeps.
pub captured : Before → Bytes → List (ℕ × ℕ) → Before
captured (sectors t) mapping cs = sectors (capture_all mapping cs t)
captured (copy b) mapping cs = copy b

pub restored : Before → Bytes → Result (Unit {0}) × Bytes
restored (sectors t) = Transaction.restore t
restored (copy b) = restore_file b

module _ {Env : Type 0} (host : Host Env) where
  -- The classes that the `except` clause of `_mutation` lets through without failing the session.
  pub is_benign : Error → Bool
  is_benign file_not_found = true
  is_benign is_a_directory = true
  is_benign not_a_directory = true
  is_benign permission_error = true
  is_benign value_error = true
  is_benign filename_too_long = true
  is_benign mmb_format_error = true
  is_benign e = host.is_adfs_error e

module _ {Env Memory : Type 0} (host : Host Env) where
  -- A call that leaves the mapping alone.
  abbrev pub env_call : (World Env → Result (Unit {0}) × Env) → Exec (State Env Memory) (Unit {0})
  env_call f s = let (r, e) = f s.world in (r, record s { world = record s.world { env = e } })

  -- `_fault`
  abbrev fault_call :
      Option (Text → World Env → Result (Unit {0}) × Env)
      → Text
      → Exec (State Env Memory) (Unit {0})
  fault_call none stage s = (ok tt, s)
  fault_call (some inject) stage s = env_call (inject stage) s

  pub fault : Text → Exec (State Env Memory) (Unit {0})
  fault = fault_call host.fault_injector

  -- The last check of `_prepare_mutation`.
  check_signature : List ℕ → Exec (State Env Memory) (Unit {0})
  check_signature now s =
      if same_signature s.expected_signature now
      then (ok tt, s)
      else (err acornfs_error, record s { failed = true })

  pub prepare_mutation : Exec (State Env Memory) (Unit {0})
  unfolding check_signature
  prepare_mutation s =
      if not s.writable
      then (err permission_error, s)
      else if s.failed
      then (err acornfs_error, s)
      else if not (is_set s.expected_signature)
      then (err acornfs_error, s)
      else continue (host.current_signature s.world) check_signature s

  store_signature : List ℕ → Exec (State Env Memory) (Unit {0})
  store_signature now s = (ok tt, record s { expected_signature = some now })

  write_through : Exec (State Env Memory) (Unit {0})
  unfolding store_signature
  write_through = do
    env_call host.flush
    env_call host.fsync
    λ s. continue (host.current_signature s.world) store_signature s

  pub sync : Exec (State Env Memory) (Unit {0})
  unfolding write_through
  sync s = if s.writable then write_through s else (ok tt, s)

  store_free : ℕ → Exec (State Env Memory) (Unit {0})
  store_free free s = (ok tt, record s { free_bytes = free })

  pub finish_mutation : Exec (State Env Memory) (Unit {0})
  unfolding sync store_free
  finish_mutation = do sync; λ s. continue (host.free_space s.world) store_free s

  refuse_fatal : Report → Exec (State Env Memory) (Unit {0})
  refuse_fatal report = raise_when (not (no_findings (fatal_findings report))) acornfs_error

  check_rollback : Exec (State Env Memory) (Unit {0})
  unfolding refuse_fatal
  check_rollback s =
      if s.has_pair
      then continue (host.integrity_report s.world) refuse_fatal s
      else (host.require_generic_integrity s.world, s)

  pub finish_rollback : Exec (State Env Memory) (Unit {0})
  unfolding check_rollback finish_mutation
  finish_rollback = do check_rollback; finish_mutation

  -- The transaction of the format, or the error of its constructor.
  pub begin : Exec (State Env Memory) Before
  begin s =
      if s.old_adfs
      then (ok (sectors (Transaction.begin s.world.mapping)), s)
      else if not s.has_checkpoint
      then (err acornfs_error, s)
      else (let (r, e) = host.checkpoint_copy s.world in
          (copied r, record s { world = record s.world { env = e } }))

  -- `transaction.advance_disc_id()`, which does nothing in a `FileTransaction`.
  pub advance : Before → Exec (State Env Memory) (Unit {0})
  advance (sectors t) s = (
    ok tt,
    record s { world = record s.world { mapping = (advance_disc_id host.fsm s.world.mapping).2 } },
  )
  advance (copy b) s = (ok tt, s)

  -- `transaction.complete()`, which removes the copy of a `FileTransaction`.
  pub complete : Before → Exec (State Env Memory) (Unit {0})
  complete (sectors t) s = (ok tt, s)
  complete (copy b) s = env_call host.remove_backup s

  -- `transaction.restore()`
  pub restore : Before → Exec (State Env Memory) (Unit {0})
  unfolding restored
  restore before s =
      let (r, m) = restored before s.world.mapping in
      (r, record s { world = record s.world { mapping = m } })

  abbrev mutate_call :
      (World Env → Result (Unit {0}) × World Env) → Exec (State Env Memory) (Unit {0})
  mutate_call f s = let (r, w) = f s.world in (r, record s { world = w })

module _ {Env Memory A : Type 0} (host : Host Env) (op : Operation Env Memory A) where
  -- The `try` block of `_run_atomic`, after `prepare` has made its captures.
  pub attempt : Before → Result (Unit {0}) → Exec (State Env Memory) (Unit {0})
  attempt before prepared = do
    λ s. (prepared, s)
    fault host (op.name ++ codes ".before")
    mutate_call host op.mutate
    advance host before
    fault host (op.name ++ codes ".after")
    finish_mutation host
    complete host before

  -- The handler: restore, validate, complete.
  pub roll_back : Before → Exec (State Env Memory) (Unit {0})
  roll_back before = do restore host before; finish_rollback host; complete host before

  abbrev pub outcome_of : Result A → Outcome A
  outcome_of (ok a) = returned a
  outcome_of (err e) = raised e

  -- `return commit()`
  committed : State Env Memory → Outcome A × State Env Memory
  committed s =
      let (r, memory) = op.commit s.world s.memory in (outcome_of r, record s { memory = memory })

  -- The end of the handler: a failed rollback fails the session.
  after_rollback : Error → Result (Unit {0}) × State Env Memory → Outcome A × State Env Memory
  after_rollback e (ok _, s) = (rolled_back e, s)
  after_rollback e (err _, s) = (raised acornfs_error, record s { failed = true })

  settle : Before → Result (Unit {0}) × State Env Memory → Outcome A × State Env Memory
  unfolding committed after_rollback
  settle before (ok _, s) = committed s
  settle before (err e, s) = after_rollback e (roll_back before s)

  after_begin : Result Before × State Env Memory → Outcome A × State Env Memory
  unfolding settle attempt captured
  after_begin (err e, s) = (raised e, s)
  after_begin (ok before, s) =
      let prepared = op.prepare s.world.mapping in
      let before' = captured before s.world.mapping prepared.captures in
      settle before'
        (attempt before' prepared.ended (record s { failed = s.failed || prepared.fails }))

  -- The handlers of `_mutation`.
  leave : Outcome A × State Env Memory → Result A × State Env Memory
  unfolding is_benign
  leave (returned a, s) = (ok a, s)
  leave (rolled_back e, s) = (err e, s)
  leave (raised e, s) = (err e, if is_benign host e then s else (record s { failed = true }))

  after_prepare : Result (Unit {0}) × State Env Memory → Result A × State Env Memory
  unfolding leave after_begin begin
  after_prepare (err e, s) = (err e, s)
  after_prepare (ok _, s) = leave (after_begin (begin host s))

  -- `_run_atomic` inside `with self._mutation()`.
  pub run_atomic : Exec (State Env Memory) A
  unfolding after_prepare prepare_mutation
  run_atomic s = after_prepare (prepare_mutation host s)
