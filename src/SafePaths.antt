-- ===== src/SafePaths.antt =====
-- src/acornfs/safe_paths.py: the writing of private state. What `os.write` answers is a
-- script; the other calls are answered by the host, also with the death of the process. The traversal of the
-- directories is one call.
pub mod Progress
pub mod Atomic
use nautilus_acornfs.Prelude.{
  ℕ, zero, suc, Bool, true, false, ◌||◌, Option, none, some, List, [], ◌∷◌, ◌++◌, take, drop,
  if◌then◌else◌,
}
use nautilus_acornfs.Prelude.Text.{Text, Bytes, codes, text_eq}
use nautilus_acornfs.Prelude.Result.{Error, Result, ok, err, acornfs_error, os_error, process_death}
use nautilus_acornfs.Prelude.Exec.{Exec, pure, raise, raise_when, modify, ◌>>=◌, ◌>>◌}

-- An answer of `os.write`.
pub data Write : Type 0 where
  interrupted : Write
  wrote : ℕ → Write
  refused : Error → Write

abbrev pub Written : Type 0
Written = Option (Result (Unit {0}) × Bytes)

-- What follows an answer, for the first byte of the view and the rest of it.
abbrev pub after_call : (Bytes → Bytes → Written) → Write → ℕ → Bytes → Bytes → Written
after_call next interrupted b view written = next (b ∷ view) written
after_call next (refused error) b view written = some (err error, written)
after_call next (wrote zero) b view written = some (err os_error, written)
after_call next (wrote (suc n)) b view written = next (drop n view) (written ++ (b ∷ take n view))

-- The loop of `_write_all` from a call on, behind what is written; `none` where the fuel ends first.
unfoldable pub write_all : (ℕ → Write) → ℕ → ℕ → Bytes → Bytes → Written
write_all os zero call view written = none
write_all os (suc fuel) call [] written = some (ok tt, written)
write_all os (suc fuel) call (b ∷ view) written =
    after_call (write_all os fuel (suc call)) (os call) b view written

pub record Host : Type 0 where
  pub answer : ℕ → Result (Unit {0})
  pub write : ℕ → Write
  pub fuel : ℕ

-- The file, and the temporary file beside it.
pub record Directory : Type 0 where
  pub made : ℕ
  pub target : Option Bytes
  pub temporary : Option Bytes

abbrev pub is_unsafe_name : Text → Bool
is_unsafe_name name = text_eq name [] || (text_eq name (codes ".") || text_eq name (codes ".."))

abbrev pub is_death : Error → Bool
is_death process_death = true
is_death _ = false

module _ (h : Host) where
  abbrev pub perform : Exec Directory (Unit {0})
  perform s = (h.answer s.made, record s { made = suc s.made })

  -- A write that never ends is like one at which the process dies.
  abbrev pub after_write : Written → Exec Directory (Unit {0})
  after_write none s = (err process_death, s)
  after_write (some (result, written)) s = (result, record s { temporary = some written })

  abbrev pub replace_target : Exec Directory (Unit {0})
  replace_target = perform >> modify (λ s. record s { target = s.temporary; temporary = none })

  -- The temporary file is given its mode, flushed and closed, and takes the file's place.
  unfoldable pub publish : Exec Directory (Unit {0})
  publish = do perform; perform; perform; replace_target; perform

  unfoldable pub replace_with : Bytes → Exec Directory (Unit {0})
  unfolding write_all publish
  replace_with content = do
    perform
    modify (λ s. record s { temporary = some [] })
    after_write (write_all h.write h.fuel 0 content [])
    publish

  abbrev pub is_absent : Option Bytes → Bool
  is_absent none = true
  is_absent (some bytes) = false

  -- `with suppress(OSError): os.unlink(temporary_name)`
  abbrev pub removed : Result (Unit {0}) → Directory → Directory
  removed (ok done) s = record s { temporary = none }
  removed (err error) s = s

  abbrev pub cleaned : Result (Unit {0}) → Exec Directory (Unit {0})
  cleaned (ok done) s = (ok tt, s)
  cleaned (err error) s =
      if is_death error || is_absent s.temporary
      then (err error, s)
      else let (result, after) = perform s in (err error, removed result after)

  abbrev pub attempted : Exec Directory (Unit {0}) → Exec Directory (Unit {0})
  attempted m s = let (result, after) = m s in cleaned result after

  unfoldable pub atomic_write_private_text : Text → Bytes → Exec Directory (Unit {0})
  unfolding replace_with
  atomic_write_private_text name content = do
    raise_when (is_unsafe_name name) acornfs_error
    perform
    attempted (replace_with content)
