-- ===== src/Tests/PrivateFiles.antt =====
-- The writing of a private file, with an interruption and short writes.
use nautilus_acornfs.Prelude.{ℕ, zero, suc, ◌+◌, ◌≡◌, subst, none, some, [], ◌∷◌, arith}
use nautilus_acornfs.Prelude.Text.{Bytes, codes}
use nautilus_acornfs.Prelude.Result.{ok}
use nautilus_acornfs.SafePaths.{
  Write, interrupted, wrote, Host, Directory, write_all, atomic_write_private_text,
}
use nautilus_acornfs.SafePaths.Progress.{IsFair, IsRunning, IsProgress, write_all_lem}
use nautilus_acornfs.SafePaths.Atomic.{IsAtomic, atomic_write_private_text-IsAtomic}

abbrev content : Bytes
content = 1 ∷ 2 ∷ 3 ∷ []

-- The first call is interrupted, and each other one takes two bytes.
abbrev writes : ℕ → Write
writes zero = interrupted
writes (suc call) = wrote 2

running : (call : ℕ) → IsRunning (writes call)
running zero = tt
running (suc call) = tt

writes-IsFair : IsFair writes
writes-IsFair = record {
  runs = running;
  later = λ call. 1;
  progress = λ call.
      let next : suc call ≡ call + 1 = omega arith in
      subst (λ k. IsProgress (writes k)) next (tt {0});
}

write_all_lem_example : (fuel : ℕ) × (write_all writes fuel 0 content [] ≡ some (ok tt, content))
write_all_lem_example = write_all_lem writes content writes-IsFair

abbrev host : Host
host = record { answer = λ call. ok tt; write = writes; fuel = 9 }

abbrev directory : Directory
directory = record { made = 0; target = some (7 ∷ []); temporary = none }

atomic_write_private_text-IsAtomic_example :
    IsAtomic
      (some (7 ∷ []))
      content
      (atomic_write_private_text host (codes "manifest.json") content directory)
atomic_write_private_text-IsAtomic_example =
    atomic_write_private_text-IsAtomic host (codes "manifest.json") content directory
