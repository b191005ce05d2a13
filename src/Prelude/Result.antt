-- ===== src/Prelude/Result.antt =====
-- Exceptions as values. What was written before a raise stays written, so an action returns the
-- state beside the error too.
use mathlib.Core.Bool.{Bool, true, false}

-- The codes of the errors that the FUSE adapter answers with.
pub data Errno : Type 0 where
  enoent eexist enotempty enospc eacces eisdir enotdir enametoolong einval eio ebadf erofs : Errno

-- The exception classes that the modelled code raises or tells apart in a handler. `foreign` is
-- any other exception. `process_death` is none, but the end of the process, which no handler sees: it is an
-- answer of the hosts of Recovery and SafePaths only.
pub data Error : Type 0 where
  file_not_found file_exists is_a_directory not_a_directory permission_error : Error
  os_error value_error key_error index_error : Error
  acornfs_error descriptor_error pair_discovery_error filename_too_long : Error
  operation_cancelled operation_limit_exceeded mmb_format_error : Error
  adfs_disc_full adfs_directory_full adfs_not_empty adfs_entry_exists : Error
  adfs_file_locked adfs_path_error adfs_error : Error
  memory_error process_death : Error
  fuse_error : Errno → Error
  foreign : Error

pub data Result {ℓ} (Value : Type ℓ) : Type ℓ where
  err : Error → Result Value
  ok : Value → Result Value

-- `if test: raise error`
abbrev pub raise_if : Bool → Error → Result (Unit {0})
raise_if false error = ok tt
raise_if true error = err error

infixl 5 ◌>>=◌ ◌>>◌
abbrev pub ◌>>=◌ {ℓ κ} :
    {Value : Type ℓ} {Next : Type κ} → Result Value → (Value → Result Next) → Result Next
err error >>= next = err error
ok value >>= next = next value

abbrev pub ◌>>◌ {ℓ} : {Next : Type ℓ} → Result (Unit {0}) → Result Next → Result Next
first >> second = first >>= λ done. second
