-- ===== src/Validation/Walk.antt =====
-- The traversal of the catalogue inside `validate_open_mount`, the function `walk` there. What Oaknut reads
-- from the disc, the caller's answers and the clock are a `Volume`; a state is the lists and the
-- budget that the function carries. The recursion is on fuel, and running out of it raises `foreign`.
pub mod Steps
pub mod Stops
pub mod Reached
use nautilus_acornfs.Prelude.{
  ℕ, zero, suc, ◌+◌, ◌/◌, Bool, true, false, Option, some, List, [], ◌∷◌, ◌++◌, any, ◌==◌, not,
  if◌then◌else◌,
}
use nautilus_acornfs.Prelude.Text.{Text, codes}
use nautilus_acornfs.Prelude.Result.{Result, ok, err, foreign}
use nautilus_acornfs.Prelude.Exec.{Exec, pure, raise, gets, modify, ◌>>=◌, ◌>>◌}
use nautilus_acornfs.Budget
use nautilus_acornfs.Budget.{OperationBudget, ℤ, pos}
use nautilus_acornfs.Beebscsi.{sector_size}
use nautilus_acornfs.Validation.Findings.{Severity, Finding, fatal, warning}
use nautilus_acornfs.Validation.Extents.{Extent}

-- An entry of a directory, as Oaknut reads it.
pub record Entry : Type 0 where
  pub name : Text
  pub is_directory : Bool
  pub start_sector : ℕ
  pub length : ℕ

-- `free_space_entries` yields pairs of bytes, and may then raise; `problems` are what the mount's
-- `validate` yields, if it has one. `cancelled` and `now` answer the checkpoints by their number.
pub record Volume : Type 0 where
  pub total_sectors : ℕ
  pub directory_sectors : ℕ
  pub directory_bytes : ℕ
  pub read_root_directory : Result (List Entry)
  pub read_directory_at : ℕ → Result (List Entry)
  pub problems : List Text
  pub problems_end : Result (Unit {0})
  pub free_space_entries : List (ℕ × ℕ)
  pub free_space_end : Result (Unit {0})
  pub cancelled : ℕ → Option Bool
  pub now : ℕ → ℕ

pub record Audit : Type 0 where
  pub budget : OperationBudget
  pub checkpoints : ℕ
  pub findings : List Finding
  pub used_extents : List Extent
  pub free_extents : List Extent
  pub seen_directories : List ℕ

-- `operation.checkpoint(cancelled, items=…, depth=…)`
abbrev pub checkpoint : Volume → ℕ → Option ℕ → Exec Audit (Unit {0})
checkpoint v items depth s =
    let (result, budget) =
      Budget.checkpoint (v.cancelled s.checkpoints) (pos items) depth (v.now s.checkpoints)
        s.budget in
    (result, record s { budget = budget; checkpoints = suc s.checkpoints })

abbrev pub add_findings : List Finding → Exec Audit (Unit {0})
add_findings more = modify (λ s. record s { findings = s.findings ++ more })

abbrev pub add_finding : Severity → Text → Option Text → Exec Audit (Unit {0})
add_finding severity code path =
    add_findings (record { severity = severity; code = code; path = path } ∷ [])

-- `if test: findings.append(…)`
abbrev pub add_when : Bool → Severity → Text → Option Text → Exec Audit (Unit {0})
add_when test severity code path =
    add_findings
      (if test then record { severity = severity; code = code; path = path } ∷ [] else [])

abbrev pub add_used : Extent → Exec Audit (Unit {0})
add_used e = modify (λ s. record s { used_extents = s.used_extents ++ (e ∷ []) })

abbrev add_seen : ℕ → Exec Audit (Unit {0})
add_seen start = modify (λ s. record s { seen_directories = start ∷ s.seen_directories })

abbrev pub child_path : Text → Entry → Text
child_path path e = path ++ (codes "." ++ e.name)

abbrev pub directory_extent : Volume → Text → Entry → Extent
directory_extent v path e = record {
  start = e.start_sector;
  stop = e.start_sector + v.directory_sectors;
  owner = child_path path e;
}

abbrev pub file_sectors : Entry → ℕ
file_sectors e = (e.length + 255) / sector_size

abbrev pub file_extent : Text → Entry → Extent
file_extent path e = record {
  start = e.start_sector;
  stop = e.start_sector + file_sectors e;
  owner = child_path path e;
}

module _ (descend : List Entry → Text → Exec Audit (Unit {0})) where
  abbrev pub enter_child : Result (List Entry) → Text → Exec Audit (Unit {0})
  enter_child (ok child) path = descend child path
  enter_child (err error) path = add_finding fatal (codes "directory.unreadable") (some path)

  abbrev pub enter_once : Volume → Bool → ℕ → Text → Exec Audit (Unit {0})
  enter_once v true start path = add_finding fatal (codes "directory.cycle") (some path)
  enter_once v false start path = add_seen start >> enter_child (v.read_directory_at start) path

  unfoldable pub examine_directory : Volume → Text → Entry → Exec Audit (Unit {0})
  examine_directory v path e = do
    add_used (directory_extent v path e)
    add_when (not (e.length == v.directory_bytes)) warning (codes "directory.length_unusual")
        (some (child_path path e))
    again ← gets (λ s. any (λ start. start == e.start_sector) s.seen_directories)
    enter_once v again e.start_sector (child_path path e)

unfoldable pub examine_file : Text → Entry → Exec Audit (Unit {0})
examine_file path e =
    if file_sectors e == 0
    then add_when (not (e.start_sector == 0)) warning (codes "file.empty_has_extent")
        (some (child_path path e))
    else add_used (file_extent path e)

module _ (descend : List Entry → Text → Exec Audit (Unit {0})) where
  abbrev pub examine : Volume → Text → Entry → Bool → Exec Audit (Unit {0})
  examine v path e true = examine_directory descend v path e
  examine v path e false = examine_file path e

  -- The loop over the entries of one directory.
  unfoldable pub walk_entries : Volume → ℕ → Text → List Entry → Exec Audit (Unit {0})
  walk_entries v depth path [] = pure tt
  walk_entries v depth path (e ∷ entries) = do
    checkpoint v 1 (some depth)
    examine v path e e.is_directory
    walk_entries v depth path entries

unfoldable pub walk : ℕ → Volume → ℕ → List Entry → Text → Exec Audit (Unit {0})
unfolding walk_entries
walk zero v depth entries path = checkpoint v 0 (some depth) >> raise foreign
walk (suc fuel) v depth entries path = do
  checkpoint v 0 (some depth)
  walk_entries (walk fuel v (suc depth)) v depth path entries
