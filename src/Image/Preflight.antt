-- ===== src/Image/Preflight.antt =====
-- `preflight_file_size` and `_preflight_file_size`: a size is refused before Oaknut frees data that it
-- could not allocate again. Sizes are not negative, since FUSE passes unsigned numbers.
pub mod Largest
use nautilus_acornfs.Prelude.{
  ℕ, ◌+◌, ◌-◌, ◌*◌, ◌/◌, max, Bool, true, false, not, ◌&&◌, ◌||◌, Option, none, some, List, [], ◌∷◌,
  ◌++◌, if◌then◌else◌, ltb, leb, ◌==◌, map,
}
use nautilus_acornfs.Prelude.Text.{Text}
use nautilus_acornfs.Prelude.Sorting.{sort}
use nautilus_acornfs.Prelude.Dict.{Dict, lookup}
use nautilus_acornfs.Prelude.Result.{
  Result, ok, err, key_error, is_a_directory, adfs_disc_full, acornfs_error, foreign, ◌>>=◌,
}
use nautilus_acornfs.Image.Node.{ImageNode}

-- Tuples are sorted by start, then by length.
abbrev pub before_pair : ℕ × ℕ → ℕ × ℕ → Bool
before_pair (s, l) (s', l') = ltb s s' || (s == s' && leb l l')

-- The loop behind the sort, once `current_start` has been set.
unfoldable pub merge_loop : ℕ → ℕ → ℕ → List (ℕ × ℕ) → ℕ
merge_loop largest start stop [] = max largest (stop - start)
merge_loop largest start stop ((s, l) ∷ rest) =
    merge_loop (if ltb stop s then max largest (stop - start) else largest)
      (if ltb stop s then s else start) (if ltb stop s then s + l else max stop (s + l)) rest

-- The first extent sets `current_start` and `current_end`.
unfoldable pub merge_first : List (ℕ × ℕ) → ℕ
unfolding merge_loop
merge_first [] = 0
merge_first ((s, l) ∷ rest) = merge_loop 0 s (s + l) rest

unfoldable pub largest_extent : List (ℕ × ℕ) → ℕ
unfolding merge_first
largest_extent extents = merge_first (sort before_pair extents)

-- What the preflight asks of Oaknut. `available_bytes` is there for MMB and double-sided DFS mounts.
pub record Allocation : Type 0 where
  pub has_free_space_map : Bool
  pub available_bytes : Option (Text → Result ℕ)
  pub free_space_entries : Result (List (ℕ × ℕ))
  pub start_sector : Text → Result (Option ℕ)

abbrev pub sectors_for : ℕ → ℕ
sectors_for size = (size + 256 - 1) / 256

module _ (host : Allocation) where
  abbrev free_for : Option (Text → Result ℕ) → Text → ℕ → Result ℕ
  free_for none path free_bytes = ok free_bytes
  free_for (some available) path free_bytes = available path

  -- Without a free-space map the bytes are counted.
  preflight_bytes : ImageNode → ℕ → ℕ → Result (Unit {0})
  preflight_bytes node free_bytes new_size = do
    free ← free_for host.available_bytes node.acorn_path free_bytes
    if ltb (free + node.size) new_size then err adfs_disc_full else ok tt

  -- The file's own sectors count as free.
  abbrev with_old : ℕ → Option ℕ → List (ℕ × ℕ) → Result (List (ℕ × ℕ))
  with_old old none extents = if old == 0 then ok extents else err foreign
  with_old old (some start) extents =
      ok (if old == 0 then extents else extents ++ (start, old) ∷ [])

  unfoldable pub candidate_extents : ImageNode → Result (List (ℕ × ℕ))
  candidate_extents node = do
    start ← host.start_sector node.acorn_path
    entries ← host.free_space_entries
    with_old (sectors_for node.size) start (map (λ e. (e.0 / 256, e.1 / 256)) entries)

  -- An allocation that cannot be read fails the session: the second part of the result.
  fits : ℕ → Result (List (ℕ × ℕ)) → Result (Unit {0}) × Bool
  fits required (ok extents) =
      (if ltb (largest_extent extents) required then err adfs_disc_full else ok tt, false)
  fits required (err e) = (err acornfs_error, true)

  unfoldable pub preflight_node : ImageNode → ℕ → ℕ → Result (Unit {0}) × Bool
  unfolding preflight_bytes candidate_extents fits
  preflight_node node free_bytes new_size =
      if sectors_for new_size == 0
      then (ok tt, false)
      else if not host.has_free_space_map
      then (preflight_bytes node free_bytes new_size, false)
      else fits (sectors_for new_size) (candidate_extents node)

  preflight_found : Option ImageNode → ℕ → ℕ → Result (Unit {0}) × Bool
  unfolding preflight_node
  preflight_found none free_bytes new_size = (err key_error, false)
  preflight_found (some node) free_bytes new_size =
      if node.is_dir then (err is_a_directory, false) else preflight_node node free_bytes new_size

  unfoldable pub preflight_file_size : Dict ImageNode → ℕ → ℕ → ℕ → Result (Unit {0}) × Bool
  unfolding preflight_found
  preflight_file_size nodes inode free_bytes new_size =
      preflight_found (lookup inode nodes) free_bytes new_size
