-- ===== src/Tests/Views.antt =====
-- Reads, caches, names, descriptors and budgets at concrete inputs.
use nautilus_acornfs.Prelude.{
  ℕ, ◌+◌, ◌*◌, ◌≡◌, ◌≢◌, refl, true, false, Option, none, some, List, [], ◌∷◌, if◌then◌else◌, ◌==◌,
  slice, take, drop, length, arith,
}
use nautilus_acornfs.Prelude.Text.{Text, Bytes, codes}
use nautilus_acornfs.Prelude.Result.{ok}
use nautilus_acornfs.Image.Node.{ImageNode}
use nautilus_acornfs.Image.Cache.{Cache, cache_file, cached_file}
use nautilus_acornfs.Image.Cache.Bounds.{IsCache, cache_file-IsCache, cached_file-eq}
use nautilus_acornfs.Image.Reads.{Files, read}
use nautilus_acornfs.Image.Reads.Ranges.{IsStored, read-eq}
use nautilus_acornfs.Image.Names.{display_name, new_name}
use nautilus_acornfs.Image.Names.RoundTrip.{new_name-display_name}
use nautilus_acornfs.Budget.{OperationBudget, pos}
use nautilus_acornfs.Budget.Spending.{Call, run_checkpoints, IsSpent, run_checkpoints_lem}
use nautilus_acornfs.Beebscsi.{
  BeebScsiGeometry, parse_descriptor, BeebScsiPair, Paths, matching_files, discover_pair,
}
use nautilus_acornfs.Beebscsi.Descriptors.{IsAddressable, parse_descriptor-IsAddressable}
use nautilus_acornfs.Prelude.Sorting.{sort}
use nautilus_acornfs.Prelude.Text.{text_before}
use nautilus_acornfs.Beebscsi.Pairs.{has_pair_suffix, IsPair, discover_pair-IsPair}

abbrev disc : Bytes
disc = 10 ∷ 20 ∷ 30 ∷ []

abbrev node : ImageNode
node = record {
  inode = 2;
  parent_inode = 1;
  name = codes "A";
  acorn_path = codes "$.A";
  is_dir = false;
  size = 3;
  locked = false;
  run_only = false;
}

abbrev files : Files
files = record {
  read_bytes = λ path. ok disc;
  is_old_adfs = true;
  start_sector = λ path. ok 0;
  sector_range = λ s n. take (n * 256) (drop (s * 256) disc);
}

node-IsStored : IsStored files disc node disc
node-IsStored = record {
  whole = refl;
  sized = refl;
  start = 0;
  located = refl;
  run = refl;
  sectors = λ s n. refl;
}

abbrev all_files : ℕ → Option Bytes
all_files inode = if inode == 2 then some disc else none

abbrev empty_cache : Cache
empty_cache = record { entries = []; used = 0; limit = 4 }

empty_cache-IsCache : IsCache all_files empty_cache
empty_cache-IsCache = record { keys = tt; counted = refl; within = omega arith; coherent = tt }

read-eq_example :
    ((read files ((2, node) ∷ []) 2 1 1 empty_cache).0 ≡ ok (slice 1 (1 + 1) disc))
    × IsCache all_files (read files ((2, node) ∷ []) 2 1 1 empty_cache).1
read-eq_example =
    read-eq files disc disc ((2, node) ∷ []) node all_files 1 1 empty_cache node-IsStored
      empty_cache-IsCache refl refl refl

abbrev new_files : ℕ → Option Bytes
new_files inode = if inode == 3 then some (7 ∷ []) else all_files inode

same_files : (j : ℕ) → 3 ≢ j → new_files j ≡ all_files j
same_files j h = ground arith

cache_file-IsCache_example : IsCache new_files (cache_file 3 (7 ∷ []) empty_cache)
cache_file-IsCache_example =
    cache_file-IsCache all_files new_files 3 (7 ∷ []) empty_cache empty_cache-IsCache refl
      same_files

cached_file-eq_example :
    ((cached_file 2 (ok disc) empty_cache).0 ≡ ok disc)
    × IsCache all_files (cached_file 2 (ok disc) empty_cache).1
cached_file-eq_example = cached_file-eq all_files 2 disc empty_cache empty_cache-IsCache refl

-- A codec of single bytes.
abbrev encode : Text → Bytes
encode t = t

abbrev decode : Bytes → Option Text
decode b = some b

new_name-display_name_example :
    new_name encode decode (codes "adfs") [] (display_name encode decode (codes "A/B"))
    ≡ ok (codes "A/B")
new_name-display_name_example =
    new_name-display_name encode decode (codes "adfs") [] (codes "A/B") (λ t. refl)
      (record { ascii = refl; nonempty = refl; short = refl; allowed = refl })

accepted_name : new_name encode decode (codes "adfs") [] (codes "PROG") ≡ ok (codes "PROG")
unfolding new_name
accepted_name = refl

abbrev budget : OperationBudget
budget = record { deadline = 100; max_items = 5; max_depth = 3; items = 1 }

abbrev calls : List Call
calls =
    record { cancelled = none; items = pos 2; depth = some 3; now = 10 }
    ∷ record { cancelled = some false; items = pos 2; depth = none; now = 99 }
    ∷ []

calls_pass : (run_checkpoints calls budget).0 ≡ ok tt
unfolding run_checkpoints
calls_pass = refl

run_checkpoints_lem_example : IsSpent budget calls (run_checkpoints calls budget).1
run_checkpoints_lem_example = run_checkpoints_lem calls budget (omega arith) calls_pass

abbrev descriptor : Bytes
descriptor =
    0 ∷ 0 ∷ 0 ∷ 8 ∷ 0 ∷ 0 ∷ 0 ∷ 0 ∷ 0 ∷ 0 ∷ 1 ∷ 0 ∷ 1 ∷ 1 ∷ 50 ∷ 4 ∷ 0 ∷ 128 ∷ 0 ∷ 128 ∷ 0 ∷ 1 ∷ []

abbrev geometry : BeebScsiGeometry
geometry = record { cylinders = 306; heads = 4; sectors_per_track = 33; sector_size = 256 }

descriptor_read : parse_descriptor descriptor ≡ ok geometry
unfolding parse_descriptor
descriptor_read = refl

parse_descriptor-IsAddressable_example : IsAddressable descriptor geometry
parse_descriptor-IsAddressable_example =
    parse_descriptor-IsAddressable descriptor geometry descriptor_read

-- A directory with one pair, whose members are told apart by their case here.
abbrev suffix_of : Text → Text
suffix_of path = if length path == 5 then codes ".dat" else codes ".dsc"

abbrev paths : Paths
paths = record {
  is_file = λ path. true;
  parent = λ path. codes "/";
  suffix = suffix_of;
  stem = λ path. codes "a";
  casefold = λ name. name;
  iterdir =
      λ directory. some ((codes "a.dat", codes "a.dat") ∷ (codes "/a.dsc", codes "a.dsc") ∷ []);
  resolve = λ path. path;
  read_bytes = λ path. none;
  st_size = λ path. none;
}

abbrev the_files : BeebScsiPair
the_files = record { dat_path = codes "a.dat"; dsc_path = codes "/a.dsc" }

discovered : discover_pair paths (codes "/a.dsc") ≡ ok the_files
unfolding discover_pair matching_files sort text_before
discovered = refl

discover_pair-IsPair_example :
    (paths.is_file (codes "/a.dsc") ≡ true)
    × (has_pair_suffix paths (codes "/a.dsc") ≡ true)
    × IsPair paths (codes "/a.dsc") the_files
discover_pair-IsPair_example = discover_pair-IsPair paths (codes "/a.dsc") the_files discovered
