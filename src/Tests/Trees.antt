-- ===== src/Tests/Trees.antt =====
-- The index after a rename, and a buffer after a write.
use nautilus_acornfs.Prelude.{
  ℕ, ◌+◌, ◌≤◌, ◌≢◌, ◌++◌, ◌<◌, ◌≡◌, refl, false, true, none, some, [], ◌∷◌, length, get_elem?, max,
}
use nautilus_acornfs.Prelude.Text.{Text, Bytes, codes}
use nautilus_acornfs.Prelude.Result.{ok}
use nautilus_acornfs.Image.Node.{ImageNode}
use nautilus_acornfs.Image.Index.{Index, commit_rename}
use nautilus_acornfs.Image.Index.Renamed.{IsRenamed, commit_rename_lem}
use nautilus_acornfs.Fuse.Writes.{write_into}
use nautilus_acornfs.Fuse.Writes.Buffers.{write_into_lem}

abbrev directory : ImageNode
directory = record {
  inode = 2;
  parent_inode = 1;
  name = codes "A";
  acorn_path = codes "$.A";
  is_dir = true;
  size = 0;
  locked = false;
  run_only = false;
}

abbrev inner : ImageNode
inner = record directory {
  inode = 3;
  parent_inode = 2;
  name = codes "F";
  acorn_path = codes "$.A.F";
  is_dir = false;
}

abbrev beside : ImageNode
beside = record inner { inode = 4; parent_inode = 1; name = codes "AB"; acorn_path = codes "$.AB" }

abbrev index : Index
index = record {
  nodes = (2, directory) ∷ (3, inner) ∷ (4, beside) ∷ [];
  children = (1, 2 ∷ 4 ∷ []) ∷ (2, 3 ∷ []) ∷ [];
  children_by_name = (1, (codes "A", 2) ∷ (codes "AB", 4) ∷ []) ∷ (2, (codes "F", 3) ∷ []) ∷ [];
  next_inode = 5;
}

-- The directory `$.A` becomes `$.B`, beside a file `$.AB` that stays.
not_below : (rest : Text) → codes "$.B" ≢ codes "$.A" ++ b'.' ∷ rest
not_below rest e = cc e

commit_rename_lem_example :
    (after : Index) × (commit_rename directory none 1 1
        (codes "B")
        (codes "$.A")
        (codes "$.B")
        index
      ≡ ok (
        record directory { parent_inode = 1; name = codes "B"; acorn_path = codes "$.B" },
        after,
      ))
    × IsRenamed directory 1 1
        (codes "B")
        (codes "$.A")
        (codes "$.B")
        (2 ∷ 4 ∷ [])
        ((codes "A", 2) ∷ (codes "AB", 4) ∷ [])
        index
        after
commit_rename_lem_example =
    commit_rename_lem directory 1 1 (codes "B") (codes "$.A") (codes "$.B") index (2 ∷ 4 ∷ [])
      ((codes "A", 2) ∷ (codes "AB", 4) ∷ []) refl refl (refl, (refl, tt)) not_below

abbrev before : Bytes
before = 1 ∷ 2 ∷ 3 ∷ []

write_into_lem_example :
    (length (write_into 2 (8 ∷ 9 ∷ []) before) ≡ max (2 + 2) 3)
    × ((i : ℕ)
        → i < 2
        → get_elem? (write_into 2 (8 ∷ 9 ∷ []) before) (2 + i) ≡ get_elem? (8 ∷ 9 ∷ []) i)
    × ((i : ℕ)
        → i < 2
        → i < 3
        → get_elem? (write_into 2 (8 ∷ 9 ∷ []) before) i ≡ get_elem? before i)
    × ((i : ℕ) → 4 ≤ i → get_elem? (write_into 2 (8 ∷ 9 ∷ []) before) i ≡ get_elem? before i)
    × ((i : ℕ) → 3 ≤ i → i < 2 → get_elem? (write_into 2 (8 ∷ 9 ∷ []) before) i ≡ some 0)
write_into_lem_example = write_into_lem 2 (8 ∷ 9 ∷ []) before
