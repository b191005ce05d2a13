-- ===== src/Image/Entries.antt =====
-- src/acornfs/core/image.py: `create_file`, `make_directory` and `remove`, on the index as the
-- session's memory. The calls of the mount and of the transaction's captures are parameters.
use nautilus_acornfs.Prelude.{
  ℕ, Bool, true, false, not, ◌&&◌, Option, none, some, [], if◌then◌else◌,
}
use nautilus_acornfs.Prelude.Text.{Text, Bytes, codes}
use nautilus_acornfs.Prelude.Result.{
  Result, ok, err, file_exists, file_not_found, is_a_directory, not_a_directory, permission_error,
  ◌>>=◌, ◌>>◌,
}
use nautilus_acornfs.Prelude.Exec.{Exec, continue}
use nautilus_acornfs.Image.Node.{ImageNode}
use nautilus_acornfs.Image.Index.{Index, lookup_node, child_path, add_node, drop_node}
use nautilus_acornfs.Image.Session.{World, Host, State, Prepared, run_atomic}

abbrev pub Change : Type 0 → Type 0
Change Env = World Env → Result (Unit {0}) × World Env

-- What the operations ask of the mount, of the names and of the captures of a transaction.
pub record Tree (Env : Type 0) : Type 0 where
  pub new_name : Bytes → Result Text
  pub display_name : Text → Bytes
  pub join : Text → Text → Result Text
  pub case_sensitive : Bool
  pub fold_name : Bytes → Option Text
  pub fold_path : Text → Text
  pub hierarchical : Bool
  pub write_bytes : Text → Bytes → Change Env
  pub make_directory : Text → Change Env
  pub remove : Text → Change Env
  pub capture_parent : Text → Bytes → Prepared

module _ {Env : Type 0} (host : Host Env) (tree : Tree Env) where
  abbrev find : ℕ → Bytes → Index → Result (Option ImageNode)
  find = lookup_node tree.case_sensitive tree.fold_name tree.fold_path

  abbrev refuse_existing : Option ImageNode → Result (Unit {0})
  refuse_existing none = ok tt
  refuse_existing (some node) = err file_exists

  -- The checks before an entry is made: its name and its path.
  unfoldable pub new_entry : ℕ → Bytes → Index → Result (Text × Text)
  new_entry parent name index = do
    decoded ← tree.new_name name
    existing ← find parent name index
    refuse_existing existing
    path ← child_path tree.join tree.display_name parent decoded index
    ok (decoded, path)

  unfoldable pub create_file : ℕ → Bytes → Exec (State Env Index) ImageNode
  create_file parent name s =
      continue (new_entry parent name s.memory)
        (λ d. run_atomic host (record {
          name = codes "create";
          prepare = tree.capture_parent d.1;
          mutate = tree.write_bytes d.1 [];
          commit = λ w index. add_node tree.join tree.display_name parent d.0 false 0 index;
        }))
        s

  unfoldable pub make_directory : ℕ → Bytes → Exec (State Env Index) ImageNode
  make_directory parent name s =
      continue (new_entry parent name s.memory)
        (λ d s'.
          if not tree.hierarchical
          then (err permission_error, s')
          else (run_atomic host
              (record {
                name = codes "mkdir";
                prepare = tree.capture_parent d.1;
                mutate = tree.make_directory d.1;
                commit = λ w index. add_node tree.join tree.display_name parent d.0 true 0 index;
              })
              s'))
        s

  abbrev wanted : Bool → Option ImageNode → Result ImageNode
  wanted directory none = err file_not_found
  wanted true (some node) = if node.is_dir then ok node else err not_a_directory
  wanted false (some node) = if node.is_dir then err is_a_directory else ok node

  abbrev dropped : Result Index → Index → Result (Unit {0}) × Index
  dropped (ok after) before = (ok tt, after)
  dropped (err e) before = (err e, before)

  unfoldable pub remove : ℕ → Bytes → Bool → Exec (State Env Index) (Unit {0})
  remove parent name directory s =
      continue (find parent name s.memory >>= wanted directory)
        (λ node s'.
          if directory && not tree.hierarchical
          then (err permission_error, s')
          else (run_atomic host
              (record {
                name = if directory then codes "rmdir" else codes "unlink";
                prepare = tree.capture_parent node.acorn_path;
                mutate = tree.remove node.acorn_path;
                commit = λ w index. dropped (drop_node node index) index;
              })
              s'))
        s
