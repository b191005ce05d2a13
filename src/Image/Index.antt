-- ===== src/Image/Index.antt =====
-- src/acornfs/core/image.py: the index of the mounted tree, `lookup`, `node_at_path`, `_child_path`,
-- `_add_node`, `_drop_node`, `_commit_rename` and `_is_descendant_or_self`. A dictionary of names is a list of
-- pairs of a name and an inode, in insertion order. `str.casefold` behind the UTF-8 codec is a parameter.
pub mod Renamed
use nautilus_acornfs.Prelude.{
  ℕ, zero, suc, ◌+◌, Bool, true, false, not, ◌||◌, Option, none, some, List, [], ◌∷◌, ◌++◌,
  if◌then◌else◌, ◌==◌, length, drop,
}
use nautilus_acornfs.Prelude.Text.{Text, Bytes, text_eq, starts_with}
use nautilus_acornfs.Prelude.Dict.{Dict, lookup, insert, erase}
use nautilus_acornfs.Prelude.Result.{
  Result, ok, err, key_error, file_not_found, not_a_directory, foreign, ◌>>=◌, ◌>>◌,
}
use nautilus_acornfs.Image.Node.{ImageNode, root_inode}

abbrev pub Names : Type 0
Names = List (Bytes × ℕ)

pub record Index : Type 0 where
  pub nodes : Dict ImageNode
  pub children : Dict (List ℕ)
  pub children_by_name : Dict Names
  pub next_inode : ℕ

-- A dictionary of names.
abbrev pub find_name : Bytes → Names → Option ℕ
find_name name [] = none
find_name name ((n, i) ∷ names) = if text_eq n name then some i else find_name name names

abbrev pub put_name : Bytes → ℕ → Names → Names
put_name name inode [] = (name, inode) ∷ []
put_name name inode ((n, i) ∷ names) =
    if text_eq n name then (n, inode) ∷ names else (n, i) ∷ put_name name inode names

abbrev pub drop_name : Bytes → Names → Names
drop_name name [] = []
drop_name name ((n, i) ∷ names) = if text_eq n name then names else (n, i) ∷ drop_name name names

-- `d.get(key, default)` and `d[key]`
abbrev pub get_default : {V : Type 0} → ℕ → V → Dict V → V
get_default key other d = elim (lookup key d) [ none ↦ other | some value ↦ value ]

abbrev pub item : {V : Type 0} → ℕ → Dict V → Result V
item key d = elim (lookup key d) [ none ↦ err key_error | some value ↦ ok value ]

abbrev pub without : ℕ → List ℕ → List ℕ
without inode [] = []
without inode (i ∷ inodes) = if i == inode then without inode inodes else i ∷ without inode inodes

-- `_is_descendant_or_self`, by the steps upwards that are left.
unfoldable pub is_descendant_or_self : ℕ → ℕ → ℕ → Index → Result Bool
is_descendant_or_self zero cursor ancestor index = err foreign
is_descendant_or_self (suc fuel) cursor ancestor index =
    if cursor == ancestor then ok true else (elim (lookup cursor index.nodes) [
      | none ↦ err key_error
      | some node ↦
          if node.inode == root_inode || node.parent_inode == node.inode
          then ok false
          else is_descendant_or_self fuel node.parent_inode ancestor index
    ])

-- `_drop_node`, in the index; the cache forgets the inode as `Image.Cache.forget` does.
unfoldable pub drop_node : ImageNode → Index → Result Index
drop_node node index = do
  siblings ← item node.parent_inode index.children
  names ← item node.parent_inode index.children_by_name
  held ← item node.inode index.nodes
  ok (record index {
    children =
        erase node.inode (insert node.parent_inode (without node.inode siblings) index.children);
    children_by_name =
        erase node.inode
          (insert node.parent_inode (drop_name node.name names) index.children_by_name);
    nodes = erase node.inode index.nodes;
  })

-- The paths below a directory that has moved.
abbrev pub moved : Text → Text → ImageNode → ImageNode
moved old_path new_path node =
    if starts_with node.acorn_path (old_path ++ b'.' ∷ [])
    then record node { acorn_path = new_path ++ drop (length old_path) node.acorn_path }
    else node

unfoldable pub move_paths : Text → Text → Dict ImageNode → Dict ImageNode
move_paths old_path new_path [] = []
move_paths old_path new_path ((i, node) ∷ nodes) =
    (i, moved old_path new_path node) ∷ move_paths old_path new_path nodes

abbrev pub drop_destination : Option ImageNode → Index → Result Index
unfolding drop_node
drop_destination none index = ok index
drop_destination (some destination) index = drop_node destination index

-- `_commit_rename`, for the name that `_display_name` gives.
unfoldable pub commit_rename :
    ImageNode → Option ImageNode → ℕ → ℕ → Bytes → Text → Text → Index → Result (ImageNode × Index)
unfolding drop_node move_paths
commit_rename node destination old_parent new_parent new_encoded old_path new_path before = do
  index ← drop_destination destination before
  siblings ← item old_parent index.children
  names ← item old_parent index.children_by_name
  let children = insert old_parent (without node.inode siblings) index.children
  let by_name = insert old_parent (drop_name node.name names) index.children_by_name
  let renamed = record node { parent_inode = new_parent; name = new_encoded; acorn_path = new_path }
  let nodes = move_paths old_path new_path (insert node.inode renamed index.nodes)
  result ← item node.inode nodes
  ok (
    result,
    record index {
      children = insert new_parent (get_default new_parent [] children ++ node.inode ∷ []) children;
      children_by_name =
          insert new_parent (put_name new_encoded node.inode (get_default new_parent [] by_name))
            by_name;
      nodes = nodes;
    },
  )

module _ (case_sensitive : Bool) (fold_name : Bytes → Option Text) (fold_path : Text → Text) where
  -- The first displayed name that is the same but for case. A name that does not decode ends the search.
  abbrev pub first_folded : Text → Names → Option ℕ
  first_folded wanted [] = none
  first_folded wanted ((n, i) ∷ names) = elim (fold_name n) [
    | none ↦ none
    | some folded ↦ if text_eq folded wanted then some i else first_folded wanted names
  ]

  abbrev pub folded_inode : Option Text → Names → Option ℕ
  folded_inode none names = none
  folded_inode (some wanted) names = first_folded wanted names

  abbrev pub find_inode : Bytes → Names → Option ℕ
  find_inode name names = elim (find_name name names) [
    | some inode ↦ some inode
    | none ↦ if case_sensitive then none else folded_inode (fold_name name) names
  ]

  -- `lookup`
  unfoldable pub lookup_node : ℕ → Bytes → Index → Result (Option ImageNode)
  lookup_node parent name index =
      elim (find_inode name (get_default parent [] index.children_by_name)) [
        | none ↦ ok none
        | some inode ↦ item inode index.nodes >>= λ node. ok (some node)
      ]

  abbrev pub path_key : Text → Text
  path_key path = if case_sensitive then path else fold_path path

  -- `node_at_path`
  unfoldable pub node_at_path : Text → Dict ImageNode → Result ImageNode
  node_at_path path [] = err file_not_found
  node_at_path path ((i, node) ∷ nodes) =
      let rest = node_at_path path nodes in
      if text_eq (path_key node.acorn_path) (path_key path) then ok node else rest

module _ (join : Text → Text → Result Text) (display_name : Text → Bytes) where
  -- `_child_path`
  unfoldable pub child_path : ℕ → Text → Index → Result Text
  child_path parent name index = do
    node ← item parent index.nodes
    if node.is_dir then join node.acorn_path name else err not_a_directory

  -- `_add_node`; the inode number is used up even if the path cannot be joined.
  unfoldable pub add_node : ℕ → Text → Bool → ℕ → Index → Result ImageNode × Index
  unfolding child_path
  add_node parent name is_dir size index =
      let inode = index.next_inode in
      let taken = record index { next_inode = inode + 1 } in
      elim (child_path parent name index) [
        | err e ↦ (err e, taken)
        | ok path ↦
            let node : ImageNode = record {
              inode = inode;
              parent_inode = parent;
              name = display_name name;
              acorn_path = path;
              is_dir = is_dir;
              size = size;
              locked = false;
              run_only = false;
            } in
            let children =
              insert parent (get_default parent [] index.children ++ inode ∷ []) index.children in
            let by_name =
              insert parent
                (put_name (display_name name) inode (get_default parent [] index.children_by_name))
                index.children_by_name in
            (
              ok node,
              record taken {
                nodes = insert inode node index.nodes;
                children = if is_dir then insert inode [] children else children;
                children_by_name = if is_dir then insert inode [] by_name else by_name;
              },
            )
      ]
