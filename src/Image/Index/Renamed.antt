-- ===== src/Image/Index/Renamed.antt =====
-- The index after a rename.
use nautilus_acornfs.Prelude.{
  any, not, ◌&&◌, Bool, ℕ, ◌≡◌, ◌≢◌, refl, sym, ap, subst, ◌∙◌, true, false, Bool-cases, inl, inr,
  Option, none, some, List, [], ◌∷◌, ◌++◌, length, drop, if◌then◌else◌, ◌==◌, arith,
}
use nautilus_acornfs.Prelude.Text.{Text, Bytes, text_eq, text_eq_sound, text_eq_refl, starts_with}
use nautilus_acornfs.Prelude.Dict.{Dict, lookup, insert, lookup-insert}
use nautilus_acornfs.Prelude.Result.{ok}
use nautilus_acornfs.Image.Node.{ImageNode}
use nautilus_acornfs.Image.Index.{
  Index, Names, moved, move_paths, without, find_name, put_name, drop_name, get_default,
  commit_rename, item,
}

-- The path of an entry after its directory has moved: below the old path it is the same below the new one,
-- and elsewhere it stays. A name that begins with that of the directory is not below it.
pub data IsMovedPath (old_path new_path : Text) : Text → Text → Type 0 where
  below :
      (rest : Text)
      → IsMovedPath old_path new_path (old_path ++ b'.' ∷ rest) (new_path ++ b'.' ∷ rest)
  elsewhere :
      (path : Text)
      → ((rest : Text) → path ≢ old_path ++ b'.' ∷ rest)
      → IsMovedPath old_path new_path path path

starts_with-split : (s p : Text) → starts_with s p ≡ true → (rest : Text) × (s ≡ p ++ rest)
starts_with-split s [] h = (s, refl)
starts_with-split [] (c ∷ p) h = absurd (cc h)
starts_with-split (d ∷ s) (c ∷ p) h =
    let (rest, e) = starts_with-split s p (ground (arith, h)) in
    let same : d ≡ c = ground (arith, h) in (rest, rw (same, e) refl)

starts_with-append : (p rest : Text) → starts_with (p ++ rest) p ≡ true
starts_with-append [] rest = refl
starts_with-append (c ∷ p) rest = ground (arith, starts_with-append p rest)

drop-append : (p rest : Text) → drop (length p) (p ++ rest) ≡ rest
drop-append [] rest = refl
drop-append (c ∷ p) rest = drop-append p rest

append_dot : (p rest : Text) → p ++ (b'.' ∷ []) ++ rest ≡ p ++ (b'.' ∷ rest)
append_dot [] rest = refl
append_dot (c ∷ p) rest = ap (λ s. c ∷ s) (append_dot p rest)

-- An entry at its new path, and otherwise as it was.
pub record IsMoved (old_path new_path : Text) (before after : ImageNode) : Type 0 where
  pub path : IsMovedPath old_path new_path before.acorn_path after.acorn_path
  pub rest : after ≡ record before { acorn_path = after.acorn_path }

moved-IsMoved :
    (old_path new_path : Text) (node : ImageNode)
    → IsMoved old_path new_path node (moved old_path new_path node)
moved-IsMoved old_path new_path node =
    elim (Bool-cases (starts_with node.acorn_path (old_path ++ b'.' ∷ []))) [
      | inl p ↦
          let (rest, e) = starts_with-split node.acorn_path (old_path ++ b'.' ∷ []) p in
          let at : node.acorn_path ≡ old_path ++ b'.' ∷ rest = e ∙ append_dot old_path rest in
          rw p (record {
            path = rw (at, drop-append old_path (b'.' ∷ rest)) (below rest);
            rest = refl;
          })
      | inr p ↦ rw p (record {
        path = elsewhere node.acorn_path (λ rest e. absurd (
            cc (
              p,
              ap (λ s. starts_with s (old_path ++ b'.' ∷ [])) (e ∙ sym (append_dot old_path rest))
                  ∙ starts_with-append (old_path ++ b'.' ∷ []) rest,
            )));
        rest = refl;
      })
    ]

stays :
    (old_path new_path : Text) (node : ImageNode)
    → ((rest : Text) → node.acorn_path ≢ old_path ++ b'.' ∷ rest)
    → some (moved old_path new_path node) ≡ some node
stays old_path new_path node apart =
    elim (Bool-cases (starts_with node.acorn_path (old_path ++ b'.' ∷ []))) [
      | inl p ↦
          let (rest, e) = starts_with-split node.acorn_path (old_path ++ b'.' ∷ []) p in
          absurd (apart rest (e ∙ append_dot old_path rest))
      | inr p ↦ rw p refl
    ]

-- What an entry of the index has become.
abbrev pub IsMovedEntry : Text → Text → Option ImageNode → Option ImageNode → Type 0
IsMovedEntry old_path new_path none after = after ≡ none
IsMovedEntry old_path new_path (some before) after =
    (node : ImageNode) × (after ≡ some node) × IsMoved old_path new_path before node

lookup-move_paths :
    (old_path new_path : Text) (k : ℕ) (nodes : Dict ImageNode)
    → IsMovedEntry old_path new_path
        (lookup k nodes)
        (lookup k (move_paths old_path new_path nodes))
unfolding move_paths
lookup-move_paths old_path new_path k [] = refl
lookup-move_paths old_path new_path k ((i, node) ∷ nodes) = elim (Bool-cases (k == i)) [
  | inl p ↦ rw p (moved old_path new_path node, refl, moved-IsMoved old_path new_path node)
  | inr p ↦ rw p (lookup-move_paths old_path new_path k nodes)
]

-- An entry that is not below the old path stays.
unmoved :
    (old_path new_path : Text) (k : ℕ) (node : ImageNode) (nodes : Dict ImageNode)
    → lookup k nodes ≡ some node
    → ((rest : Text) → node.acorn_path ≢ old_path ++ b'.' ∷ rest)
    → lookup k (move_paths old_path new_path nodes) ≡ some node
unfolding move_paths
unmoved old_path new_path k node [] h apart = absurd (cc h)
unmoved old_path new_path k node ((i, here) ∷ nodes) h apart = elim (Bool-cases (k == i)) [
  | inl p ↦
      let same : here ≡ node = cc (rw p at h) in rw (p, same) (stays old_path new_path node apart)
  | inr p ↦ rw p (unmoved old_path new_path k node nodes (rw p at h) apart)
]

text_eq_flip : (a b c : Text) → text_eq a b ≡ true → text_eq a c ≡ text_eq b c
text_eq_flip a b c h = ap (λ t. text_eq t c) (text_eq_sound a b h)

find_name-put_name :
    (name n : Bytes) (inode : ℕ) (names : Names)
    → find_name n (put_name name inode names)
      ≡ (if text_eq name n then some inode else find_name n names)
find_name-put_name name n inode [] = refl
find_name-put_name name n inode ((m, i) ∷ names) = elim (Bool-cases (text_eq m name)) [
  | inl p ↦ ground (arith, p, text_eq_flip m name n p)
  | inr p ↦ elim (Bool-cases (text_eq m n)) [
    | inl q ↦ elim (Bool-cases (text_eq name n)) [
      | inl r ↦
          let same : m ≡ name = text_eq_sound m n q ∙ sym (text_eq_sound name n r) in
          absurd (cc (p, ap (λ t. text_eq t name) same ∙ text_eq_refl name))
      | inr r ↦ rw (p, q, r) refl
    ]
    | inr q ↦ rw (p, q) (find_name-put_name name n inode names)
  ]
]

-- No name stands twice, as in a dictionary.
abbrev pub IsUnique : Names → Type 0
IsUnique [] = Unit
IsUnique ((n, i) ∷ names) = (find_name n names ≡ none) × IsUnique names

find_name-drop_name :
    (name n : Bytes) (names : Names)
    → IsUnique names
    → find_name n (drop_name name names) ≡ (if text_eq name n then none else find_name n names)
find_name-drop_name name n [] u = ground arith
find_name-drop_name name n ((m, i) ∷ names) u = elim (Bool-cases (text_eq m name)) [
  | inl p ↦ elim (Bool-cases (text_eq name n)) [
    | inl q ↦
        rw (p, q)
          (subst (λ t. find_name t names ≡ none) (text_eq_sound m name p ∙ text_eq_sound name n q)
            u.0)
    | inr q ↦ rw (p, q, text_eq_flip m name n p ∙ q) refl
  ]
  | inr p ↦ elim (Bool-cases (text_eq m n)) [
    | inl q ↦ elim (Bool-cases (text_eq name n)) [
      | inl r ↦
          let same : m ≡ name = text_eq_sound m n q ∙ sym (text_eq_sound name n r) in
          absurd (cc (p, ap (λ t. text_eq t name) same ∙ text_eq_refl name))
      | inr r ↦ rw (p, q, r) refl
    ]
    | inr q ↦ rw (p, q) (find_name-drop_name name n names u.1)
  ]
]

abbrev pub holds : ℕ → List ℕ → Bool
holds k xs = any (λ i. i == k) xs

holds-without :
    (inode k : ℕ) (xs : List ℕ) → holds k (without inode xs) ≡ (not (inode == k) && holds k xs)
holds-without inode k [] = ground arith
holds-without inode k (x ∷ xs) = ground (arith, holds-without inode k xs)

-- What a rename leaves: the renamed entry has its new parent, name and path, and every other is as it was,
-- but for a path below the old one. The old parent has lost the entry, the new one has it behind its other
-- children, each finds the other names as before, the new one finds the entry under its new name only, and
-- no other directory has changed.
pub record IsRenamed (node : ImageNode) (old_parent new_parent : ℕ) (name : Bytes)
    (old_path new_path : Text) (siblings : List ℕ) (names : Names) (before after : Index)
    : Type 0 where
  pub renamed :
      lookup node.inode after.nodes
      ≡ some (record node { parent_inode = new_parent; name = name; acorn_path = new_path })
  pub others :
      (k : ℕ)
      → (node.inode == k) ≡ false
      → IsMovedEntry old_path new_path (lookup k before.nodes) (lookup k after.nodes)
  pub held :
      (kept : List ℕ) × (lookup new_parent after.children ≡ some (kept ++ node.inode ∷ []))
      × ((k : ℕ)
          → holds k kept ≡ (
              if old_parent == new_parent
              then not (node.inode == k) && holds k siblings
              else holds k (get_default new_parent [] before.children)))
  pub named :
      (n : Bytes)
      → find_name n (get_default new_parent [] after.children_by_name) ≡ (
          if text_eq name n
          then some node.inode
          else if old_parent == new_parent
          then (if text_eq node.name n then none else find_name n names)
          else find_name n (get_default new_parent [] before.children_by_name))
  pub lost :
      (old_parent == new_parent) ≡ false
      → (kept : List ℕ) × (lookup old_parent after.children ≡ some kept)
        × ((k : ℕ) → holds k kept ≡ (not (node.inode == k) && holds k siblings))
        × ((n : Bytes)
            → find_name n (get_default old_parent [] after.children_by_name)
              ≡ (if text_eq node.name n then none else find_name n names))
  pub elsewhere :
      (k : ℕ)
      → (old_parent == k) ≡ false
      → (new_parent == k) ≡ false
      → (lookup k after.children ≡ lookup k before.children)
        × (lookup k after.children_by_name ≡ lookup k before.children_by_name)

IsMovedEntry-same :
    (old_path new_path : Text) (a b c : Option ImageNode)
    → a ≡ b
    → IsMovedEntry old_path new_path a c
    → IsMovedEntry old_path new_path b c
IsMovedEntry-same old_path new_path a b c e h = subst (λ x. IsMovedEntry old_path new_path x c) e h

-- With the old parent in the index and no name twice in it, nothing at the destination, and the new path not
-- below the old one, a rename is committed, and gives the renamed entry and the index of a rename.
pub commit_rename_lem :
    (node : ImageNode) (old_parent new_parent : ℕ) (name : Bytes) (old_path new_path : Text)
    (index : Index) (siblings : List ℕ) (names : Names)
    → lookup old_parent index.children ≡ some siblings
    → lookup old_parent index.children_by_name ≡ some names
    → IsUnique names
    → ((rest : Text) → new_path ≢ old_path ++ b'.' ∷ rest)
    → (after : Index) × (commit_rename node none old_parent new_parent name old_path new_path index
        ≡ ok (record node { parent_inode = new_parent; name = name; acorn_path = new_path }, after))
      × IsRenamed node old_parent new_parent name old_path new_path siblings names index after
unfolding commit_rename
commit_rename_lem node old_parent new_parent name old_path new_path index siblings names hc hn
      unique apart =
    rw (item, hc, hn, at_node)
      (
        _,
        refl,
        record {
          renamed = at_node;
          others = λ k other.
              IsMovedEntry-same old_path new_path (lookup k nodes) (lookup k index.nodes) _
                (ground (arith, other, lookup-insert node.inode k renamed index.nodes))
                (lookup-move_paths old_path new_path k nodes);
          held = (
            get_default new_parent [] children,
            ground (
              arith,
              lookup-insert new_parent new_parent
                  (get_default new_parent [] children ++ node.inode ∷ []) children,
            ),
            (λ k. ground (
              arith,
              lookup-insert old_parent new_parent (without node.inode siblings) index.children,
              holds-without node.inode k siblings,
            )),
          );
          lost = λ other. (
            without node.inode siblings,
            ground (
              arith,
              other,
              lookup-insert new_parent old_parent
                  (get_default new_parent [] children ++ node.inode ∷ []) children,
              lookup-insert old_parent old_parent (without node.inode siblings) index.children,
            ),
            (λ k. holds-without node.inode k siblings),
            (λ n. ground (
              arith,
              other,
              lookup-insert new_parent old_parent
                  (put_name name node.inode (get_default new_parent [] by_name)) by_name,
              lookup-insert old_parent old_parent (drop_name node.name names)
                  index.children_by_name,
              find_name-drop_name node.name n names unique,
            )),
          );
          elsewhere = λ k h1 h2. (
            ground (
              arith,
              h1,
              h2,
              lookup-insert new_parent k (get_default new_parent [] children ++ node.inode ∷ [])
                  children,
              lookup-insert old_parent k (without node.inode siblings) index.children,
            ),
            ground (
              arith,
              h1,
              h2,
              lookup-insert new_parent k
                  (put_name name node.inode (get_default new_parent [] by_name)) by_name,
              lookup-insert old_parent k (drop_name node.name names) index.children_by_name,
            ),
          );
          named = λ n. ground (
            arith,
            lookup-insert new_parent new_parent
                (put_name name node.inode (get_default new_parent [] by_name)) by_name,
            lookup-insert old_parent new_parent (drop_name node.name names) index.children_by_name,
            find_name-drop_name node.name n names unique,
            find_name-put_name name n node.inode (get_default new_parent [] by_name),
          );
        },
      )
  where
    renamed : ImageNode
    renamed = record node { parent_inode = new_parent; name = name; acorn_path = new_path }

    nodes : Dict ImageNode
    nodes = insert node.inode renamed index.nodes

    children : Dict (List ℕ)
    children = insert old_parent (without node.inode siblings) index.children

    by_name : Dict Names
    by_name = insert old_parent (drop_name node.name names) index.children_by_name

    at_node : lookup node.inode (move_paths old_path new_path nodes) ≡ some renamed
    at_node =
        unmoved old_path new_path node.inode renamed nodes
          (ground (arith, lookup-insert node.inode node.inode renamed index.nodes)) apart
