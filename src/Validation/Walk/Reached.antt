-- ===== src/Validation/Walk/Reached.antt =====
-- The entries that the directories lead to, against what a traversal records.
use nautilus_acornfs.Prelude.{
  subst, ℕ, zero, suc, ◌≡◌, ◌∙◌, refl, sym, Bool, true, false, Option, some, none, List, [], ◌∷◌,
  ◌++◌, inl, inr, Bool-cases, any, ◌==◌, if◌then◌else◌,
}
use mathlib.Core.List.{Memᴰ}
use mathlib.Core.List.Memᴰ
use nautilus_acornfs.Prelude.Text.{Text}
use nautilus_acornfs.Prelude.Result.{Result, ok, err, foreign}
use nautilus_acornfs.Prelude.Exec.{Exec, raise, ◌>>◌, then-ok}
use nautilus_acornfs.Validation.Findings.{Finding, fatal, is_fatal, fatal_only}
use nautilus_acornfs.Validation.Extents.{Extent}
use nautilus_acornfs.Validation.Walk.{
  Entry, Volume, Audit, checkpoint, child_path, directory_extent, file_extent, enter_child,
  enter_once, examine_directory, examine_file, examine, file_sectors, walk_entries, walk,
}
use nautilus_acornfs.Validation.Walk.Steps.{
  Extends, Grew, Grows, listed, enter_once-Grows, walk_entries-Grows, walk-Grows,
}

-- The entries below the entries of a directory at a path, each with the path of its own directory.
pub data Reached (v : Volume) : List Entry → Text → Text → Entry → Type 0 where
  here :
      {entries : List Entry} {path : Text} {e : Entry}
      → Memᴰ e entries
      → Reached v entries path path e
  below :
      {entries children : List Entry} {path at : Text} {d e : Entry}
      → Memᴰ d entries
      → d.is_directory ≡ true
      → v.read_directory_at d.start_sector ≡ ok children
      → Reached v children (child_path path d) at e
      → Reached v entries path at e

-- The sectors that an entry claims: an empty file claims none.
abbrev pub entry_extent : Volume → Text → Entry → Bool → Option Extent
entry_extent v path e true = some (directory_extent v path e)
entry_extent v path e false = if file_sectors e == 0 then none else some (file_extent path e)

abbrev pub Recorded : Option Extent → List Extent → Type 0
Recorded none used = Unit
Recorded (some x) used = Memᴰ x used

abbrev pub Covers : Volume → List Entry → Text → List Extent → Type 0
Covers v entries path used =
    (at : Text) (e : Entry)
    → Reached v entries path at e
    → Recorded (entry_extent v at e e.is_directory) used

abbrev pub IsQuiet : Audit → Type 0
IsQuiet s = fatal_only s.findings ≡ []

pub fatal_only-append :
    (xs ys : List Finding)
    → fatal_only (xs ++ ys) ≡ []
    → (fatal_only xs ≡ []) × (fatal_only ys ≡ [])
unfolding fatal_only
fatal_only-append [] ys q = (refl, q)
fatal_only-append (x ∷ xs) ys q = elim (Bool-cases (is_fatal x.severity)) [
  | inl f ↦ absurd (cc (q, f))
  | inr f ↦ let (a, b) = fatal_only-append xs ys (rw f at q) in (rw f a, b)
]

pub IsQuiet-Grew : (s t : Audit) → Grew s t → IsQuiet t → IsQuiet s
IsQuiet-Grew s t g q = (fatal_only-append s.findings g.findings.0 (rw g.findings.1 at q)).0

Recorded-Extends :
    (x : Option Extent) (used more : List Extent)
    → Extends used more
    → Recorded x used
    → Recorded x more
Recorded-Extends none used more g h = tt
Recorded-Extends (some x) used more (new, q) h =
    subst (λ zs. Memᴰ x zs) (sym q) (Memᴰ.append_left new h)

Covers-Grew :
    (v : Volume) (entries : List Entry) (path : Text) (s t : Audit)
    → Grew s t
    → Covers v entries path s.used_extents
    → Covers v entries path t.used_extents
Covers-Grew v entries path s t g h at e r =
    Recorded-Extends (entry_extent v at e e.is_directory) s.used_extents t.used_extents
      g.used_extents (h at e r)

pub not_quiet :
    (fs : List Finding) (f : Finding) → f.severity ≡ fatal → fatal_only (fs ++ (f ∷ [])) ≡ [] → ⊥
unfolding fatal_only
not_quiet fs f severe q =
    let late = (fatal_only-append fs (f ∷ []) q).1 in
    let test : is_fatal f.severity ≡ true = rw severe refl in cc (late, test)

-- What an entry that is behind the traversal has left in the extents.
Done : Volume → Text → Entry → Bool → List Extent → Type 0
Done v path e is_directory used =
    Recorded (entry_extent v path e is_directory) used
    × (is_directory ≡ true
        → (children : List Entry) → v.read_directory_at e.start_sector ≡ ok children
        → Covers v children (child_path path e) used)

Done-Extends :
    (v : Volume) (path : Text) (e : Entry) (is_directory : Bool) (s t : Audit)
    → Grew s t
    → Done v path e is_directory s.used_extents
    → Done v path e is_directory t.used_extents
unfolding Done
Done-Extends v path e is_directory s t g d = (
  Recorded-Extends (entry_extent v path e is_directory) s.used_extents t.used_extents g.used_extents
      d.0,
  λ dir children read. Covers-Grew v children (child_path path e) s t g (d.1 dir children read),
)

-- Where each recursive call that returns without a fatal finding covers its directory.
module _ (v : Volume) (descend : List Entry → Text → Exec Audit (Unit {0}))
    (grows : (entries : List Entry) (path : Text) → Grows (descend entries path))
    (covers : (entries : List Entry) (path : Text) (s : Audit)
      → (descend entries path s).0 ≡ ok tt
      → IsQuiet (descend entries path s).1
      → Covers v entries path (descend entries path s).1.used_extents) where
  enter_child-Covers :
      (r : Result (List Entry)) (path : Text) (s : Audit) (children : List Entry)
      → (enter_child descend r path s).0 ≡ ok tt
      → IsQuiet (enter_child descend r path s).1
      → r ≡ ok children
      → Covers v children path (enter_child descend r path s).1.used_extents
  enter_child-Covers (ok child) path s children h q e =
      let same : child ≡ children = cc in
      subst (λ c. Covers v c path (descend child path s).1.used_extents) same
        (covers child path s h q)
  enter_child-Covers (err error) path s children h q e = absurd (cc e)

  enter_once-Covers :
      (again : Bool) (start : ℕ) (path : Text) (s : Audit) (children : List Entry)
      → (enter_once descend v again start path s).0 ≡ ok tt
      → IsQuiet (enter_once descend v again start path s).1
      → v.read_directory_at start ≡ ok children
      → Covers v children path (enter_once descend v again start path s).1.used_extents
  enter_once-Covers true start path s children h q e = absurd (not_quiet s.findings _ refl q)
  enter_once-Covers false start path s children h q e =
      enter_child-Covers (v.read_directory_at start) path
        (record s { seen_directories = start ∷ s.seen_directories }) children h q e

  examine-Done :
      (path : Text) (e : Entry) (is_directory : Bool) (s : Audit)
      → (examine descend v path e is_directory s).0 ≡ ok tt
      → IsQuiet (examine descend v path e is_directory s).1
      → Done v path e is_directory (examine descend v path e is_directory s).1.used_extents
  unfolding examine_directory examine_file Done
  examine-Done path e true s h q =
      let again = any (λ start. start == e.start_sector) (listed v path e s).seen_directories in
      (
        Recorded-Extends (some (directory_extent v path e)) (listed v path e s).used_extents _
            (enter_once-Grows descend grows v again e.start_sector (child_path path e)
              (listed v path e s)).used_extents
            (Memᴰ.append_right s.used_extents (Memᴰ.head refl)),
        λ _ children.
            enter_once-Covers again e.start_sector (child_path path e) (listed v path e s) children
              h q,
      )
  examine-Done path e false s h q = elim (Bool-cases (file_sectors e == 0)) [
    | inl z ↦ rw z (tt, λ f. absurd (cc f))
    | inr z ↦ rw z (Memᴰ.append_right s.used_extents (Memᴰ.head refl), λ f. absurd (cc f))
  ]

  Done-Covers :
      (path : Text) (e : Entry) (entries : List Entry) (s : Audit)
      → Done v path e e.is_directory s.used_extents
      → Covers v entries path s.used_extents
      → Covers v (e ∷ entries) path s.used_extents
  unfolding Done
  Done-Covers path e entries s d rest at f (here m) = elim (Memᴰ.cases_cons m) [
    | inl q ↦
        subst (λ g. Recorded (entry_extent v path g g.is_directory) s.used_extents) (sym q) d.0
    | inr m' ↦ rest path f (here m')
  ]
  Done-Covers path e entries s d rest at f (below m dir read r) = elim (Memᴰ.cases_cons m) [
    | inl q ↦
        (subst (λ g. Done v path g g.is_directory s.used_extents) (sym q) d).1 dir _ read at f r
    | inr m' ↦ rest at f (below m' dir read r)
  ]

  walk_entries-Covers :
      (depth : ℕ) (path : Text) (entries : List Entry) (s : Audit)
      → (walk_entries descend v depth path entries s).0 ≡ ok tt
      → IsQuiet (walk_entries descend v depth path entries s).1
      → Covers v entries path (walk_entries descend v depth path entries s).1.used_extents
  unfolding walk_entries
  walk_entries-Covers depth path [] s h q at f (here m) = absurd (Memᴰ.not-nil m)
  walk_entries-Covers depth path [] s h q at f (below m dir read r) = absurd (Memᴰ.not-nil m)
  walk_entries-Covers depth path (e ∷ entries) s h q at f reached =
      let rest = walk_entries descend v depth path entries in
      let (_, h', same) =
        then-ok (checkpoint v 1 (some depth)) (examine descend v path e e.is_directory >> rest) s tt
          h in
      let t : Audit = (checkpoint v 1 (some depth) s).1 in
      let (examined, h'', same') = then-ok (examine descend v path e e.is_directory) rest t tt h' in
      let u : Audit = (examine descend v path e e.is_directory t).1 in
      let g = walk_entries-Grows descend grows v depth path entries u in
      let at_end : IsQuiet (rest u).1 = subst IsQuiet (same ∙ same') q in
      let all =
        Done-Covers path e entries (rest u).1
          (Done-Extends v path e e.is_directory u (rest u).1 g
            (examine-Done path e e.is_directory t examined (IsQuiet-Grew u (rest u).1 g at_end)))
          (walk_entries-Covers depth path entries u h'' at_end) in
      subst (λ (x : Audit). Covers v (e ∷ entries) path x.used_extents) (sym (same ∙ same')) all at
        f reached

-- A traversal that returns without a fatal finding has recorded the extent of each entry that its directory
-- leads to: of each directory, and of each file that is not empty.
pub walk-Covers :
    (fuel : ℕ) (v : Volume) (depth : ℕ) (entries : List Entry) (path : Text) (s : Audit)
    → (walk fuel v depth entries path s).0 ≡ ok tt
    → IsQuiet (walk fuel v depth entries path s).1
    → Covers v entries path (walk fuel v depth entries path s).1.used_extents
unfolding walk
walk-Covers zero v depth entries path s h q =
    let (_, raised, same) = then-ok (checkpoint v 0 (some depth)) (raise foreign) s tt h in
    absurd (cc raised)
walk-Covers (suc fuel) v depth entries path s h q =
    let rest = walk_entries (walk fuel v (suc depth)) v depth path entries in
    let (_, h', same) = then-ok (checkpoint v 0 (some depth)) rest s tt h in
    let t : Audit = (checkpoint v 0 (some depth) s).1 in
    subst (λ (x : Audit). Covers v entries path x.used_extents) (sym same)
      (walk_entries-Covers v (walk fuel v (suc depth)) (walk-Grows fuel v (suc depth))
        (walk-Covers fuel v (suc depth)) depth path entries t h' (subst IsQuiet same q))
