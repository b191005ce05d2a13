-- ===== src/Beebscsi/Pairs.antt =====
-- What `discover_pair` finds where it returns a pair.
use mathlib.Core.List.{Memᴰ}
use mathlib.Core.List.Memᴰ
use nautilus_acornfs.Prelude.{
  ◌≡◌, refl, sym, ap, subst, ◌∙◌, Bool, true, ◌&&◌, ◌||◌, inl, inr, Option, none, some, List, [],
  ◌∷◌, ◌++◌, Bool-cases, arith,
}
use nautilus_acornfs.Prelude.Text.{Text, codes, text_eq, text_eq_sound, text_eq_refl, text_before}
use nautilus_acornfs.Prelude.Sorting.{sort, Memᴰ-sort}
use nautilus_acornfs.Prelude.Result.{Result, ok, err, ◌>>=◌}
use nautilus_acornfs.Beebscsi.{
  BeebScsiPair, Paths, matching, matching_files, the_pair, discover_pair,
}

-- The only element of a list.
abbrev IsOnly : {A : Type 0} → A → List A → Type 0
IsOnly {A} x xs = Memᴰ x xs × ((z : A) → Memᴰ z xs → z ≡ x)

-- A list that is one element when it is sorted has that element only.
sort-IsOnly :
    {A : Type 0} (before : A → A → Bool) (x : A) (xs : List A)
    → sort before xs ≡ x ∷ []
    → IsOnly x xs
unfolding sort
sort-IsOnly before x [] e = absurd (cc e)
sort-IsOnly {A} before x (y ∷ ys) e = (Memᴰ.head (sym (only y (Memᴰ.head refl))), only)
  where
    only : (z : A) → Memᴰ z (y ∷ ys) → z ≡ x
    only z m = Memᴰ.eq_of_singleton (subst (Memᴰ z) e (Memᴰ-sort before z (y ∷ ys) m))

module _ (fs : Paths) where
  -- A file of the expected name, but for case, among the children of a directory.
  pub record IsMatch (expected : Text) (children : List (Text × Text)) (child : Text × Text)
      : Type 0 where
    pub member : Memᴰ child children
    pub name : fs.casefold child.1 ≡ expected
    pub file : fs.is_file child.0 ≡ true

  matching-IsMatch :
      (expected : Text) (children : List (Text × Text)) (z : Text × Text)
      → Memᴰ z (matching fs expected children)
      → IsMatch expected children z
  unfolding matching
  matching-IsMatch expected [] z m = absurd (Memᴰ.not-nil m)
  matching-IsMatch expected ((path, name) ∷ children) z m =
      elim (Bool-cases (text_eq (fs.casefold name) expected && fs.is_file path)) [
        | inl p ↦ elim (Memᴰ.cases_cons (rw p at m)) [
          | inl e ↦ record {
            member = Memᴰ.head e;
            name =
                ap (λ (x : Text × Text). fs.casefold x.1) e
                ∙ text_eq_sound (fs.casefold name) expected (ground arith);
            file = ap (λ (x : Text × Text). fs.is_file x.0) e ∙ ground arith;
          }
          | inr m' ↦ later (matching-IsMatch expected children z m')
        ]
        | inr p ↦ later (matching-IsMatch expected children z (rw p at m))
      ]
    where
      later : IsMatch expected children z → IsMatch expected ((path, name) ∷ children) z
      later found = record { member = Memᴰ.tail found.member; name = found.name; file = found.file }

  matching-Memᴰ :
      (expected : Text) (children : List (Text × Text)) (z : Text × Text)
      → IsMatch expected children z
      → Memᴰ z (matching fs expected children)
  unfolding matching
  matching-Memᴰ expected [] z m = absurd (Memᴰ.not-nil m.member)
  matching-Memᴰ expected ((path, name) ∷ children) z m =
      elim (Bool-cases (text_eq (fs.casefold name) expected && fs.is_file path)) [
        | inl p ↦ elim (Memᴰ.cases_cons m.member) [
          | inl e ↦ rw p (Memᴰ.head e)
          | inr m' ↦ rw p (Memᴰ.tail (matching-Memᴰ expected children z (later m')))
        ]
        | inr p ↦ elim (Memᴰ.cases_cons m.member) [
          | inl e ↦ absurd (cc (p, test e))
          | inr m' ↦ rw p (matching-Memᴰ expected children z (later m'))
        ]
      ]
    where
      later : Memᴰ z children → IsMatch expected children z
      later m' = record { member = m'; name = m.name; file = m.file }

      test : z ≡ (path, name) → (text_eq (fs.casefold name) expected && fs.is_file path) ≡ true
      test e =
          let same : fs.casefold name ≡ expected =
            sym (ap (λ (x : Text × Text). fs.casefold x.1) e) ∙ m.name in
          let is : fs.is_file path ≡ true =
            sym (ap (λ (x : Text × Text). fs.is_file x.0) e) ∙ m.file in
          rw (same, is, text_eq_refl expected) refl

  -- The only file of the expected name, but for case, in a directory.
  pub record IsTheFile (directory expected : Text) (child : Text × Text) : Type 0 where
    pub children : List (Text × Text)
    pub listed : fs.iterdir directory ≡ some children
    pub matches : IsMatch expected children child
    pub only : (z : Text × Text) → IsMatch expected children z → z ≡ child

  matching_files-IsTheFile :
      (directory expected : Text) (child : Text × Text)
      → matching_files fs directory expected ≡ ok (child ∷ [])
      → IsTheFile directory expected child
  unfolding matching_files
  matching_files-IsTheFile directory expected child h = from (fs.iterdir directory) refl
    where
      from :
          (r : Option (List (Text × Text)))
          → fs.iterdir directory ≡ r
          → IsTheFile directory expected child
      from none e = absurd (cc (rw e at h))
      from (some children) e =
          let sorted : sort (λ x y. text_before x.1 y.1) (matching fs expected children)
              ≡ child ∷ [] =
            cc (rw e at h) in
          let (member, only) =
            sort-IsOnly (λ x y. text_before x.1 y.1) child (matching fs expected children) sorted in
          record {
            children = children;
            listed = e;
            matches = matching-IsMatch expected children child member;
            only = λ z m. only z (matching-Memᴰ expected children z m);
          }

  -- The two files of a pair.
  pub record IsPair (selected : Text) (pair : BeebScsiPair) : Type 0 where
    pub dat : Text × Text
    pub dsc : Text × Text
    pub dat_file :
        IsTheFile (fs.parent selected) (fs.casefold (fs.stem selected) ++ codes ".dat") dat
    pub dsc_file :
        IsTheFile (fs.parent selected) (fs.casefold (fs.stem selected) ++ codes ".dsc") dsc
    pub paths : pair ≡ record { dat_path = fs.resolve dat.0; dsc_path = fs.resolve dsc.0 }

  the_pair-ok :
      (dats dscs : List (Text × Text)) (pair : BeebScsiPair)
      → the_pair fs dats dscs ≡ ok pair
      → (dat : Text × Text) × (dsc : Text × Text) × (dats ≡ dat ∷ [])
        × (dscs ≡ dsc ∷ [])
        × (pair ≡ record { dat_path = fs.resolve dat.0; dsc_path = fs.resolve dsc.0 })
  the_pair-ok [] dscs pair h = absurd (cc h)
  the_pair-ok (dat ∷ []) [] pair h = absurd (cc h)
  the_pair-ok (dat ∷ []) (dsc ∷ []) pair h = (dat, dsc, refl, refl, cc h)
  the_pair-ok (dat ∷ []) (dsc ∷ other ∷ dscs) pair h = absurd (cc h)
  the_pair-ok (dat ∷ other ∷ dats) dscs pair h = absurd (cc h)

  found-IsPair :
      (selected : Text) (dats dscs : Result (List (Text × Text))) (pair : BeebScsiPair)
      → matching_files fs (fs.parent selected) (fs.casefold (fs.stem selected) ++ codes ".dat")
        ≡ dats
      → matching_files fs (fs.parent selected) (fs.casefold (fs.stem selected) ++ codes ".dsc")
        ≡ dscs
      → (dats >>= λ xs. dscs >>= λ ys. the_pair fs xs ys) ≡ ok pair
      → IsPair selected pair
  found-IsPair selected (err e) dscs pair ed es h = absurd (cc h)
  found-IsPair selected (ok xs) (err e) pair ed es h = absurd (cc h)
  found-IsPair selected (ok xs) (ok ys) pair ed es h =
      let (dat, dsc, one, two, paths) = the_pair-ok xs ys pair h in
      record {
        dat = dat;
        dsc = dsc;
        dat_file = matching_files-IsTheFile (fs.parent selected) _ dat (ed ∙ ap ok one);
        dsc_file = matching_files-IsTheFile (fs.parent selected) _ dsc (es ∙ ap ok two);
        paths = paths;
      }

  abbrev pub has_pair_suffix : Text → Bool
  has_pair_suffix selected =
      text_eq (fs.casefold (fs.suffix selected)) (codes ".dat")
      || text_eq (fs.casefold (fs.suffix selected)) (codes ".dsc")

  -- Where a pair is discovered, the selected path is a file with the suffix of one of the members; the data
  -- and the descriptor are the resolved paths of files in its directory whose names are, but for case, its
  -- stem with `.dat` and with `.dsc`, and each is the only such file there.
  pub discover_pair-IsPair :
      (selected : Text) (pair : BeebScsiPair)
      → discover_pair fs selected ≡ ok pair
      → (fs.is_file selected ≡ true) × (has_pair_suffix selected ≡ true) × IsPair selected pair
  unfolding discover_pair
  discover_pair-IsPair selected pair h = elim (Bool-cases (fs.is_file selected)) [
    | inr p ↦ absurd (cc (rw p at h))
    | inl p ↦ elim (Bool-cases (has_pair_suffix selected)) [
      | inr q ↦ absurd (cc (rw (p, q) at h))
      | inl q ↦ (p, q, found-IsPair selected _ _ pair refl refl (rw (p, q) at h))
    ]
  ]
