-- ===== src/Repair/Groups.antt =====
-- The groups of a plan.
use nautilus_acornfs.Prelude.{
  ◌≡◌, refl, inl, inr, true, Option, none, some, List, [], ◌∷◌, any, Bool-cases,
}
use mathlib.Core.List.{Memᴰ}
use mathlib.Core.List.Memᴰ
use nautilus_acornfs.Prelude.Text.{Text, text_eq, text_eq_sound}
use nautilus_acornfs.Validation.Findings.{Finding}
use nautilus_acornfs.Repair.{
  Template, Group, add_once, add_path, add_to, put, put_template, grouped, template_for,
}

any-Memᴰ : (x : Text) (xs : List Text) → any (text_eq x) xs ≡ true → Memᴰ x xs
any-Memᴰ x [] h = absurd (cc h)
any-Memᴰ x (y ∷ ys) h = elim (Bool-cases (text_eq x y)) [
  | inl p ↦ Memᴰ.head (text_eq_sound x y p)
  | inr p ↦ Memᴰ.tail (any-Memᴰ x ys (rw p at h))
]

add_once-Memᴰ : (x : Text) (xs : List Text) → Memᴰ x (add_once x xs)
add_once-Memᴰ x xs = elim (Bool-cases (any (text_eq x) xs)) [
  | inl p ↦ rw p (any-Memᴰ x xs p)
  | inr p ↦ rw p (Memᴰ.append_right xs (Memᴰ.head refl))
]

Memᴰ-add_once : (x y : Text) (xs : List Text) → Memᴰ y xs → Memᴰ y (add_once x xs)
Memᴰ-add_once x y xs m = elim (Bool-cases (any (text_eq x) xs)) [
  | inl p ↦ rw p m
  | inr p ↦ rw p (Memᴰ.append_left (x ∷ []) m)
]

-- A path that a finding names is among the paths; an empty one is not named.
abbrev pub HasPath : Option Text → List Text → Type 0
HasPath none paths = Unit
HasPath (some []) paths = Unit
HasPath (some (c ∷ path)) paths = Memᴰ (c ∷ path) paths

add_path-HasPath : (path : Option Text) (paths : List Text) → HasPath path (add_path path paths)
add_path-HasPath none paths = tt
add_path-HasPath (some []) paths = tt
add_path-HasPath (some (c ∷ path)) paths = add_once-Memᴰ (c ∷ path) paths

Memᴰ-add_path :
    (path : Option Text) (y : Text) (paths : List Text)
    → Memᴰ y paths
    → Memᴰ y (add_path path paths)
Memᴰ-add_path none y paths m = m
Memᴰ-add_path (some []) y paths m = m
Memᴰ-add_path (some (c ∷ path)) y paths m = Memᴰ-add_once (c ∷ path) y paths m

pub HasPath-imp :
    (p : Option Text) (xs ys : List Text)
    → ((y : Text) → Memᴰ y xs → Memᴰ y ys)
    → HasPath p xs
    → HasPath p ys
HasPath-imp none xs ys f h = tt
HasPath-imp (some []) xs ys f h = tt
HasPath-imp (some (c ∷ path)) xs ys f h = f (c ∷ path) h

-- A group of an action that has gathered a finding.
pub record Gathered (action : Text) (f : Finding) (groups : List Group) : Type 0 where
  pub group : Group
  pub member : Memᴰ group groups
  pub same : group.template.action ≡ action
  pub code : Memᴰ f.code group.codes
  pub path : HasPath f.path group.paths

Gathered-tail :
    (action : Text) (f : Finding) (g : Group) (groups : List Group)
    → Gathered action f groups
    → Gathered action f (g ∷ groups)
Gathered-tail action f g groups h = record {
  group = h.group;
  member = Memᴰ.tail h.member;
  same = h.same;
  code = h.code;
  path = h.path;
}

put-Gathered :
    (t : Template) (f : Finding) (groups : List Group) → Gathered t.action f (put t f groups)
unfolding put
put-Gathered t f [] = record {
  group = add_to f (record { template = t; codes = []; paths = [] });
  member = Memᴰ.head refl;
  same = refl;
  code = add_once-Memᴰ f.code [];
  path = add_path-HasPath f.path [];
}
put-Gathered t f (g ∷ groups) = elim (Bool-cases (text_eq g.template.action t.action)) [
  | inl p ↦ rw p (record {
    group = add_to f g;
    member = Memᴰ.head refl;
    same = text_eq_sound g.template.action t.action p;
    code = add_once-Memᴰ f.code g.codes;
    path = add_path-HasPath f.path g.paths;
  })
  | inr p ↦ rw p (Gathered-tail t.action f g (put t f groups) (put-Gathered t f groups))
]

-- What is gathered stays when another finding is put.
add_to-Gathered :
    (action : Text) (f f' : Finding) (g : Group) (groups : List Group)
    → Gathered action f (g ∷ groups)
    → Gathered action f (add_to f' g ∷ groups)
add_to-Gathered action f f' g groups h = elim (Memᴰ.cases_cons h.member) [
  | inl e ↦ record {
    group = add_to f' g;
    member = Memᴰ.head refl;
    same = rw (← e) h.same;
    code = Memᴰ-add_once f'.code f.code g.codes (rw (← e) h.code);
    path =
        HasPath-imp f.path g.paths (add_path f'.path g.paths) (λ y. Memᴰ-add_path f'.path y g.paths)
          (rw (← e) h.path);
  }
  | inr m ↦ record {
    group = h.group;
    member = Memᴰ.tail m;
    same = h.same;
    code = h.code;
    path = h.path;
  }
]

put-Gathered_old :
    (action : Text) (t : Template) (f f' : Finding) (groups : List Group)
    → Gathered action f groups
    → Gathered action f (put t f' groups)
unfolding put
put-Gathered_old action t f f' [] h = absurd (Memᴰ.not-nil h.member)
put-Gathered_old action t f f' (g ∷ groups) h =
    elim (Bool-cases (text_eq g.template.action t.action)) [
      | inl p ↦ rw p (add_to-Gathered action f f' g groups h)
      | inr p ↦ rw p (elim (Memᴰ.cases_cons h.member) [
        | inl e ↦ record {
          group = h.group;
          member = Memᴰ.head e;
          same = h.same;
          code = h.code;
          path = h.path;
        }
        | inr m ↦ Gathered-tail action f g (put t f' groups) (
            put-Gathered_old action t f f' groups
              (record { group = h.group; member = m; same = h.same; code = h.code; path = h.path }))
      ])
    ]

put_template-Gathered :
    (action : Text) (t : Option Template) (f f' : Finding) (groups : List Group)
    → Gathered action f groups
    → Gathered action f (put_template t f' groups)
put_template-Gathered action none f f' groups h = h
put_template-Gathered action (some t) f f' groups h = put-Gathered_old action t f f' groups h

grouped-Gathered_old :
    (action : Text) (f : Finding) (findings : List Finding) (groups : List Group)
    → Gathered action f groups
    → Gathered action f (grouped findings groups)
unfolding grouped
grouped-Gathered_old action f [] groups h = h
grouped-Gathered_old action f (f' ∷ findings) groups h =
    grouped-Gathered_old action f findings (put_template (template_for f'.code) f' groups)
      (put_template-Gathered action (template_for f'.code) f f' groups h)

pub grouped-Gathered :
    (t : Template) (f : Finding) (findings : List Finding) (groups : List Group)
    → Memᴰ f findings
    → template_for f.code ≡ some t
    → Gathered t.action f (grouped findings groups)
unfolding grouped
grouped-Gathered t f [] groups m e = absurd (Memᴰ.not-nil m)
grouped-Gathered t f (f' ∷ findings) groups m e = elim (Memᴰ.cases_cons m) [
  | inl same ↦
      rw (← same, e)
        (grouped-Gathered_old t.action f findings (put t f groups) (put-Gathered t f groups))
  | inr m' ↦ grouped-Gathered t f findings (put_template (template_for f'.code) f' groups) m' e
]
