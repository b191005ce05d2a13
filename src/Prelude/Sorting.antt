-- ===== src/Prelude/Sorting.antt =====
-- Python's `sorted(xs, key=...)`, a stable sort, as insertion sort by a Boolean "not after".
use Prim.Native.Nat.{ℕ, ◌+◌, ◌≤◌}
use mathlib.Core.Path.{◌≡◌, refl}
use mathlib.Core.Bool.{Bool, true, false}
use mathlib.Core.List.{List, [], ◌∷◌}
use mathlib.Core.List.{Memᴰ}
use mathlib.Core.List.Memᴰ
use mathlib.Core.Logic.{◌⊎◌, inl, inr}
use native.Mathlib.Omega.{arith}
use nautilus_acornfs.Prelude.Tests.{if◌then◌else◌, Bool-cases}
use nautilus_acornfs.Prelude.Lists.{All}

module _ {A : Type 0} where
  -- The sum of a measure over a list.
  abbrev pub sum_by : (A → ℕ) → List A → ℕ
  sum_by f [] = 0
  sum_by f (x ∷ xs) = f x + sum_by f xs

  -- The keys ascend.
  abbrev pub Ascends : (A → ℕ) → List A → Type 0
  Ascends key [] = Unit
  Ascends key (x ∷ xs) = All (λ y. key x ≤ key y) xs × Ascends key xs

module _ {A : Type 0} (before : A → A → Bool) where
  unfoldable pub insert_sorted : A → List A → List A
  insert_sorted x [] = x ∷ []
  insert_sorted x (y ∷ ys) = if before x y then x ∷ y ∷ ys else y ∷ insert_sorted x ys

  unfoldable pub sort : List A → List A
  unfolding insert_sorted
  sort [] = []
  sort (x ∷ xs) = insert_sorted x (sort xs)

  sum_by-insert_sorted :
      (f : A → ℕ) (x : A) (ys : List A) → sum_by f (insert_sorted x ys) ≡ f x + sum_by f ys
  unfolding insert_sorted
  sum_by-insert_sorted f x [] = refl
  sum_by-insert_sorted f x (y ∷ ys) = ground (arith, sum_by-insert_sorted f x ys)

  pub sum_by-sort : (f : A → ℕ) (xs : List A) → sum_by f (sort xs) ≡ sum_by f xs
  unfolding sort
  sum_by-sort f [] = refl
  sum_by-sort f (x ∷ xs) = ground (arith, sum_by-insert_sorted f x (sort xs), sum_by-sort f xs)

  All-insert_sorted :
      (P : A → Type 0) (x : A) (ys : List A) → P x → All P ys → All P (insert_sorted x ys)
  unfolding insert_sorted
  All-insert_sorted P x [] p h = (p, tt)
  All-insert_sorted P x (y ∷ ys) p h = ground (arith, All-insert_sorted P x ys p h.1)

  pub All-sort : (P : A → Type 0) (xs : List A) → All P xs → All P (sort xs)
  unfolding sort
  All-sort P [] h = tt
  All-sort P (x ∷ xs) h = All-insert_sorted P x (sort xs) h.0 (All-sort P xs h.1)

module _ {A : Type 0} (before : A → A → Bool) where
  Memᴰ-insert_sorted :
      (z x : A) (ys : List A) → (z ≡ x) ⊎ Memᴰ z ys → Memᴰ z (insert_sorted before x ys)
  unfolding insert_sorted
  Memᴰ-insert_sorted z x [] (inl e) = Memᴰ.head e
  Memᴰ-insert_sorted z x [] (inr m) = absurd (Memᴰ.not-nil m)
  Memᴰ-insert_sorted z x (y ∷ ys) h = elim (Bool-cases (before x y)) [
    | inl p ↦ rw p (elim h [ inl e ↦ Memᴰ.head e | inr m ↦ Memᴰ.tail m ])
    | inr p ↦ rw p (elim h [
      | inl e ↦ Memᴰ.tail (Memᴰ-insert_sorted z x ys (inl e))
      | inr m ↦ elim (Memᴰ.cases_cons m) [
        | inl e ↦ Memᴰ.head e
        | inr m' ↦ Memᴰ.tail (Memᴰ-insert_sorted z x ys (inr m'))
      ]
    ])
  ]

  pub Memᴰ-sort : (z : A) (xs : List A) → Memᴰ z xs → Memᴰ z (sort before xs)
  unfolding sort
  Memᴰ-sort z [] m = m
  Memᴰ-sort z (x ∷ xs) m =
      Memᴰ-insert_sorted z x (sort before xs)
        (elim (Memᴰ.cases_cons m) [ inl e ↦ inl e | inr m' ↦ inr (Memᴰ-sort z xs m') ])

module _ {A : Type 0} (key : A → ℕ) where
  All-le_trans : (m n : ℕ) (xs : List A) → m ≤ n → All (λ y. n ≤ key y) xs → All (λ y. m ≤ key y) xs
  All-le_trans m n [] le h = tt
  All-le_trans m n (x ∷ xs) le h = (omega arith, All-le_trans m n xs le h.1)

module _ {A : Type 0} (before : A → A → Bool) (key : A → ℕ)
    (sound : (x y : A) → before x y ≡ true → key x ≤ key y)
    (total : (x y : A) → before x y ≡ false → key y ≤ key x) where
  insert_sorted-Ascends :
      (x : A) (ys : List A) → Ascends key ys → Ascends key (insert_sorted before x ys)
  unfolding insert_sorted
  insert_sorted-Ascends x [] h = (tt, tt)
  insert_sorted-Ascends x (y ∷ ys) h = ground (
    arith,
    insert_sorted-Ascends x ys h.1,
    sound x y,
    All-le_trans key (key x) (key y) ys,
    λ (e : before x y ≡ false).
        All-insert_sorted before (λ z. key y ≤ key z) x ys (total x y e) h.0,
  )

  pub sort-Ascends : (xs : List A) → Ascends key (sort before xs)
  unfolding sort
  sort-Ascends [] = tt
  sort-Ascends (x ∷ xs) = insert_sorted-Ascends x (sort before xs) (sort-Ascends xs)
