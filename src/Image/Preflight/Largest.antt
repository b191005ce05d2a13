-- ===== src/Image/Preflight/Largest.antt =====
-- The merge loop of `largest_extent`, against the runs of sectors that the extents hold.
use nautilus_acornfs.Prelude.{
  ℕ, ◌+◌, ◌-◌, ◌≤◌, ◌<◌, ◌≡◌, ◌↔◌, ◌⊎◌, inl, inr, refl, max, ◌&&◌, Bool-cases, List, [], ◌∷◌, All,
  ltb, leb, if◌then◌else◌, arith,
}
use nautilus_acornfs.Prelude.Sorting.{sum_by, Ascends, sort, sum_by-sort, sort-Ascends}
use nautilus_acornfs.Image.Preflight.{before_pair, merge_loop, merge_first, largest_extent}

abbrev within : ℕ → ℕ → ℕ → ℕ
within start stop x = if leb start x && ltb x stop then 1 else 0

-- How many extents hold the sector `x`.
abbrev pub holders : ℕ → List (ℕ × ℕ) → ℕ
holders x = sum_by (λ (e : ℕ × ℕ). within e.0 (e.0 + e.1) x)

abbrev pub IsRun : (ℕ → ℕ) → ℕ → ℕ → Type 0
IsRun held a n = (x : ℕ) → a ≤ x → x < a + n → 0 < held x

abbrev start_of : ℕ × ℕ → ℕ
start_of e = e.0

-- The sectors of the current run and of the extents still to come.
abbrev ahead : ℕ → ℕ → List (ℕ × ℕ) → ℕ → ℕ
ahead start stop es x = within start stop x + holders x es

merge_loop-le :
    (largest start stop : ℕ) (es : List (ℕ × ℕ)) → largest ≤ merge_loop largest start stop es
unfolding merge_loop
merge_loop-le largest start stop [] = omega arith
merge_loop-le largest start stop ((s, l) ∷ es) = ground (
  arith,
  merge_loop-le (max largest (stop - start)) s (s + l) es,
  merge_loop-le largest start (max stop (s + l)) es,
)

holders-before :
    (x n : ℕ) (es : List (ℕ × ℕ)) → x < n → All (λ e. n ≤ start_of e) es → holders x es ≡ 0
holders-before x n [] lt h = refl
holders-before x n ((s, l) ∷ es) lt h = ground (arith, holders-before x n es lt h.1)

merge_loop_complete :
    (n a largest start stop : ℕ) (es : List (ℕ × ℕ))
    → 0 < n
    → start ≤ stop
    → Ascends start_of ((start, 0) ∷ es)
    → IsRun (ahead start stop es) a n
    → n ≤ merge_loop largest start stop es
unfolding merge_loop
merge_loop_complete n a largest start stop [] pos le sorted run =
    ground (arith, run a, run (a + n - 1))
merge_loop_complete n a largest start stop ((s, l) ∷ es) pos le sorted run =
    elim (Bool-cases (ltb stop s)) [
      | inl gap ↦ rw gap (elim (Bool-cases (ltb a stop)) [
        | inl inside ↦ ground (
          arith,
          run a,
          run stop,
          holders-before a s es,
          holders-before stop s es,
          merge_loop-le (max largest (stop - start)) s (s + l) es,
        )
        | inr behind ↦
            merge_loop_complete n a (max largest (stop - start)) s (s + l) es pos (omega arith)
              sorted.1 (λ x lo hi. ground (arith, run x lo hi))
      ])
      | inr joined ↦ rw joined (
          merge_loop_complete n a largest start (max stop (s + l)) es pos (omega arith)
            (sorted.0.1, sorted.1.1) (λ x lo hi. ground (arith, run x lo hi)))
    ]

merge_loop_sound :
    (n largest start stop : ℕ) (es : List (ℕ × ℕ))
    → start ≤ stop
    → n ≤ merge_loop largest start stop es
    → (n ≤ largest) ⊎ ((a : ℕ) × IsRun (ahead start stop es) a n)
unfolding merge_loop
merge_loop_sound n largest start stop [] le h = elim (Bool-cases (leb n largest)) [
  | inl old ↦ inl (ground arith)
  | inr new ↦ inr (start, λ x lo hi. ground arith)
]
merge_loop_sound n largest start stop ((s, l) ∷ es) le h = elim (Bool-cases (ltb stop s)) [
  | inl gap ↦
      elim (merge_loop_sound n (max largest (stop - start)) s (s + l) es (omega arith)
        (rw gap at h)) [
          | inl first ↦ elim (Bool-cases (leb n largest)) [
            | inl old ↦ inl (ground arith)
            | inr new ↦ inr (start, λ x lo hi. ground arith)
          ]
          | inr (a, run) ↦ inr (a, λ x lo hi. ground (arith, run x lo hi))
        ]
  | inr joined ↦
      elim (merge_loop_sound n largest start (max stop (s + l)) es (omega arith) (rw joined at h)) [
        | inl old ↦ inl old
        | inr (a, run) ↦ inr (a, λ x lo hi. ground (arith, run x lo hi))
      ]
]

merge_first_iff :
    (n : ℕ) (es : List (ℕ × ℕ))
    → 0 < n
    → Ascends start_of es
    → (n ≤ merge_first es) ↔ ((a : ℕ) × IsRun (λ x. holders x es) a n)
unfolding merge_first
merge_first_iff n [] pos sorted = (λ h. absurd (omega arith), λ r. absurd (ground (arith, r.1 r.0)))
merge_first_iff n ((s, l) ∷ es) pos sorted = (
  λ h. elim (merge_loop_sound n 0 s (s + l) es (omega arith) h) [
    | inl none ↦ absurd (omega arith)
    | inr run ↦ run
  ],
  λ r. merge_loop_complete n r.0 0 s (s + l) es pos (omega arith) sorted r.1,
)

-- A positive number of sectors is at most the largest extent exactly when the extents hold that many
-- sectors in a row, in whatever order they are listed and however they overlap or adjoin.
pub largest_extent_iff :
    (n : ℕ) (extents : List (ℕ × ℕ))
    → 0 < n
    → (n ≤ largest_extent extents) ↔ ((a : ℕ) × IsRun (λ x. holders x extents) a n)
unfolding largest_extent
largest_extent_iff n extents pos =
    let both =
      merge_first_iff n (sort before_pair extents) pos (
        sort-Ascends before_pair start_of (λ x y h. ground arith) (λ x y h. ground arith)
          extents) in
    (
      λ h. let (a, run) = both.0 h in (a, λ x lo hi. rw (← same x) (run x lo hi)),
      λ r. both.1 (r.0, λ x lo hi. rw (same x) (r.1 x lo hi)),
    )
  where
    same : (x : ℕ) → holders x (sort before_pair extents) ≡ holders x extents
    same x = sum_by-sort before_pair (λ (e : ℕ × ℕ). within e.0 (e.0 + e.1) x) extents
