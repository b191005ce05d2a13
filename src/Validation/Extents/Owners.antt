-- ===== src/Validation/Extents/Owners.antt =====
-- How many extents of a list hold a sector: what the accounting is judged by.
use nautilus_acornfs.Prelude.{
  ℕ, zero, suc, ◌+◌, ◌-◌, ◌≤◌, ◌<◌, ◌≡◌, refl, ◌&&◌, List, [], ◌∷◌, ◌++◌, All, ltb, leb,
  if◌then◌else◌, arith,
}
use nautilus_acornfs.Prelude.Sorting.{sum_by, Ascends, sort, sort-Ascends}
use nautilus_acornfs.Validation.Extents.{Extent, extent_length, before_start, before_start_end}

abbrev pub holds : ℕ → Extent → ℕ
holds s e = if leb e.start s && ltb s e.stop then 1 else 0

abbrev pub owners : ℕ → List Extent → ℕ
owners s = sum_by (holds s)

abbrev pub IsNonempty : Extent → Type 0
IsNonempty e = e.start < e.stop

pub owners-append : (s : ℕ) (xs ys : List Extent) → owners s (xs ++ ys) ≡ owners s xs + owners s ys
owners-append s [] ys = omega arith
owners-append s (x ∷ xs) ys = omega (arith, owners-append s xs ys)

-- No extent that begins behind a sector holds it.
pub owners-before :
    (s n : ℕ) (xs : List Extent) → s < n → All (λ (e : Extent). n ≤ e.start) xs → owners s xs ≡ 0
owners-before s n [] lt h = refl
owners-before s n (x ∷ xs) lt h = ground (arith, owners-before s n xs lt h.1)

pub sort_start-Ascends :
    (xs : List Extent) → Ascends (λ (e : Extent). e.start) (sort before_start xs)
sort_start-Ascends =
    sort-Ascends before_start (λ e. e.start) (λ x y h. ground arith) (λ x y h. ground arith)

pub sort_start_end-Ascends :
    (xs : List Extent) → Ascends (λ (e : Extent). e.start) (sort before_start_end xs)
sort_start_end-Ascends =
    sort-Ascends before_start_end (λ e. e.start) (λ x y h. ground arith) (λ x y h. ground arith)

-- The sectors below `n` that an extent holds, counted.
held : ℕ → Extent → ℕ
held zero e = 0
held (suc n) e = held n e + holds n e

held-before : (n : ℕ) (e : Extent) → n ≤ e.start → held n e ≡ 0
unfolding held
held-before zero e h = refl
held-before (suc n) e h = ground (arith, held-before n e)

held-eq : (n : ℕ) (e : Extent) → e.start ≤ n → n ≤ e.stop → held n e ≡ n - e.start
unfolding held
held-eq zero e h k = omega arith
held-eq (suc n) e h k = ground (arith, held-eq n e, held-before n e)

held-length : (n : ℕ) (e : Extent) → IsNonempty e → e.stop ≤ n → held n e ≡ extent_length e
unfolding held
held-length zero e h k = absurd (omega arith)
held-length (suc n) e h k = ground (arith, held-length n e h, held-eq n e)

total_held : ℕ → List Extent → ℕ
total_held zero xs = 0
total_held (suc n) xs = total_held n xs + owners n xs

total_held-cons :
    (n : ℕ) (x : Extent) (xs : List Extent) → total_held n (x ∷ xs) ≡ held n x + total_held n xs
unfolding held total_held
total_held-cons zero x xs = refl
total_held-cons (suc n) x xs = omega (arith, total_held-cons n x xs)

total_held-nil : (n : ℕ) → total_held n [] ≡ 0
unfolding total_held
total_held-nil zero = refl
total_held-nil (suc n) = omega (arith, total_held-nil n)

sum_length-eq :
    (n : ℕ) (xs : List Extent)
    → All (λ (e : Extent). IsNonempty e × (e.stop ≤ n)) xs
    → sum_by extent_length xs ≡ total_held n xs
sum_length-eq n [] h = omega (arith, total_held-nil n)
sum_length-eq n (x ∷ xs) h =
    omega (arith, total_held-cons n x xs, held-length n x h.0.0 h.0.1, sum_length-eq n xs h.1)

total_held-once :
    (n : ℕ) (xs ys : List Extent)
    → ((s : ℕ) → s < n → owners s xs + owners s ys ≡ 1)
    → total_held n xs + total_held n ys ≡ n
unfolding total_held
total_held-once zero xs ys once = refl
total_held-once (suc n) xs ys once =
    omega (arith, total_held-once n xs ys (λ s h. once s (omega arith)), once n (omega arith))

-- Where each sector below `n` is held once by one of two lists, the lengths add up to `n`.
pub sum_length-once :
    (n : ℕ) (xs ys : List Extent)
    → All (λ (e : Extent). IsNonempty e × (e.stop ≤ n)) xs
    → All (λ (e : Extent). IsNonempty e × (e.stop ≤ n)) ys
    → ((s : ℕ) → s < n → owners s xs + owners s ys ≡ 1)
    → sum_by extent_length xs + sum_by extent_length ys ≡ n
sum_length-once n xs ys hx hy once =
    omega (arith, sum_length-eq n xs hx, sum_length-eq n ys hy, total_held-once n xs ys once)
