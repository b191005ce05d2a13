-- ===== src/Prelude/Decimal.antt =====
-- Python's `str(n)` and `int(text)` for decimal numbers.
use Prim.Native.Nat.{ℕ, zero, suc, ◌+◌, ◌*◌, ◌/◌, ◌%◌, ◌<◌}
use mathlib.Core.Path.{◌≡◌, refl}
use mathlib.Core.Option.{Option, none, some}
use mathlib.Core.List.{[], ◌∷◌, ◌++◌}
use native.Mathlib.Omega.{arith}
use nautilus_acornfs.Prelude.Tests.{ltb, if◌then◌else◌, Bool-cases}
use nautilus_acornfs.Prelude.Text.{Text}
use mathlib.Core.Logic.{inl, inr}

-- The decimal digits, most significant first; the fuel `n + 1` is enough.
unfoldable pub digits : ℕ → ℕ → Text
digits zero n = []
digits (suc fuel) n =
    let more = digits fuel (n / 10) ++ (48 + n % 10) ∷ [] in
    if ltb n 10 then (48 + n) ∷ [] else more

unfoldable pub decimal : ℕ → Text
unfolding digits
decimal n = digits (suc n) n

-- `int(text)` where every character is a decimal digit of value `value`; `none` where one is not.
module _ (value : ℕ → Option ℕ) where
  abbrev next : ℕ → Option ℕ → Option ℕ
  next acc none = none
  next acc (some d) = some (acc * 10 + d)

  abbrev step : Option ℕ → ℕ → Option ℕ
  step none c = none
  step (some acc) c = next acc (value c)

  unfoldable pub int_from : Option ℕ → Text → Option ℕ
  int_from acc [] = acc
  int_from acc (c ∷ s) = int_from (step acc c) s

  int_from-append :
      (acc : Option ℕ) (s : Text) (c : ℕ) → int_from acc (s ++ c ∷ []) ≡ step (int_from acc s) c
  unfolding int_from
  int_from-append acc [] c = refl
  int_from-append acc (d ∷ s) c = int_from-append (step acc d) s c

  pub int_from-digits :
      (ascii : (d : ℕ) → d < 10 → value (48 + d) ≡ some d) (fuel n : ℕ)
      → n < fuel
      → int_from (some 0) (digits fuel n) ≡ some n
  unfolding digits int_from
  int_from-digits ascii zero n h = absurd (omega arith)
  int_from-digits ascii (suc fuel) n h = elim (Bool-cases (ltb n 10)) [
    | inl small ↦ rw small (rw (ascii n (ground arith)) (ground arith))
    | inr large ↦ rw large (
        rw
          (
            int_from-append (some 0) (digits fuel (n / 10)) (48 + n % 10),
            int_from-digits ascii fuel (n / 10) (ground arith),
            ascii (n % 10) (omega arith),
          )
          (ground arith))
  ]
