-- ===== src/Prelude/Exec.antt =====
-- Methods that change an object and may raise. What was written before a raise stays written.
use mathlib.Core.Path.{◌≡◌, refl}
use mathlib.Core.Bool.{Bool, true, false}
use nautilus_acornfs.Prelude.Result.{Error, Result, ok, err}

abbrev pub Exec : Type 0 → Type 0 → Type 0
Exec S A = S → Result A × S

module _ {S A : Type 0} where
  abbrev pub pure : A → Exec S A
  pure a s = (ok a, s)

  abbrev pub raise : Error → Exec S A
  raise e s = (err e, s)

  abbrev pub gets : (S → A) → Exec S A
  gets f s = (ok (f s), s)

  -- A call that reads the state and may raise.
  abbrev pub reads : (S → Result A) → Exec S A
  reads f s = (f s, s)

module _ {S : Type 0} where
  abbrev pub modify : (S → S) → Exec S (Unit {0})
  modify f s = (ok tt, f s)

  -- `if test: raise error`
  abbrev pub raise_when : Bool → Error → Exec S (Unit {0})
  raise_when true e s = (err e, s)
  raise_when false e s = (ok tt, s)

module _ {S A B : Type 0} where
  -- What follows a result: an exception passes by the rest.
  abbrev pub continue : (result : Result A) → (A → Exec S B) → Exec S B
  continue (err error) next s = (err error, s)
  continue (ok value) next s = next value s

  infixl 5 ◌>>=◌ ◌>>◌
  abbrev pub ◌>>=◌ : (first : Exec S A) → (A → Exec S B) → Exec S B
  ◌>>=◌ first next s = let (result, after) = first s in continue result next after

  abbrev pub ◌>>◌ : (first : Exec S A) (second : Exec S B) → Exec S B
  ◌>>◌ first second s = let (result, after) = first s in continue result (λ done. second) after

-- What an action keeps, whether it returns or raises.
module _ {S A B : Type 0} (P : S → Type 0) where
  continue-keeps :
      (r : Result A) (f : A → Exec S B) (s : S)
      → ((a : A) (t : S) → P t → P (f a t).1)
      → P s
      → P (continue r f s).1
  continue-keeps (ok a) f s kf h = kf a s h
  continue-keeps (err e) f s kf h = h

  pub bind-keeps :
      (m : Exec S A) (f : A → Exec S B)
      → ((t : S) → P t → P (m t).1)
      → ((a : A) (t : S) → P t → P (f a t).1)
      → (s : S) → P s
      → P ((m >>= f) s).1
  bind-keeps m f km kf s h = continue-keeps (m s).0 f (m s).1 kf (km s h)

-- What holds at the end of a bind, from what holds after its first part.
module _ {S A B : Type 0} (P Q : S → Type 0) where
  continue-ends :
      (r : Result A) (f : A → Exec S B) (s : S)
      → ((t : S) → P t → Q t)
      → ((a : A) (t : S) → P t → Q (f a t).1)
      → P s
      → Q (continue r f s).1
  continue-ends (ok a) f s weaken kf h = kf a s h
  continue-ends (err e) f s weaken kf h = weaken s h

  pub bind-ends :
      (m : Exec S A) (f : A → Exec S B) (s : S)
      → ((t : S) → P t → Q t)
      → P (m s).1
      → ((a : A) (t : S) → P t → Q (f a t).1)
      → Q ((m >>= f) s).1
  bind-ends m f s weaken h kf = continue-ends (m s).0 f (m s).1 weaken kf h

-- An action in two parts that returns has returned from both.
pub continue-ok :
    {S A B : Type 0} (r : Result A) (f : A → Exec S B) (s : S) (b : B)
    → (continue r f s).0 ≡ ok b
    → (a : A) × (r ≡ ok a) × ((f a s).0 ≡ ok b) × ((continue r f s).1 ≡ (f a s).1)
continue-ok (ok a) f s b h = (a, refl, h, refl)
continue-ok (err e) f s b h = cc

-- The same for a first part that returns nothing.
pub then-ok :
    {S B : Type 0} (m : Exec S (Unit {0})) (k : Exec S B) (s : S) (b : B)
    → ((m >> k) s).0 ≡ ok b
    → ((m s).0 ≡ ok tt) × ((k (m s).1).0 ≡ ok b) × (((m >> k) s).1 ≡ (k (m s).1).1)
then-ok m k s b h = let (a, p, q, e) = continue-ok (m s).0 (λ _. k) (m s).1 b h in (p, q, e)

-- What holds behind an action in two parts, where the second is known to start from a return of the first.
module _ {S A B : Type 0} (P : S → Type 0) where
  continue-step :
      (r : Result A) (f : A → Exec S B) (s : S)
      → P s
      → ((a : A) → r ≡ ok a → P (f a s).1)
      → P (continue r f s).1
  continue-step (ok a) f s h next = next a refl
  continue-step (err e) f s h next = h

  pub bind-step :
      (m : Exec S A) (f : A → Exec S B) (s : S)
      → P (m s).1
      → ((a : A) → (m s).0 ≡ ok a → P (f a (m s).1).1)
      → P ((m >>= f) s).1
  bind-step m f s = continue-step (m s).0 f (m s).1
