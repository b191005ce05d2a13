-- ===== src/Prelude/Dict.antt =====
-- Python's `dict` and `OrderedDict` with number keys, in insertion order.
use Prim.Native.Nat.{ℕ}
use mathlib.Core.Path.{◌≡◌, refl}
use mathlib.Core.Logic.{◌≢◌}
use mathlib.Core.Bool.{Bool, true, false}
use mathlib.Core.Option.{Option, none, some}
use mathlib.Core.List.{List, [], ◌∷◌, ◌++◌}
use native.Mathlib.Omega.{arith}
use nautilus_acornfs.Prelude.Tests.{◌==◌, if◌then◌else◌}

abbrev pub Dict {ℓ} : (Value : Type ℓ) → Type ℓ
Dict Value = List (ℕ × Value)

module _ {ℓ} {V : Type ℓ} where
  -- `d[key] = value`: in place, or at the end.
  abbrev pub insert : (key : ℕ) (value : V) → Dict V → Dict V
  insert key value [] = (key, value) ∷ []
  insert key value ((here, old) ∷ rest) =
      if key == here then (key, value) ∷ rest else (here, old) ∷ insert key value rest

  -- `d.pop(key, None)`
  abbrev pub erase : (key : ℕ) → Dict V → Dict V
  erase key [] = []
  erase key ((here, old) ∷ rest) = if key == here then rest else (here, old) ∷ erase key rest

  -- `d.get(key)`
  abbrev pub lookup : (key : ℕ) → Dict V → Option V
  lookup key [] = none
  lookup key ((here, value) ∷ rest) = if key == here then some value else lookup key rest

  -- `key in d`
  abbrev pub contains : (key : ℕ) → Dict V → Bool
  contains key d = elim (lookup key d) [ some _ ↦ true | none ↦ false ]

  -- No key stands twice.
  abbrev pub IsDict : Dict V → Type 0
  IsDict [] = Unit
  IsDict ((j, w) ∷ d) = (contains j d ≡ false) × IsDict d

  pub lookup-insert :
      (k j : ℕ) (v : V) (d : Dict V)
      → lookup j (insert k v d) ≡ (if k == j then some v else lookup j d)
  lookup-insert k j v [] = ground arith
  lookup-insert k j v ((i, w) ∷ d) = ground (arith, lookup-insert k j v d)

  pub lookup-erase_ne : (k j : ℕ) (d : Dict V) → k ≢ j → lookup j (erase k d) ≡ lookup j d
  lookup-erase_ne k j [] h = refl
  lookup-erase_ne k j ((i, w) ∷ d) h = ground (arith, lookup-erase_ne k j d h)

  pub erase-absent : (k : ℕ) (d : Dict V) → lookup k d ≡ none → erase k d ≡ d
  erase-absent k [] h = refl
  erase-absent k ((i, w) ∷ d) h = ground (arith, erase-absent k d)

  pub lookup-append_new :
      (k j : ℕ) (v : V) (d : Dict V)
      → lookup k d ≡ none
      → lookup j (d ++ (k, v) ∷ []) ≡ (if k == j then some v else lookup j d)
  lookup-append_new k j v [] h = ground arith
  lookup-append_new k j v ((i, w) ∷ d) h = ground (arith, lookup-append_new k j v d)

module _ {ℓ} {V : Type ℓ} where
  pub lookup-erase_self : (k : ℕ) (d : Dict V) → IsDict d → lookup k (erase k d) ≡ none
  lookup-erase_self k [] h = refl
  lookup-erase_self k ((i, w) ∷ d) h = ground (arith, lookup-erase_self k d h.1)

  pub erase-IsDict : (k : ℕ) (d : Dict V) → IsDict d → IsDict (erase k d)
  erase-IsDict k [] h = tt
  erase-IsDict k ((i, w) ∷ d) h = ground (arith, erase-IsDict k d h.1, lookup-erase_ne k i d)

  pub insert-IsDict : (k : ℕ) (v : V) (d : Dict V) → IsDict d → IsDict (insert k v d)
  insert-IsDict k v [] h = (refl, tt)
  insert-IsDict k v ((i, w) ∷ d) h = ground (arith, insert-IsDict k v d h.1, lookup-insert k i v d)

  -- `d[k] = v` for a new key appends it.
  pub insert-new :
      (k : ℕ) (v : V) (d : Dict V) → lookup k d ≡ none → insert k v d ≡ d ++ (k, v) ∷ []
  insert-new k v [] h = refl
  insert-new k v ((i, w) ∷ d) h = ground (arith, insert-new k v d)

module _ {V : Type 0} where
  pub lookup-erase :
      (k j : ℕ) (d : Dict V)
      → IsDict d
      → lookup j (erase k d) ≡ (if k == j then none else lookup j d)
  lookup-erase k j d h = ground (arith, lookup-erase_ne k j d, lookup-erase_self k d h)
