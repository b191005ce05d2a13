-- ===== src/Mmb/Slots/Mounted.antt =====
-- The cache of the mounts of the slots.
use nautilus_acornfs.Prelude.{
  ℕ, ◌+◌, ◌≤◌, ◌≡◌, refl, Option, none, some, List, [], ◌∷◌, ◌++◌, ltb, length, arith, Bool-cases,
  inl, inr, Option-cases, length-append,
}
use nautilus_acornfs.Prelude.Dict.{
  Dict, IsDict, lookup, insert, erase, lookup-erase_self, erase-IsDict, insert-IsDict, insert-new,
}
use nautilus_acornfs.Prelude.Text.{Text}
use nautilus_acornfs.Prelude.Result.{Result, ok, err}
use nautilus_acornfs.Prelude.Exec.{continue, ◌>>=◌}
use nautilus_acornfs.Mounting.{Mount}
use nautilus_acornfs.Mmb.Layout.{MmbSlot, slot_bytes}
use nautilus_acornfs.Mmb.Slots.{
  Library, State, Candidate, dfs_candidate, evict_mounts, slot_mount, open_candidate, remember,
}

-- The entry that was used last.
abbrev pub last_of {ℓ} : {A : Type ℓ} → List A → Option A
last_of [] = none
last_of (x ∷ []) = some x
last_of (x ∷ y ∷ xs) = last_of (y ∷ xs)

last-append {ℓ} : {A : Type ℓ} (xs : List A) (x : A) → last_of (xs ++ x ∷ []) ≡ some x
last-append [] x = refl
last-append (y ∷ []) x = refl
last-append (y ∷ z ∷ xs) x = last-append (z ∷ xs) x

length-erase :
    {V : Type 0} (k : ℕ) (v : V) (d : Dict V)
    → lookup k d ≡ some v
    → length (erase k d) + 1 ≡ length d
length-erase k v [] h = cc
length-erase k v ((j, w) ∷ d) h = ground (arith, length-erase k v d)

-- The mounts that are open: at most as many as the limit, no slot twice.
pub record IsBounded {World : Type 0} (limit : ℕ) (mounts : Dict (Mount World)) : Type 0 where
  pub bound : length mounts ≤ limit
  pub keys : IsDict mounts

-- What a call for a slot's mount leaves: the mount as the one that was used last, or, where it raised, the
-- mounts as they were.
abbrev pub Left :
    {World : Type 0} → ℕ → Dict (Mount World) → Result (Mount World) × State World → Type 0
Left index mounts (ok mount, t) = last_of t.mounts ≡ some (index, mount)
Left index mounts (err e, t) = t.mounts ≡ mounts

module _ {World Geometry : Type 0} (lib : Library World Geometry) (limit : ℕ) where
  evict_mounts-IsBounded :
      (d : Dict (Mount World)) (w : World) (x : ℕ × Mount World)
      → 1 ≤ limit
      → IsDict d
      → last_of d ≡ some x
      → IsBounded limit (evict_mounts lib limit d w).mounts
        × (last_of (evict_mounts lib limit d w).mounts ≡ some x)
  unfolding evict_mounts
  evict_mounts-IsBounded [] w x pos k h = cc
  evict_mounts-IsBounded ((i, m) ∷ []) w x pos k h = ground arith
  evict_mounts-IsBounded ((i, m) ∷ y ∷ d) w x pos k h =
      elim (Bool-cases (ltb limit (length ((i, m) ∷ y ∷ d)))) [
        | inl more ↦ rw more (evict_mounts-IsBounded (y ∷ d) (lib.close_mount m w) x pos k.1 h)
        | inr fits ↦ rw fits (record { bound = ground arith; keys = k }, h)
      ]

  append-IsDict :
      (k : ℕ) (v : Mount World) (d : Dict (Mount World))
      → IsDict d
      → lookup k d ≡ none
      → IsDict (d ++ (k, v) ∷ [])
  append-IsDict k v d h e = rw (← insert-new k v d e) (insert-IsDict k v d h)

  remember-Left :
      (index : ℕ) (mount : Mount World) (s : State World)
      → 1 ≤ limit
      → IsDict s.mounts
      → lookup index s.mounts ≡ none
      → IsBounded limit (remember lib limit index mount s).1.mounts
        × Left index s.mounts (remember lib limit index mount s)
  unfolding evict_mounts
  remember-Left index mount s pos k absent =
      evict_mounts-IsBounded (insert index mount s.mounts) s.world (index, mount) pos
        (insert-IsDict index mount s.mounts k)
        (rw (insert-new index mount s.mounts absent) (last-append s.mounts (index, mount)))

  -- Opening a slot that has no mount, by what the probe and the opening return.
  module _ (slot : MmbSlot) (d : Dict (Mount World)) (pos : 1 ≤ limit) (h : IsBounded limit d)
      (absent : lookup slot.index d ≡ none) where
    abbrev Good : Result (Mount World) × State World → Type 0
    Good q = IsBounded limit q.1.mounts × Left slot.index d q

    opened :
        (r : Result (Mount World)) (w : World)
        → Good (continue r (remember lib limit slot.index) (record { world = w; mounts = d }))
    opened (ok mount) w =
        remember-Left slot.index mount (record { world = w; mounts = d }) pos h.keys absent
    opened (err e) w = (h, refl)

    chosen :
        (c : Option (Text × Geometry)) (w : World)
        → Good (
            (open_candidate lib slot c >>= remember lib limit slot.index)
              (record { world = w; mounts = d }))
    chosen none w = (h, refl)
    chosen (some (f, g)) w =
        opened (lib.open_mount f slot.offset slot_bytes g w).0
          (lib.open_mount f slot.offset slot_bytes g w).1

    probed :
        (r : Result (List (Candidate Geometry))) (w : World)
        → Good (
            continue r
              (λ candidates.
                open_candidate lib slot (dfs_candidate lib candidates)
                >>= remember lib limit slot.index)
              (record { world = w; mounts = d }))
    unfolding dfs_candidate
    probed (ok candidates) w = chosen (dfs_candidate lib candidates) w
    probed (err e) w = (h, refl)

  -- With a cache of at least one mount, a call for the mount of a slot leaves at most as many mounts as the
  -- limit and none twice. The mount that it returns is then the one used last; if it raises, the open
  -- mounts are the same as before.
  pub slot_mount-IsBounded :
      (slot : MmbSlot) (s : State World)
      → 1 ≤ limit
      → IsBounded limit s.mounts
      → IsBounded limit (slot_mount lib limit slot s).1.mounts
        × Left slot.index s.mounts (slot_mount lib limit slot s)
  unfolding slot_mount
  slot_mount-IsBounded slot s pos h = elim (Option-cases (lookup slot.index s.mounts)) [
    | inl absent ↦ rw absent (
        probed slot s.mounts pos h absent (lib.identify slot.offset slot_bytes s.world).0
          (lib.identify slot.offset slot_bytes s.world).1)
    | inr (m, found) ↦
        let gone = lookup-erase_self slot.index s.mounts h.keys in
        rw (found, insert-new slot.index m (erase slot.index s.mounts) gone)
          (
            record {
              bound = omega (
                arith,
                h.bound,
                length-erase slot.index m s.mounts found,
                length-append (erase slot.index s.mounts) ((slot.index, m) ∷ []),
              );
              keys =
                  append-IsDict slot.index m (erase slot.index s.mounts)
                    (erase-IsDict slot.index s.mounts h.keys) gone;
            },
            last-append (erase slot.index s.mounts) (slot.index, m),
          )
  ]
