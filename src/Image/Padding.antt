-- ===== src/Image/Padding.antt =====
-- `ReadOnlyImage.pad_reserved_tail`: the data file is extended by zeros to the capacity of its descriptor, and
-- cut back where that fails. Calls of the system are answered by the host; a call that raises has done nothing.
use nautilus_acornfs.Prelude.{
  ℕ, suc, ◌-◌, ◌*◌, ◌<◌, ◌≤◌, ◌≡◌, ◌⊎◌, ◌∙◌, refl, ap, inl, inr, Bool, true, ◌||◌, not, Option,
  none, some, ◌++◌, leb, ◌==◌, length, length-append, take, take_all, take-append_self, replicate,
  length-replicate, if◌then◌else◌, arith, Bool-cases,
}
use mathlib.Core.List.{append_assoc}
use nautilus_acornfs.Prelude.Text.{Bytes}
use nautilus_acornfs.Prelude.Result.{Error, Result, ok, err, acornfs_error}
use nautilus_acornfs.Prelude.Exec.{Exec, modify, ◌>>◌}
use nautilus_acornfs.Transaction.{sector_bytes}

-- `guard` is what `_mutation` checks before the body, and `guard_fails` whether that fails the session, as it
-- does when the signature is not the expected one; `capacity` is that of the descriptor, if there is one.
pub record Host : Type 0 where
  pub guard : Result (Unit {0})
  pub guard_fails : Bool
  pub capacity : Option ℕ
  pub total_sectors : ℕ
  pub answer : ℕ → Result (Unit {0})

pub record Tail : Type 0 where
  pub made : ℕ
  pub content : Bytes
  pub failed : Bool

-- `ftruncate`
abbrev pub resize : ℕ → Bytes → Bytes
resize size content = take size (content ++ replicate (size - length content) 0)

module _ (h : Host) where
  abbrev perform : Exec Tail (Unit {0})
  perform s = (h.answer s.made, record s { made = suc s.made })

  abbrev truncate : ℕ → Exec Tail (Unit {0})
  truncate size = perform >> modify (λ s. record s { content = resize size s.content })

  -- The truncation, the fault injector, the flush and the new signature.
  abbrev set_size : ℕ → Exec Tail (Unit {0})
  set_size size = do truncate size; perform; perform; perform

  -- The same with no fault injector.
  abbrev cut_back : ℕ → Exec Tail (Unit {0})
  cut_back size = do truncate size; perform; perform

  abbrev rolled_back : Error → Result (Unit {0}) → Exec Tail (Unit {0})
  rolled_back error (ok done) s = (err error, s)
  rolled_back error (err again) s = (err acornfs_error, record s { failed = true })

  abbrev or_cut_back : ℕ → Result (Unit {0}) → Exec Tail (Unit {0})
  or_cut_back original (ok done) s = (ok tt, s)
  or_cut_back original (err error) s =
      let (result, after) = cut_back original s in rolled_back error result after

  abbrev extend : ℕ → ℕ → Exec Tail (Unit {0})
  extend original expected s =
      let (result, after) = set_size expected s in or_cut_back original result after

  -- A refusal in the body of `_mutation`, whose handler fails the session.
  abbrev refuse : Exec Tail (Unit {0})
  refuse s = (err acornfs_error, record s { failed = true })

  -- Only a data file that ends at the boundary of ADFS, below its capacity, is extended.
  abbrev pub misplaced : ℕ → ℕ → Bool
  misplaced original expected =
      not (original == h.total_sectors * sector_bytes) || leb expected original

  unfoldable pub pad_to : ℕ → Exec Tail (Unit {0})
  pad_to expected s =
      if misplaced (length s.content) expected
      then refuse s
      else extend (length s.content) expected s

  abbrev pub pad_for : Result (Unit {0}) → Option ℕ → Exec Tail (Unit {0})
  pad_for (err error) capacity s = (err error, record s { failed = s.failed || h.guard_fails })
  pad_for (ok done) none s = refuse s
  pad_for (ok done) (some expected) s = pad_to expected s

  unfoldable pub pad_reserved_tail : Exec Tail (Unit {0})
  pad_reserved_tail = pad_for h.guard h.capacity

-- What a padding has come to: the file ended at the boundary of ADFS, below its capacity, and has zeros
-- behind its content, up to that capacity; or it raised, and the content is as it was, or the session failed.
pub record IsPadded (h : Host) (capacity : ℕ) (s t : Tail) : Type 0 where
  pub boundary : length s.content ≡ h.total_sectors * sector_bytes
  pub below : length s.content < capacity
  pub padded : t.content ≡ s.content ++ replicate (capacity - length s.content) 0

abbrev pub IsOutcome : Host → Option ℕ → Tail → Result (Unit {0}) × Tail → Type 0
IsOutcome h capacity s (ok done, t) = (size : ℕ) × (capacity ≡ some size) × IsPadded h size s t
IsOutcome h capacity s (err error, t) = (t.content ≡ s.content) ⊎ (t.failed ≡ true)

resize-eq :
    (size : ℕ) (content : Bytes)
    → length content ≤ size
    → resize size content ≡ content ++ replicate (size - length content) 0
resize-eq size content le = take_all size _ (
    omega (
      arith,
      le,
      length-append content (replicate (size - length content) 0),
      length-replicate {A = ℕ} (size - length content) 0,
    ))

-- What was put behind a content goes when it is cut back.
resize-resize :
    (size : ℕ) (content : Bytes)
    → length content ≤ size
    → resize (length content) (resize size content) ≡ content
resize-resize size content le =
    let zeros = replicate (size - length content) 0 in
    rw (resize-eq size content le) (
      ap (take (length content))
        (append_assoc content zeros (replicate (length content - length (content ++ zeros)) 0))
      ∙ take-append_self content
          (zeros ++ replicate (length content - length (content ++ zeros)) 0))

resize_same : (content : Bytes) → resize (length content) content ≡ content
resize_same content = take-append_self content (replicate (length content - length content) 0)

module _ (h : Host) where
  extend-eq :
      (expected : ℕ) (s : Tail)
      → length s.content ≤ expected
      → ((extend h (length s.content) expected s).0 ≡ ok tt
          → (extend h (length s.content) expected s).1.content
            ≡ s.content ++ replicate (expected - length s.content) 0)
        × ((e : Error)
            → (extend h (length s.content) expected s).0 ≡ err e
            → ((extend h (length s.content) expected s).1.content ≡ s.content)
              ⊎ ((extend h (length s.content) expected s).1.failed ≡ true))
  extend-eq expected s le = (
    λ returned. ground (arith, returned, resize-eq expected s.content le),
    λ e raised. ground (arith, raised, resize-resize expected s.content le, resize_same s.content),
  )

  outcome :
      (expected : ℕ) (s : Tail) (result : Result (Unit {0})) (t : Tail)
      → length s.content ≡ h.total_sectors * sector_bytes
      → length s.content < expected
      → (result ≡ ok tt → t.content ≡ s.content ++ replicate (expected - length s.content) 0)
      → ((e : Error) → result ≡ err e → (t.content ≡ s.content) ⊎ (t.failed ≡ true))
      → IsOutcome h (some expected) s (result, t)
  outcome expected s (ok done) t boundary below good bad =
      (expected, refl, record { boundary = boundary; below = below; padded = good refl })
  outcome expected s (err error) t boundary below good bad = bad error refl

  pad_to-eq : (expected : ℕ) (s : Tail) → IsOutcome h (some expected) s (pad_to h expected s)
  unfolding pad_to
  pad_to-eq expected s = elim (Bool-cases (misplaced h (length s.content) expected)) [
    | inl p ↦ rw p (inl refl)
    | inr p ↦
        let below : length s.content < expected = ground arith in
        let (good, bad) = extend-eq expected s (omega (arith, below)) in
        rw p (
          outcome expected s (extend h (length s.content) expected s).0
            (extend h (length s.content) expected s).1 (ground arith) below good bad)
  ]

  pad_for-eq :
      (guard : Result (Unit {0})) (capacity : Option ℕ) (s : Tail)
      → IsOutcome h capacity s (pad_for h guard capacity s)
  pad_for-eq (err error) capacity s = inl refl
  pad_for-eq (ok done) none s = inl refl
  pad_for-eq (ok done) (some expected) s = pad_to-eq expected s

  -- A padding that returns has found the data file to end at the boundary of ADFS, below its capacity, and has
  -- put zeros behind its content, up to that capacity; one that raises has left the content as it was, or
  -- has failed the session.
  pub pad_reserved_tail_lem : (s : Tail) → IsOutcome h h.capacity s (pad_reserved_tail h s)
  unfolding pad_reserved_tail
  pad_reserved_tail_lem s = pad_for-eq h.guard h.capacity s
