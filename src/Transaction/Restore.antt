-- ===== src/Transaction/Restore.antt =====
-- Captures of a transaction and their restoration by `SectorTransaction.restore`.
use mathlib.Core.List.{reverse-append}
use nautilus_acornfs.Prelude.{
  ℕ, ◌+◌, ◌*◌, ◌-◌, ◌≤◌, ◌<◌, ◌≡◌, refl, ap, ◌∙◌, max, Bool, true, false, ◌||◌, inl, inr, List, [],
  ◌∷◌, ◌++◌, reverse, Bool-cases, ◌==◌, ltb, length, get_elem?, take, drop, slice, any, All,
  List_ext, length-take, length-drop, get_elem?-take, get_elem?-drop, get_elem?-eq_none, arith,
}
use nautilus_acornfs.Prelude.Text.{Bytes}
use nautilus_acornfs.Prelude.Result.{ok}
use nautilus_acornfs.Transaction.Slices.{
  within, write_slice-fits, length-written, get_elem?-written,
}
use nautilus_acornfs.Transaction

-- A before-image holds the byte at `i`.
abbrev covers : ℕ → Transaction.BeforeImage → Bool
covers i b = within b.offset (b.offset + length b.content) i

-- What a before-image of `m` is.
record IsImageOf (m : Bytes) (b : Transaction.BeforeImage) : Type 0 where
  inside : b.offset + length b.content ≤ max b.offset (length m)
  same : (i : ℕ) → covers i b ≡ true → get_elem? b.content (i - b.offset) ≡ get_elem? m i

-- `m` is `m0` but for the bytes of `P` and those that the before-images hold.
abbrev DiffersInside : (ℕ → Bool) → Bytes → List Transaction.BeforeImage → Bytes → Type 0
DiffersInside P m0 bs m =
    (i : ℕ) → P i ≡ false → any (covers i) bs ≡ false → get_elem? m i ≡ get_elem? m0 i

-- `r` is `m0` but for the bytes of `P`.
pub record AgreesBut (P : ℕ → Bool) (m0 r : Bytes) : Type 0 where
  pub sized : length r ≡ length m0
  pub bytes : (i : ℕ) → P i ≡ false → get_elem? r i ≡ get_elem? m0 i

write-DiffersInside :
    (P : ℕ → Bool) (m0 m : Bytes) (b : Transaction.BeforeImage) (bs : List Transaction.BeforeImage)
    → IsImageOf m0 b
    → length m ≡ length m0
    → DiffersInside P m0 (b ∷ bs) m
    → DiffersInside P m0 bs (take b.offset m ++ b.content ++ drop (b.offset + length b.content) m)
write-DiffersInside P m0 m b bs image sized h i kept uncovered =
    ground
      (arith, get_elem?-written m b.offset b.content (rw sized image.inside) i, image.same i, h i)

restore_images_lem :
    (P : ℕ → Bool) (m0 m : Bytes) (bs : List Transaction.BeforeImage)
    → All (IsImageOf m0) bs
    → length m ≡ length m0
    → DiffersInside P m0 bs m
    → (r : Bytes) × (Transaction.restore_images bs m ≡ (ok tt, r)) × AgreesBut P m0 r
unfolding Transaction.restore_images
restore_images_lem P m0 m [] images sized h =
    (m, refl, record { sized = sized; bytes = λ i kept. h i kept refl })
restore_images_lem P m0 m (b ∷ bs) images sized h =
    let fits : b.offset + length b.content ≤ max b.offset (length m) = rw sized images.0.inside in
    rw (write_slice-fits m b.offset b.content fits) (
      restore_images_lem P m0 (take b.offset m ++ b.content ++ drop (b.offset + length b.content) m)
        bs images.1 (length-written m b.offset b.content fits ∙ sized)
        (write-DiffersInside P m0 m b bs images.0 sized h))

-- The sectors that a list of captures names, by the byte at `i`.
abbrev pub touches : ℕ → ℕ × ℕ → Bool
touches i (start, count) = within (start * 256) (start * 256 + count * 256) i

-- What holds of a transaction after captures from `m`.
record Captured (m : Bytes) (t : Transaction.SectorTransaction) : Type 0 where
  images : All (IsImageOf m) (reverse t.before_images)
  covered :
      (i : ℕ) → i < length m → any (covers i) (reverse t.before_images) ≡ any (touches i) t.captured

key_eq-touches :
    (i : ℕ) (k : ℕ × ℕ) (ks : List (ℕ × ℕ))
    → any (Transaction.key_eq k) ks ≡ true
    → touches i k ≡ true
    → any (touches i) ks ≡ true
key_eq-touches i k [] h t = cc
key_eq-touches i (a, b) ((c, d) ∷ ks) h t = ground (arith, key_eq-touches i (a, b) ks)

slice-IsImageOf :
    (m : Bytes) (a n : ℕ) → IsImageOf m (record { offset = a; content = slice a (a + n) m })
slice-IsImageOf m a n = record {
  inside = omega (arith, length-take (a + n - a) (drop a m), length-drop a m);
  same = λ i h. ground (
    arith,
    get_elem?-take (a + n - a) (i - a) (drop a m),
    get_elem?-drop a (i - a) m,
    length-take (a + n - a) (drop a m),
    length-drop a m,
  );
}

abbrev image_at : Bytes → ℕ → ℕ → Transaction.BeforeImage
image_at m start count = record {
  offset = start * 256;
  content = slice (start * 256) (start * 256 + count * 256) m;
}

covers-image_at :
    (m : Bytes) (start count i : ℕ)
    → i < length m
    → covers i (image_at m start count) ≡ touches i (start, count)
covers-image_at m start count i h = ground (
  arith,
  length-take (start * 256 + count * 256 - start * 256) (drop (start * 256) m),
  length-drop (start * 256) m,
)

add-Captured :
    (m : Bytes) (start count : ℕ) (t : Transaction.SectorTransaction)
    → Captured m t
    → Captured m (record {
      before_images = t.before_images ++ image_at m start count ∷ [];
      captured = (start, count) ∷ t.captured;
    })
add-Captured m start count t h = record {
  images = rw reverse-append (slice-IsImageOf m (start * 256) (count * 256), h.images);
  covered = λ i lt.
      rw reverse-append (ground (arith, covers-image_at m start count i lt, h.covered i lt));
}

capture_sectors-Captured :
    (m : Bytes) (start count : ℕ) (t : Transaction.SectorTransaction)
    → Captured m t
    → Captured m (Transaction.capture_sectors m start count t)
unfolding Transaction.capture_sectors
capture_sectors-Captured m start count t h = elim (Bool-cases (count == 0)) [
  | inl e ↦ rw e h
  | inr e ↦ elim (Bool-cases (any (Transaction.key_eq (start, count)) t.captured)) [
    | inl e' ↦ rw (e, e') h
    | inr e' ↦ rw (e, e') (add-Captured m start count t h)
  ]
]

capture_sectors-touches :
    (m : Bytes) (start count : ℕ) (t : Transaction.SectorTransaction) (i : ℕ)
    → any (touches i) (Transaction.capture_sectors m start count t).captured
      ≡ (touches i (start, count) || any (touches i) t.captured)
unfolding Transaction.capture_sectors
capture_sectors-touches m start count t i =
    ground (arith, key_eq-touches i (start, count) t.captured)

-- The captures of an operation's `prepare`, in order.
unfoldable pub capture_all :
    Bytes → List (ℕ × ℕ) → Transaction.SectorTransaction → Transaction.SectorTransaction
capture_all m [] t = t
capture_all m ((start, count) ∷ cs) t =
    capture_all m cs (Transaction.capture_sectors m start count t)

capture_all-Captured :
    (m : Bytes) (cs : List (ℕ × ℕ)) (t : Transaction.SectorTransaction)
    → Captured m t
    → Captured m (capture_all m cs t)
unfolding capture_all
capture_all-Captured m [] t h = h
capture_all-Captured m ((start, count) ∷ cs) t h =
    capture_all-Captured m cs (Transaction.capture_sectors m start count t)
      (capture_sectors-Captured m start count t h)

capture_all-touches :
    (m : Bytes) (cs : List (ℕ × ℕ)) (t : Transaction.SectorTransaction) (i : ℕ)
    → any (touches i) (capture_all m cs t).captured
      ≡ (any (touches i) cs || any (touches i) t.captured)
unfolding capture_all
capture_all-touches m [] t i = refl
capture_all-touches m ((start, count) ∷ cs) t i = ground (
  arith,
  capture_all-touches m cs (Transaction.capture_sectors m start count t) i,
  capture_sectors-touches m start count t i,
)

abbrev nothing : Transaction.SectorTransaction
nothing = record { before_images = []; captured = [] }

nothing-Captured : (m : Bytes) → Captured m nothing
nothing-Captured m = record { images = tt; covered = λ i h. refl }

begin-touches :
    (m : Bytes) (i : ℕ) → any (touches i) (Transaction.begin m).captured ≡ touches i (0, 2)
unfolding Transaction.begin
begin-touches m i = ground (arith, capture_sectors-touches m 0 2 nothing i)

begin-Captured : (m : Bytes) → Captured m (Transaction.begin m)
unfolding Transaction.begin
begin-Captured m = capture_sectors-Captured m 0 2 nothing (nothing-Captured m)

-- The same for a change that also writes bytes of `P`, which the restoration may leave as they are.
pub restore-capture_all_but :
    (P : ℕ → Bool) (m m' : Bytes) (cs : List (ℕ × ℕ))
    → length m' ≡ length m
    → ((i : ℕ)
        → P i ≡ false
        → any (touches i) ((0, 2) ∷ cs) ≡ false
        → get_elem? m' i ≡ get_elem? m i)
    → (r : Bytes) × (Transaction.restore (capture_all m cs (Transaction.begin m)) m' ≡ (ok tt, r))
      × AgreesBut P m r
unfolding Transaction.restore
restore-capture_all_but P m m' cs sized outside =
    restore_images_lem P m m' (reverse t.before_images) done.images sized differs
  where
    t : Transaction.SectorTransaction
    t = capture_all m cs (Transaction.begin m)

    done : Captured m t
    done = capture_all-Captured m cs (Transaction.begin m) (begin-Captured m)

    differs : DiffersInside P m (reverse t.before_images) m'
    differs i kept uncovered = elim (Bool-cases (ltb i (length m))) [
      | inl lt ↦ ground (
        arith,
        outside i kept,
        done.covered i (ground arith),
        capture_all-touches m cs (Transaction.begin m) i,
        begin-touches m i,
      )
      | inr ge ↦ ground (arith, get_elem?-eq_none m i, get_elem?-eq_none m' i)
    ]

-- After any captures from an image, and any later change that keeps its length and writes only in
-- the two map sectors and the captured sectors, the restoration succeeds and gives the image back.
pub restore-capture_all :
    (m m' : Bytes) (cs : List (ℕ × ℕ))
    → length m' ≡ length m
    → ((i : ℕ) → any (touches i) ((0, 2) ∷ cs) ≡ false → get_elem? m' i ≡ get_elem? m i)
    → Transaction.restore (capture_all m cs (Transaction.begin m)) m' ≡ (ok tt, m)
restore-capture_all m m' cs sized outside =
    let (r, restored, agrees) =
      restore-capture_all_but (λ i. false) m m' cs sized (λ i kept. outside i) in
    restored ∙ ap (λ x. (ok tt, x)) (List_ext r m (λ i. agrees.bytes i refl))
