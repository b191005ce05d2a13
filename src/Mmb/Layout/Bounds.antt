-- ===== src/Mmb/Layout/Bounds.antt =====
-- The windows that a layout names.
use nautilus_acornfs.Prelude.{
  ℕ, zero, suc, ◌+◌, ◌-◌, ◌*◌, ◌/◌, ◌%◌, ◌≤◌, ◌<◌, ◌≡◌, refl, Bool, true, false, not, if◌then◌else◌,
  Option, none, some, List, [], ◌∷◌, ◌++◌, any, length, leb, get_or, ◌==◌, arith,
}
use nautilus_acornfs.Prelude.Text.{Text, Bytes}
use nautilus_acornfs.Prelude.Decimal.{decimal}
use nautilus_acornfs.Prelude.Result.{Result, Error, raise_if, ok, err, mmb_format_error, ◌>>=◌}
use nautilus_acornfs.Mmb.Layout.{
  MmbSlot, MmbLayout, ImageFile, header_bytes, slot_bytes, slot_count, standard_bytes, total_slots,
  is_formatted, extents_of, boot_slots_of, parse_slot, add_slot, read_entries, read_extents,
  read_mmb_layout,
}

-- Where the window of an index lies.
abbrev pub place : ℕ → ℕ
place index = index / 511 * standard_bytes + header_bytes + index % 511 * slot_bytes

pub record IsSlot (low high : ℕ) (slot : MmbSlot) : Type 0 where
  pub formatted : is_formatted slot.status ≡ true
  pub offset : slot.offset ≡ place slot.index
  pub from : low ≤ slot.index
  pub below : slot.index < high

-- Slots with ascending indices in a range.
abbrev pub IsSlots : ℕ → ℕ → List MmbSlot → Type 0
IsSlots low high [] = Unit
IsSlots low high (slot ∷ slots) = IsSlot low high slot × IsSlots (slot.index + 1) high slots

-- What holds of the value, if there is one.
abbrev pub Returns {ℓ} : {A : Type ℓ} → (A → Type 0) → Result A → Type 0
Returns P (ok a) = P a
Returns P (err e) = Unit

abbrev IsSlotAt : ℕ → Option MmbSlot → Type 0
IsSlotAt i none = Unit
IsSlotAt i (some slot) = IsSlot i (i + 1) slot

IsSlots-weaken :
    (low low' high high' : ℕ) (slots : List MmbSlot)
    → low' ≤ low
    → high ≤ high'
    → IsSlots low high slots
    → IsSlots low' high' slots
IsSlots-weaken low low' high high' [] l h s = tt
IsSlots-weaken low low' high high' (slot ∷ slots) l h s = (
  record {
    formatted = s.0.formatted;
    offset = s.0.offset;
    from = omega (arith, s.0.from);
    below = omega (arith, s.0.below);
  },
  IsSlots-weaken (slot.index + 1) (slot.index + 1) high high' slots (omega arith) h s.1,
)

IsSlots-append :
    (low mid high : ℕ) (xs ys : List MmbSlot)
    → low ≤ mid
    → mid ≤ high
    → IsSlots low mid xs
    → IsSlots mid high ys
    → IsSlots low high (xs ++ ys)
IsSlots-append low mid high [] ys l h a b = IsSlots-weaken mid low high high ys l (omega arith) b
IsSlots-append low mid high (x ∷ xs) ys l h a b = (
  record {
    formatted = a.0.formatted;
    offset = a.0.offset;
    from = a.0.from;
    below = omega (arith, a.0.below);
  },
  IsSlots-append (x.index + 1) mid high xs ys (omega (arith, a.0.below)) h a.1 b,
)

add_slot-IsSlots :
    (decode : Bytes → Text) (i high : ℕ) (o : Option MmbSlot) (rest : List MmbSlot)
    → i < high
    → IsSlotAt i o
    → IsSlots (i + 1) high rest
    → IsSlots i high (add_slot decode o rest)
add_slot-IsSlots decode i high none rest h s r =
    IsSlots-weaken (i + 1) i high high rest (omega arith) (omega arith) r
add_slot-IsSlots decode i high (some slot) rest h s r = (
  record {
    formatted = s.formatted;
    offset = s.offset;
    from = s.from;
    below = omega (arith, s.below);
  },
  IsSlots-weaken (i + 1) (slot.index + 1) high high rest (omega (arith, s.below)) (omega arith) r,
)

bind-Returns :
    {A B : Type 0} (P : A → Type 0) (Q : B → Type 0) (m : Result A) (f : A → Result B)
    → Returns P m
    → ((a : A) → P a → Returns Q (f a))
    → Returns Q (m >>= f)
bind-Returns P Q (ok a) f h k = k a h
bind-Returns P Q (err e) f h k = tt

choose-IsSlotAt :
    (i : ℕ) (known formatted : Bool) (slot : MmbSlot)
    → (formatted ≡ true → IsSlot i (i + 1) slot)
    → Returns (IsSlotAt i) (
        if not known
        then err mmb_format_error
        else if not formatted
        then ok none
        else ok (some slot))
choose-IsSlotAt i false formatted slot h = tt
choose-IsSlotAt i true false slot h = tt
choose-IsSlotAt i true true slot h = h refl

place-eq :
    (extent local_index : ℕ)
    → local_index < 511
    → extent * standard_bytes + header_bytes + local_index * slot_bytes
      ≡ place (extent * 511 + local_index)
place-eq extent local_index h = omega (arith, h)

guard-Returns :
    {B : Type 0} (Q : B → Type 0) (b : Bool) (e : Error) (f : Unit {0} → Result B)
    → (b ≡ false → Returns Q (f tt))
    → Returns Q (raise_if b e >>= f)
guard-Returns Q true e f h = tt
guard-Returns Q false e f h = h refl

extents_of-positive : (marker : ℕ) → 1 ≤ extents_of marker
unfolding extents_of
extents_of-positive marker = ground arith

not_true : (a b : ℕ) → not (a == b) ≡ false → a ≡ b
not_true a b h = ground arith

-- The windows of two places.
pub place-next : (i j : ℕ) → i < j → place i + slot_bytes ≤ place j
place-next i j h = omega (arith, h)

pub place-last : (i n : ℕ) → i < n * slot_count → place i + slot_bytes ≤ n * standard_bytes
place-last i n h = omega (arith, h)

module _ (decode : Bytes → Text) where
  parse_slot-IsSlotAt :
      (extent local_index width : ℕ) (header : Bytes)
      → local_index < 511
      → Returns
          (IsSlotAt (extent * 511 + local_index))
          (parse_slot decode extent local_index width header)
  unfolding parse_slot
  parse_slot-IsSlotAt extent local_index width header small =
      choose-IsSlotAt (extent * 511 + local_index) _ _ _ λ e. record {
        formatted = e;
        offset = place-eq extent local_index small;
        from = omega arith;
        below = omega arith;
      }

  read_entries-IsSlots :
      (left extent local_index width : ℕ) (header : Bytes)
      → local_index + left ≡ 511
      → Returns
          (IsSlots (extent * 511 + local_index) (extent * 511 + 511))
          (read_entries decode left extent local_index width header)
  unfolding read_entries
  read_entries-IsSlots zero extent local_index width header h = tt
  read_entries-IsSlots (suc left) extent local_index width header h =
      bind-Returns (IsSlotAt (extent * 511 + local_index)) _ _ _
        (parse_slot-IsSlotAt extent local_index width header (omega arith))
        λ o found.
          bind-Returns (IsSlots (extent * 511 + (local_index + 1)) (extent * 511 + 511)) _ _ _
            (read_entries-IsSlots left extent (local_index + 1) width header (omega arith))
            λ rest k.
              add_slot-IsSlots decode (extent * 511 + local_index) (extent * 511 + 511) o rest
                (omega arith) found (IsSlots-weaken _ _ _ _ rest (omega arith) (omega arith) k)

  read_extents-IsSlots :
      (left extent width : ℕ) (image : ImageFile)
      → Returns
          (IsSlots (extent * 511) ((extent + left) * 511))
          (read_extents decode left extent width image)
  unfolding read_extents
  read_extents-IsSlots zero extent width image = tt
  read_extents-IsSlots (suc left) extent width image =
      let header = image.read_at (extent * standard_bytes) header_bytes in
      let Found = IsSlots (extent * 511) ((extent + suc left) * 511) in
      guard-Returns Found (not (length header == header_bytes)) mmb_format_error _ λ sized.
        bind-Returns (IsSlots (extent * 511 + 0) (extent * 511 + 511)) Found
          (read_entries decode slot_count extent 0 width header) _
          (read_entries-IsSlots 511 extent 0 width header refl)
          λ slots found.
            bind-Returns (IsSlots ((extent + 1) * 511) ((extent + 1 + left) * 511)) Found
              (read_extents decode left (extent + 1) width image) _
              (read_extents-IsSlots left (extent + 1) width image)
              λ rest k.
                IsSlots-append (extent * 511) ((extent + 1) * 511) ((extent + suc left) * 511) slots
                  rest (omega arith) (omega arith)
                  (IsSlots-weaken _ _ _ _ slots (omega arith) (omega arith) found)
                  (IsSlots-weaken _ _ _ _ rest (omega arith) (omega arith) k)

  pub record IsLayout (image : ImageFile) (layout : MmbLayout) : Type 0 where
    pub size : image.size ≡ layout.extent_count * standard_bytes
    pub some_extent : 1 ≤ layout.extent_count
    pub slots : IsSlots 0 (total_slots layout) layout.slots
    pub boot : any (λ slot. leb (total_slots layout) slot) layout.boot_slots ≡ false

  pub read_mmb_layout-IsLayout :
      (image : ImageFile) → Returns (IsLayout image) (read_mmb_layout decode image)
  unfolding read_mmb_layout
  read_mmb_layout-IsLayout image =
      let header = image.read_at 0 header_bytes in
      let extents = extents_of (get_or header 8 0) in
      guard-Returns (IsLayout image) (not (length header == header_bytes)) mmb_format_error _ λ _.
        guard-Returns (IsLayout image) (not (image.size == extents * standard_bytes))
          mmb_format_error _
          λ sized.
            guard-Returns (IsLayout image)
              (any (λ slot. leb (extents * slot_count) slot) (boot_slots_of header))
              mmb_format_error _
              λ boot.
                bind-Returns (IsSlots (0 * 511) ((0 + extents) * 511)) (IsLayout image)
                  (read_extents decode extents 0 (length (decimal (extents * slot_count - 1)))
                    image)
                  _ (read_extents-IsSlots extents 0 _ image)
                  λ slots found. record {
                    size = not_true (image.size) _ sized;
                    some_extent = extents_of-positive _;
                    slots = IsSlots-weaken _ _ _ _ slots (omega arith) (omega arith) found;
                    boot = boot;
                  }
