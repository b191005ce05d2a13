-- ===== src/Fuse/Writes/Buffers.antt =====
-- A write into a buffer, byte by byte.
use nautilus_acornfs.Prelude.{
  ℕ, zero, suc, some, refl, get_elem?-drop, get_elem?-eq_none, ◌+◌, ◌-◌, ◌≤◌, ◌<◌, ◌≡◌, ◌++◌,
  length, take, drop, replicate, get_elem?, get_elem?-append, get_elem?-take, length-append,
  length-take, length-replicate, length-drop, arith, max, ap, ◌∙◌,
}
use nautilus_acornfs.Prelude.Text.{Bytes}
use nautilus_acornfs.Fuse.Writes.{write_into}

-- The same for a buffer that is long enough.
module _ (offset : ℕ) (written longer : Bytes)
    (fits : offset + length written ≤ length longer) where
  length-front : length (take offset longer) ≡ offset
  length-front = omega (arith, fits, length-take offset longer)

  length-spliced :
      length (take offset longer ++ (written ++ drop (offset + length written) longer))
      ≡ length longer
  length-spliced = omega (
    arith,
    fits,
    length-front,
    length-append (take offset longer) (written ++ drop (offset + length written) longer),
    length-append written (drop (offset + length written) longer),
    length-drop (offset + length written) longer,
  )

  written_part :
      (i : ℕ)
      → i < length written
      → get_elem?
          (take offset longer ++ (written ++ drop (offset + length written) longer))
          (offset + i)
        ≡ get_elem? written i
  written_part i h = ground (
    arith,
    length-front,
    get_elem?-append (take offset longer) (written ++ drop (offset + length written) longer)
        (offset + i),
    get_elem?-append written (drop (offset + length written) longer)
        (offset + i - length (take offset longer)),
    ap (λ j. get_elem? written j) (back i),
  )
    where
      back : (i : ℕ) → offset + i - length (take offset longer) ≡ i
      back i = omega (arith, length-front)

  back_part :
      (i : ℕ)
      → offset + length written ≤ i
      → get_elem? (take offset longer ++ (written ++ drop (offset + length written) longer)) i
        ≡ get_elem? longer i
  back_part i h = ground (
    arith,
    length-front,
    get_elem?-append (take offset longer) (written ++ drop (offset + length written) longer) i,
    get_elem?-append written (drop (offset + length written) longer)
        (i - length (take offset longer)),
    get_elem?-drop (offset + length written) (i - length (take offset longer) - length written)
        longer,
    ap (λ j. get_elem? longer j) (at i h),
  )
    where
      at :
          (i : ℕ)
          → offset + length written ≤ i
          → offset + length written + (i - length (take offset longer) - length written) ≡ i
      at i h = omega (arith, length-front, h)

  front_part :
      (i : ℕ)
      → i < offset
      → get_elem? (take offset longer ++ (written ++ drop (offset + length written) longer)) i
        ≡ get_elem? longer i
  front_part i h = ground (
    arith,
    length-front,
    get_elem?-append (take offset longer) (written ++ drop (offset + length written) longer) i,
    get_elem?-take offset i longer,
  )

get_elem?-replicate : (n i : ℕ) → i < n → get_elem? {A = ℕ} (replicate n 0) i ≡ some 0
get_elem?-replicate zero i h = absurd (omega (arith, h))
get_elem?-replicate (suc n) zero h = refl
get_elem?-replicate (suc n) (suc i) h = get_elem?-replicate n i (omega (arith, h))

module _ (offset : ℕ) (written content : Bytes) where
  abbrev extended : Bytes
  extended = content ++ replicate (offset + length written - length content) 0

  length-extended : length extended ≡ max (offset + length written) (length content)
  length-extended = omega (
    arith,
    length-append content (replicate (offset + length written - length content) 0),
    length-replicate {A = ℕ} (offset + length written - length content) 0,
  )

  -- After a write the buffer is as long as the write needs, or as it was if that is longer; it holds the
  -- written bytes where they were written, everywhere else in its old length the bytes from before, and
  -- zeros in a gap between the old end and the write.
  pub write_into_lem :
      (length (write_into offset written content) ≡ max (offset + length written) (length content))
      × ((i : ℕ)
          → i < length written
          → get_elem? (write_into offset written content) (offset + i) ≡ get_elem? written i)
      × ((i : ℕ)
          → i < offset
          → i < length content
          → get_elem? (write_into offset written content) i ≡ get_elem? content i)
      × ((i : ℕ)
          → offset + length written ≤ i
          → get_elem? (write_into offset written content) i ≡ get_elem? content i)
      × ((i : ℕ)
          → length content ≤ i
          → i < offset
          → get_elem? (write_into offset written content) i ≡ some 0)
  unfolding write_into
  write_into_lem =
      let fits : offset + length written ≤ length extended = omega (arith, length-extended) in
      (
        length-spliced offset written extended fits ∙ length-extended,
        written_part offset written extended fits,
        λ i h k.
            front_part offset written extended fits i h
            ∙ ground (
              arith,
              get_elem?-append content (replicate (offset + length written - length content) 0) i,
            ),
        λ i h.
            back_part offset written extended fits i h
            ∙ ground (
              arith,
              get_elem?-append content (replicate (offset + length written - length content) 0) i,
              get_elem?-eq_none content i,
              get_elem?-eq_none {A = ℕ} (replicate (offset + length written - length content) 0)
                  (i - length content),
              length-replicate {A = ℕ} (offset + length written - length content) 0,
            ),
        λ i h k.
            front_part offset written extended fits i k
            ∙ ground (
              arith,
              get_elem?-append content (replicate (offset + length written - length content) 0) i,
              get_elem?-replicate (offset + length written - length content) (i - length content),
            ),
      )
