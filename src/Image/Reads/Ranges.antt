-- ===== src/Image/Reads/Ranges.antt =====
-- Reads by ranges, against slices of the whole file.
use nautilus_acornfs.Prelude.{
  ℕ, ◌+◌, ◌-◌, ◌*◌, ◌/◌, ◌%◌, ◌≡◌, refl, sym, ap, [], ◌∷◌, length-take, length-drop, min, Option,
  true, false, Bool-cases, inl, inr, some, none, List, ◌&&◌, ◌||◌, ◌<◌, if◌then◌else◌, ltb, leb,
  ◌==◌, length, take, drop, slice, get_elem?, get_elem?-take, get_elem?-drop, get_elem?-eq_none,
  List_ext, arith,
}
use nautilus_acornfs.Prelude.Text.{Bytes}
use nautilus_acornfs.Prelude.Dict.{Dict, lookup}
use nautilus_acornfs.Prelude.Result.{Result, ok, err}
use nautilus_acornfs.Image.Node.{ImageNode}
use nautilus_acornfs.Image.Cache.{Cache}
use nautilus_acornfs.Image.Cache.Bounds.{IsCache, cached_file-eq}
use nautilus_acornfs.Image.Reads.{Files, read_range, read, sliced}

-- What Oaknut says about one file: its bytes are `content`, of the indexed size, and on an old-map image
-- they lie in one run of the disc.
pub record IsStored (files : Files) (disc : Bytes) (node : ImageNode) (content : Bytes)
    : Type 0 where
  pub whole : files.read_bytes node.acorn_path ≡ ok content
  pub sized : length content ≡ node.size
  pub start : ℕ
  pub located : files.start_sector node.acorn_path ≡ ok start
  pub run : content ≡ take node.size (drop (start * 256) disc)
  pub sectors : (s n : ℕ) → files.sector_range s n ≡ take (n * 256) (drop (s * 256) disc)

module _ {A : Type 0} where
  -- A slice of a slice, byte by byte.
  get_elem?-inner :
      (n w m s i : ℕ) (xs : List A)
      → get_elem? (take n (drop w (take m (drop s xs)))) i
        ≡ (if ltb i n && ltb (w + i) m then get_elem? xs (s + (w + i)) else none)
  get_elem?-inner n w m s i xs = ground (
    arith,
    get_elem?-take n i (drop w (take m (drop s xs))),
    get_elem?-drop w i (take m (drop s xs)),
    get_elem?-take m (w + i) (drop s xs),
    get_elem?-drop s (w + i) xs,
  )

  -- Two such slices are equal if they reach the same bytes.
  inner-eq :
      (n w m s n' w' m' s' : ℕ) (xs : List A)
      → s + w ≡ s' + w'
      → min n (m - w) ≡ min n' (m' - w')
      → take n (drop w (take m (drop s xs))) ≡ take n' (drop w' (take m' (drop s' xs)))
  inner-eq n w m s n' w' m' s' xs at len =
      List_ext (take n (drop w (take m (drop s xs)))) (take n' (drop w' (take m' (drop s' xs))))
        λ i.
          let same : s + (w + i) ≡ s' + (w' + i) = omega arith in
          ground (
            arith,
            get_elem?-inner n w m s i xs,
            get_elem?-inner n' w' m' s' i xs,
            ap (get_elem? xs) same,
          )

slice_of_sectors :
    (disc : Bytes) (start total offset size : ℕ)
    → offset < total
    → let stop = min total (offset + size) in
      let first = offset / 256 in
      let final = (stop + 256 - 1) / 256 in
      slice
        (offset % 256)
        (offset % 256 + stop - offset)
        (take ((final - first) * 256) (drop ((start + first) * 256) disc))
      ≡ slice offset (offset + size) (take total (drop (start * 256) disc))
slice_of_sectors disc start total offset size inside =
    inner-eq (offset % 256 + stop - offset - offset % 256) (offset % 256) ((final - first) * 256)
      ((start + first) * 256) (offset + size - offset) offset total (start * 256) disc (omega arith)
      (omega arith)
  where
    stop : ℕ
    stop = min total (offset + size)

    first : ℕ
    first = offset / 256

    final : ℕ
    final = (stop + 256 - 1) / 256

length-eq_zero : (xs : Bytes) → length xs ≡ 0 → xs ≡ []
length-eq_zero [] h = refl
length-eq_zero (x ∷ xs) h = absurd (omega arith)

slice_empty :
    (content : Bytes) (offset size : ℕ)
    → (size == 0 || leb (length content) offset) ≡ true
    → slice offset (offset + size) content ≡ []
slice_empty content offset size h = length-eq_zero (slice offset (offset + size) content) (
    ground (
      arith,
      length-take (offset + size - offset) (drop offset content),
      length-drop offset content,
    ))

slice_stop :
    (content : Bytes) (offset size : ℕ)
    → slice offset (min (length content) (offset + size)) content
      ≡ slice offset (offset + size) content
slice_stop content offset size =
    List_ext (slice offset (min (length content) (offset + size)) content)
      (slice offset (offset + size) content)
      λ i. ground (
        arith,
        get_elem?-take (min (length content) (offset + size) - offset) i (drop offset content),
        get_elem?-take (offset + size - offset) i (drop offset content),
        get_elem?-drop offset i content,
        get_elem?-eq_none content (offset + i),
      )

-- A range read gives the slice of the file.
pub read_range-eq :
    (files : Files) (disc content : Bytes) (node : ImageNode) (offset size : ℕ)
    → IsStored files disc node content
    → read_range files node offset size ≡ ok (slice offset (offset + size) content)
unfolding read_range
read_range-eq files disc content node offset size h =
    elim (Bool-cases (size == 0 || leb node.size offset)) [
      | inl empty ↦ rw empty (ap ok (sym (slice_empty content offset size (rw h.sized empty))))
      | inr some_bytes ↦ rw some_bytes (elim (Bool-cases files.is_old_adfs) [
        | inl old ↦
            rw (old, h.located, h.sectors, h.run)
              (ap ok (slice_of_sectors disc h.start node.size offset size (ground arith)))
        | inr new ↦ rw (new, h.whole, ← h.sized) (ap ok (slice_stop content offset size))
      ])
    ]

sliced-eq :
    (files : Files) (P : Cache → Type 0) (content : Bytes) (offset size : ℕ) (r : Result Bytes)
    (c : Cache)
    → r ≡ ok content
    → P c
    → ((sliced files offset size (r, c)).0 ≡ ok (slice offset (offset + size) content))
      × P (sliced files offset size (r, c)).1
sliced-eq files P content offset size (ok v) c e p = (cc, p)
sliced-eq files P content offset size (err d) c e p = cc

-- With a cache that is in agreement with the files, a read of a file gives the slice of its bytes,
-- whether it goes by ranges, hits the cache or loads the file, and the cache stays exact, bounded and
-- in agreement.
pub read-eq :
    (files : Files) (disc content : Bytes) (nodes : Dict ImageNode) (node : ImageNode)
    (all_files : ℕ → Option Bytes) (offset size : ℕ) (c : Cache)
    → IsStored files disc node content
    → IsCache all_files c
    → all_files node.inode ≡ some content
    → lookup node.inode nodes ≡ some node
    → node.is_dir ≡ false
    → ((read files nodes node.inode offset size c).0 ≡ ok (slice offset (offset + size) content))
      × IsCache all_files (read files nodes node.inode offset size c).1
unfolding read
read-eq files disc content nodes node all_files offset size c h k f found file =
    rw (found, file)
      (elim (Bool-cases (ltb c.limit node.size)) [
        | inl large ↦ rw large (read_range-eq files disc content node offset size h, k)
        | inr small ↦
            let (value, kept) = cached_file-eq all_files node.inode content c k f in
            rw (small, h.whole)
              (sliced-eq files (IsCache all_files) content offset size _ _ value kept)
      ])
