-- ===== src/Tests/Disc.antt =====
-- Transactions and sessions on a small image.
use nautilus_acornfs.Prelude.{
  ℕ, ◌+◌, ◌*◌, ◌%◌, ◌≤◌, ◌≡◌, refl, false, Option, none, some, [], ◌∷◌, get_elem?,
  get_elem?-eq_none, any, replicate, length-replicate, arith,
}
use nautilus_acornfs.Prelude.Text.{Bytes}
use nautilus_acornfs.Prelude.Result.{ok}
use nautilus_acornfs.Transaction.{begin, restore}
use nautilus_acornfs.Transaction.File.{restore_file, restore_file_lem}
use nautilus_acornfs.Transaction.Restore.{touches, capture_all, restore-capture_all}
use nautilus_acornfs.Transaction.DiscId.{FreeSpaceMap, advance_disc_id, disc_id-advance_disc_id}

abbrev disc : Bytes
disc = 1 ∷ 2 ∷ 3 ∷ []

abbrev overwritten : Bytes
overwritten = 9 ∷ 8 ∷ 7 ∷ []

restore_file_lem_example : restore_file disc overwritten ≡ (ok tt, disc)
restore_file_lem_example = restore_file_lem disc overwritten refl

-- Behind the two map sectors there is nothing.
same_behind :
    (i : ℕ)
    → any (touches i) ((0, 2) ∷ (0, 1) ∷ []) ≡ false
    → get_elem? overwritten i ≡ get_elem? disc i
same_behind i h =
    let behind : 3 ≤ i = ground arith in
    (rw (get_elem?-eq_none overwritten i behind, get_elem?-eq_none disc i behind) refl)

restore-capture_all_example :
    restore (capture_all disc ((0, 1) ∷ []) (begin disc)) overwritten ≡ (ok tt, disc)
restore-capture_all_example = restore-capture_all disc overwritten ((0, 1) ∷ []) refl same_behind

abbrev byte_of : Option ℕ → ℕ
byte_of none = 0
byte_of (some b) = b

-- A map whose checksums need no change.
abbrev plain_map : FreeSpaceMap
plain_map = record {
  disc_id = λ image. byte_of (get_elem? image 0x1FB) + byte_of (get_elem? image 0x1FC) * 256;
  recalculate_checksums = λ image. image;
  disc_id-bytes = λ image lo hi a b. rw (a, b) refl;
  length-recalculate = λ image. refl;
  recalculate-id = λ image i low high. refl;
  recalculate-outside = λ image i far. refl;
}

abbrev blank : Bytes
blank = replicate 512 255

disc_id-advance_disc_id_example :
    (plain_map.disc_id (advance_disc_id plain_map blank).2 ≡ (plain_map.disc_id blank + 1) % 65536)
    × ((advance_disc_id plain_map blank).1 ≡ plain_map.disc_id (advance_disc_id plain_map blank).2)
disc_id-advance_disc_id_example =
    disc_id-advance_disc_id plain_map blank (omega (arith, length-replicate {A = ℕ} 512 255))
