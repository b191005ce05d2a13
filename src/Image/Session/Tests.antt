-- ===== src/Image/Session/Tests.antt =====
-- The theorems of a session at a small image.
use nautilus_acornfs.Prelude.{
  ℕ, ◌+◌, ◌*◌, ◌≤◌, ◌≡◌, refl, Bool, true, false, Option, none, some, [], ◌∷◌, get_elem?,
  get_elem?-eq_none, any, arith, inr,
}
use nautilus_acornfs.Prelude.Text.{Bytes}
use nautilus_acornfs.Prelude.Result.{ok, err, acornfs_error, os_error}
use nautilus_acornfs.Transaction.Restore.{touches, capture_all}
use nautilus_acornfs.Transaction.DiscId.{FreeSpaceMap}
use nautilus_acornfs.Image.Session.{World, Host, State, Operation, run_atomic}
use nautilus_acornfs.Image.Session
use nautilus_acornfs.Transaction
use nautilus_acornfs.Image.Session.Rollback.{IsConfined}
use nautilus_acornfs.Image.Session.Failure.{IsSafe, run_atomic-IsSafe}
use nautilus_acornfs.Image.Session.Guards.{
  IsHalted, mutation, synchronisation, serve_all, run_atomic-IsHalted,
}

abbrev disc : Bytes
disc = 1 ∷ 2 ∷ 3 ∷ []

abbrev overwritten : Bytes
overwritten = 9 ∷ 8 ∷ 7 ∷ []

-- Behind the two map sectors there is nothing.
same_behind :
    (i : ℕ)
    → any (touches i) ((0, 2) ∷ (0, 1) ∷ []) ≡ false
    → get_elem? overwritten i ≡ get_elem? disc i
same_behind i h =
    let behind : 3 ≤ i = ground arith in
    (rw (get_elem?-eq_none overwritten i behind, get_elem?-eq_none disc i behind) refl)

abbrev byte_of : Option ℕ → ℕ
byte_of none = 0
byte_of (some b) = b

-- A map whose checksums need no change.
abbrev plain_map : FreeSpaceMap
plain_map = record {
  disc_id = λ image. byte_of (get_elem? image 0x1FB) + byte_of (get_elem? image 0x1FC) * 256;
  recalculate_checksums = λ image. image;
  disc_id-bytes = λ image lo hi a b. rw (a, b) refl;
  length-recalculate = λ image. refl;
  recalculate-id = λ image i low high. refl;
  recalculate-outside = λ image i far. refl;
}

abbrev host : Host (Unit {0})
host = record {
  fsm = plain_map;
  current_signature = λ w. ok (5 ∷ []);
  flush = λ w. (ok tt, tt);
  fsync = λ w. (ok tt, tt);
  fault_injector = none;
  free_space = λ w. ok 0;
  integrity_report = λ w. err acornfs_error;
  require_generic_integrity = λ w. ok tt;
  checkpoint_copy = λ w. (ok w.mapping, tt);
  remove_backup = λ w. (ok tt, tt);
  is_adfs_error = λ e. false;
}

abbrev session : Bool → Bool → State (Unit {0}) ℕ
session writable failed = record {
  world = record { mapping = disc; env = tt };
  memory = 0;
  writable = writable;
  failed = failed;
  expected_signature = some (5 ∷ []);
  free_bytes = 0;
  old_adfs = true;
  has_pair = false;
  has_checkpoint = false;
}

-- Overwrites the image and raises.
abbrev torn : Operation (Unit {0}) ℕ ℕ
torn = record {
  name = [];
  prepare = λ mapping. record { captures = (0, 1) ∷ []; ended = ok tt; fails = false };
  mutate = λ w. (err os_error, record w { mapping = overwritten });
  commit = λ w memory. (ok 0, memory + 1);
}

torn-IsConfined : IsConfined host torn (session true false) (λ i. false)
torn-IsConfined = record {
  sized = λ w e. refl;
  inside = λ w i e old used outside. same_behind i outside;
  exact = λ w b e. cc e;
  commits = λ w e raised. absurd (cc raised);
}

torn_raises : (run_atomic host torn (session true false)).0 ≡ err os_error
unfolding run_atomic Session.restore Transaction.restore Transaction.begin
    Transaction.capture_sectors Transaction.restore_images Transaction.write_slice capture_all
    Session.fault Session.roll_back Session.finish_rollback Session.complete
torn_raises = refl

run_atomic-IsSafe_example :
    IsSafe (λ i. false) (session true false) (run_atomic host torn (session true false)).1
run_atomic-IsSafe_example =
    run_atomic-IsSafe host torn (session true false) (λ i. false) torn-IsConfined os_error
      torn_raises

-- Something else has written the image.
abbrev elsewhere : Host (Unit {0})
elsewhere = record host { current_signature = λ w. ok (6 ∷ []) }

run_atomic-IsHalted_example : IsHalted (session true false) (
    serve_all elsewhere (mutation torn ∷ synchronisation ∷ mutation torn ∷ []) (session true false))
run_atomic-IsHalted_example =
    run_atomic-IsHalted elsewhere torn (synchronisation ∷ mutation torn ∷ []) (session true false)
      refl
      (inr (
        refl,
        record { now = 6 ∷ []; expected = 5 ∷ []; stored = refl; current = refl; differs = refl },
      ))
