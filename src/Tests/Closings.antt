-- ===== src/Tests/Closings.antt =====
-- A clean close of an HFE image, and the padding of a short data file.
use nautilus_acornfs.Prelude.{◌≡◌, refl, true, false, none, some, [], replicate}
use nautilus_acornfs.Prelude.Result.{ok}
use nautilus_acornfs.Image.Close
use nautilus_acornfs.Image.Close.{Closing, finalise, export, end_checkpoint, close_open, close}
use nautilus_acornfs.Image.Close.Checkpoints.{IsFinal, begun, close-IsFinal}
use nautilus_acornfs.Image.Padding
use nautilus_acornfs.Image.Padding.{Tail, IsOutcome, pad_reserved_tail, pad_reserved_tail_lem}

abbrev host : Close.Host
host = record {
  writable = true;
  has_pair = false;
  has_container = true;
  has_checkpoint = true;
  answer = λ call. ok tt;
  integrity_report = ok (record {
    dat_bytes = 0;
    geometry_sectors = none;
    adfs_sectors = none;
    used_sectors = none;
    free_sectors = none;
    findings = [];
  });
  signature_kept = ok true;
}

abbrev open_image : Closing
open_image = begun host false false

checkpoint_ended : (close host true open_image).1.pending ≡ false
unfolding close close_open finalise export end_checkpoint
checkpoint_ended = refl

close-IsFinal_example : IsFinal host true open_image (close host true open_image).1
close-IsFinal_example = close-IsFinal host true false false checkpoint_ended

abbrev disc : Padding.Host
disc = record {
  guard = ok tt;
  guard_fails = false;
  capacity = some 260;
  total_sectors = 1;
  answer = λ call. ok tt;
}

abbrev short_file : Tail
short_file = record { made = 0; content = replicate 256 7; failed = false }

pad_reserved_tail_lem_example :
    IsOutcome disc (some 260) short_file (pad_reserved_tail disc short_file)
pad_reserved_tail_lem_example = pad_reserved_tail_lem disc short_file
