-- ===== src/Tests/Recoveries.antt =====
-- A checkpoint of a pair, stopped in the middle, and its recovery.
use nautilus_acornfs.Prelude.{
  refl, true, false, none, some, [], ◌∷◌, ◌==◌, if◌then◌else◌, List, length,
}
use nautilus_acornfs.Prelude.Text.{Bytes, codes}
use nautilus_acornfs.Prelude.Result.{ok, err, process_death}
use nautilus_acornfs.Recovery.{RecoveryInfo, Source, Host, Checkpoint, complete, create}
use nautilus_acornfs.Recovery.Authority.{IsAuthoritative, create-IsAuthoritative}
use nautilus_acornfs.Recovery.Restore.{recover_image}
use nautilus_acornfs.Recovery.Completed.{IsRecovered}
use nautilus_acornfs.Recovery.Recovered.{IsAnswer, recover_image-IsRecovered}

abbrev info : RecoveryInfo
info = record {
  identity = codes "id";
  dat_path = codes "disc.dat";
  dsc_path = some (codes "disc.dsc");
  state = codes "ready";
  reflinked = false;
}

abbrev sources : List Source
sources =
    record { chunks = (1 ∷ 2 ∷ []) ∷ (3 ∷ []) ∷ []; reflinks = false }
    ∷ record { chunks = (4 ∷ []) ∷ []; reflinks = true }
    ∷ []

-- The process dies at the ninth call.
abbrev dying : Host
dying = record { answer = λ call. if call == 8 then err process_death else ok tt }

abbrev answering : Host
answering = record { answer = λ call. ok tt }

abbrev fresh : Checkpoint
fresh = record {
  made = 0;
  manifest = none;
  backups = none ∷ none ∷ [];
  targets = (9 ∷ []) ∷ (8 ∷ []) ∷ [];
  staged = [];
}

create-IsAuthoritative_example :
    IsAuthoritative sources (create dying info sources (length sources) fresh).1
    × IsAuthoritative sources (complete dying (length sources) fresh).1
create-IsAuthoritative_example =
    create-IsAuthoritative dying info sources fresh refl (λ ready. absurd (cc ready))

abbrev contents : List Bytes
contents = (1 ∷ 2 ∷ 3 ∷ []) ∷ (4 ∷ []) ∷ []

abbrev ready : Checkpoint
ready = record {
  made = 0;
  manifest = some info;
  backups = some (1 ∷ 2 ∷ 3 ∷ []) ∷ some (4 ∷ []) ∷ [];
  targets = (9 ∷ []) ∷ (8 ∷ []) ∷ [];
  staged = [];
}

recover_image-IsRecovered_example :
    IsRecovered contents ready (recover_image answering 2 true false ready).1
    × IsAnswer answering contents
        (some info)
        (recover_image answering 2 true false ready).0
        (recover_image answering 2 true false ready).1
recover_image-IsRecovered_example =
    recover_image-IsRecovered answering 2 true false contents ready refl refl refl
