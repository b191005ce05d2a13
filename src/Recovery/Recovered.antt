-- ===== src/Recovery/Recovered.antt =====
-- What a recovery has done, however it ends.
use nautilus_acornfs.Prelude.{
  ℕ, suc, ◌≡◌, ◌∙◌, refl, ap, subst, Bool, true, false, Option, none, some, List, [], length, map,
  inl,
}
use nautilus_acornfs.Prelude.Text.{Bytes}
use nautilus_acornfs.Prelude.Result.{Result, ok, err}
use nautilus_acornfs.Prelude.Exec.{pure, ◌>>◌, then-ok, bind-step, continue}
use nautilus_acornfs.Recovery.{RecoveryInfo, Host, Checkpoint, perform, complete}
use nautilus_acornfs.Recovery.Restore.{
  pending, nothing_pending, Outcome, restored, discarded, is_ready, recover_locked, recover_pending,
  recover_image,
}
use nautilus_acornfs.Recovery.Completed.{
  IsRecovered, complete-Gone, recover_locked-IsRecovered, recover_locked-ok,
}

-- A recovery that said so has restored every target from a checkpoint that was ready, and has removed it.
pub record HasRestored (h : Host) (contents : List Bytes) (m : Option RecoveryInfo) (t : Checkpoint)
    : Type 0 where
  pub targets : t.targets ≡ contents
  pub completed : t.manifest ≡ none
  pub info : RecoveryInfo
  pub manifest : m ≡ some info
  pub ready : is_ready h info ≡ true

-- What the answer of a recovery says.
abbrev pub IsAnswer : Host → List Bytes → Option RecoveryInfo → Result Outcome → Checkpoint → Type 0
IsAnswer h contents m (ok restored) t = HasRestored h contents m t
IsAnswer h contents m (ok discarded) t = t.manifest ≡ none
IsAnswer h contents m (ok nothing_pending) t = m ≡ none
IsAnswer h contents m (ok (pending state)) t = t.manifest ≡ m
IsAnswer h contents m (err error) t = Unit

module _ (h : Host) (count : ℕ) (contents : List Bytes) (s : Checkpoint)
    (backups : s.backups ≡ map (λ bytes. some bytes) contents)
    (targets : length s.targets ≡ length contents) (staged : s.staged ≡ []) where
  recover_pending-IsRecovered :
      (discard : Bool) (m : Option RecoveryInfo)
      → IsRecovered contents s (recover_pending h count true discard m s).1
  recover_pending-IsRecovered discard none = inl (refl, refl)
  recover_pending-IsRecovered true (some info) = inl (refl, refl)
  recover_pending-IsRecovered false (some info) =
      bind-step (IsRecovered contents s) (perform h) (λ _. recover_locked h count true info) s
        (inl (refl, refl))
        (λ _ _.
          recover_locked-IsRecovered h count info contents (perform h s).1 backups targets staged)

  -- An answer that is reached is told by what it is where it is reached.
  answer :
      (m : Option RecoveryInfo) (r : Result Outcome) (t : Checkpoint)
      → ((o : Outcome) → r ≡ ok o → IsAnswer h contents m (ok o) t)
      → IsAnswer h contents m r t
  answer m (ok o) t reached = reached o refl
  answer m (err error) t reached = tt

  discarded-IsAnswer :
      (info : RecoveryInfo) (o : Outcome)
      → ((perform h >> recover_locked h count false info) s).0 ≡ ok o
      → IsAnswer h contents
          (some info)
          (ok o)
          ((perform h >> recover_locked h count false info) s).1
  discarded-IsAnswer info o returned =
      let (_, h1, e1) = then-ok (perform h) (recover_locked h count false info) s o returned in
      let t : Checkpoint = (perform h s).1 in
      let (done, h2, e2) = then-ok (complete h count) (pure discarded) t o h1 in
      let same : discarded ≡ o = cc h2 in
      subst
        (λ a.
          IsAnswer h contents (some info) (ok a)
            ((perform h >> recover_locked h count false info) s).1)
        same (ap (λ (x : Checkpoint). x.manifest) (e1 ∙ e2) ∙ complete-Gone h count t done)

  restored-IsAnswer :
      (info : RecoveryInfo) (o : Outcome)
      → ((perform h >> recover_locked h count true info) s).0 ≡ ok o
      → IsAnswer h contents (some info) (ok o) ((perform h >> recover_locked h count true info) s).1
  restored-IsAnswer info o returned =
      let (_, h1, e1) = then-ok (perform h) (recover_locked h count true info) s o returned in
      let t : Checkpoint = (perform h s).1 in
      let (ready, at, gone, same) =
        recover_locked-ok h count info contents t backups targets staged o h1 in
      subst
        (λ a.
          IsAnswer h contents (some info) (ok a)
            ((perform h >> recover_locked h count true info) s).1)
        same
        (record {
          targets = ap (λ (x : Checkpoint). x.targets) e1 ∙ at;
          completed = ap (λ (x : Checkpoint). x.manifest) e1 ∙ gone;
          info = info;
          manifest = refl;
          ready = ready;
        })

  recover_pending-IsAnswer :
      (restore discard : Bool) (m : Option RecoveryInfo)
      → s.manifest ≡ m
      → IsAnswer h contents m
          (recover_pending h count restore discard m s).0
          (recover_pending h count restore discard m s).1
  recover_pending-IsAnswer restore discard none e = refl
  recover_pending-IsAnswer true true (some info) e = tt
  recover_pending-IsAnswer false false (some info) e = e
  recover_pending-IsAnswer false true (some info) e =
      answer (some info) ((perform h >> recover_locked h count false info) s).0
        ((perform h >> recover_locked h count false info) s).1 (discarded-IsAnswer info)
  recover_pending-IsAnswer true false (some info) e =
      answer (some info) ((perform h >> recover_locked h count true info) s).0
        ((perform h >> recover_locked h count true info) s).1 (restored-IsAnswer info)

-- For backups that are there, one for each target, and nothing staged: a recovery that restores leaves, at
-- whichever call it stops, its manifest and its backups as they were, or every target with the content of
-- its backup; and of any recovery that answers, the answer is true: one that restored had a manifest that
-- was ready, has given every target the content of its backup, and has removed the manifest, one that
-- discarded has removed the manifest, and one that did neither has left it.
pub recover_image-IsRecovered :
    (h : Host) (count : ℕ) (restore discard : Bool) (contents : List Bytes) (s : Checkpoint)
    → s.backups ≡ map (λ bytes. some bytes) contents
    → length s.targets ≡ length contents
    → s.staged ≡ []
    → IsRecovered contents s (recover_image h count true discard s).1
      × IsAnswer h contents s.manifest
          (recover_image h count restore discard s).0
          (recover_image h count restore discard s).1
unfolding recover_image
recover_image-IsRecovered h count restore discard contents s backups targets staged =
    let t : Checkpoint = (perform h s).1 in
    (
      bind-step (IsRecovered contents s) (perform h)
          (λ _ x. recover_pending h count true discard x.manifest x) s (inl (refl, refl))
          (λ _ _.
            recover_pending-IsRecovered h count contents t backups targets staged discard
              s.manifest),
      first (h.answer s.made),
    )
  where
    first :
        (r : Result (Unit {0}))
        → IsAnswer h contents s.manifest
            (continue r
              (λ _ x. recover_pending h count restore discard x.manifest x)
              (record s { made = suc s.made })).0
            (continue r
              (λ _ x. recover_pending h count restore discard x.manifest x)
              (record s { made = suc s.made })).1
    first (ok done) =
        recover_pending-IsAnswer h count contents (record s { made = suc s.made }) backups targets
          staged restore discard s.manifest refl
    first (err error) = tt
