-- ===== src/Recovery/Completed.antt =====
-- The completion of a recovery under its lock.
use nautilus_acornfs.Prelude.{
  ℕ, zero, suc, ◌≡◌, ◌⊎◌, ◌∙◌, sym, ap, subst, true, none, some, List, [], length, map, inl, inr,
}
use nautilus_acornfs.Prelude.Text.{Bytes}
use nautilus_acornfs.Prelude.Result.{ok}
use nautilus_acornfs.Prelude.Exec.{Exec, pure, modify, ◌>>◌, then-ok, bind-step, bind-keeps}
use nautilus_acornfs.Recovery.{
  RecoveryInfo, Host, Checkpoint, perform, act, set_backup, remove_backups, complete,
}
use nautilus_acornfs.Recovery.Restored.{IsKept, restore_targets-IsKept, restore_targets-ok}
use nautilus_acornfs.Recovery.Copies.{act-eq}
use nautilus_acornfs.Recovery.Restore.{Outcome, restored, is_ready, restore_targets, recover_locked}

abbrev AtTargets : List Bytes → Checkpoint → Type 0
AtTargets targets t = t.targets ≡ targets

abbrev pub Gone : Checkpoint → Type 0
Gone t = t.manifest ≡ none

-- A recovery that restores keeps the checkpoint whole, or every target holds its backup.
abbrev pub IsRecovered : List Bytes → Checkpoint → Checkpoint → Type 0
IsRecovered contents s t = IsKept s t ⊎ (t.targets ≡ contents)

module _ (h : Host) where
  remove_backups-targets :
      (n i : ℕ) (targets : List Bytes) (s : Checkpoint)
      → AtTargets targets s
      → AtTargets targets (remove_backups h n i s).1
  unfolding remove_backups
  remove_backups-targets zero i targets s e = e
  remove_backups-targets (suc n) i targets s e =
      bind-keeps (AtTargets targets) (act h (set_backup h i none)) (λ _. remove_backups h n (suc i))
        (bind-keeps (AtTargets targets) (perform h) (λ _. modify (set_backup h i none)) (λ x z. z)
          (λ _ x z. z))
        (λ _. remove_backups-targets n (suc i) targets) s e

  complete-targets :
      (count : ℕ) (targets : List Bytes) (s : Checkpoint)
      → AtTargets targets s
      → AtTargets targets (complete h count s).1
  unfolding complete
  complete-targets count targets s e =
      let f : Checkpoint → Checkpoint = λ s. record s { manifest = none } in
      bind-keeps (AtTargets targets) (act h f)
        (λ _. perform h >> (remove_backups h count 0 >> perform h))
        (bind-keeps (AtTargets targets) (perform h) (λ _. modify f) (λ x z. z) (λ _ x z. z))
        (λ _.
          bind-keeps (AtTargets targets) (perform h) (λ _. remove_backups h count 0 >> perform h)
            (λ x z. z)
            (λ _.
              bind-keeps (AtTargets targets) (remove_backups h count 0) (λ _. perform h)
                (remove_backups-targets count 0 targets) (λ _ x z. z)))
        s e

  remove_backups-Gone : (n i : ℕ) (s : Checkpoint) → Gone s → Gone (remove_backups h n i s).1
  unfolding remove_backups
  remove_backups-Gone zero i s e = e
  remove_backups-Gone (suc n) i s e =
      bind-keeps Gone (act h (set_backup h i none)) (λ _. remove_backups h n (suc i))
        (bind-keeps Gone (perform h) (λ _. modify (set_backup h i none)) (λ x z. z) (λ _ x z. z))
        (λ _. remove_backups-Gone n (suc i)) s e

  pub complete-Gone :
      (count : ℕ) (s : Checkpoint) → (complete h count s).0 ≡ ok tt → Gone (complete h count s).1
  unfolding complete
  complete-Gone count s returned =
      let f : Checkpoint → Checkpoint = λ s. record s { manifest = none } in
      let rest : Exec Checkpoint (Unit {0}) =
        perform h >> (remove_backups h count 0 >> perform h) in
      let (removed, _, same) = then-ok (act h f) rest s tt returned in
      subst Gone (sym same) (
        bind-keeps Gone (perform h) (λ _. remove_backups h count 0 >> perform h) (λ x z. z)
          (λ _.
            bind-keeps Gone (remove_backups h count 0) (λ _. perform h)
              (remove_backups-Gone count 0) (λ _ x z. z))
          (act h f s).1 (ap (λ (x : Checkpoint). x.manifest) (act-eq h f s removed)))

  module _ (count : ℕ) (info : RecoveryInfo) (contents : List Bytes) (s : Checkpoint)
      (backups : s.backups ≡ map (λ bytes. some bytes) contents)
      (targets : length s.targets ≡ length contents) (staged : s.staged ≡ []) where
    pub recover_locked-IsRecovered : IsRecovered contents s (recover_locked h count true info s).1
    recover_locked-IsRecovered =
        let last : Exec Checkpoint Outcome = complete h count >> pure restored in
        bind-step (IsRecovered contents s) (restore_targets h info) (λ _. last) s
          (inl (restore_targets-IsKept h info s))
          (λ _ returned. inr (
            bind-keeps (AtTargets contents) (complete h count) (λ _. pure restored)
              (complete-targets count contents) (λ _ x z. z) (restore_targets h info s).1
              (restore_targets-ok h info contents s backups targets staged returned).1))

    pub recover_locked-ok :
        (o : Outcome)
        → (recover_locked h count true info s).0 ≡ ok o
        → (is_ready h info ≡ true)
          × ((recover_locked h count true info s).1.targets ≡ contents)
          × ((recover_locked h count true info s).1.manifest ≡ none)
          × (restored ≡ o)
    recover_locked-ok o returned =
        let last : Exec Checkpoint Outcome = complete h count >> pure restored in
        let (done, h1, e1) = then-ok (restore_targets h info) last s o returned in
        let t : Checkpoint = (restore_targets h info s).1 in
        let (completed, h2, e2) = then-ok (complete h count) (pure restored) t o h1 in
        let (ready, at) = restore_targets-ok h info contents s backups targets staged done in
        (
          ready,
          ap (λ (x : Checkpoint). x.targets) (e1 ∙ e2) ∙ complete-targets count contents t at,
          ap (λ (x : Checkpoint). x.manifest) (e1 ∙ e2) ∙ complete-Gone count t completed,
          cc h2,
        )
