-- ===== src/Recovery/Restored.antt =====
-- The staging and the commit of a recovery.
use nautilus_acornfs.Prelude.{
  ℕ, zero, suc, ◌≤◌, ◌≡◌, ◌∙◌, refl, sym, ap, subst, true, Option, none, some, List, [], ◌∷◌, ◌++◌,
  set, get_or, take, drop, length, take_all, map, Bool-cases, inl, inr, arith,
}
use mathlib.Core.List.{append_assoc, append-nil}
use nautilus_acornfs.Prelude.Text.{Bytes}
use nautilus_acornfs.Prelude.Result.{Result, ok, err}
use nautilus_acornfs.Prelude.Exec.{Exec, modify, raise, ◌>>◌, then-ok, bind-keeps}
use nautilus_acornfs.Recovery.{RecoveryInfo, Host, Checkpoint, perform, act, is_death}
use nautilus_acornfs.Recovery.Copies.{act-eq}
use nautilus_acornfs.Recovery.Restore.{
  stage, commit, replace_targets, unlink_staged, unlink_all, clear_staged, is_ready,
  restore_targets,
}

set-take :
    (T rest : List Bytes) (i : ℕ) (v : Bytes)
    → suc i ≤ length T
    → set (take (suc i) T ++ rest) i v ≡ take i T ++ (v ∷ rest)
set-take [] rest i v h = absurd (omega arith)
set-take (x ∷ xs) rest zero v h = refl
set-take (x ∷ xs) rest (suc i) v h = ap (λ ys. x ∷ ys) (set-take xs rest i v (omega arith))

take-snoc :
    (S rest : List Bytes) (i : ℕ)
    → suc i ≤ length S
    → take i S ++ (get_or S i [] ∷ rest) ≡ take (suc i) S ++ rest
take-snoc [] rest i h = absurd (omega arith)
take-snoc (x ∷ xs) rest zero h = refl
take-snoc (x ∷ xs) rest (suc i) h = ap (λ ys. x ∷ ys) (take-snoc xs rest i (omega arith))

-- The checkpoint is as it was.
abbrev pub IsKept : Checkpoint → Checkpoint → Type 0
IsKept s t = (t.manifest ≡ s.manifest) × (t.backups ≡ s.backups)

module _ (h : Host) where
  stage-IsKept :
      (s : Checkpoint) (backups : List (Option Bytes)) (t : Checkpoint)
      → IsKept s t
      → IsKept s (stage h backups t).1
  unfolding stage
  stage-IsKept s [] t k = k
  stage-IsKept s (none ∷ backups) t k = ground arith
  stage-IsKept s (some bytes ∷ backups) t k =
      let add = act h (λ s. record s { staged = s.staged ++ (bytes ∷ []) }) in
      bind-keeps (IsKept s) (perform h) (λ _. add >> stage h backups) (λ x z. z)
        (λ _.
          bind-keeps (IsKept s) add (λ _. stage h backups)
            (bind-keeps (IsKept s) (perform h)
              (λ _. modify (λ s. record s { staged = s.staged ++ (bytes ∷ []) })) (λ x z. z)
              (λ _ x z. z))
            (λ _. stage-IsKept s backups))
        t k

  -- Staging touches no target, and where it returns, all backups are staged.
  abbrev Staged : List Bytes → Checkpoint → Checkpoint → Type 0
  Staged contents s t = (t.targets ≡ s.targets) × (t.staged ≡ s.staged ++ contents)

  stage-ok :
      (contents : List Bytes) (s : Checkpoint)
      → (stage h (map (λ bytes. some bytes) contents) s).0 ≡ ok tt
      → Staged contents s (stage h (map (λ bytes. some bytes) contents) s).1
  unfolding stage
  stage-ok [] s returned = (refl, sym (append-nil s.staged))
  stage-ok (bytes ∷ contents) s returned =
      let f : Checkpoint → Checkpoint = λ s. record s { staged = s.staged ++ (bytes ∷ []) } in
      let rest = stage h (map (λ bytes. some bytes) contents) in
      let (_, h1, e1) = then-ok (perform h) (act h f >> rest) s tt returned in
      let t : Checkpoint = (perform h s).1 in
      let (added, h2, e2) = then-ok (act h f) rest t tt h1 in
      let u : Checkpoint = (act h f t).1 in
      let (targets, staged) = stage-ok contents u h2 in
      let eu = act-eq h f t added in
      let end = e1 ∙ e2 in
      (
        ap (λ (x : Checkpoint). x.targets) end ∙ (targets ∙ ap (λ (x : Checkpoint). x.targets) eu),
        ap (λ (x : Checkpoint). x.staged) end
            ∙ (staged
                ∙ (ap (λ (x : Checkpoint). x.staged ++ contents) eu
                    ∙ append_assoc s.staged (bytes ∷ []) contents)),
      )

  commit-IsKept : (s : Checkpoint) (n : ℕ) (t : Checkpoint) → IsKept s t → IsKept s (commit h n t).1
  unfolding commit
  commit-IsKept s zero t k = k
  commit-IsKept s (suc i) t k =
      let f : Checkpoint → Checkpoint =
        λ s. record s { targets = set s.targets i (get_or s.staged i []) } in
      bind-keeps (IsKept s) (act h f) (λ _. perform h >> commit h i)
        (bind-keeps (IsKept s) (perform h) (λ _. modify f) (λ x z. z) (λ _ x z. z))
        (λ _.
          bind-keeps (IsKept s) (perform h) (λ _. commit h i) (λ x z. z) (λ _. commit-IsKept s i))
        t k

  commit-ok :
      (n : ℕ) (T rest : List Bytes) (s : Checkpoint)
      → n ≤ length T
      → n ≤ length s.staged
      → s.targets ≡ take n T ++ rest
      → (commit h n s).0 ≡ ok tt
      → (commit h n s).1.targets ≡ take n s.staged ++ rest
  unfolding commit
  commit-ok zero T rest s lt ls e returned = e
  commit-ok (suc i) T rest s lt ls e returned =
      let v = get_or s.staged i [] in
      let f : Checkpoint → Checkpoint =
        λ s. record s { targets = set s.targets i (get_or s.staged i []) } in
      let (replaced, h1, e1) = then-ok (act h f) (perform h >> commit h i) s tt returned in
      let t : Checkpoint = (act h f s).1 in
      let (_, h2, e2) = then-ok (perform h) (commit h i) t tt h1 in
      let u : Checkpoint = (perform h t).1 in
      let et = act-eq h f s replaced in
      let staged : u.staged ≡ s.staged = ap (λ (x : Checkpoint). x.staged) et in
      let targets : u.targets ≡ take i T ++ (v ∷ rest) =
        ap (λ (x : Checkpoint). x.targets) et
        ∙ (ap (λ xs. set xs i v) e ∙ set-take T rest i v lt) in
      ap (λ (x : Checkpoint). x.targets) (e1 ∙ e2)
      ∙ (commit-ok i T (v ∷ rest) u (omega (arith, lt)) (rw staged (omega (arith, ls))) targets h2
          ∙ (ap (λ xs. take i xs ++ (v ∷ rest)) staged ∙ take-snoc s.staged rest i ls))

  replace_targets-ok :
      (contents : List Bytes) (s : Checkpoint)
      → s.backups ≡ map (λ bytes. some bytes) contents
      → length s.targets ≡ length contents
      → s.staged ≡ []
      → (replace_targets h s).0 ≡ ok tt
      → (replace_targets h s).1.targets ≡ contents
  unfolding replace_targets
  replace_targets-ok contents s eb el es returned =
      let last : Exec Checkpoint (Unit {0}) = λ t. commit h (length t.staged) t in
      let (staging, h1, e1) = then-ok (stage h s.backups) (perform h >> last) s tt returned in
      let t : Checkpoint = (stage h s.backups s).1 in
      let (_, h2, e2) = then-ok (perform h) last t tt h1 in
      let u : Checkpoint = (perform h t).1 in
      let (targets, staged) =
        subst (λ bs. (stage h bs s).0 ≡ ok tt → Staged contents s (stage h bs s).1) (sym eb)
          (stage-ok contents s) staging in
      let all : u.staged ≡ contents = staged ∙ ap (λ xs. xs ++ contents) es in
      let n : length u.staged ≡ length contents = ap length all in
      let whole : u.targets ≡ take (length u.staged) s.targets ++ [] =
        targets
        ∙ sym (
            append-nil (take (length u.staged) s.targets)
            ∙ take_all (length u.staged) s.targets (omega (arith, n, el))) in
      ap (λ (x : Checkpoint). x.targets) (e1 ∙ e2)
      ∙ (commit-ok (length u.staged) s.targets [] u (omega (arith, n, el)) (omega arith) whole h2
          ∙ (append-nil (take (length u.staged) u.staged)
              ∙ (take_all (length u.staged) u.staged (omega arith) ∙ all)))

  replace_targets-IsKept : (s : Checkpoint) → IsKept s (replace_targets h s).1
  unfolding replace_targets
  replace_targets-IsKept s =
      let last : Exec Checkpoint (Unit {0}) = λ t. commit h (length t.staged) t in
      bind-keeps (IsKept s) (stage h s.backups) (λ _. perform h >> last) (stage-IsKept s s.backups)
        (λ _.
          bind-keeps (IsKept s) (perform h) (λ _. last) (λ x z. z)
            (λ _ x. commit-IsKept s (length x.staged) x))
        s (refl, refl)

  -- The same, and the targets are too.
  abbrev Untouched : Checkpoint → Checkpoint → Type 0
  Untouched s t = (t.targets ≡ s.targets) × IsKept s t

  unlink_staged-Untouched :
      (s : Checkpoint) (n : ℕ) (t : Checkpoint)
      → Untouched s t
      → Untouched s (unlink_staged h n t).1
  unfolding unlink_staged
  unlink_staged-Untouched s zero t k = k
  unlink_staged-Untouched s (suc n) t k =
      let f : Checkpoint → Checkpoint = λ s. record s { staged = drop 1 s.staged } in
      bind-keeps (Untouched s) (act h f) (λ _. unlink_staged h n)
        (bind-keeps (Untouched s) (perform h) (λ _. modify f) (λ x z. z) (λ _ x z. z))
        (λ _. unlink_staged-Untouched s n) t k

  clear_staged-Untouched :
      (r : Result (Unit {0})) (s : Checkpoint) → Untouched s (clear_staged h r s).1
  clear_staged-Untouched (ok done) s =
      unlink_staged-Untouched s (length s.staged) s (refl, (refl, refl))
  clear_staged-Untouched (err e) s = elim (Bool-cases (is_death e)) [
    | inl p ↦ rw p (refl, (refl, refl))
    | inr p ↦ rw p (
        bind-keeps (Untouched s) (unlink_all h) (λ _. raise e)
          (λ t. unlink_staged-Untouched s (length t.staged) t) (λ _ t k. k) s (refl, (refl, refl)))
  ]

  -- A clean-up that returns follows a return.
  clear_staged-ok :
      (r : Result (Unit {0})) (s : Checkpoint) → (clear_staged h r s).0 ≡ ok tt → r ≡ ok tt
  clear_staged-ok (ok done) s returned = refl
  clear_staged-ok (err e) s returned = ground arith

  pub restore_targets-IsKept :
      (info : RecoveryInfo) (s : Checkpoint) → IsKept s (restore_targets h info s).1
  unfolding restore_targets
  restore_targets-IsKept info s = elim (Bool-cases (is_ready h info)) [
    | inl p ↦
        let (_, (m, b)) = clear_staged-Untouched (replace_targets h s).0 (replace_targets h s).1 in
        let (m', b') = replace_targets-IsKept s in rw p (m ∙ m', b ∙ b')
    | inr p ↦ rw p (refl, refl)
  ]

  pub restore_targets-ok :
      (info : RecoveryInfo) (contents : List Bytes) (s : Checkpoint)
      → s.backups ≡ map (λ bytes. some bytes) contents
      → length s.targets ≡ length contents
      → s.staged ≡ []
      → (restore_targets h info s).0 ≡ ok tt
      → (is_ready h info ≡ true) × ((restore_targets h info s).1.targets ≡ contents)
  unfolding restore_targets
  restore_targets-ok info contents s eb el es returned = elim (Bool-cases (is_ready h info)) [
    | inl p ↦ (
      p,
      rw p (
          (clear_staged-Untouched (replace_targets h s).0 (replace_targets h s).1).0
          ∙ replace_targets-ok contents s eb el es
              (clear_staged-ok (replace_targets h s).0 (replace_targets h s).1 (rw p at returned))),
    )
    | inr p ↦ absurd (cc (rw p at returned))
  ]
