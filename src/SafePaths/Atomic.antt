-- ===== src/SafePaths/Atomic.antt =====
-- The states of a private file while it is written.
use nautilus_acornfs.Prelude.{
  suc, ◌≡◌, ◌⊎◌, ◌∙◌, refl, ap, inl, inr, ◌||◌, Option, none, some, [], arith, Bool-cases,
}
use nautilus_acornfs.Prelude.Text.{Text, Bytes}
use nautilus_acornfs.Prelude.Result.{Result, ok, err}
use nautilus_acornfs.Prelude.Exec.{continue, modify, ◌>>◌, then-ok, bind-step}
use nautilus_acornfs.SafePaths.{
  Written, Host, Directory, write_all, perform, after_write, publish, replace_with, removed,
  cleaned, attempted, is_death, is_absent, is_unsafe_name, atomic_write_private_text,
}
use nautilus_acornfs.SafePaths.Progress.{write_all-eq}

abbrev pub IsOldOrNew : Option Bytes → Bytes → Directory → Type 0
IsOldOrNew old content t = (t.target ≡ old) ⊎ (t.target ≡ some content)

-- A writing that returns has put the new content in place; one that raises has left the old or the new.
abbrev pub IsAtomic : Option Bytes → Bytes → Result (Unit {0}) × Directory → Type 0
IsAtomic old content (ok done, t) = (t.target ≡ some content) × (t.temporary ≡ none)
IsAtomic old content (err error, t) = IsOldOrNew old content t

module _ (h : Host) where
  publish-keeps :
      (content : Bytes) (s : Directory)
      → s.temporary ≡ some content
      → IsOldOrNew s.target content (publish h s).1
  unfolding publish
  publish-keeps content s e = ground arith

  publish-ok :
      (content : Bytes) (s : Directory)
      → s.temporary ≡ some content
      → (publish h s).0 ≡ ok tt
      → ((publish h s).1.target ≡ some content) × ((publish h s).1.temporary ≡ none)
  unfolding publish
  publish-ok content s e returned = ground arith

  after_write-keeps : (w : Written) (s : Directory) → (after_write h w s).1.target ≡ s.target
  after_write-keeps none s = refl
  after_write-keeps (some (r, written)) s = refl

  after_write-ok :
      (content : Bytes) (w : Written) (s : Directory)
      → ((out : Bytes) → w ≡ some (ok tt, out) → out ≡ content)
      → (after_write h w s).0 ≡ ok tt
      → (after_write h w s).1.temporary ≡ some content
  after_write-ok content none s all returned = absurd (cc returned)
  after_write-ok content (some (ok done, out)) s all returned = ap (λ x. some x) (all out refl)
  after_write-ok content (some (err error, out)) s all returned = absurd (cc returned)

  replace_with-IsOldOrNew :
      (content : Bytes) (s : Directory) → IsOldOrNew s.target content (replace_with h content s).1
  unfolding replace_with
  replace_with-IsOldOrNew content s =
      let w = write_all h.write h.fuel 0 content [] in
      let P = IsOldOrNew s.target content in
      let t : Directory = record (perform h s).1 { temporary = some [] } in
      let u : Directory = (after_write h w t).1 in
      let kept : u.target ≡ s.target = after_write-keeps w t in
      bind-step P (perform h)
        (λ _. modify (λ s. record s { temporary = some [] }) >> (after_write h w >> publish h)) s
        (inl refl)
        (λ _ _.
          bind-step P (after_write h w) (λ _. publish h) t (inl kept)
            (λ _ returned. move u kept (
              publish-keeps content u (
                after_write-ok content w t (λ out. write_all-eq h.write h.fuel 0 content [] out)
                  returned))))
    where
      move :
          (u : Directory)
          → u.target ≡ s.target
          → IsOldOrNew u.target content (publish h u).1
          → IsOldOrNew s.target content (publish h u).1
      move u e (inl k) = inl (k ∙ e)
      move u e (inr k) = inr k

  replace_with-ok :
      (content : Bytes) (s : Directory)
      → (replace_with h content s).0 ≡ ok tt
      → ((replace_with h content s).1.target ≡ some content)
        × ((replace_with h content s).1.temporary ≡ none)
  unfolding replace_with
  replace_with-ok content s returned =
      let w = write_all h.write h.fuel 0 content [] in
      let t : Directory = record (perform h s).1 { temporary = some [] } in
      let (_, h1, e1) =
        then-ok (perform h)
          (modify (λ s. record s { temporary = some [] }) >> (after_write h w >> publish h)) s tt
          returned in
      let (wrote, h2, e2) = then-ok (after_write h w) (publish h) t tt h1 in
      let u : Directory = (after_write h w t).1 in
      let (target, gone) =
        publish-ok content u
          (after_write-ok content w t (λ out. write_all-eq h.write h.fuel 0 content [] out) wrote)
          h2 in
      (
        ap (λ (x : Directory). x.target) (e1 ∙ e2) ∙ target,
        ap (λ (x : Directory). x.temporary) (e1 ∙ e2) ∙ gone,
      )

  removed-target : (r : Result (Unit {0})) (s : Directory) → (removed h r s).target ≡ s.target
  removed-target (ok done) s = refl
  removed-target (err error) s = refl

  cleaned-IsAtomic :
      (old : Option Bytes) (content : Bytes) (r : Result (Unit {0})) (s : Directory)
      → IsOldOrNew old content s
      → (r ≡ ok tt → (s.target ≡ some content) × (s.temporary ≡ none))
      → IsAtomic old content (cleaned h r s)
  cleaned-IsAtomic old content (ok done) s k good = good refl
  cleaned-IsAtomic old content (err error) s k good =
      elim (Bool-cases (is_death error || is_absent h s.temporary)) [
        | inl p ↦ rw p k
        | inr p ↦ rw p (rw (removed-target (h.answer s.made) (perform h s).1) k)
      ]

  -- At whichever call the writing stops, by an exception or by the death of the process, the file has its old
  -- content or the whole new one; where the writing returns, it has the new one, and no temporary file is left.
  pub atomic_write_private_text-IsAtomic :
      (name : Text) (content : Bytes) (s : Directory)
      → IsAtomic s.target content (atomic_write_private_text h name content s)
  unfolding atomic_write_private_text
  atomic_write_private_text-IsAtomic name content s = elim (Bool-cases (is_unsafe_name name)) [
    | inl p ↦ rw p (inl refl)
    | inr p ↦ rw p (opened (h.answer s.made))
  ]
    where
      opened :
          (r : Result (Unit {0}))
          → IsAtomic s.target content (
              continue r
                (λ _. attempted h (replace_with h content))
                (record s { made = suc s.made }))
      opened (ok done) =
          cleaned-IsAtomic s.target content
            (replace_with h content (record s { made = suc s.made })).0
            (replace_with h content (record s { made = suc s.made })).1
            (replace_with-IsOldOrNew content (record s { made = suc s.made }))
            (replace_with-ok content (record s { made = suc s.made }))
      opened (err error) = inl refl
