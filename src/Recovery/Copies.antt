-- ===== src/Recovery/Copies.antt =====
-- The copies of a checkpoint, against what was read from their sources.
use nautilus_acornfs.Prelude.{
  ℕ, zero, suc, ◌≡◌, ◌∙◌, refl, sym, ap, Bool, true, false, Option, some, List, [], ◌∷◌, ◌++◌, set,
  length, length-append, map, arith,
}
use mathlib.Core.List.{append_assoc, append-nil}
use nautilus_acornfs.Prelude.Text.{Bytes}
use nautilus_acornfs.Prelude.Result.{Result, ok, err}
use nautilus_acornfs.Prelude.Exec.{Exec, ◌>>◌, then-ok}
use nautilus_acornfs.Recovery.{
  Source, Host, Checkpoint, concat, content, perform, act, set_backup, copy_chunks, copy_content,
  copied, guarded_copy, checkpoint_copy, copy_sources,
}

abbrev pub full_backups : List Source → List (Option Bytes)
full_backups sources = map (λ source. some (content source)) sources

set-set : {A : Type 0} (xs : List A) (i : ℕ) (v w : A) → set (set xs i v) i w ≡ set xs i w
set-set [] i v w = refl
set-set (x ∷ xs) zero v w = refl
set-set (x ∷ xs) (suc i) v w = ap (λ ys. x ∷ ys) (set-set xs i v w)

set-append :
    {A : Type 0} (xs ys : List A) (y v : A) → set (xs ++ (y ∷ ys)) (length xs) v ≡ xs ++ (v ∷ ys)
set-append [] ys y v = refl
set-append (x ∷ xs) ys y v = ap (λ zs. x ∷ zs) (set-append xs ys y v)

-- The bytes that a step leaves at a backup.
abbrev Holds : ℕ → List (Option Bytes) → Bytes → Checkpoint → Type 0
Holds i base bytes s = s.backups ≡ set base i (some bytes)

module _ (h : Host) where
  pub act-eq :
      (f : Checkpoint → Checkpoint) (s : Checkpoint)
      → (act h f s).0 ≡ ok tt
      → (act h f s).1 ≡ f (record s { made = suc s.made })
  act-eq f s returned = ground arith

  copy_chunks-Holds :
      (i : ℕ) (base : List (Option Bytes)) (written : Bytes) (chunks : List Bytes) (s : Checkpoint)
      → (copy_chunks h i written chunks s).0 ≡ ok tt
      → Holds i base written s
      → Holds i base (written ++ concat chunks) (copy_chunks h i written chunks s).1
  unfolding copy_chunks
  copy_chunks-Holds i base written [] s returned held = rw (append-nil written) held
  copy_chunks-Holds i base written (chunk ∷ chunks) s returned held =
      let f = set_backup h i (some (written ++ chunk)) in
      let rest = copy_chunks h i (written ++ chunk) chunks in
      let (acted, later, same) = then-ok (act h f) rest s tt returned in
      let t : Checkpoint = (act h f s).1 in
      let held' : Holds i base (written ++ chunk) t =
        ap (λ (x : Checkpoint). x.backups) (act-eq f s acted)
        ∙ (ap (λ bs. set bs i (some (written ++ chunk))) held ∙ set-set base i _ _) in
      ap (λ (x : Checkpoint). x.backups) same
      ∙ rw (← append_assoc written chunk (concat chunks))
          (copy_chunks-Holds i base (written ++ chunk) chunks t later held')

  copy_content-Holds :
      (i : ℕ) (base : List (Option Bytes)) (source : Source) (reflinks : Bool) (s : Checkpoint)
      → (copy_content h i source reflinks s).0 ≡ ok tt
      → Holds i base [] s
      → Holds i base (content source) (copy_content h i source reflinks s).1
  copy_content-Holds i base source true s returned held =
      ap (λ (x : Checkpoint). x.backups)
        (act-eq (set_backup h i (some (content source))) s returned)
      ∙ (ap (λ bs. set bs i (some (content source))) held ∙ set-set base i _ _)
  copy_content-Holds i base source false s returned held =
      copy_chunks-Holds i base [] source.chunks s returned held

  copied-ok :
      (i : ℕ) (r : Result (Unit {0})) (s : Checkpoint)
      → (copied h i r s).0 ≡ ok tt
      → (r ≡ ok tt) × ((copied h i r s).1 ≡ s)
  copied-ok i (ok done) s returned = (refl, refl)
  copied-ok i (err e) s returned = ground arith

  checkpoint_copy-eq :
      (i : ℕ) (source : Source) (s : Checkpoint)
      → (checkpoint_copy h i source s).0 ≡ ok tt
      → (checkpoint_copy h i source s).1.backups ≡ set s.backups i (some (content source))
  unfolding checkpoint_copy
  checkpoint_copy-eq i source s returned =
      let f = set_backup h i (some []) in
      let copying = copy_content h i source source.reflinks in
      let m : Exec Checkpoint (Unit {0}) = copying >> perform h in
      let (_, created, e0) = then-ok (perform h) (act h f >> guarded_copy h i m) s tt returned in
      let t : Checkpoint = (perform h s).1 in
      let (opened, guarded, e1) = then-ok (act h f) (guarded_copy h i m) t tt created in
      let u : Checkpoint = (act h f t).1 in
      let (filled, e2) = copied-ok i (m u).0 (m u).1 guarded in
      let (wrote, _, e3) = then-ok copying (perform h) u tt filled in
      let held : Holds i s.backups [] u = ap (λ (x : Checkpoint). x.backups) (act-eq f t opened) in
      ap (λ (x : Checkpoint). x.backups) (e0 ∙ (e1 ∙ (e2 ∙ e3)))
      ∙ copy_content-Holds i s.backups source source.reflinks u wrote held

  -- Copies that return leave the content of every source, behind what was there before.
  pub copy_sources-eq :
      (before rest : List (Option Bytes)) (sources : List Source) (s : Checkpoint)
      → s.backups ≡ before ++ rest
      → length rest ≡ length sources
      → (copy_sources h (length before) sources s).0 ≡ ok tt
      → (copy_sources h (length before) sources s).1.backups ≡ before ++ full_backups sources
  unfolding copy_sources
  copy_sources-eq before [] [] s e l returned = e
  copy_sources-eq before [] (source ∷ sources) s e l returned = absurd (omega (arith, l))
  copy_sources-eq before (b ∷ rest) [] s e l returned = absurd (omega (arith, l))
  copy_sources-eq before (b ∷ rest) (source ∷ sources) s e l returned =
      let i = length before in
      let (first, later, same) =
        then-ok (checkpoint_copy h i source) (copy_sources h (suc i) sources) s tt returned in
      let t : Checkpoint = (checkpoint_copy h i source s).1 in
      let c : Option Bytes = some (content source) in
      let at : t.backups ≡ before ++ (c ∷ []) ++ rest =
        checkpoint_copy-eq i source s first
        ∙ (ap (λ bs. set bs i c) e
            ∙ (set-append before rest b c ∙ sym (append_assoc before (c ∷ []) rest))) in
      let count : length (before ++ (c ∷ [])) ≡ suc i =
        omega (arith, length-append before (c ∷ [])) in
      let ih =
        copy_sources-eq (before ++ (c ∷ [])) rest sources t at (omega (arith, l))
          (rw count later) in
      ap (λ (x : Checkpoint). x.backups) same
      ∙ (rw count at ih ∙ append_assoc before (c ∷ []) (full_backups sources))
