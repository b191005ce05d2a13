-- ===== src/Recovery/Authority.antt =====
-- The manifest of a checkpoint and its backups, in every state that a stop may leave.
use nautilus_acornfs.Prelude.{
  ℕ, zero, suc, ◌≡◌, ◌∙◌, refl, Bool, true, false, Option, none, some, List, [], ◌∷◌, ◌++◌, length,
  length-set, Bool-cases, inl, inr, arith,
}
use nautilus_acornfs.Prelude.Text.{Bytes, codes, text_eq}
use nautilus_acornfs.Prelude.Result.{Result, ok, err}
use nautilus_acornfs.Prelude.Exec.{Exec, modify, ◌>>◌, bind-step, bind-keeps}
use nautilus_acornfs.Recovery.Copies.{full_backups, copy_sources-eq}
use nautilus_acornfs.Recovery.{
  RecoveryInfo, Source, Host, Checkpoint, content, perform, act, write_manifest, set_backup,
  copy_chunks, copied, guarded_copy, checkpoint_copy, copy_sources, remove_backups, complete,
  is_death, is_pending, with_state, all_reflink, copy_content, fill, filled, guarded_fill, create,
}

abbrev pub says_ready : Option RecoveryInfo → Bool
says_ready none = false
says_ready (some info) = text_eq info.state (codes "ready")

-- Backups that a manifest calls ready are complete.
abbrev pub IsAuthoritative : List Source → Checkpoint → Type 0
IsAuthoritative sources s = says_ready s.manifest ≡ true → s.backups ≡ full_backups sources

-- No manifest calls them ready.
abbrev IsUnready : Checkpoint → Type 0
IsUnready s = says_ready s.manifest ≡ false

IsUnready-Authoritative :
    (sources : List Source) (s : Checkpoint) → IsUnready s → IsAuthoritative sources s
IsUnready-Authoritative sources s u e = absurd (cc (u, e))

abbrev Keeps : (Checkpoint → Type 0) → Exec Checkpoint (Unit {0}) → Type 0
Keeps P m = (s : Checkpoint) → P s → P (m s).1

then-Keeps :
    (P : Checkpoint → Type 0) (m k : Exec Checkpoint (Unit {0}))
    → Keeps P m
    → Keeps P k
    → Keeps P (m >> k)
then-Keeps P m k km kk s p = bind-keeps P m (λ _. k) km (λ _. kk) s p

not_pending : (m : Option RecoveryInfo) → is_pending m ≡ false → says_ready m ≡ false
not_pending none p = refl
not_pending (some info) p = absurd (cc p)

module _ (h : Host) where
  act-Keeps :
      (P : Checkpoint → Type 0) (f : Checkpoint → Checkpoint)
      → ((s : Checkpoint) → P s → P (record s { made = suc s.made }))
      → ((s : Checkpoint) → P s → P (f s))
      → Keeps P (act h f)
  act-Keeps P f counted kept = then-Keeps P (perform h) (modify f) counted kept

  copy_chunks-IsUnready :
      (i : ℕ) (written : Bytes) (chunks : List Bytes)
      → Keeps IsUnready (copy_chunks h i written chunks)
  unfolding copy_chunks
  copy_chunks-IsUnready i written [] s u = u
  copy_chunks-IsUnready i written (chunk ∷ chunks) s u =
      then-Keeps IsUnready (act h (set_backup h i (some (written ++ chunk))))
        (copy_chunks h i (written ++ chunk) chunks)
        (act-Keeps IsUnready (set_backup h i (some (written ++ chunk))) (λ t k. k) (λ t k. k))
        (copy_chunks-IsUnready i (written ++ chunk) chunks) s u

  remove_backups-IsUnready : (n i : ℕ) → Keeps IsUnready (remove_backups h n i)
  unfolding remove_backups
  remove_backups-IsUnready zero i s u = u
  remove_backups-IsUnready (suc n) i s u =
      then-Keeps IsUnready (act h (set_backup h i none)) (remove_backups h n (suc i))
        (act-Keeps IsUnready (set_backup h i none) (λ t k. k) (λ t k. k))
        (remove_backups-IsUnready n (suc i)) s u

  copied-IsUnready : (i : ℕ) (r : Result (Unit {0})) → Keeps IsUnready (copied h i r)
  copied-IsUnready i (ok done) s u = u
  copied-IsUnready i (err e) s u = ground arith

  copy_content-IsUnready :
      (i : ℕ) (source : Source) (r : Bool) → Keeps IsUnready (copy_content h i source r)
  copy_content-IsUnready i source true =
      act-Keeps IsUnready (set_backup h i (some (content source))) (λ t k. k) (λ t k. k)
  copy_content-IsUnready i source false = copy_chunks-IsUnready i [] source.chunks

  checkpoint_copy-IsUnready :
      (i : ℕ) (source : Source) → Keeps IsUnready (checkpoint_copy h i source)
  unfolding checkpoint_copy
  checkpoint_copy-IsUnready i source =
      let filling : Exec Checkpoint (Unit {0}) =
        copy_content h i source source.reflinks >> perform h in
      let created : Exec Checkpoint (Unit {0}) = act h (set_backup h i (some [])) in
      let km =
        then-Keeps IsUnready (copy_content h i source source.reflinks) (perform h)
          (copy_content-IsUnready i source source.reflinks) (λ t k. k) in
      then-Keeps IsUnready (perform h) (created >> guarded_copy h i filling) (λ t k. k)
        (then-Keeps IsUnready created (guarded_copy h i filling)
          (act-Keeps IsUnready (set_backup h i (some [])) (λ t k. k) (λ t k. k))
          (λ t k. copied-IsUnready i (filling t).0 (filling t).1 (km t k)))

  copy_sources-IsUnready :
      (i : ℕ) (sources : List Source) → Keeps IsUnready (copy_sources h i sources)
  unfolding copy_sources
  copy_sources-IsUnready i [] s u = u
  copy_sources-IsUnready i (source ∷ sources) s u =
      then-Keeps IsUnready (checkpoint_copy h i source) (copy_sources h (suc i) sources)
        (checkpoint_copy-IsUnready i source) (copy_sources-IsUnready (suc i) sources) s u

  -- A checkpoint that is completed stays authoritative at each call: its manifest goes first.
  pub complete-IsAuthoritative :
      (sources : List Source) (count : ℕ) → Keeps (IsAuthoritative sources) (complete h count)
  unfolding complete
  complete-IsAuthoritative sources count s a =
      let rest : Exec Checkpoint (Unit {0}) =
        perform h >> (remove_backups h count 0 >> perform h) in
      let first : Exec Checkpoint (Unit {0}) = act h (λ s. record s { manifest = none }) in
      bind-step (IsAuthoritative sources) first (λ _. rest) s
        (act-Keeps (IsAuthoritative sources) (λ s. record s { manifest = none }) (λ t k. k)
          (λ t k e. absurd (cc e)) s a)
        (λ _ returned. IsUnready-Authoritative sources (rest (first s).1).1 (
          then-Keeps IsUnready (perform h) (remove_backups h count 0 >> perform h) (λ t k. k)
            (then-Keeps IsUnready (remove_backups h count 0) (perform h)
              (remove_backups-IsUnready count 0) (λ t k. k))
            (first s).1 (ground (arith, returned))))

  write_manifest-Keeps :
      (P : Checkpoint → Type 0) (info : RecoveryInfo)
      → ((s : Checkpoint) → P s → P (record s { made = suc s.made }))
      → ((s : Checkpoint) → P s → P (record s { manifest = some info }))
      → Keeps P (write_manifest h info)
  write_manifest-Keeps P info counted kept =
      then-Keeps P (act h (λ s. record s { manifest = some info })) (perform h)
        (act-Keeps P (λ s. record s { manifest = some info }) counted kept) counted

  fill-IsAuthoritative :
      (info : RecoveryInfo) (sources : List Source) (s : Checkpoint)
      → IsUnready s
      → length s.backups ≡ length sources
      → IsAuthoritative sources (fill h info sources s).1
  unfolding fill
  fill-IsAuthoritative info sources s u l =
      let Base : Checkpoint → Type 0 = λ t. IsUnready t × (t.backups ≡ s.backups) in
      let begin = write_manifest h (with_state (codes "creating") false info) in
      let last = write_manifest h (with_state (codes "ready") (all_reflink sources) info) in
      let copies = copy_sources h 0 sources in
      let t : Checkpoint = (perform h (begin s).1).1 in
      let (ut, bt) =
        write_manifest-Keeps Base (with_state (codes "creating") false info) (λ x k. k)
          (λ x k. (refl, k.1)) s (u, refl) in
      let at = IsUnready-Authoritative sources in
      bind-step (IsAuthoritative sources) begin (λ _. perform h >> (copies >> last)) s
        (at (begin s).1 ut)
        (λ _ _.
          bind-step (IsAuthoritative sources) (perform h) (λ _. copies >> last) (begin s).1
            (at t ut)
            (λ _ _.
              bind-step (IsAuthoritative sources) copies (λ _. last) t
                (at (copies t).1 (copy_sources-IsUnready 0 sources t ut))
                (λ _ copied e.
                  write_manifest-Keeps (λ x. x.backups ≡ full_backups sources)
                    (with_state (codes "ready") (all_reflink sources) info) (λ x k. k) (λ x k. k)
                    (copies t).1 (copy_sources-eq h [] s.backups sources t bt l copied))))

  filled-IsAuthoritative :
      (sources : List Source) (count : ℕ) (r : Result (Unit {0}))
      → Keeps (IsAuthoritative sources) (filled h count r)
  filled-IsAuthoritative sources count (ok done) s a = a
  filled-IsAuthoritative sources count (err error) s a = elim (Bool-cases (is_death error)) [
    | inl p ↦ rw p a
    | inr p ↦ rw p (complete-IsAuthoritative sources count s a)
  ]

  abbrev IsSized : ℕ → Checkpoint → Type 0
  IsSized n s = IsUnready s × (length s.backups ≡ n)

  remove_backups-IsSized : (k n i : ℕ) → Keeps (IsSized k) (remove_backups h n i)
  unfolding remove_backups
  remove_backups-IsSized k zero i s u = u
  remove_backups-IsSized k (suc n) i s u =
      then-Keeps (IsSized k) (act h (set_backup h i none)) (remove_backups h n (suc i))
        (act-Keeps (IsSized k) (set_backup h i none) (λ t z. z)
          (λ t z. (z.0, length-set t.backups i none ∙ z.1)))
        (remove_backups-IsSized k n (suc i)) s u

  -- At whichever call the creation of a checkpoint stops, by an exception or by the death of the process, a
  -- manifest that says that the checkpoint is ready stands beside backups that hold all that was read from
  -- their sources; and the same holds behind the completion of a checkpoint for which it held before.
  pub create-IsAuthoritative :
      (info : RecoveryInfo) (sources : List Source) (s : Checkpoint)
      → length s.backups ≡ length sources
      → IsAuthoritative sources s
      → IsAuthoritative sources (create h info sources (length sources) s).1
        × IsAuthoritative sources (complete h (length sources) s).1
  unfolding create
  create-IsAuthoritative info sources s l a = elim (Bool-cases (is_pending s.manifest)) [
    | inl p ↦ (rw p a, complete-IsAuthoritative sources (length sources) s a)
    | inr p ↦
        let n = length sources in
        let attempt = guarded_fill h n (fill h info sources) in
        let u : IsSized n s = (not_pending s.manifest p, l) in
        let cleared = remove_backups h n 0 in
        let t : Checkpoint = (perform h s).1 in
        let v : Checkpoint = (perform h (cleared t).1).1 in
        let (uv, lv) = remove_backups-IsSized n n 0 t u in
        let at = IsUnready-Authoritative sources in
        (
          rw p (
              bind-step (IsAuthoritative sources) (perform h)
                (λ _. cleared >> (perform h >> attempt)) s (at t u.0)
                (λ _ _.
                  bind-step (IsAuthoritative sources) cleared (λ _. perform h >> attempt) t
                    (at (cleared t).1 uv)
                    (λ _ _.
                      bind-step (IsAuthoritative sources) (perform h) (λ _. attempt) (cleared t).1
                        (at v uv)
                        (λ _ _.
                          filled-IsAuthoritative sources n (fill h info sources v).0
                            (fill h info sources v).1
                            (fill-IsAuthoritative info sources v uv lv))))),
          complete-IsAuthoritative sources n s a,
        )
  ]
