-- ===== src/Image/Close/Checkpoints.antt =====
-- The end of the checkpoint in a close.
use nautilus_acornfs.Prelude.{
  ℕ, List, [], any, ◌&&◌, ◌==◌, Bool-cases, ◌≡◌, ◌⊎◌, ◌∙◌, refl, Bool, true, false, ◌||◌, not,
  arith, inl, inr,
}
use nautilus_acornfs.Prelude.Result.{Result, ok, err, acornfs_error}
use nautilus_acornfs.Prelude.Exec.{Exec, ◌>>=◌, ◌>>◌, modify, raise_when, bind-step}
use nautilus_acornfs.Validation.Findings.{Report, safe_for_write}
use nautilus_acornfs.Image.Close.{
  Host, Call, Closing, synchronise, require_integrity, close_mount, close_reader, close_source,
  export_container, complete_checkpoint, perform, finalise, export, when, end_checkpoint,
  close_open, close,
}

abbrev pub is_safe : Result Report → Bool
is_safe (ok report) = safe_for_write report
is_safe (err error) = false

abbrev code : Call → ℕ
code synchronise = 0
code require_integrity = 1
code close_mount = 2
code close_reader = 3
code close_source = 4
code export_container = 5
code complete_checkpoint = 6

abbrev is_returned : Result (Unit {0}) → Bool
is_returned (ok done) = true
is_returned (err error) = false

-- The call was made, and returned.
abbrev pub did : Call → List (Call × Result (Unit {0})) → Bool
did call calls = any (λ c. code c.0 == code call && is_returned c.1) calls

-- The image was synchronised and validated, and if it came from a container, written back to it.
pub record IsFinal (h : Host) (clean : Bool) (s t : Closing) : Type 0 where
  pub clean_end : clean ≡ true
  pub writable : h.writable ≡ true
  pub sound : s.failed ≡ false
  pub synchronised : did synchronise t.calls ≡ true
  pub validated :
      ((h.has_pair ≡ true) × (is_safe h.integrity_report ≡ true))
      ⊎ ((h.has_pair ≡ false) × (did require_integrity t.calls ≡ true))
  pub written_back :
      (h.has_container ≡ false)
      ⊎ ((h.signature_kept ≡ ok true) × (did export_container t.calls ≡ true))
  pub completed : did complete_checkpoint t.calls ≡ true

where_true : {P : Type 0} (b : Bool) → (b ≡ true → P) → (b ≡ false) ⊎ P
where_true true f = inr (f refl)
where_true false f = inl refl

module _ (h : Host) where
  finalise-eq :
      (clean : Bool) (s : Closing)
      → ((finalise h clean s).1.pending ≡ s.pending)
        × ((finalise h clean s).1.closed ≡ s.closed)
        × ((finalise h clean s).1.failed ≡ false → s.failed ≡ false)
  unfolding finalise
  finalise-eq clean s = ground arith

  finalise_sound :
      (clean : Bool) (s : Closing)
      → (finalise h clean s).1.failed ≡ false
      → clean ≡ true
      → h.writable ≡ true
      → (did synchronise (finalise h clean s).1.calls ≡ true)
        × (h.has_pair ≡ true → is_safe h.integrity_report ≡ true)
        × (h.has_pair ≡ false → did require_integrity (finalise h clean s).1.calls ≡ true)
  unfolding finalise
  finalise_sound clean s sound c w = ground arith

  export-eq :
      (clean e : Bool) (s : Closing)
      → ((export h clean e s).1.pending ≡ s.pending)
        × ((export h clean e s).1.failed ≡ false → s.failed ≡ false)
  unfolding export
  export-eq clean e s = ground arith

  export_sound :
      (clean e : Bool) (s : Closing)
      → (export h clean e s).1.failed ≡ false
      → clean ≡ true
      → h.writable ≡ true
      → e ≡ false
      → h.has_container ≡ true
      → (h.signature_kept ≡ ok true) × (did export_container (export h clean e s).1.calls ≡ true)
  unfolding export
  export_sound clean e s sound c w ne hc = ground arith

  -- A call that was made stays made.
  export-did :
      (clean e : Bool) (s : Closing) (c : Call)
      → did c s.calls ≡ true
      → did c (export h clean e s).1.calls ≡ true
  unfolding export
  export-did clean e s c made = ground arith

  perform-did :
      (call : Call) (s : Closing) (c : Call)
      → did c s.calls ≡ true
      → did c (perform h call s).1.calls ≡ true
  perform-did call s c made = ground arith

  end_checkpoint-did :
      (clean : Bool) (s : Closing) (c : Call)
      → did c s.calls ≡ true
      → did c (end_checkpoint h clean s).1.calls ≡ true
  unfolding end_checkpoint
  end_checkpoint-did clean s c made = ground arith

  end_checkpoint-eq :
      (clean : Bool) (s : Closing)
      → s.pending ≡ true
      → (end_checkpoint h clean s).1.pending ≡ false
      → (clean ≡ true)
        × (h.writable ≡ true)
        × (s.failed ≡ false)
        × (did complete_checkpoint (end_checkpoint h clean s).1.calls ≡ true)
  unfolding end_checkpoint
  end_checkpoint-eq clean s p q = ground arith

  finalise-false :
      (clean : Bool) (s : Closing) (e : Bool)
      → (finalise h clean s).0 ≡ ok e
      → (finalise h clean s).1.failed ≡ false
      → e ≡ false
  unfolding finalise
  finalise-false clean s e returned sound = ground arith

  -- Where the checkpoint was there before, it is gone only at the end of such a close.
  abbrev Ends : Bool → Closing → Closing → Type 0
  Ends clean s t = t.pending ≡ false → IsFinal h clean s t

  still_pending : (clean : Bool) (s t : Closing) → t.pending ≡ true → Ends clean s t
  still_pending clean s t p q = absurd (cc (p, q))

  raise_when-Ends :
      (clean : Bool) (s : Closing) (test : Bool) (t : Closing)
      → Ends clean s t
      → Ends clean s (raise_when test acornfs_error t).1
  raise_when-Ends clean s true t e = e
  raise_when-Ends clean s false t e = e

  -- The end of the checkpoint, from what the phases before it have established.
  ended :
      (clean : Bool) (s : Closing) (first second : Bool) (w : Closing)
      → w.pending ≡ true
      → (clean ≡ true
          → h.writable ≡ true
          → w.failed ≡ false
          → (s.failed ≡ false)
            × (did synchronise w.calls ≡ true)
            × (h.has_pair ≡ true → is_safe h.integrity_report ≡ true)
            × (h.has_pair ≡ false → did require_integrity w.calls ≡ true)
            × (h.has_container ≡ true
                → (h.signature_kept ≡ ok true) × (did export_container w.calls ≡ true)))
      → Ends clean s ((end_checkpoint h clean >> raise_when (first || second) acornfs_error) w).1
  ended clean s first second w p facts =
      let x : Closing = (end_checkpoint h clean w).1 in
      let final : Ends clean s x = λ q.
        let (c, wr, sound, complete) = end_checkpoint-eq clean w p q in
        let (sf, sync, valid, generic, back) = facts c wr sound in
        record {
          clean_end = c;
          writable = wr;
          sound = sf;
          synchronised = end_checkpoint-did clean w synchronise sync;
          validated = elim (Bool-cases h.has_pair) [
            | inl p ↦ inl (p, valid p)
            | inr p ↦ inr (p, end_checkpoint-did clean w require_integrity (generic p))
          ];
          written_back =
              where_true h.has_container
                (λ c. let (a, b) = back c in (a, end_checkpoint-did clean w export_container b));
          completed = complete;
        } in
      bind-step (Ends clean s) (end_checkpoint h clean)
        (λ _. raise_when (first || second) acornfs_error) w final
        (λ _ _. raise_when-Ends clean s (first || second) x final)

  close_open-Ends :
      (clean : Bool) (s : Closing) → s.pending ≡ true → Ends clean s (close_open h clean s).1
  unfolding close_open
  close_open-Ends clean s p =
      let last : Bool → Exec Closing (Unit {0}) =
        λ wrong. end_checkpoint h clean >> raise_when wrong acornfs_error in
      let late : Bool → Exec Closing (Unit {0}) = λ first. export h clean first >>= λ second.
      perform h close_source
      >> (modify (λ s. record s { closed = true }) >> last (first || second)) in
      let t : Closing = (finalise h clean s).1 in
      let (pt, _, ft) = finalise-eq clean s in
      let pt' : t.pending ≡ true = pt ∙ p in
      bind-step (Ends clean s) (finalise h clean)
        (λ first. perform h close_mount >> (perform h close_reader >> late first)) s
        (still_pending clean s t pt')
        (λ first returned.
          bind-step (Ends clean s) (perform h close_mount)
            (λ _. perform h close_reader >> late first) t
            (still_pending clean s (perform h close_mount t).1 pt')
            (λ _ _.
              let m : Closing = (perform h close_mount t).1 in
              let u : Closing = (perform h close_reader m).1 in
              bind-step (Ends clean s) (perform h close_reader) (λ _. late first) m
                (still_pending clean s u pt')
                (λ _ _.
                  let v : Closing = (export h clean first u).1 in
                  let (pv, fv) = export-eq clean first u in
                  let pv' : v.pending ≡ true = pv ∙ pt' in
                  bind-step (Ends clean s) (export h clean first)
                    (λ second.
                      perform h close_source
                      >> (modify (λ s. record s { closed = true }) >> last (first || second)))
                    u (still_pending clean s v pv')
                    (λ second _.
                      let w : Closing = record (perform h close_source v).1 { closed = true } in
                      bind-step (Ends clean s) (perform h close_source)
                        (λ _. modify (λ s. record s { closed = true }) >> last (first || second)) v
                        (still_pending clean s (perform h close_source v).1 pv')
                        (λ _ _. ended clean s first second w pv' (λ c wr sound.
                          let fu = fv sound in
                          let ft' = ft fu in
                          let (sync, valid, generic) = finalise_sound clean s fu c wr in
                          let kept : (call : Call)
                              → did call t.calls ≡ true
                              → did call w.calls ≡ true =
                            λ call made. perform-did close_source v call (
                              export-did clean first u call (
                                perform-did close_reader m call
                                  (perform-did close_mount t call made))) in
                          (
                            ft',
                            kept synchronise sync,
                            valid,
                            (λ p. kept require_integrity (generic p)),
                            (λ p.
                                let (a, b) =
                                  export_sound clean first u sound c wr
                                    (finalise-false clean s first returned fu) p in
                                (a, perform-did close_source v export_container b)),
                          )))))))

  unless_closed :
      (clean : Bool) (s : Closing)
      → s.pending ≡ true
      → (closed : Bool) → Ends clean s (when h (not closed) (close_open h clean) s).1
  unless_closed clean s p true = still_pending clean s s p
  unless_closed clean s p false = close_open-Ends clean s p

  -- An image with a checkpoint, before its close has made a call.
  abbrev pub begun : Bool → Bool → Closing
  begun closed failed = record {
    made = 0;
    calls = [];
    closed = closed;
    failed = failed;
    pending = true;
  }

  -- A close, at whichever call it stops, ends the checkpoint only where it was asked for a clean end of a
  -- writable session that had not failed, where the calls of this close that synchronise the image and
  -- complete the checkpoint returned, a pair was validated without a fatal finding and any other image by
  -- the call for that, which returned, and a container was unchanged and was written back by an export that
  -- returned.
  pub close-IsFinal :
      (clean closed failed : Bool)
      → (close h clean (begun closed failed)).1.pending ≡ false
      → IsFinal h clean (begun closed failed) (close h clean (begun closed failed)).1
  unfolding close
  close-IsFinal clean closed failed = unless_closed clean (begun closed failed) refl closed
