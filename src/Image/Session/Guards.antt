-- ===== src/Image/Session/Guards.antt =====
-- Requests to a session that has failed, or whose image was changed outside.
use nautilus_acornfs.Prelude.{ℕ, ◌≡◌, refl, true, false, List, [], ◌∷◌, some, ◌⊎◌, inl, inr, arith}
use nautilus_acornfs.Prelude.Text.{text_eq}
use nautilus_acornfs.Prelude.Result.{ok}
use nautilus_acornfs.Image.Session.{Host, State, Operation, run_atomic, sync}

-- What is asked of a session: an operation, or the synchronisation of what was written.
pub data Request (Env Memory A : Type 0) : Type 0 where
  mutation : Operation Env Memory A → Request Env Memory A
  synchronisation : Request Env Memory A

-- The mapped image and the index are as they were, and the session is writable and has failed.
pub record IsHalted {Env Memory : Type 0} (s t : State Env Memory) : Type 0 where
  pub mapping : t.world.mapping ≡ s.world.mapping
  pub memory : t.memory ≡ s.memory
  pub writable : t.writable ≡ true
  pub failed : t.failed ≡ true

-- The signature on disk is not the expected one.
pub record IsChanged {Env Memory : Type 0} (host : Host Env) (s : State Env Memory) : Type 0 where
  pub now : List ℕ
  pub expected : List ℕ
  pub stored : s.expected_signature ≡ some expected
  pub current : host.current_signature s.world ≡ ok now
  pub differs : text_eq now expected ≡ false

sync-IsHalted :
    {Env Memory : Type 0} (host : Host Env) (s t : State Env Memory)
    → IsHalted s t
    → IsHalted s (sync host t).1
unfolding sync
sync-IsHalted host s t h = record {
  mapping = ground (arith, h.mapping);
  memory = ground (arith, h.memory);
  writable = ground (arith, h.writable);
  failed = ground (arith, h.failed);
}

module _ {Env Memory A : Type 0} (host : Host Env) where
  abbrev pub serve : Request Env Memory A → State Env Memory → State Env Memory
  serve (mutation op) s = (run_atomic host op s).1
  serve synchronisation s = (sync host s).1

  -- A list of requests, each tried whatever became of the ones before.
  pub serve_all : List (Request Env Memory A) → State Env Memory → State Env Memory
  serve_all [] s = s
  serve_all (r ∷ rs) s = serve_all rs (serve r s)

  refused-IsHalted :
      (op : Operation Env Memory A) (s : State Env Memory)
      → s.writable ≡ true
      → s.failed ≡ true
      → (run_atomic host op s).1 ≡ s
  unfolding run_atomic
  refused-IsHalted op s w f = ground arith

  changed-IsHalted :
      (op : Operation Env Memory A) (s : State Env Memory)
      → s.writable ≡ true
      → s.failed ≡ false
      → IsChanged host s
      → IsHalted s (run_atomic host op s).1
  unfolding run_atomic
  changed-IsHalted op s w f c = record {
    mapping = ground (arith, c.stored, c.current, c.differs);
    memory = ground (arith, c.stored, c.current, c.differs);
    writable = ground (arith, c.stored, c.current, c.differs);
    failed = ground (arith, c.stored, c.current, c.differs);
  }

  serve-IsHalted :
      (r : Request Env Memory A) (s t : State Env Memory) → IsHalted s t → IsHalted s (serve r t)
  serve-IsHalted (mutation op) s t h = rw (refused-IsHalted op t h.writable h.failed) h
  serve-IsHalted synchronisation s t h = sync-IsHalted host s t h

  serve_all-IsHalted :
      (rs : List (Request Env Memory A)) (s t : State Env Memory)
      → IsHalted s t
      → IsHalted s (serve_all rs t)
  unfolding serve_all
  serve_all-IsHalted [] s t h = h
  serve_all-IsHalted (r ∷ rs) s t h = serve_all-IsHalted rs s (serve r t) (serve-IsHalted r s t h)

  -- From a writable session that has failed, or that finds another signature on disk than it expects, and
  -- a first operation that is tried, no operations and synchronisations in any order change the mapped image
  -- or the index, and the session has failed at their end.
  pub run_atomic-IsHalted :
      (op : Operation Env Memory A) (rs : List (Request Env Memory A)) (s : State Env Memory)
      → s.writable ≡ true
      → (s.failed ≡ true) ⊎ ((s.failed ≡ false) × IsChanged host s)
      → IsHalted s (serve_all (mutation op ∷ rs) s)
  unfolding serve_all
  run_atomic-IsHalted op rs s w (inl f) = serve_all-IsHalted rs s (run_atomic host op s).1 (
      rw (refused-IsHalted op s w f)
        (record { mapping = refl; memory = refl; writable = w; failed = f }))
  run_atomic-IsHalted op rs s w (inr (f, c)) =
      serve_all-IsHalted rs s (run_atomic host op s).1 (changed-IsHalted op s w f c)
