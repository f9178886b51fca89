-- ===== src/Streams/Readers/Faults.antt =====
-- rpc/fault_injector.go: a response body with faults.
use bigmachine.Prelude.{
  ◌≡◌, refl, ap, true, false, List, [], ◌∷◌, if◌then◌else◌, arith, All, if_elim,
}
use bigmachine.Errors.{Errors}
use bigmachine.Streams.Readers.{
  read_from, close, FaultInjector, Draw, drop_message, truncate, pass, fail_with, read_drawn,
  read_faulty, read_draws, close_faulty,
}

module _ (E : Errors) where
  open E use {Err}

  abbrev pub ClosedBy : FaultInjector Err → Type 0
  ClosedBy r = r.source.closes ≡ (if r.is_open then 0 else 1)

  read_drawn-ClosedBy :
      (d : Draw) (r : FaultInjector Err)
      → r.source.closes ≡ 0
      → r.is_open ≡ true
      → ClosedBy (read_drawn E d r).1
  unfolding read_drawn fail_with read_from close
  read_drawn-ClosedBy drop_message r h ho = ground arith
  read_drawn-ClosedBy (truncate kept) r h ho = ground arith
  read_drawn-ClosedBy pass r h ho = ground arith

  read_faulty-ClosedBy :
      (d : Draw) (r : FaultInjector Err) → ClosedBy r → ClosedBy (read_faulty E d r).1
  unfolding read_faulty
  read_faulty-ClosedBy d r h =
      if_elim (λ x. ClosedBy x.1) r.is_open (read_drawn E d r) (([], r.error), r)
        (λ ho. read_drawn-ClosedBy d r (ground arith) ho) (λ ho. h)

  -- Whatever faults the reads meet, the response body is closed exactly once when Close has been
  -- called after them.
  pub close-read_draws :
      (ds : List Draw) (r : FaultInjector Err)
      → ClosedBy r
      → (close_faulty E (read_draws E ds r).1).source.closes ≡ 1
  unfolding read_draws close_faulty close
  close-read_draws [] r h = ground arith
  close-read_draws (d ∷ ds) r h =
      close-read_draws ds (read_faulty E d r).1 (read_faulty-ClosedBy d r h)

  read_faulty-failed :
      (d : Draw) (r : FaultInjector Err)
      → r.is_open ≡ false
      → read_faulty E d r ≡ (([], r.error), r)
  unfolding read_faulty
  read_faulty-failed d r h = ap (λ b. if b then read_drawn E d r else (([], r.error), r)) h

  -- Once a fault was injected, every later read returns no bytes and the error of the fault, and
  -- leaves the response body alone.
  pub read_draws-failed :
      (ds : List Draw) (r : FaultInjector Err)
      → r.is_open ≡ false
      → ((read_draws E ds r).1 ≡ r) × All (λ x. (x.0 ≡ []) × (x.1 ≡ r.error)) (read_draws E ds r).0
  unfolding read_draws
  read_draws-failed [] r h = (refl, tt)
  read_draws-failed (d ∷ ds) r h =
      let rest = read_draws-failed ds r h in
      rw (read_faulty-failed d r h) (rest.0, ((refl, refl), rest.1))
