-- ===== src/Cluster/Profiler/Single.antt =====
-- profile.go: the profile of a single machine, and the status of the handler's reply.
use bigmachine.Prelude.{ℕ, ◌≡◌, Option, none, some, [], ◌∷◌, Text, codes, arith}
use bigmachine.Errors.{Errors, message, cause}
use bigmachine.Machine.Retry.{Result, ok, err}
use bigmachine.Cluster.Profiler.{Profiler, Buffer, Pages, Outcome, done, no_profiles, failed}

module _ (E : Errors) (Prof : Type 0) where
  open E use {Err, format}

  -- The end of Marshal for one machine, with the deferred Close of its stream.
  unfoldable pub copy_one : Text → Text → Buffer Err Prof → Outcome Err × Pages Err Prof
  copy_one which a b =
      let s : Pages Err Prof = record { out = b.copy.0; closed = a ∷ []; profiles = [] } in
      elim b.copy.1 [
        | some e ↦ (
          failed (
              format (
                message (codes "failed to write ")
                ∷ message which
                ∷ message (codes " profile: ")
                ∷ cause e
                ∷ [])),
          s,
        )
        | none ↦ elim b.close [ some e ↦ (failed e, s) | none ↦ (done, s) ]
      ]

  abbrev pub nothing : Pages Err Prof
  nothing = record { out = []; closed = []; profiles = [] }

  -- Marshal for p.addr: what Dial and getProfile return.
  unfoldable pub marshal_one :
      Profiler → Option Err → Result Err (Buffer Err Prof) → Outcome Err × Pages Err Prof
  unfolding copy_one
  marshal_one p (some e) reply =
      (failed (format (message (codes "failed to dial machine: ") ∷ cause e ∷ [])), nothing)
  marshal_one p none (err e) = (
    failed (
        format (
          message (codes "failed to collect ")
          ∷ message p.which
          ∷ message (codes " profile: ")
          ∷ cause e
          ∷ [])),
    nothing,
  )
  marshal_one p none (ok b) = copy_one p.which p.addr b

  -- The status of ServeHTTP's reply when Marshal fails; `none` leaves it to the writer.
  unfoldable pub status_code : Outcome Err → Option ℕ
  status_code done = none
  status_code no_profiles = some 404
  status_code (failed e) = some 500

  -- A stream that getProfile gives is closed once, whatever its copy and its close return, and what is
  -- written is what the copy gives of it.
  pub marshal_one-closed :
      (p : Profiler) (b : Buffer Err Prof)
      → ((marshal_one p none (ok b)).1.closed ≡ p.addr ∷ [])
        × ((marshal_one p none (ok b)).1.out ≡ b.copy.0)
  unfolding marshal_one copy_one
  marshal_one-closed p b = (ground arith, ground arith)
