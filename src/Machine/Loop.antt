-- ===== src/Machine/Loop.antt =====
-- machine.go: Machine.loop, which brings a machine up and keeps it alive.
--
-- The results of its remote calls, and what other goroutines do to the machine until each comes, are
-- played by the environment (`Startup`, `Beat`). The goroutine that copies logs does not touch the
-- machine; tryMonitorOOMs does, by setError, and is part of `others` and of the beats. What the dumps of
-- an unhealthy machine write is in Machine/Dumps.
pub mod Outcome
pub mod Ready
use bigmachine.Prelude.{
  ℕ, ◌≡◌, refl, Bool, true, false, not, ◌⊎◌, inl, inr, Option, none, some, List, [], ◌∷◌, Text,
  codes, if◌then◌else◌, arith,
}
use bigmachine.Errors.{Errors, Arg, message, cause, net}
use bigmachine.Machine.States.{State, starting, running, stopped}
use bigmachine.Machine.{Machine, Event, machine_alive, set_state, set_error, record_keepalive}
use bigmachine.Machine.Waiting.{Op, interfere}

-- One round of a keepalive loop: the other goroutines' operations, then the result of retryCall.
pub data Beat (Err : Type 0) : Type 0 where
  -- Ping or Keepalive failed.
  failed : List (Op Err) → Err → Beat Err
  -- A reply; the operations while the dumps of an unhealthy machine are taken, if it is one, and those
  -- of the wait; ctx.Err() if the loop's context is done before the next round.
  replied :
      List (Op Err)
      → (elapsed now next : ℕ) → Option (List (Op Err))
      → List (Op Err)
      → Option Err
      → Beat Err

-- A remote call of the start-up: the other goroutines' operations until it returns, and its error.
abbrev pub Attempt : Type 0 → Type 0
Attempt Err = List (Op Err) × Option Err

pub record Startup (Err : Type 0) : Type 0 where
  -- m.ping before the exec, m.exec, m.ping after it: `none` for nil.
  pub first_ping : Attempt Err
  pub exec : Attempt Err
  pub ping : Attempt Err
  -- retryCall of Supervisor.Register, by the service's name.
  pub register : Text → Attempt Err
  -- What other goroutines do, once the OOM monitor is started, before the switch to Running.
  pub others : List (Op Err)
  pub beats : List (Beat Err)

-- The loop has returned, or goes on.
pub data Flow (Err : Type 0) : Type 0 where
  returned : Machine Err → Flow Err
  going : Machine Err → Flow Err

abbrev pub machine_of : {Err : Type 0} → Flow Err → Machine Err
machine_of (returned m) = m
machine_of (going m) = m

infixl 5 ◌>>=◌
abbrev pub ◌>>=◌ : {Err : Type 0} → Flow Err → (Machine Err → Flow Err) → Flow Err
returned m >>= f = returned m
going m >>= f = f m

module _ (E : Errors) where
  open E use {Err, make, format, is_kind}

  -- `if err := ...; err != nil { m.setError(err); return }`.
  unfoldable pub check : Option Err → Machine Err → Flow Err
  check none m = going m
  check (some e) m = returned (set_error e m)

  -- The check of a remote call.
  unfoldable pub attempt : Attempt Err → Machine Err → Flow Err
  unfolding check
  attempt (ops, e) m = check e (interfere ops m)

  -- m.exec is expected to fail with a network error.
  abbrev pub unexpected : Option Err → Option Err
  unexpected none = none
  unexpected (some e) = if is_kind net e then none else some e

  unfoldable pub alive : Machine Err → Machine Err
  alive m = record m { events = machine_alive m.addr ∷ m.events }

  -- The part of an owner up to the second ping.
  unfoldable pub bring_up : Startup Err → Machine Err → Flow Err
  unfolding attempt
  bring_up s m =
      if m.no_exec
      then going m
      else (attempt s.first_ping m >>= λ m'. attempt (s.exec.0, unexpected s.exec.1) m')

  abbrev pub register_err : Text → Option Err → Option Err
  register_err name none = none
  register_err name (some e) =
      some (make (cause e ∷ message (codes "Supervisor.Register ") ∷ message name ∷ []))

  -- The loop over m.services.
  unfoldable pub register_all : (Text → Attempt Err) → List (Text × ℕ) → Machine Err → Flow Err
  unfolding attempt
  register_all register [] m = going m
  register_all register ((name, iface) ∷ svcs) m =
      let (ops, e) = register name in
      attempt (ops, register_err name e) m >>= λ m'. register_all register svcs m'

  -- `for { ... }` of a machine that is not owned.
  unfoldable pub ping_loop : List (Beat Err) → Machine Err → Flow Err
  ping_loop [] m = going m
  ping_loop (failed ops e ∷ bs) m =
      returned (set_error (format (message (codes "ping failed") ∷ cause e ∷ [])) (interfere ops m))
  ping_loop (replied ops _ _ _ _ later _ ∷ bs) m = ping_loop bs (interfere later (interfere ops m))

  -- While the dumps of an unhealthy machine are taken.
  abbrev pub dumping : Option (List (Op Err)) → Machine Err → Machine Err
  dumping none m = m
  dumping (some ops) m = interfere ops m

  -- `for { ... }` of an owner.
  unfoldable pub keepalive_loop : List (Beat Err) → Machine Err → Flow Err
  unfolding alive check
  keepalive_loop [] m = going m
  keepalive_loop (failed ops e ∷ bs) m =
      returned
        (set_error (format (message (codes "keepalive failed") ∷ cause e ∷ [])) (interfere ops m))
  keepalive_loop (replied ops elapsed now next dumps later ended ∷ bs) m =
      let m' = record_keepalive elapsed now next (alive (interfere ops m)) in
      check ended (interfere later (dumping dumps m')) >>= λ m''. keepalive_loop bs m''

  unfoldable pub run_owner : Startup Err → Machine Err → Flow Err
  unfolding register_all keepalive_loop
  run_owner s m = do
    m1 ← register_all s.register m.services m
    keepalive_loop s.beats (set_state running (interfere s.others m1))

  -- What precedes the second ping: an owner waits for the machine and execs the binary on it.
  abbrev pub up : Startup Err → Machine Err → Flow Err
  up s m = if m.owner then bring_up s (alive m) else going m

  -- What follows it.
  unfoldable pub after_ping : Startup Err → Machine Err → Flow Err
  unfolding run_owner ping_loop
  after_ping s m = if m.owner then run_owner s m else ping_loop s.beats (set_state running m)

  unfoldable pub loop : Startup Err → Machine Err → Flow Err
  unfolding bring_up after_ping attempt
  loop s m = up s (set_state starting m) >>= (λ m1. attempt s.ping m1) >>= after_ping s
