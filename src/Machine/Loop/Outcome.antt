-- ===== src/Machine/Loop/Outcome.antt =====
-- machine.go: where Machine.loop can leave a machine.
use bigmachine.Prelude.{ℕ, ◌≡◌, refl, Option, none, some, List, [], ◌∷◌, Text, if_intro}
use bigmachine.Errors.{Errors}
use bigmachine.Machine.States.{starting, running, stopped}
use bigmachine.Machine.{Machine, set_state, set_error, record_keepalive}
use bigmachine.Machine.Waiting.{interfere}
use bigmachine.Machine.Loop.{
  Beat, failed, replied, Startup, Flow, returned, going, ◌>>=◌, check, attempt, Attempt, dumping,
  unexpected, alive, bring_up, up, register_err, after_ping, register_all, ping_loop,
  keepalive_loop, run_owner, loop,
}

module _ (E : Errors) where
  open E use {Err, make, format}

  -- A loop that has returned left the machine stopped, with an error.
  abbrev pub Failed : Flow Err → Type 0
  Failed (returned m) = (m.state ≡ stopped) × ((e : Err) × (m.error ≡ some e))
  Failed (going m) = Unit {0}

  set_error-Failed : (e : Err) (m : Machine Err) → Failed (returned (set_error e m))
  unfolding set_error
  set_error-Failed e m = (refl, (e, refl))

  check-Failed : (o : Option Err) (m : Machine Err) → Failed (check E o m)
  unfolding check
  check-Failed none m = tt
  check-Failed (some e) m = set_error-Failed e m

  attempt-Failed : (o : Attempt Err) (m : Machine Err) → Failed (attempt E o m)
  unfolding attempt
  attempt-Failed (ops, e) m = check-Failed e (interfere ops m)

  >>=-Failed :
      (x : Flow Err) (f : Machine Err → Flow Err)
      → Failed x
      → ((m : Machine Err) → Failed (f m))
      → Failed (x >>= f)
  >>=-Failed (returned m) f h k = h
  >>=-Failed (going m) f h k = k m

  bring_up-Failed : (s : Startup Err) (m : Machine Err) → Failed (bring_up E s m)
  unfolding bring_up
  bring_up-Failed s m = if_intro Failed m.no_exec _ _ tt (
      >>=-Failed (attempt E s.first_ping m) (λ m'. attempt E (s.exec.0, unexpected E s.exec.1) m')
        (attempt-Failed s.first_ping m) (λ m'. attempt-Failed (s.exec.0, unexpected E s.exec.1) m'))

  register_all-Failed :
      (r : Text → Attempt Err) (svcs : List (Text × ℕ)) (m : Machine Err)
      → Failed (register_all E r svcs m)
  unfolding register_all
  register_all-Failed r [] m = tt
  register_all-Failed r ((name, iface) ∷ svcs) m =
      let o : Attempt Err = ((r name).0, register_err E name (r name).1) in
      >>=-Failed (attempt E o m) (register_all E r svcs) (attempt-Failed o m)
        (register_all-Failed r svcs)

  ping_loop-Failed : (bs : List (Beat Err)) (m : Machine Err) → Failed (ping_loop E bs m)
  unfolding ping_loop
  ping_loop-Failed [] m = tt
  ping_loop-Failed (failed ops e ∷ bs) m = set_error-Failed _ (interfere ops m)
  ping_loop-Failed (replied ops _ _ _ _ later _ ∷ bs) m =
      ping_loop-Failed bs (interfere later (interfere ops m))

  keepalive_loop-Failed : (bs : List (Beat Err)) (m : Machine Err) → Failed (keepalive_loop E bs m)
  unfolding keepalive_loop
  keepalive_loop-Failed [] m = tt
  keepalive_loop-Failed (failed ops e ∷ bs) m = set_error-Failed _ (interfere ops m)
  keepalive_loop-Failed (replied ops elapsed now next dumps later ended ∷ bs) m =
      let m' =
        interfere later
          (dumping E dumps (record_keepalive elapsed now next (alive E (interfere ops m)))) in
      >>=-Failed (check E ended m') (keepalive_loop E bs) (check-Failed ended m')
        (keepalive_loop-Failed bs)

  run_owner-Failed : (s : Startup Err) (m : Machine Err) → Failed (run_owner E s m)
  unfolding run_owner
  run_owner-Failed s m =
      >>=-Failed (register_all E s.register m.services m)
        (λ m1. keepalive_loop E s.beats (set_state running (interfere s.others m1)))
        (register_all-Failed s.register m.services m)
        (λ m1. keepalive_loop-Failed s.beats (set_state running (interfere s.others m1)))

  after_ping-Failed : (s : Startup Err) (m : Machine Err) → Failed (after_ping E s m)
  unfolding after_ping
  after_ping-Failed s m =
      if_intro Failed m.owner _ _ (run_owner-Failed s m)
        (ping_loop-Failed s.beats (set_state running m))

  -- Wherever the loop returns, it leaves the machine stopped and with an error: the keepalive, the
  -- start-up and the registration of services have no other way out.
  pub loop-Failed : (s : Startup Err) (m : Machine Err) → Failed (loop E s m)
  unfolding loop
  loop-Failed s m =
      let m0 = set_state starting m in
      >>=-Failed (up E s m0 >>= λ m1. attempt E s.ping m1) (after_ping E s)
        (>>=-Failed (up E s m0) (λ m1. attempt E s.ping m1)
          (if_intro Failed m0.owner _ _ (bring_up-Failed s (alive E m0)) tt)
          (λ m1. attempt-Failed s.ping m1))
        (after_ping-Failed s)
