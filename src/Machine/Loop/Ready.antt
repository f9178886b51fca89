-- ===== src/Machine/Loop/Ready.antt =====
-- machine.go: when a machine becomes ready, and what happens to a failure that comes earlier.
use bigmachine.Prelude.{
  ℕ, ◌<◌, ◌≡◌, refl, ap, ◌∙◌, true, false, Option, none, some, List, [], ◌∷◌, ◌++◌, Text, codes,
  if◌then◌else◌, arith, All, if_elim,
}
use bigmachine.Errors.{Errors, message, cause, net}
use mathlib.Core.Path.{subst}
use bigmachine.Machine.States.{starting, running, stopped, rank}
use bigmachine.Machine.{Machine, set_state, set_error, wait, context, release, record_keepalive}
use bigmachine.Machine.Waiting.{
  Op, setting_state, setting_error, waiting, deriving_context, releasing, recording, apply,
  interfere,
}
use bigmachine.Machine.Loop.{
  Beat, failed, Startup, Attempt, Flow, returned, going, machine_of, ◌>>=◌, check, attempt,
  unexpected, alive, bring_up, up, register_err, after_ping, register_all, ping_loop,
  keepalive_loop, run_owner, loop,
}

module _ (E : Errors) where
  open E use {Err, format, is_kind}

  -- A flow that goes on.
  abbrev pub IsGoing : Flow Err → Type 0
  IsGoing (returned m) = ⊥
  IsGoing (going m) = Unit {0}

  -- The exec returned, or failed with an error of the network.
  abbrev pub ExecDone : Option Err → Type 0
  ExecDone none = Unit {0}
  ExecDone (some e) = is_kind net e ≡ true

  check-none : (o : Option Err) (m : Machine Err) → IsGoing (check E o m) → o ≡ none
  unfolding check
  check-none none m h = refl
  check-none (some e) m h = absurd h

  attempt-none : (a : Attempt Err) (m : Machine Err) → IsGoing (attempt E a m) → a.1 ≡ none
  unfolding attempt
  attempt-none (ops, e) m h = check-none e (interfere ops m) h

  >>=-IsGoing :
      (x : Flow Err) (f : Machine Err → Flow Err)
      → IsGoing (x >>= f)
      → IsGoing x × ((m : Machine Err) × IsGoing (f m) × (x ≡ going m))
  >>=-IsGoing (returned m) f h = absurd h
  >>=-IsGoing (going m) f h = (tt, (m, h, refl))

  unexpected-ExecDone : (o : Option Err) → unexpected E o ≡ none → ExecDone o
  unexpected-ExecDone none h = tt
  unexpected-ExecDone (some e) h = ground (arith, h)

  register_err-none : (name : Text) (o : Option Err) → register_err E name o ≡ none → o ≡ none
  register_err-none name none h = refl
  register_err-none name (some e) h = absurd (ground (arith, h))

  -- What no operation changes.
  record Same (m m' : Machine Err) : Type 0 where
    pub owner : m'.owner ≡ m.owner
    pub services : m'.services ≡ m.services
    pub no_exec : m'.no_exec ≡ m.no_exec

  Same-trans : (a b c : Machine Err) → Same a b → Same b c → Same a c
  Same-trans a b c p q = record {
    owner = q.owner ∙ p.owner;
    services = q.services ∙ p.services;
    no_exec = q.no_exec ∙ p.no_exec;
  }

  apply-Same : (o : Op Err) (m : Machine Err) → Same m (apply o m)
  unfolding apply set_state set_error wait context release record_keepalive
  apply-Same (setting_state s) m = record {
    owner = ground arith;
    services = ground arith;
    no_exec = ground arith;
  }
  apply-Same (setting_error e) m = record { owner = refl; services = refl; no_exec = refl }
  apply-Same (waiting s) m = record {
    owner = ground arith;
    services = ground arith;
    no_exec = ground arith;
  }
  apply-Same deriving_context m = record {
    owner = ground arith;
    services = ground arith;
    no_exec = ground arith;
  }
  apply-Same (releasing c) m = record { owner = refl; services = refl; no_exec = refl }
  apply-Same (recording a b c) m = record { owner = refl; services = refl; no_exec = refl }

  interfere-Same : (os : List (Op Err)) (m : Machine Err) → Same m (interfere os m)
  unfolding interfere
  interfere-Same [] m = record { owner = refl; services = refl; no_exec = refl }
  interfere-Same (o ∷ os) m =
      Same-trans m (apply o m) (interfere os (apply o m)) (apply-Same o m)
        (interfere-Same os (apply o m))

  -- A flow that goes on from a machine has not changed these.
  abbrev Passed : Machine Err → Flow Err → Type 0
  Passed m x = (m' : Machine Err) → x ≡ going m' → Same m m'

  attempt-Passed : (a : Attempt Err) (m : Machine Err) → Passed m (attempt E a m)
  unfolding attempt check
  attempt-Passed (ops, none) m m' h = subst (Same m) (ap machine_of h) (interfere-Same ops m)
  attempt-Passed (ops, some e) m m' h = absurd (ground (arith, h))

  >>=-Passed :
      (m : Machine Err) (x : Flow Err) (f : Machine Err → Flow Err)
      → Passed m x
      → ((m' : Machine Err) → Passed m' (f m'))
      → Passed m (x >>= f)
  >>=-Passed m (returned x) f p q m' h = absurd (ground (arith, h))
  >>=-Passed m (going x) f p q m' h = Same-trans m x m' (p x refl) (q x m' h)

  alive-Passed : (s : Startup Err) (m : Machine Err) → Passed m (up E s m)
  unfolding bring_up alive
  alive-Passed s m =
      if_elim (Passed m) m.owner (bring_up E s (alive E m)) (going m)
        (λ o.
          if_elim (Passed m) m.no_exec (going (alive E m))
            (attempt E s.first_ping (alive E m) >>= λ m'.
              attempt E (s.exec.0, unexpected E s.exec.1) m')
            (λ n m' h. subst (Same m) (ap machine_of h) (alive-Same m))
            (λ n m' h. Same-trans m (alive E m) m' (alive-Same m) (
              >>=-Passed (alive E m) (attempt E s.first_ping (alive E m))
                (λ m'. attempt E (s.exec.0, unexpected E s.exec.1) m')
                (attempt-Passed s.first_ping (alive E m))
                (attempt-Passed (s.exec.0, unexpected E s.exec.1)) m' h)))
        (λ o m' h.
          subst (Same m) (ap machine_of h)
            (record { owner = refl; services = refl; no_exec = refl }))
    where
      alive-Same : (m : Machine Err) → Same m (alive E m)
      alive-Same m = record { owner = refl; services = refl; no_exec = refl }

  register_all-none :
      (r : Text → Attempt Err) (svcs : List (Text × ℕ)) (m : Machine Err)
      → IsGoing (register_all E r svcs m)
      → All (λ p. (r p.0).1 ≡ none) svcs
  unfolding register_all
  register_all-none r [] m h = tt
  register_all-none r ((name, iface) ∷ svcs) m h =
      let o : Attempt Err = ((r name).0, register_err E name (r name).1) in
      let (first, (m', rest, e)) = >>=-IsGoing (attempt E o m) (register_all E r svcs) h in
      (register_err-none name (r name).1 (attempt-none o m first), register_all-none r svcs m' rest)

  bring_up-none :
      (s : Startup Err) (m : Machine Err)
      → m.no_exec ≡ false
      → IsGoing (bring_up E s m)
      → (s.first_ping.1 ≡ none) × ExecDone s.exec.1
  unfolding bring_up
  bring_up-none s m n h =
      let exec : Attempt Err = (s.exec.0, unexpected E s.exec.1) in
      let (first, (m', rest, e)) =
        >>=-IsGoing (attempt E s.first_ping m) (λ m'. attempt E exec m')
          (subst
            (λ b.
              IsGoing
                (if b then going m else (attempt E s.first_ping m >>= λ m'. attempt E exec m')))
            n h) in
      (attempt-none s.first_ping m first, unexpected-ExecDone s.exec.1 (attempt-none exec m' rest))

  -- A machine comes to its keepalive loop, and stays in it, only if each step of its start-up
  -- succeeded: the ping; for an owned machine the registration of each of its services; and, for one
  -- that takes a binary, the ping before the exec and the exec, which may have failed with an error of
  -- the network.
  pub loop-going :
      (s : Startup Err) (m : Machine Err)
      → IsGoing (loop E s m)
      → (s.ping.1 ≡ none)
        × (m.owner ≡ true → All (λ p. (s.register p.0).1 ≡ none) m.services)
        × (m.owner ≡ true → m.no_exec ≡ false → (s.first_ping.1 ≡ none) × ExecDone s.exec.1)
  unfolding loop after_ping run_owner alive set_state apply
  loop-going s m h =
      let m0 = set_state starting m in
      let started = apply-Same (setting_state starting) m in
      let ping_on : Machine Err → Flow Err = λ m1. attempt E s.ping m1 in
      let (x_going, (m2, after, e2)) = >>=-IsGoing (up E s m0 >>= ping_on) (after_ping E s) h in
      let (up_going, (m1, ping_going, e1)) = >>=-IsGoing (up E s m0) ping_on x_going in
      let same =
        Same-trans m m0 m2 started
          (>>=-Passed m0 (up E s m0) ping_on (alive-Passed s m0) (attempt-Passed s.ping) m2 e2) in
      (
        attempt-none s.ping m1 ping_going,
        λ own.
            let owned : IsGoing (run_owner E s m2) =
              subst
                (λ b.
                  IsGoing
                    (if b then run_owner E s m2 else ping_loop E s.beats (set_state running m2)))
                (same.owner ∙ own) after in
            subst (λ l. All (λ p. (s.register p.0).1 ≡ none) l) same.services
              (register_all-none s.register m2.services m2
                (>>=-IsGoing (register_all E s.register m2.services m2)
                  (λ m3. keepalive_loop E s.beats (set_state running (interfere s.others m3)))
                  owned).0),
        λ own execs. bring_up-none s (alive E m0) (started.no_exec ∙ execs) (
            subst (λ b. IsGoing (if b then bring_up E s (alive E m0) else going m0))
              (started.owner ∙ own) up_going),
      )

  -- If other goroutines stop an owned machine before the switch to Running, the switch lowers its
  -- state again: a state does not only increase.
  pub set_running-lowers :
      (s : Startup Err) (m m1 : Machine Err)
      → s.beats ≡ []
      → register_all E s.register m.services m ≡ going m1
      → (interfere s.others m1).state ≡ stopped
      → ((machine_of (run_owner E s m)).state ≡ running)
        × (rank (machine_of (run_owner E s m)).state < rank (interfere s.others m1).state)
  unfolding run_owner keepalive_loop set_state
  set_running-lowers s m m1 idle done stop =
      let r : (machine_of (run_owner E s m)).state ≡ running = rw (done, idle) refl in
      (r, ground (arith, r, stop))

  interfere_last :
      (os : List (Op Err)) (oom : Err) (m : Machine Err)
      → (interfere (os ++ setting_error oom ∷ []) m).error ≡ some oom
  unfolding interfere apply
  interfere_last [] oom m = refl
  interfere_last (o ∷ os) oom m = interfere_last os oom (apply o m)

  -- A keepalive that fails replaces the machine's error: the error of a stop by another goroutine,
  -- such as the OOM monitor's, which came before it is lost.
  pub keepalive-replaces :
      (ops : List (Op Err)) (oom e : Err) (bs : List (Beat Err)) (m : Machine Err)
      → ((interfere (ops ++ setting_error oom ∷ []) m).error ≡ some oom)
        × ((machine_of (keepalive_loop E (failed (ops ++ setting_error oom ∷ []) e ∷ bs) m)).error
            ≡ some (format (message (codes "keepalive failed") ∷ cause e ∷ [])))
  unfolding keepalive_loop set_error
  keepalive-replaces ops oom e bs m = (interfere_last ops oom m, refl)
