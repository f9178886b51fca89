-- ===== src/Tests/Machines.antt =====
-- Machines: the theorems of Machine at concrete inputs, and runs of its functions.
use bigmachine.Prelude.{
  ℕ, ◌<◌, ◌≡◌, refl, true, false, Option, none, some, List, [], ◌∷◌, Text, codes, contains, arith,
  All,
}
use bigmachine.Errors.{net}
use bigmachine.Machine.States.{running, stopped}
use bigmachine.Machine.{Machine, wait, context, set_state}
use bigmachine.Machine.Waiting.{
  Op, setting_state, setting_error, waiting, deriving_context, apply, interfere, reaches,
  wait-closed,
}
use bigmachine.Machine.Contexts.{canceled_by, context-canceled}
use bigmachine.Machine.Invariant.{interfere-IsValid}
use bigmachine.Machine.Valid.{IsValid}
use bigmachine.Machine.Latencies.{Sample}
use bigmachine.Machine.Retry.{Result, ok, err, retry_call, Retriable, retry_call-ok_iff}
use bigmachine.Machine.Calls.{Turn, Returned, call, call_running}
use bigmachine.Machine.Loop.{Startup, bring_up, attempt, check, loop}
use bigmachine.Machine.Loop.Outcome.{Failed, loop-Failed}
use bigmachine.Machine.Loop.Ready.{ExecDone, loop-going}
use bigmachine.Tests.Samples.{SampleErr, sentinel, made, sample_errors, new_machine}

abbrev Err : Type 0
Err = SampleErr

new_machine-IsValid : IsValid new_machine
new_machine-IsValid = record {
  ahead = tt;
  distinct = tt;
  open_waiters = tt;
  chans_below = tt;
  closed_below = tt;
  cancelers_below = tt;
  canceled_below = tt;
  stopped_clear = λ e. cc;
}

abbrev busy : List (Op Err)
busy = waiting stopped ∷ setting_state running ∷ deriving_context ∷ setting_error (sentinel 9) ∷ []

wait-closed_example :
    contains (interfere busy (wait running new_machine).1).closed (wait running new_machine).0
    ≡ true
unfolding reaches
wait-closed_example = wait-closed running new_machine busy tt tt

context-canceled_example :
    contains (interfere busy (context new_machine).1).canceled (context new_machine).0 ≡ true
unfolding canceled_by
context-canceled_example = context-canceled new_machine busy tt tt

interfere-IsValid_example : IsValid (interfere busy new_machine)
interfere-IsValid_example = interfere-IsValid busy new_machine new_machine-IsValid

abbrev history : List Sample
history =
    record { elapsed = 5; now = 30; next = 60 }
    ∷ record { elapsed = 4; now = 20; next = 60 }
    ∷ record { elapsed = 3; now = 10; next = 60 }
    ∷ []

-- Two attempts fail, the third succeeds; the policy gives up after the fifth.
abbrev third_time : ℕ → Result Err ℕ
third_time ℕ.zero = err (sentinel 5)
third_time (ℕ.suc ℕ.zero) = err (sentinel 6)
third_time _ = ok 42

abbrev five_waits : ℕ → Option Err
five_waits (ℕ.suc (ℕ.suc (ℕ.suc (ℕ.suc n)))) = some (sentinel 1)
five_waits _ = none

abbrev ping_method : Text
ping_method = codes "Supervisor.Ping"

third_time-Retriable : (j : ℕ) → j < 2 → Retriable sample_errors third_time five_waits j
third_time-Retriable ℕ.zero h = (sentinel 5, refl, refl, refl)
third_time-Retriable (ℕ.suc ℕ.zero) h = (sentinel 6, refl, refl, refl)
third_time-Retriable (ℕ.suc (ℕ.suc j)) h = absurd (omega arith)

retry_call-ok_iff_example :
    retry_call sample_errors 3 0 ping_method third_time five_waits ≡ some (ok 42)
retry_call-ok_iff_example =
    (retry_call-ok_iff sample_errors ping_method third_time five_waits 3 42).1
      (2, omega arith, refl, third_time-Retriable)

-- The machine comes up while Call waits; then it fails while the RPC is under way.
abbrev waits : Turn Err
waits = record {
  before = [];
  between = [];
  during = [];
  outcome = none;
  ctx_err = none;
  caller_first = false;
  settling = [];
  asleep = deriving_context ∷ setting_state running ∷ [];
  done = none;
}

abbrev fails_midway : Turn Err
fails_midway = record waits {
  during = setting_error (sentinel 8) ∷ [];
  outcome = some (sentinel 0);
}

abbrev succeeds : Turn Err
succeeds = waits

abbrev running_machine : Machine Err
running_machine = record new_machine { state = running }

abbrev woken : Machine Err
woken = interfere waits.asleep (wait running new_machine).1

abbrev answer : Returned Err
answer = call_running sample_errors succeeds woken

call_answers : call sample_errors (waits ∷ succeeds ∷ []) new_machine ≡ some answer
unfolding call interfere apply contains
call_answers = refl

abbrev startup : Startup Err
startup = record {
  first_ping = ([], none);
  exec = ([], none);
  ping = ([], none);
  register = λ name. ([], none);
  others = setting_error (sentinel 7) ∷ [];
  beats = [];
}

abbrev unregistered : Startup Err
unregistered = record startup { register = λ name. ([], some (sentinel 6)) }

loop-Failed_example : Failed sample_errors (loop sample_errors unregistered new_machine)
loop-Failed_example = loop-Failed sample_errors unregistered new_machine

abbrev owned_machine : Machine Err
owned_machine = record new_machine { owner = true; services = (codes "S", 1) ∷ [] }

-- The exec fails with an error of the network, as it does when the binary starts.
abbrev execs : Startup Err
execs = record startup { exec = ([], some (made (some net) true)) }

loop-going_example :
    (execs.ping.1 ≡ none)
    × (owned_machine.owner ≡ true → All (λ p. (execs.register p.0).1 ≡ none) owned_machine.services)
    × (owned_machine.owner ≡ true
        → owned_machine.no_exec ≡ false
        → (execs.first_ping.1 ≡ none) × ExecDone sample_errors execs.exec.1)
unfolding loop bring_up attempt check set_state interfere
loop-going_example = loop-going sample_errors execs owned_machine tt
