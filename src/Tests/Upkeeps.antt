-- ===== src/Tests/Upkeeps.antt =====
-- Upkeeps: the theorems of keepalives, retries with deadlines, and tees at concrete inputs.
use bigmachine.Prelude.{
  ℕ, ◌+◌, ◌*◌, ◌≤◌, ◌<◌, ◌≡◌, refl, true, Option, none, some, List, [], ◌∷◌, ◌++◌, codes, get_or,
  if◌then◌else◌, leb, Bool, arith,
}
use mathlib.Core.List.{Sublistᴰ}
use bigmachine.Machine.Retry.{Result, ok, err}
use bigmachine.Machine.{Machine}
use bigmachine.Machine.Timeouts.{Timed, Honours, FailsLate, retry_call_at, retry_call_at-total}
use bigmachine.Machine.Loop.{going, keepalive_loop}
use bigmachine.Supervisor.Watchdog.{Wake, tick, second, start_watchdog, wake}
use bigmachine.Supervisor.Keepalive.{keepalive, until}
use bigmachine.Supervisor.Upkeep.{
  Exchange, watch, beats, InOrder, exchange, next_start, pause, watch-beats,
}
use bigmachine.Streams.Tee.Writers.{
  Step, tee, canceled, written, received, copy_ended, new_entry, run, forwarded, total,
}
use bigmachine.Streams.Tee.Keeping.{run-total}
use bigmachine.Streams.Tee.Forwarding.{run-Sublist}
use bigmachine.Tests.Samples.{SampleErr, sentinel, sample_errors, new_machine}

abbrev wake_at : ℕ → Wake SampleErr
wake_at now = record {
  source = tick;
  now = now;
  profile_now = now;
  profiled = now;
  memory = ok 40000;
}

abbrev answered : List (Wake SampleErr) → Exchange SampleErr
answered ticks = record {
  there = 5;
  taking = 1;
  replying = 1;
  back = 1;
  dumping = 2;
  round = wake_at 0;
  fresh = true;
  ticks = ticks;
}

abbrev two_answered : List (Exchange SampleErr)
two_answered = answered (wake_at (30 * second) ∷ []) ∷ answered [] ∷ []

two_answered-InOrder : InOrder (60 * second) two_answered 0 (start_watchdog 0)
unfolding InOrder exchange next_start keepalive until pause wake start_watchdog
two_answered-InOrder = (((omega arith, refl), tt), (tt, tt))

watch-beats_example :
    ((watch (60 * second) two_answered 0 (start_watchdog 0)).exits ≡ [])
    × ((m' : Machine SampleErr) × (keepalive_loop sample_errors
            (beats (60 * second) two_answered 0 (start_watchdog 0))
            new_machine
          ≡ going m')
        × (m'.state ≡ new_machine.state)
        × (m'.num_keepalive ≡ 0 + 2))
unfolding start_watchdog
watch-beats_example =
    watch-beats sample_errors (60 * second) two_answered 0 (start_watchdog 0) new_machine
      ((omega arith, omega arith, omega arith), ((omega arith, omega arith, omega arith), tt))
      two_answered-InOrder

-- A client whose calls fail at the deadline of their context.
abbrev until_deadline : Option ℕ → ℕ → ℕ
until_deadline none now = now
until_deadline (some d) now = if leb now d then d else now

abbrev failing_call : ℕ → Timed (Result SampleErr ℕ)
failing_call n ctx now = (err (sentinel n), until_deadline ctx now)

-- A policy that waits for 3 if the deadline allows that, and gives up at once if not.
abbrev wait_for : Option ℕ → ℕ → Bool
wait_for none now = true
wait_for (some d) now = leb (now + 3) d

abbrev waits : ℕ → Timed (Option SampleErr)
waits n ctx now = if wait_for ctx now then (none, now + 3) else (some (sentinel 9), now)

calls_honour : (j : ℕ) → Honours (failing_call j)
calls_honour j none now h = tt
calls_honour j (some d) now h = ground arith

waits_honour : (j : ℕ) → Honours (waits j)
waits_honour j none now h = tt
waits_honour j (some d) now h = ground arith

waits-FailsLate : (j : ℕ) → FailsLate (waits j)
waits-FailsLate j d now h = (ground arith, (sentinel 9, ground arith))

calls-forward : (j : ℕ) (ctx : Option ℕ) (now : ℕ) → now ≤ (failing_call j ctx now).1
calls-forward j none now = omega arith
calls-forward j (some d) now = ground arith

waits-slow :
    (j : ℕ) (ctx : Option ℕ) (now : ℕ) → (waits j ctx now).0 ≡ none → now < (waits j ctx now).1
waits-slow j none now h = omega arith
waits-slow j (some d) now h = ground (arith, h)

retry_call_at-total_example :
    (r : Result SampleErr ℕ) × (t : ℕ) × (retry_call_at sample_errors 21 20 7
        (codes "S.M")
        failing_call
        waits
        (some 100)
        50
      ≡ some (r, t))
    × (t ≤ 50 + 20 + 7)
    × (t ≤ 100)
retry_call_at-total_example =
    retry_call_at-total sample_errors (codes "S.M") 7 (some 100) failing_call waits calls_honour
      waits_honour waits-FailsLate calls-forward waits-slow 21 20 50 (omega arith) (omega arith)

abbrev before : List Step
before = tee ∷ written (codes "ab") ∷ []

-- The second target is given what is written before it falls behind, and fails after a byte.
abbrev after : List Step
after =
    written (codes "cd")
    ∷ received 1
    ∷ written (codes "efghij")
    ∷ copy_ended 1 none
    ∷ received 1
    ∷ copy_ended 1 (some 1)
    ∷ written (codes "k")
    ∷ canceled 1
    ∷ written (codes "l")
    ∷ []

run-Sublist_example :
    Sublistᴰ
      (get_or (run 4 (before ++ tee ∷ after) []) 1 new_entry).target.copied
      (codes "cdefghijk")
unfolding run forwarded
run-Sublist_example = run-Sublist 4 before after

-- The second target keeps up, while the first is canceled.
abbrev keeping : List Step
keeping =
    written (codes "cd")
    ∷ received 1
    ∷ canceled 0
    ∷ written (codes "ef")
    ∷ copy_ended 1 none
    ∷ written (codes "g")
    ∷ []

run-total_example : total (get_or (run 5 (before ++ tee ∷ keeping) []) 1 new_entry) ≡ codes "cdefg"
unfolding run forwarded
run-total_example =
    run-total 5 before keeping (tt, (tt, (λ e. absurd (ground (arith, e)), (tt, (tt, (tt, tt))))))
      (omega arith)
