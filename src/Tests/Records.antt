-- ===== src/Tests/Records.antt =====
-- The theorems on statistics, logs, profiles and the shutdown at concrete inputs.
use bigmachine.Prelude.{
  ℕ, ◌≡◌, true, false, none, some, List, [], ◌∷◌, Text, codes, lookup, refl, ◌++◌, ◌≤◌, length, ap,
  arith,
}
use bigmachine.Machine.Retry.{Result, ok, err}
use bigmachine.Rpc.Stats.{Event, started, finished, Done, record_events, end}
use bigmachine.Rpc.Stats.Refinement.{end-Shows, record_events-Shows}
use bigmachine.Rpc.Stats.Tables.{Shows, table_events}
use bigmachine.Cluster.Profiler.{Profiler, Source, collect, marshal_all}
use bigmachine.Cluster.Profiler.Closing.{AllClosed, marshal_all-AllClosed}
use bigmachine.Cluster.Shutdown.{Member}
use bigmachine.Cluster.{B}
use bigmachine.Cluster.Refinement.{
  Call, dials, starts, reaps, perform_all, table_calls, perform_all-Shows, World, Known, ShowsAll,
}
use bigmachine.Cluster.Refinement
use bigmachine.Errors.{oom}
use bigmachine.Machine.States.{stopped}
use bigmachine.Machine.Waiting.{Op}
use bigmachine.Machine.Ooms.{decimal, decimal_of, monitor_ooms}
use bigmachine.Machine.Ooms.Killed.{Holds, others, monitor_ooms-killed, monitor_ooms-others}
use bigmachine.Tests.Samples.{SampleErr, sentinel, sample_errors, sample-Laws, new_machine}

abbrev call_done : Done
call_done = record {
  addr = codes "a";
  method = codes "S.M";
  elapsed = 30;
  request_bytes = some 8;
  reply_bytes = none;
  did_fail = true;
}

abbrev events : List Event
events = started (codes "a") (codes "S.M") ∷ finished call_done ∷ []

record_events-Shows_example : Shows (record_events events end) (table_events events (λ m n. 0))
record_events-Shows_example = record_events-Shows events end (λ m n. 0) end-Shows

abbrev killed_line : Text
killed_line = codes "Out of memory: Kill process 12 (a)"

abbrev quiet : List (List (Op SampleErr) × Text)
quiet = ([], codes "usb 1-1") ∷ []

-- The line is one that holds the words.
killed_line-Holds : Holds (codes "Out of memory: Kill process " ++ decimal 12) killed_line
unfolding decimal decimal_of
killed_line-Holds = record { before = []; after = codes " (a)"; split = refl }

monitor_ooms-killed_example :
    let last =
      monitor_ooms sample_errors (ok 12) (ok (quiet ++ ([], killed_line) ∷ [])) new_machine in
    (last.state ≡ stopped)
    × ((e : SampleErr) × (last.error ≡ some e) × (sample_errors.is_kind oom e ≡ true))
monitor_ooms-killed_example =
    monitor_ooms-killed sample_errors sample-Laws 12 quiet [] killed_line new_machine
      killed_line-Holds

-- The other line is too short for them.
quiet_lem : Holds (codes "Out of memory: Kill process " ++ decimal 12) (codes "usb 1-1") → ⊥
quiet_lem h = ground (arith, too_long h.before h.after, ap length h.split)
  where
    too_long :
        (before after : Text)
        → 8 ≤ length (before ++ ((codes "Out of memory: Kill process " ++ decimal 12) ++ after))
    too_long [] after = omega arith
    too_long (c ∷ before) after = omega (arith, too_long before after)

monitor_ooms-others_example :
    monitor_ooms sample_errors (ok 12) (ok quiet) new_machine
    ≡ others sample_errors quiet new_machine
monitor_ooms-others_example = monitor_ooms-others sample_errors 12 quiet new_machine (quiet_lem, tt)

abbrev heap : Profiler
heap = record { which = codes "heap"; addr = []; sec = 0; debug = 0; gc = false }

abbrev fetched : Text → Result SampleErr ℕ → Source SampleErr ℕ
fetched a p = record {
  addr = a;
  running = true;
  reply = ok (ok (record { copy = (codes "x", none); parsed = p; close = none }));
}

abbrev sources : List (Source SampleErr ℕ)
sources =
    fetched (codes "b") (ok 3)
    ∷ fetched (codes "a") (err (sentinel 4))
    ∷ fetched (codes "c") (ok 1)
    ∷ []

marshal_all-AllClosed_example :
    AllClosed
      (collect sources [])
      (marshal_all sample_errors ℕ (λ ps. ok 1) (λ p. (codes "y", none)) heap [] sources)
marshal_all-AllClosed_example =
    marshal_all-AllClosed sample_errors ℕ (λ ps. ok 1) (λ p. (codes "y", none)) heap [] sources

abbrev members : List Member
members =
    record { addr = codes "a"; tail_done = some (some 5) }
    ∷ record { addr = codes "b"; tail_done = none }
    ∷ []

abbrev no_machines : B SampleErr
no_machines = record { name = []; machines = []; driver = true; running = true }

abbrev calls : List (Call SampleErr)
calls =
    dials (codes "a")
    ∷ starts [] (ok (new_machine ∷ []))
    ∷ reaps (codes "a")
    ∷ dials (codes "b")
    ∷ []

abbrev no_dials : World SampleErr
no_dials = record { b = no_machines; waiting = [] }

abbrev no_known : Known
no_known = record { table = λ x. none; waiting = λ x. 0 }

perform_all-Shows_example :
    ShowsAll (perform_all sample_errors calls no_dials) (table_calls calls no_known)
unfolding lookup Refinement.count
perform_all-Shows_example =
    perform_all-Shows sample_errors calls no_dials no_known
      (record { shows = λ x. refl; counts = λ x. refl })
