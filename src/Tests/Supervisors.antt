-- ===== src/Tests/Supervisors.antt =====
-- Supervisors: the theorems of Supervisor and Machine.Exec at concrete inputs.
use bigmachine.Prelude.{ℕ, ◌≡◌, refl, none, some, List, [], ◌∷◌, Text, codes}
use bigmachine.Machine.Retry.{ok}
use bigmachine.Supervisor.{Upload, image, exec, start_supervisor}
use bigmachine.Supervisor.Uploads.{
  Call, setargs, setenv, setbinary, serve_all, latest, exec-serve_all,
}
use bigmachine.Supervisor.Watchdog.{
  Wake, tick, received, start_watchdog, watchdog, wake, profile, watchdog-exits,
}
use bigmachine.Machine.Exec
use bigmachine.Machine.Exec.{Self, floor, upload_timeout}
use bigmachine.Machine.Exec.Upload.{Process, served, exec-served}
use bigmachine.Tests.Samples.{SampleErr, sentinel, sample_errors}

abbrev stored : Text → Upload SampleErr
stored path = record { temp_file = ok path; copy = none; close = none; chmod = none }

abbrev broken : Upload SampleErr
broken = record {
  temp_file = ok (codes "/tmp/c");
  copy = some (sentinel 3);
  close = none;
  chmod = none;
}

abbrev calls : List (Call SampleErr)
calls =
    setbinary (stored (codes "/tmp/a"))
    ∷ setargs (codes "a" ∷ [])
    ∷ setbinary broken
    ∷ setenv (codes "K=V" ∷ [])
    ∷ []

exec-serve_all_example :
    exec sample_errors (codes "HOME=/" ∷ []) (serve_all calls (start_supervisor []))
    ≡ image (codes "/tmp/a") (codes "a" ∷ []) (codes "HOME=/" ∷ codes "K=V" ∷ [])
unfolding latest start_supervisor
exec-serve_all_example =
    exec-serve_all sample_errors (codes "HOME=/" ∷ []) calls (start_supervisor [])

abbrev wake_at : ℕ → Wake SampleErr
wake_at now = record {
  source = tick;
  now = now;
  profile_now = now;
  profiled = now;
  memory = ok 97000;
}

abbrev keepalive_at : ℕ → ℕ → Wake SampleErr
keepalive_at now t = record (wake_at now) { source = received t }

watchdog-exits_example :
    (watchdog (keepalive_at 7 9 ∷ wake_at 10 ∷ []) (start_watchdog 0)).exits ≡ 1 ∷ []
unfolding latest start_watchdog watchdog wake profile
watchdog-exits_example =
    watchdog-exits (keepalive_at 7 9 ∷ []) (wake_at 10) (start_watchdog 0) (refl, tt) refl

abbrev self : Self SampleErr
self = record { stat = λ goos goarch. some 1000; open_image = λ goos goarch. ok (codes "/tmp/b") }

abbrev process : Process SampleErr
process = record { supervisor = start_supervisor []; running = none }

abbrev linux : Text × Text
linux = (codes "linux", codes "amd64")

exec-served_example :
    let done =
      Exec.exec sample_errors
        (served sample_errors linux [] (some (sentinel 1)) stored (sentinel 2))
        (ok self)
        (codes "K=V" ∷ [])
        (codes "a" ∷ [])
        process in
    (done.0 ≡ some (sentinel 2))
    × (done.1.running ≡ some (image (codes "/tmp/b") (codes "a" ∷ []) (codes "K=V" ∷ [])))
unfolding start_supervisor
exec-served_example =
    exec-served sample_errors linux [] (some (sentinel 1)) stored (sentinel 2) self
      (codes "K=V" ∷ []) (codes "a" ∷ []) process 1000 (codes "/tmp/b") (codes "/tmp/b") refl refl
      refl refl
