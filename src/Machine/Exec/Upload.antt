-- ===== src/Machine/Exec/Upload.antt =====
-- machine.go and supervisor.go: exec against the supervisor that serves it, and the time that it
-- allows for the upload.
use bigmachine.Prelude.{ℕ, ◌*◌, ◌≤◌, ◌≡◌, Option, none, some, List, ◌++◌, Text, arith, false}
use bigmachine.Errors.{Errors}
use bigmachine.Machine.Retry.{ok}
use bigmachine.Machine.Exec.{Remote, Self, floor, upload_timeout, upload, exec_on, exec}
use bigmachine.Supervisor
use bigmachine.Supervisor.Uploads.{uploaded}
use bigmachine.Supervisor.{
  Supervisor, Upload, Exec, image, refused, set_args, set_environ, set_binary, close_and_chmod,
  is_unset,
}

-- The upload is allowed the least number of seconds in which it is done at the floor bandwidth.
pub upload_timeout-least :
    (size : ℕ)
    → (size ≤ floor * upload_timeout size)
      × ((seconds : ℕ) → size ≤ floor * seconds → upload_timeout size ≤ seconds)
unfolding upload_timeout
upload_timeout-least size = (omega arith, λ seconds h. omega arith)

-- A machine that a driver execs: its supervisor and, once the process is replaced, the image.
pub record Process (Err : Type 0) : Type 0 where
  pub supervisor : Supervisor
  pub running : Option (Exec Err)

module _ (E : Errors) (os_arch : Text × Text) (os_environ : List Text) (late : Option E.Err)
    (store : Text → Upload E.Err) (dropped : E.Err) where
  open E use {Err}

  abbrev replaced : Exec Err → Process Err → Option Err × Process Err
  replaced (refused e) p = (some e, p)
  replaced (image path args environ) p =
      (some dropped, record p { running = some (image path args environ) })

  -- The calls as the supervisor serves them: `late` is what the keepalive returns, `store` how an
  -- upload goes, `dropped` the error of a connection that a process's replacement cuts.
  abbrev pub served : Remote Err (Process Err)
  served = record {
    info = λ p. (ok os_arch, p);
    set_environ = λ env p. (none, record p { supervisor = set_environ env p.supervisor });
    set_args = λ args p. (none, record p { supervisor = set_args args p.supervisor });
    keepalive = λ next p. (late, p);
    set_binary = λ binary p.
        let done = set_binary (store binary) p.supervisor in
        (done.0, record p { supervisor = done.1 });
    exec = λ p. replaced (Supervisor.exec E os_environ p.supervisor) p;
  }

  -- If the driver has an image for the machine and the upload succeeds, exec replaces the machine's
  -- process by the uploaded image, run with the driver's arguments and with the machine's
  -- environment after the default one, whatever its keepalive returned; the driver sees the
  -- connection drop.
  pub exec-served :
      (self : Self Err) (environ args : List Text) (p : Process Err) (size : ℕ) (binary path : Text)
      → self.stat os_arch.0 os_arch.1 ≡ some size
      → self.open_image os_arch.0 os_arch.1 ≡ ok binary
      → uploaded (store binary) ≡ some path
      → is_unset path ≡ false
      → let done = exec E served (ok self) environ args p in
        (done.0 ≡ some dropped) × (done.1.running ≡ some (image path args (os_environ ++ environ)))
  unfolding exec exec_on upload Supervisor.exec set_binary close_and_chmod set_args set_environ
  exec-served self environ args p size binary path hs ho hu hp = ground arith
